-- ===== src/Bridge/Answers.antt =====
-- What the listener of project/scripts/main.go asks and submits for a log.
use lab.Base.Results.{ok, bind-eq-ok, or_err, guard, guard-eq-ok, or_err-eq-ok, Result-cases}
use lab.Base.{
  some, List, String, ◌≡◌, ◌∷◌, ℕ, ◌++◌, ◌⊎◌, inr, [], arith, inl, eq_of_beq, get_elem?, ◌≤◌,
  length, refl, nat_beq, ◌==◌, string_eq, Option-cases, Bool-cases, ltb, sym,
}
use lab.Bridge.Types.{World, LogEntry, HttpReply, OracleResponse}
use lab.Bridge.Listener.{
  Step, asked, submitted, send_to_oracle, submit, process_log, process_logs, not_marshalled,
  no_request, not_sent, bad_status, not_decoded, oracle_error, create_transaction_auth,
  not_submitted,
}

-- One of some steps.
abbrev pub IsStep : Step → List Step → Type 0
IsStep s [] = ⊥
IsStep s (t ∷ ts) = (t ≡ s) ⊎ IsStep s ts

abbrev pub IsEntry : LogEntry → List LogEntry → Type 0
IsEntry l [] = ⊥
IsEntry l (k ∷ ks) = (k ≡ l) ⊎ IsEntry l ks

IsStep-append : (s : Step) (xs ys : List Step) → IsStep s (xs ++ ys) → IsStep s xs ⊎ IsStep s ys
IsStep-append s [] ys h = inr h
IsStep-append s (x ∷ xs) ys h = ground (arith, IsStep-append s xs ys)

-- What the oracle is asked, and what it answers: a reply with status 200 that decodes to no error.
pub record Answered (w : World) (request_id prompt response : String) : Type 0 where
  pub bytes : List ℕ
  pub http_req : List ℕ
  pub reply : HttpReply
  pub resp : OracleResponse
  pub marshalled :
      w.marshal_request (record { request_id = request_id; prompt = prompt }) ≡ some bytes
  pub made : w.new_request bytes ≡ some http_req
  pub posted : w.post http_req ≡ some reply
  pub fine : reply.status ≡ 200
  pub decoded : w.decode_response reply.body ≡ some resp
  pub no_error : resp.error ≡ ""
  pub cid : resp.ipfs_cid ≡ response

send_to_oracle-Answered :
    (w : World) (request_id prompt response : String)
    → send_to_oracle w request_id prompt ≡ ok response
    → Answered w request_id prompt response
unfolding send_to_oracle
send_to_oracle-Answered w request_id prompt response h =
    let (bytes, h1, m) = bind-eq-ok (or_err (w.marshal_request _) not_marshalled) _ h in
    let (http_req, h2, r) = bind-eq-ok (or_err (w.new_request bytes) no_request) _ h1 in
    let (reply, h3, p) = bind-eq-ok (or_err (w.post http_req) not_sent) _ h2 in
    let (_, h4, s) = bind-eq-ok (guard (nat_beq reply.status 200) (bad_status reply.status)) _ h3 in
    let (resp, h5, d) = bind-eq-ok (or_err (w.decode_response reply.body) not_decoded) _ h4 in
    let (_, h6, n) = bind-eq-ok (guard (resp.error == "") (oracle_error resp.error)) _ h5 in
    let status = guard-eq-ok (nat_beq reply.status 200) (bad_status reply.status) s in
    record {
      bytes = bytes;
      http_req = http_req;
      reply = reply;
      resp = resp;
      marshalled = or_err-eq-ok _ not_marshalled m;
      made = or_err-eq-ok _ no_request r;
      posted = or_err-eq-ok _ not_sent p;
      fine = ground arith;
      decoded = or_err-eq-ok _ not_decoded d;
      no_error =
          eq_of_beq resp.error "" (guard-eq-ok (resp.error == "") (oracle_error resp.error) n);
      cid = cc;
    }

-- A submission for a log: the log names the request, and the oracle answered its prompt.
pub record IsAnswer (w : World) (request_id response : String) (entry : LogEntry) : Type 0 where
  pub prompt : String
  pub named : get_elem? entry.topics 1 ≡ some request_id
  pub complete : 3 ≤ length entry.topics
  pub unpacked : w.unpack_prompt entry.payload ≡ some prompt
  pub answered : Answered w request_id prompt response

asked_ne :
    {request_id response name prompt : String}
    → IsStep (submitted request_id response) (asked name prompt ∷ [])
    → ⊥
asked_ne (inl e) = cc
asked_ne (inr h) = absurd h

last_step :
    {request_id response name prompt answer : String} {done : Step}
    → done ≡ submitted name answer
    → IsStep (submitted request_id response) (asked name prompt ∷ done ∷ [])
    → (name ≡ request_id) × (answer ≡ response)
last_step e (inl f) = cc
last_step e (inr (inl f)) = (cc, cc)
last_step e (inr (inr h)) = absurd h

submit-eq-ok :
    (w : World) (key request_id response : String) {done : Step}
    → submit w key request_id response ≡ ok done
    → done ≡ submitted request_id response
unfolding submit
submit-eq-ok w key request_id response h =
    let (auth, h1, _) = bind-eq-ok (create_transaction_auth w key) _ h in
    let (_, h2, _) =
      bind-eq-ok (guard (w.transact auth request_id response response) not_submitted) _ h1 in
    cc

process_log-IsAnswer :
    (w : World) (key request_id response : String) (entry : LogEntry)
    → IsStep (submitted request_id response) (process_log w key entry).0
    → IsAnswer w request_id response entry
unfolding process_log
process_log-IsAnswer w key request_id response entry h =
    elim (Option-cases (get_elem? entry.topics 1)) [
      | inl e ↦ absurd (rw (e, process_log, IsStep) at h)
      | inr (name, e) ↦ elim (Bool-cases (ltb (length entry.topics) 3)) [
        | inl few ↦ absurd (rw (e, few, process_log, IsStep) at h)
        | inr enough ↦ elim (Option-cases (w.unpack_prompt entry.payload)) [
          | inl u ↦ absurd (rw (e, enough, u, process_log, IsStep) at h)
          | inr (prompt, u) ↦ elim (Result-cases (send_to_oracle w name prompt)) [
            | inr (x, a) ↦ absurd (asked_ne (rw (e, enough, u, a, process_log, IsStep) at h))
            | inl (answer, a) ↦ elim (Result-cases (submit w key name answer)) [
              | inr (x, d) ↦ absurd (asked_ne (rw (e, enough, u, a, d, process_log, IsStep) at h))
              | inl (done, d) ↦
                  let sent = submit-eq-ok w key name answer d in
                  let (same, is) =
                    last_step sent (rw (e, enough, u, a, d, process_log, IsStep) at h) in
                  record {
                    prompt = prompt;
                    named = cc;
                    complete = ground arith;
                    unpacked = u;
                    answered =
                        send_to_oracle-Answered w request_id prompt response
                          (rw (sym same, sym is) a);
                  }
            ]
          ]
        ]
      ]
    ]

-- The listener submits only what the oracle has answered: for each submission of a scan there is a log
-- with at least three topics that names the request, whose prompt the oracle was asked, and which it
-- answered with status 200, without an error and with the content identifier that is submitted.
pub process_logs-IsAnswer :
    (w : World) (key request_id response : String) (entries : List LogEntry)
    → IsStep (submitted request_id response) (process_logs w key entries)
    → (entry : LogEntry) × IsEntry entry entries × IsAnswer w request_id response entry
unfolding process_logs
process_logs-IsAnswer w key request_id response [] h = absurd h
process_logs-IsAnswer w key request_id response (entry ∷ entries) h =
    elim (IsStep-append (submitted request_id response) (process_log w key entry).0
      (process_logs w key entries) h) [
        | inl here ↦ (entry, inl refl, process_log-IsAnswer w key request_id response entry here)
        | inr there ↦
            let (found, at_, is) = process_logs-IsAnswer w key request_id response entries there in
            (found, inr at_, is)
      ]
