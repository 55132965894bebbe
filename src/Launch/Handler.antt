-- ===== src/Launch/Handler.antt =====
-- The HTTP handler of project/scripts/run_node.go, on a node that goes on with its steps meanwhile.
use mathlib.Core.Option.{some-injective}
use lab.Base.{
  ℕ, String, List, [], ◌∷◌, Bool, true, false, not, Option, none, some, ◌≡◌, if◌then◌else◌,
  Option-cases, inl, inr, Bool-cases, refl, lookup, string_eq, ◌≢◌, subst, ap, ◌⊎◌,
}
use lab.Network.Transport.{World}
use lab.Oracle.Types.{RequestState, RequestError, Status, pending, consensus, complete}
use lab.Oracle.Llm.{LlmConfig}
use lab.Oracle.Results.{Services}
use lab.Oracle.Requests.{PromptOutcome, accepted, rejected, crashed, get_request_state}
use lab.Oracle.Machine.{NodeEvent}
use lab.Launch.RunNode.{Launched, launch, launched_run, launched_step, launched_prompt}
use lab.Launch.Silence.{
  IsSilent, launched_run-IsSilent, fresh_launch-IsSilent, launched_step-IsSilent, prompt-IsSilent,
}

-- What the handler sees of a request; none where the body does not decode.
pub record HttpRequest : Type 0 where
  pub is_post : Bool
  pub decoded : Option (String × String)

-- What the client gets; `unsent` stands for nothing yet, `no_reply` for a panic of the handler.
pub data Reply : Type 0 where
  method_not_allowed bad_request : Reply
  server_error : RequestError → Reply
  answer : String → Reply
  answer_error : Option RequestError → Reply
  gateway_timeout unsent no_reply : Reply

-- What may happen while the handler waits.
pub data Moment : Type 0 where
  happens : NodeEvent → Moment
  ticks runs_out gone : Moment

-- What a tick of the handler comes to.
unfoldable pub poll_request : {F : Type 0} → Option (RequestState F) → Option Reply
poll_request none = none
poll_request (some state) = elim state.status [
  | pending ↦ none
  | consensus ↦ none
  | Status.failed ↦ some (answer_error state.error)
  | complete ↦ elim state.consensus_data [
    | none ↦ some no_reply
    | some d ↦ elim d.response [ none ↦ some no_reply | some r ↦ some (answer r.text) ]
  ]
]

module _ {F : Type 0} (sv : Services F) where
  -- The loop of the handler; `none` is a panic of the node.
  unfoldable pub await_reply : String → List Moment → Launched F → Option (Launched F × Reply)
  unfolding poll_request get_request_state launched_step
  await_reply id [] l = some (l, unsent)
  await_reply id (happens e ∷ ms) l = elim (launched_step sv e l) [
    | none ↦ none
    | some m ↦ await_reply id ms m
  ]
  await_reply id (ticks ∷ ms) l = elim (poll_request (get_request_state id l.node)) [
    | none ↦ await_reply id ms l
    | some reply ↦ some (l, reply)
  ]
  await_reply id (runs_out ∷ ms) l = some (l, gateway_timeout)
  await_reply id (gone ∷ ms) l = some (l, gateway_timeout)

  -- The handler of /request.
  unfoldable pub handle_request :
      ℕ → World → HttpRequest → List Moment → Launched F → Option (Launched F × Reply)
  unfolding await_reply launched_prompt
  handle_request now world req ms l =
      if not req.is_post then some (l, method_not_allowed) else elim req.decoded [
        | none ↦ some (l, bad_request)
        | some (id, text) ↦
            let done = launched_prompt sv now world id text l in
            elim done.1 [
              | crashed ↦ none
              | rejected err ↦ some (done.0, server_error err)
              | accepted ↦ await_reply id ms done.0
            ]
      ]

-- A reply without an answer.
abbrev pub IsUnanswered : Reply → Type 0
IsUnanswered (answer text) = ⊥
IsUnanswered no_reply = ⊥
IsUnanswered _ = Unit

abbrev pub ends : List Moment → Bool
ends [] = false
ends (happens e ∷ ms) = ends ms
ends (ticks ∷ ms) = ends ms
ends (runs_out ∷ ms) = true
ends (gone ∷ ms) = true

poll_status :
    {F : Type 0} (s : RequestState F) (reply : Reply) (t : Status)
    → s.status ≡ t
    → t ≢ complete
    → poll_request (some s) ≡ some reply
    → IsUnanswered reply × (reply ≢ unsent)
unfolding poll_request
poll_status s reply pending k h e = cc (rw (k, poll_request) at e)
poll_status s reply consensus k h e = cc (rw (k, poll_request) at e)
poll_status s reply Status.failed k h e =
    subst (λ r. IsUnanswered r × (r ≢ unsent)) (some-injective _ _ (rw (k, poll_request) at e))
      (tt, λ q. cc)
poll_status s reply complete k h e = absurd (h refl)

poll_open :
    {F : Type 0} (state : Option (RequestState F)) (reply : Reply)
    → ((s : RequestState F) → state ≡ some s → s.status ≢ complete)
    → poll_request state ≡ some reply
    → IsUnanswered reply × (reply ≢ unsent)
unfolding poll_request
poll_open none reply h e = cc
poll_open (some s) reply h e = poll_status s reply s.status refl (h s refl) e

-- No answer, and a reply unless the handler has not ended.
abbrev Closes : Bool → Reply → Type 0
Closes ended reply = IsUnanswered reply × ((ended ≡ false) ⊎ (reply ≢ unsent))

module _ {F : Type 0} (sv : Services F) where
  sent :
      {ended : Bool} {l m : Launched F} {r reply : Reply}
      → ◌≡◌ {A = Option (Launched F × Reply)} (some (l, r)) (some (m, reply))
      → Closes ended r
      → Closes ended reply
  sent {ended = ended} e c = subst (Closes ended) (ap (λ x. x.1) (some-injective _ _ e)) c

  await_reply-Closes :
      (id : String) (ms : List Moment) (l m : Launched F) (reply : Reply)
      → IsSilent l
      → await_reply sv id ms l ≡ some (m, reply)
      → Closes (ends ms) reply
  unfolding await_reply get_request_state
  await_reply-Closes id [] l m reply v e = sent e (tt, inl refl)
  await_reply-Closes id (happens x ∷ ms) l m reply v e =
      elim (Option-cases (launched_step sv x l)) [
        | inl q ↦ absurd (cc (rw (q, await_reply) at e))
        | inr (next, q) ↦
            await_reply-Closes id ms next m reply (launched_step-IsSilent sv x l next v q)
              (rw (q, await_reply) at e)
      ]
  await_reply-Closes id (ticks ∷ ms) l m reply v e =
      elim (Option-cases (poll_request (lookup id l.node.requests))) [
        | inl q ↦ await_reply-Closes id ms l m reply v (rw (q, await_reply) at e)
        | inr (r, q) ↦
            let (plain, closed) = poll_open (lookup id l.node.requests) r (v.requests id) q in
            sent (rw (q, await_reply) at e) (plain, inr closed)
      ]
  await_reply-Closes id (runs_out ∷ ms) l m reply v e = sent e (tt, inr (λ q. cc))
  await_reply-Closes id (gone ∷ ms) l m reply v e = sent e (tt, inr (λ q. cc))

  handle_request-Closes :
      (now : ℕ) (world : World) (req : HttpRequest) (ms : List Moment) (l m : Launched F)
      (reply : Reply)
      → IsSilent l
      → handle_request sv now world req ms l ≡ some (m, reply)
      → Closes (ends ms) reply
  unfolding handle_request
  handle_request-Closes now world req ms l m reply v e = elim (Bool-cases req.is_post) [
    | inr q ↦ sent (rw (q, handle_request) at e) (tt, inr (λ r. cc))
    | inl q ↦ elim (Option-cases req.decoded) [
      | inl d ↦ sent (rw (q, d, handle_request) at e) (tt, inr (λ r. cc))
      | inr ((id, text), d) ↦
          by_outcome id text (launched_prompt sv now world id text l).1 refl
            (rw (q, d, handle_request) at e)
    ]
  ]
    where
      by_outcome :
          (id text : String) (o : PromptOutcome)
          → (launched_prompt sv now world id text l).1 ≡ o
          → elim o [
            | crashed ↦ none
            | rejected err ↦ some ((launched_prompt sv now world id text l).0, server_error err)
            | accepted ↦ await_reply sv id ms (launched_prompt sv now world id text l).0
          ]
            ≡ some (m, reply)
          → Closes (ends ms) reply
      by_outcome id text crashed q h = cc
      by_outcome id text (rejected err) q h = sent h (tt, inr (λ r. cc))
      by_outcome id text accepted q h =
          await_reply-Closes id ms (launched_prompt sv now world id text l).0 m reply
            (prompt-IsSilent sv now world id text l v) h

-- The node of run_node.go never answers a prompt: whatever has happened to it before, and whatever happens
-- while its handler waits, the client gets an error, and it gets one at the latest when the time of the
-- handler runs out or the client goes away, unless the node panics.
pub handle_request-IsUnanswered :
    {F : Type 0} (sv : Services F) (address_of : ℕ → String) (port node_id : ℕ)
    (client : Option LlmConfig) (l m n : Launched F) (es : List NodeEvent) (now : ℕ) (world : World)
    (req : HttpRequest) (ms : List Moment) (reply : Reply)
    → launch address_of port node_id client ≡ some l
    → launched_run sv es l ≡ some m
    → handle_request sv now world req ms m ≡ some (n, reply)
    → IsUnanswered reply × ((ends ms ≡ false) ⊎ (reply ≢ unsent))
handle_request-IsUnanswered sv address_of port node_id client l m n es now world req ms reply h k
      e =
    handle_request-Closes sv now world req ms m n reply
      (launched_run-IsSilent sv es l m (fresh_launch-IsSilent address_of port node_id client l h) k)
      e
