-- ===== src/Storage/Retrieval.antt =====
-- What project/oracle/pkg/storage/pinata.go stores can be read back, and each of its calls that needs an
-- account names one.
use mathlib.Core.Option.{some-injective}
use Prim.Native.String.{◌++◌ as append}
use lab.Base.{
  String, List, [], ◌∷◌, true, some, ◌≡◌, ◌≢◌, nat_beq, refl, arith, string_eq, inl, inr, ◌⊎◌,
  beq_cases,
}
use lab.Base.Results.{ok, guard, or_err, bind-eq-ok, or_err-eq-ok, guard-eq-ok}
use lab.Pbft.Types.{Bytes}
use lab.Oracle.Types.{ExecutionRecord}
use lab.Storage.Pinata.{
  PinataClient, new_pinata_client, Gateway, HttpReply, post, get, not_marshalled, no_file,
  not_written, no_field, not_encoded, not_closed, no_request, not_sent, api_error, not_decoded,
  form_of, credentials, pin_url, gateway_url, store_execution_record, get_execution_record,
  Metadata,
}

-- A service that keeps what is pinned: when it answers a form of a file with a hash, it serves the file's
-- bytes under the hash. The bytes of a file are what was written to its form; and json reads back what it
-- wrote.
pub record IsPinning {Form : Type 0} (g : Gateway Form) (file_of : Bytes → Bytes) : Type 0 where
  pub holds :
      (bytes body : Bytes) (f1 f2 f3 f4 : Form) (m : Metadata)
      → g.create_file "execution_record.json" g.new_form ≡ some f1
      → g.write bytes f1 ≡ some f2
      → g.create_field "pinataMetadata" f2 ≡ some f3
      → g.encode_metadata m f3 ≡ some f4
      → g.close f4 ≡ some body
      → file_of body ≡ bytes
  pub serves :
      (headers : List (String × String)) (body : Bytes) (reply : HttpReply) (cid : String)
      → g.send (record { method = post; url = pin_url; headers = headers; body = body })
        ≡ some reply
      → reply.status ≡ 200
      → g.decode_hash reply.body ≡ some cid
      → (g.accepts_url (gateway_url cid) ≡ true)
        × (g.send (record { method = get; url = gateway_url cid; headers = []; body = [] })
            ≡ some (record { status = 200; body = file_of body }))
  pub json :
      (kept : ExecutionRecord) (bytes : Bytes)
      → g.marshal_record kept ≡ some bytes
      → g.decode_record bytes ≡ some kept

-- Where the service keeps what is pinned, a record that was stored is read back under its content
-- identifier.
pub store-get :
    {Form : Type 0} (g : Gateway Form) (file_of : Bytes → Bytes) (p : PinataClient)
    (kept : ExecutionRecord) (cid : String)
    → IsPinning g file_of
    → store_execution_record g p kept ≡ ok cid
    → get_execution_record g cid ≡ ok kept
unfolding store_execution_record get_execution_record form_of
store-get g file_of p kept cid pins h =
    let (f4, h1, form) = bind-eq-ok (form_of g kept) _ h in
    let (bytes, k1, marshalled) =
      bind-eq-ok (or_err (g.marshal_record kept) not_marshalled) _ form in
    let (f1, k2, created) =
      bind-eq-ok (or_err (g.create_file "execution_record.json" g.new_form) no_file) _ k1 in
    let (f2, k3, written) = bind-eq-ok (or_err (g.write bytes f1) not_written) _ k2 in
    let (f3, k4, field) = bind-eq-ok (or_err (g.create_field "pinataMetadata" f2) no_field) _ k3 in
    let (body, h2, closed) = bind-eq-ok (or_err (g.close f4) not_closed) _ h1 in
    let (_, h3, _) = bind-eq-ok (guard (g.accepts_url pin_url) no_request) _ h2 in
    let (reply, h4, sent) = bind-eq-ok (or_err (g.send _) not_sent) _ h3 in
    let (_, h5, fine) =
      bind-eq-ok (guard (nat_beq reply.status 200) (api_error reply.status reply.body)) _ h4 in
    let status = guard-eq-ok (nat_beq reply.status 200) (api_error reply.status reply.body) fine in
    let (url, got) =
      pins.serves _ body reply cid (or_err-eq-ok _ not_sent sent) (ground arith)
        (or_err-eq-ok _ not_decoded h5) in
    let same =
      pins.holds bytes body f1 f2 f3 f4 _ (or_err-eq-ok _ no_file created)
        (or_err-eq-ok _ not_written written) (or_err-eq-ok _ no_field field)
        (or_err-eq-ok _ not_encoded k4) (or_err-eq-ok _ not_closed closed) in
    let back = pins.json kept bytes (or_err-eq-ok _ not_marshalled marshalled) in
    rw (url, got, same, back) refl

-- A client that could be made names an account in its calls: its token, or both its key and its secret,
-- none of them empty.
pub new_pinata_client-credentials :
    (api_key api_secret jwt : String) (p : PinataClient)
    → new_pinata_client api_key api_secret jwt ≡ some p
    → ((p.jwt ≢ "") × (credentials p ≡ ("Authorization", append "Bearer " p.jwt) ∷ []))
      ⊎ ((p.api_key ≢ "")
          × (p.api_secret ≢ "")
          × (credentials p
              ≡ ("pinata_api_key", p.api_key) ∷ ("pinata_secret_api_key", p.api_secret) ∷ []))
unfolding new_pinata_client credentials
new_pinata_client-credentials api_key api_secret jwt p h = elim (beq_cases jwt "") [
  | inr (given, ne) ↦
      let same = some-injective _ _ (rw (given, new_pinata_client) at h) in
      rw⁻¹ same (inl (ne, rw given refl))
  | inl (missing, _) ↦ elim (beq_cases api_key "") [
    | inl (k, _) ↦ absurd (cc (rw (missing, k, new_pinata_client) at h))
    | inr (k, key) ↦ elim (beq_cases api_secret "") [
      | inl (s, _) ↦ absurd (cc (rw (missing, k, s, new_pinata_client) at h))
      | inr (s, secret) ↦
          let same = some-injective _ _ (rw (missing, k, s, new_pinata_client) at h) in
          rw⁻¹ same (inr (key, secret, rw missing refl))
    ]
  ]
]
