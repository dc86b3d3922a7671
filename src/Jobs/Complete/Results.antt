-- ===== src/Jobs/Complete/Results.antt =====
-- internal/cluster/store.go: validateWorkerResult.
use context_bridge.Prelude.{
  ℕ, ◌+◌, Bool, true, not, ◌||◌, List, Option, none, some, ltb, ◌==◌, if◌then◌else◌, length,
}
use context_bridge.Text.{Text, codes, text_eq, trim_space}
use context_bridge.Pipeline.Graph.Template.{is_empty}
use context_bridge.Pipeline.Graph.Edges.{is_some}
use context_bridge.Jobs.Records.{Job, Envelope}
use context_bridge.Jobs.Complete.Retry.{Report}

-- Decoders of the standard library: utf8.Valid, json.Valid, json.Unmarshal into an object that is not
-- nil, and base64.RawURLEncoding.
pub record Codecs : Type 0 where
  pub valid_utf8 : List ℕ → Bool
  pub valid_json : List ℕ → Bool
  pub is_object : List ℕ → Bool
  pub decode : Text → Option (List ℕ)

-- MaximumJobResultBytes.
abbrev pub maximum_result_bytes : ℕ
maximum_result_bytes = 25165824

abbrev pub plain_problem : Codecs → Report → Option Text
plain_problem codecs r =
    if is_some r.sealed
    then some (codes "plaintext job returned an encrypted result")
    else if is_empty r.result
        || (ltb maximum_result_bytes (length r.result)
            || (not (codecs.valid_utf8 r.result) || not (codecs.valid_json r.result)))
    then some (codes "plaintext result must be valid JSON up to 25165824 bytes")
    else if not (codecs.is_object r.result)
    then some (codes "plaintext result must be a JSON object")
    else none

abbrev pub bad_nonce : Option (List ℕ) → Bool
bad_nonce none = true
bad_nonce (some bs) = not (length bs == 12)

abbrev pub bad_ciphertext : Option (List ℕ) → Bool
bad_ciphertext none = true
bad_ciphertext (some bs) = ltb (length bs) 16 || ltb (maximum_result_bytes + 16) (length bs)

abbrev pub envelope_problem : Codecs → Envelope → Option Text
envelope_problem codecs e =
    if not (text_eq e.algorithm (codes "X25519-AES-256-GCM")) || not (is_empty e.ephemeral_public)
    then some (codes "encrypted result envelope is invalid")
    else if bad_nonce (codecs.decode e.nonce)
    then some (codes "encrypted result nonce is invalid")
    else if bad_ciphertext (codecs.decode e.ciphertext)
    then some (codes "encrypted result ciphertext must represent at most 25165824 bytes")
    else none

abbrev pub only_sealed : Text
only_sealed = codes "encrypted job must return only an encrypted result"

abbrev pub sealed_problem : Codecs → Report → Option Text
sealed_problem codecs r = elim r.sealed [
  | none ↦ some only_sealed
  | some e ↦ if is_empty r.result then envelope_problem codecs e else some only_sealed
]

-- validateWorkerResult: the text of its error.
unfoldable pub result_problem : Codecs → Job → Report → Option Text
unfolding trim_space text_eq
result_problem codecs j r =
    if not (is_empty (trim_space r.error))
    then (if not (is_empty r.result) || is_some r.sealed
        then some (codes "failed completion must not include a result")
        else none)
    else if is_some j.sealed_payload
    then sealed_problem codecs r
    else plain_problem codecs r
