-- ===== src/Sync/Envelope/Tests.antt =====
-- Envelopes of the samples.
use searxng_wth_frnds.Prelude.{true, none, some, [], ◌∷◌, ◌≡◌, refl}
use searxng_wth_frnds.Prelude.Json.{str, obj, get?, set, has_key}
use searxng_wth_frnds.Sync.Envelope.{
  is_pubkey, is_signature, validate_shape, read, verify_envelope_signature, sign_envelope,
  is_record_id, content_depth, is_sha256, canonicalize,
}
use searxng_wth_frnds.Sync.Envelope.Shape.{IsWellFormed, validate_shape-IsWellFormed}
use searxng_wth_frnds.Sync.Envelope.Signing.{IsKeyPair, verify_envelope_signature-sign_envelope}
use searxng_wth_frnds.Prelude.Checks.{first_raised}
use searxng_wth_frnds.Prelude.Text.{matches_class, is_record_char, matches_prefixed, is_hex}
use searxng_wth_frnds.Sync.Samples.{codec, unsigned, wire, key, signature}
use searxng_wth_frnds.Sync.CohortKeys.{no_keys}
use searxng_wth_frnds.Sync.Store.{node_of}
use searxng_wth_frnds.Sync.Store.History.{steps}
use searxng_wth_frnds.Sync.Store.Genuine.{
  Stores, IsGenuine, delivers, restarts, steps_of, steps-Stores,
}
use searxng_wth_frnds.Sync.Samples.{conn_of}

wire_is_valid : validate_shape codec (obj wire) ≡ none
unfolding validate_shape set first_raised has_key get? is_record_id matches_class is_record_char
    is_pubkey matches_prefixed is_hex content_depth is_sha256 is_signature canonicalize
wire_is_valid = refl

validate_shape-IsWellFormed_example : IsWellFormed codec (read wire)
validate_shape-IsWellFormed_example = validate_shape-IsWellFormed codec wire wire_is_valid

signature_is_formed : is_signature signature ≡ true
unfolding is_signature matches_class is_hex
signature_is_formed = refl

codec-IsKeyPair : IsKeyPair codec key
codec-IsKeyPair = record { formed = λ m. signature_is_formed; verifies = λ m. refl }

key_is_formed : is_pubkey key ≡ true
unfolding is_pubkey matches_prefixed is_hex
key_is_formed = refl

author_is_key : get? "author_pubkey" unsigned ≡ some (str key)
unfolding get?
author_is_key = refl

verify_envelope_signature-sign_envelope_example :
    let signed = set "signature" (str (sign_envelope codec unsigned)) unsigned in
    (verify_envelope_signature codec none signed ≡ true)
    × (verify_envelope_signature codec (some key) signed ≡ true)
verify_envelope_signature-sign_envelope_example =
    verify_envelope_signature-sign_envelope codec key unsigned codec-IsKeyPair key_is_formed
      author_is_key

steps-Stores_example :
    Stores
      (λ r. IsGenuine codec r.envelope)
      (steps
        (node_of codec no_keys true 0 10)
        (steps_of (delivers 100 wire ∷ restarts ∷ delivers 101 unsigned ∷ []))
        (conn_of []))
steps-Stores_example =
    steps-Stores codec no_keys true 0 10 (delivers 100 wire ∷ restarts ∷ delivers 101 unsigned ∷ [])
      (conn_of []) (record { work = tt; durable = tt })
