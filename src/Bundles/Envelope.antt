-- ===== src/Bundles/Envelope.antt =====
-- src/swf/bundles/envelope.py and signing.py: the shape, the content id and the signature of a bundle.
-- `base64.b64decode` is a field of `Tools`, beside the codec.
use searxng_wth_frnds.Prelude.{
  String, Bool, true, false, Option, none, some, List, [], ◌∷◌, ◌&&◌, not, ◌==◌, string_eq, all,
  elem,
}
use searxng_wth_frnds.Prelude.Json.{
  Json, Items, Fields, null, str, arr, obj, nil, cons, end, get?, has_key,
}
use searxng_wth_frnds.Prelude.Checks.{first_raised}
use searxng_wth_frnds.Sync.Envelope.{
  Codec, canonicalize, is_pubkey, is_signature, text_that, is_time,
}

pub record Tools : Type 0 where
  pub codec : Codec
  pub decodes : String → Bool

abbrev pub bundle_magic : String
bundle_magic = "swf-bundle-v1"

abbrev pub bundle_kinds : List String
bundle_kinds = "cohort.surface" ∷ "cohort.depth" ∷ "transcript.batch" ∷ "search.result" ∷ []

abbrev pub required_top : List String
required_top =
    "magic" ∷ "kind" ∷ "record_id" ∷ "version" ∷ "author" ∷ "encryption" ∷ "payload" ∷ "signature"
    ∷ []

unfoldable pub cid_for : Tools → Fields → String
unfolding canonicalize
cid_for t env = t.codec.sha256_hex (canonicalize t.codec true env)

pub data ShapeError : Type 0 where
  shape_invalid kind_unknown pubkey_malformed encryption_malformed : ShapeError

abbrev is_mapping : Option Json → Bool
is_mapping (some (obj d)) = true
is_mapping v = false

-- The entries of a mapping, none of anything else.
abbrev pub entries_of : Option Json → Fields
entries_of (some (obj d)) = d
entries_of v = end

abbrev any_text : Option Json → Bool
any_text v = text_that (λ s. true) v

abbrev some_text : Option Json → Bool
some_text v = text_that (λ s. not (s == "")) v

abbrev missing_null_or_text : Option Json → Bool
missing_null_or_text none = true
missing_null_or_text (some null) = true
missing_null_or_text v = any_text v

unfoldable pub all_recipients : Items → Bool
all_recipients nil = true
all_recipients (cons v vs) = some_text (some v) && all_recipients vs

abbrev is_recipients : Option Json → Bool
is_recipients (some (arr (cons v vs))) = all_recipients (cons v vs)
is_recipients v = false

-- `null`, or a mapping with the algorithm and its recipients.
abbrev pub is_encryption : Option Json → Bool
is_encryption (some null) = true
is_encryption (some (obj enc)) =
    text_that (λ s. s == "age-v1") (get? "alg" enc) && is_recipients (get? "recipients" enc)
is_encryption v = false

unfoldable pub validate_fields : Tools → Fields → Option ShapeError
validate_fields t env =
    let author = entries_of (get? "author" env) in
    first_raised (
      (not (all (λ k. has_key k env) required_top), shape_invalid)
      ∷ (not (text_that (λ s. s == bundle_magic) (get? "magic" env)), shape_invalid)
      ∷ (not (any_text (get? "kind" env)), shape_invalid)
      ∷ (not (text_that (λ s. elem s bundle_kinds) (get? "kind" env)), kind_unknown)
      ∷ (not (some_text (get? "record_id" env)), shape_invalid)
      ∷ (not (is_time (get? "version" env)), shape_invalid)
      ∷ (not (is_mapping (get? "author" env)), shape_invalid)
      ∷ (not (has_key "pubkey" author && has_key "signed_at" author), shape_invalid)
      ∷ (not (any_text (get? "pubkey" author)), shape_invalid)
      ∷ (not (text_that is_pubkey (get? "pubkey" author)), pubkey_malformed)
      ∷ (not (some_text (get? "signed_at" author)), shape_invalid)
      ∷ (not (missing_null_or_text (get? "prev_cid" env)), shape_invalid)
      ∷ (not (is_encryption (get? "encryption" env)), encryption_malformed)
      ∷ (not (text_that t.decodes (get? "payload" env)), shape_invalid)
      ∷ (not (text_that is_signature (get? "signature" env)), shape_invalid)
      ∷ [])

unfoldable pub validate_shape : Tools → Json → Option ShapeError
unfolding validate_fields
validate_shape t (obj env) = validate_fields t env
validate_shape t v = some shape_invalid

abbrev verify_texts : Tools → Fields → Option Json → Option Json → Bool
verify_texts t env (some (str sig_hex)) (some (str pub_str)) =
    t.codec.ed25519 pub_str sig_hex (canonicalize t.codec true env)
verify_texts t env sig_hex pub_str = false

-- `verify_envelope_signature`.
unfoldable pub verify_bundle_signature : Tools → Fields → Bool
verify_bundle_signature t env =
    verify_texts t env (get? "signature" env) (get? "pubkey" (entries_of (get? "author" env)))
