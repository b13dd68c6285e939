-- ===== src/Sync/Envelope.antt =====
-- src/swf/sync/envelope.py, with `canonicalize` of src/swf/bundles/envelope.py: the wire form of a record,
-- its shape, its hashes and its signature. `json.dumps`, SHA-256 and Ed25519 are fields of `Codec`.
pub mod Shape
pub mod Signing
mod Tests
use Prim.Native.String.{◌++◌ as str_append}
use searxng_wth_frnds.Prelude.{
  ℕ, ◌+◌, String, Bool, true, false, Option, none, some, List, [], ◌∷◌, ◌&&◌, ◌||◌, not, ◌==◌,
  nat_eq, string_eq, all, length, if◌then◌else◌, ltb, max,
}
use searxng_wth_frnds.Prelude.Int.{ℤ, pos, negsuc, at_least_zero}
use searxng_wth_frnds.Prelude.Json.{
  Json, Items, Fields, null, bool, int, float, str, arr, obj, nil, cons, end, field, get?, set,
  drop_key, has_key,
}
use searxng_wth_frnds.Prelude.Checks.{first_raised}
use searxng_wth_frnds.Prelude.Text.{codes, matches_class, matches_prefixed, is_hex, is_record_char}

-- `dumps` is `json.dumps` with sorted keys and no blanks, in UTF-8. `ed25519` is `pub.verify` on the bytes
-- that the two hexadecimal texts write, `sign` is `priv.sign` in hexadecimal.
pub record Codec : Type 0 where
  pub dumps : Json → List ℕ
  pub sha256_hex : List ℕ → String
  pub ed25519 : String → String → List ℕ → Bool
  pub sign : List ℕ → String

abbrev pub sync_magic : String
sync_magic = "swf-sync-v1"

abbrev pub sync_record_kind : String
sync_record_kind = "person"

abbrev pub max_envelope_bytes : ℕ
max_envelope_bytes = 65536

abbrev pub max_content_depth : ℕ
max_content_depth = 8

abbrev pub required_top : List String
required_top =
    "magic" ∷ "kind" ∷ "record_id" ∷ "author_pubkey" ∷ "wall_ts_ms" ∷ "prev_hash" ∷ "content"
    ∷ "content_hash" ∷ "signature" ∷ []

unfoldable pub canonicalize : Codec → Bool → Fields → List ℕ
canonicalize c drop_signature envelope =
    c.dumps (obj (if drop_signature then drop_key "signature" envelope else envelope))

unfoldable pub content_hash : Codec → Json → String
content_hash c content = str_append "sha256:" (c.sha256_hex (c.dumps content))

unfoldable pub envelope_hash : Codec → Fields → String
unfolding canonicalize
envelope_hash c envelope = str_append "sha256:" (c.sha256_hex (canonicalize c true envelope))

-- `_content_depth`: the maximum of the values below, of which an empty container has none.
unfoldable mutual
  pub content_depth : ℕ → Json → ℕ
  content_depth current (obj end) = current + 1
  content_depth current (obj (field k v d)) = fields_depth (current + 1) (field k v d)
  content_depth current (arr nil) = current + 1
  content_depth current (arr (cons v vs)) = items_depth (current + 1) (cons v vs)
  content_depth current null = current
  content_depth current (bool b) = current
  content_depth current (int n) = current
  content_depth current (float r) = current
  content_depth current (str s) = current

  pub items_depth : ℕ → Items → ℕ
  items_depth current nil = 0
  items_depth current (cons v vs) = max (content_depth current v) (items_depth current vs)

  pub fields_depth : ℕ → Fields → ℕ
  fields_depth current end = 0
  fields_depth current (field k v d) = max (content_depth current v) (fields_depth current d)

pub data ShapeError : Type 0 where
  shape_invalid kind_unknown content_too_deep envelope_too_large content_hash_mismatch : ShapeError

-- The patterns of the module.
unfoldable pub is_record_id : String → Bool
is_record_id s = matches_class is_record_char 1 128 (codes s)

unfoldable pub is_pubkey : String → Bool
is_pubkey s = matches_prefixed "ed25519:" is_hex 64 (codes s)

unfoldable pub is_sha256 : String → Bool
is_sha256 s = matches_prefixed "sha256:" is_hex 64 (codes s)

unfoldable pub is_signature : String → Bool
is_signature s = matches_class is_hex 128 128 (codes s)

-- `isinstance(v, str) and test(v)`.
abbrev pub text_that : (String → Bool) → Option Json → Bool
text_that test (some (str s)) = test s
text_that test _ = false

-- `v is None or isinstance(v, str) and test(v)`.
abbrev pub null_or_text : (String → Bool) → Option Json → Bool
null_or_text test (some null) = true
null_or_text test v = text_that test v

-- An `int` that is no `bool` and not negative.
abbrev pub is_time : Option Json → Bool
is_time (some (int (pos n))) = true
is_time _ = false

abbrev pub is_container : Option Json → Bool
is_container (some (obj d)) = true
is_container (some (arr vs)) = true
is_container _ = false

abbrev pub value_or_null : Option Json → Json
value_or_null none = null
value_or_null (some v) = v

-- `validate_shape` of a mapping.
unfoldable pub validate_fields : Codec → Fields → Option ShapeError
unfolding content_hash
validate_fields c env =
    let content = value_or_null (get? "content" env) in
    first_raised (
      (not (all (λ k. has_key k env) required_top), shape_invalid)
      ∷ (not (text_that (λ s. s == sync_magic) (get? "magic" env)), shape_invalid)
      ∷ (not (text_that (λ s. true) (get? "kind" env)), shape_invalid)
      ∷ (not (text_that (λ s. s == sync_record_kind) (get? "kind" env)), kind_unknown)
      ∷ (not (text_that is_record_id (get? "record_id" env)), shape_invalid)
      ∷ (not (text_that is_pubkey (get? "author_pubkey" env)), shape_invalid)
      ∷ (not (is_time (get? "wall_ts_ms" env)), shape_invalid)
      ∷ (not (null_or_text is_sha256 (get? "prev_hash" env)), shape_invalid)
      ∷ (not (is_container (get? "content" env)), shape_invalid)
      ∷ (ltb max_content_depth (content_depth 0 content), content_too_deep)
      ∷ (not (text_that is_sha256 (get? "content_hash" env)), shape_invalid)
      ∷ (not (text_that is_signature (get? "signature" env)), shape_invalid)
      ∷ (ltb max_envelope_bytes (length (canonicalize c true env)), envelope_too_large)
      ∷ (
        not (text_that (λ s. s == content_hash c content) (get? "content_hash" env)),
        content_hash_mismatch,
      )
      ∷ [])

-- `validate_shape`: the reason that it returns, none if the shape is right.
unfoldable pub validate_shape : Codec → Json → Option ShapeError
unfolding validate_fields
validate_shape c (obj env) = validate_fields c env
validate_shape c _ = some shape_invalid

-- An envelope, read from its wire form: the fields that the store reads.
pub record Envelope : Type 0 where
  pub record_id : String
  pub author_pubkey : String
  pub wall_ts_ms : ℕ
  pub content_hash : String
  pub kind : String
  pub prev_hash : Option String
  pub wire : Fields

abbrev pub text_or_empty : Option Json → String
text_or_empty (some (str s)) = s
text_or_empty _ = ""

abbrev pub time_or_zero : Option Json → ℕ
time_or_zero (some (int n)) = at_least_zero n
time_or_zero _ = 0

abbrev pub text_or_none : Option Json → Option String
text_or_none (some (str s)) = some s
text_or_none _ = none

unfoldable pub read : Fields → Envelope
read env = record {
  record_id = text_or_empty (get? "record_id" env);
  author_pubkey = text_or_empty (get? "author_pubkey" env);
  wall_ts_ms = time_or_zero (get? "wall_ts_ms" env);
  content_hash = text_or_empty (get? "content_hash" env);
  kind = text_or_empty (get? "kind" env);
  prev_hash = text_or_none (get? "prev_hash" env);
  wire = env;
}

-- `expected_pubkey is None or pub_str == expected_pubkey`.
abbrev pub expected_or_any : Option String → String → Bool
expected_or_any none pub_str = true
expected_or_any (some expected) pub_str = pub_str == expected

-- The checks of `verify_envelope_signature` on two texts.
unfoldable pub verify_texts : Codec → Option String → Fields → String → String → Bool
unfolding canonicalize
verify_texts c expected env sig_hex pub_str =
    is_signature sig_hex
    && is_pubkey pub_str
    && expected_or_any expected pub_str
    && c.ed25519 pub_str sig_hex (canonicalize c true env)

abbrev pub verify_values : Codec → Option String → Fields → Option Json → Option Json → Bool
verify_values c expected env (some (str sig_hex)) (some (str pub_str)) =
    verify_texts c expected env sig_hex pub_str
verify_values c expected env _ _ = false

unfoldable pub verify_envelope_signature : Codec → Option String → Fields → Bool
unfolding verify_texts
verify_envelope_signature c expected env =
    verify_values c expected env (get? "signature" env) (get? "author_pubkey" env)

unfoldable pub sign_envelope : Codec → Fields → String
unfolding canonicalize
sign_envelope c env = c.sign (canonicalize c true env)
