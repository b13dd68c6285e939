-- ===== src/Bundles/Verify.antt =====
-- src/swf/bundles/verify.py: `verify_bundle`, and the store behind it.
pub mod Log
use searxng_wth_frnds.Prelude.{
  ℕ, String, Bool, true, false, Option, none, some, List, [], ◌∷◌, ◌&&◌, not, ◌==◌, string_eq, elem,
  leb, if◌then◌else◌,
}
use searxng_wth_frnds.Prelude.Json.{
  Json, Items, Fields, null, bool, int, float, str, arr, obj, nil, cons, get?,
}
use searxng_wth_frnds.Prelude.Checks.{raise_if}
use searxng_wth_frnds.Sync.Envelope.{text_or_empty, time_or_zero}
use searxng_wth_frnds.Bundles.Envelope.{
  Tools, ShapeError, validate_shape, verify_bundle_signature, entries_of,
}
use searxng_wth_frnds.Bundles.Store.{Bundle, latest_version, insert}

pub data VerifyReason : Type 0 where
  shape : ShapeError → VerifyReason
  author_not_alchemist signature_invalid version_not_monotonic
        encryption_recipient_not_in_reservoir :
      VerifyReason

-- The pubkeys of the alchemists, and those of the reservoir, if one is given.
pub record Rosters : Type 0 where
  pub alchemists : List String
  pub reservoir : Option (List String)

abbrev pub not_greater : ℕ → Option ℕ → Bool
not_greater version none = false
not_greater version (some prior) = leb version prior

unfoldable pub any_outside : List String → Items → Bool
any_outside pubkeys nil = false
any_outside pubkeys (cons (str r) vs) = if elem r pubkeys then any_outside pubkeys vs else true
any_outside pubkeys (cons v vs) = true

abbrev outside_values : List String → Option Json → Bool
outside_values pubkeys (some (arr vs)) = any_outside pubkeys vs
outside_values pubkeys v = false

-- Step 5, for a bundle with an encryption block.
abbrev pub outside_reservoir : Option (List String) → Option Json → Bool
outside_reservoir (some pubkeys) (some (obj enc)) = outside_values pubkeys (get? "recipients" enc)
outside_reservoir reservoir enc = false

-- steps 2 to 5, of a mapping of the right shape
unfoldable pub check_bundle : Tools → Rosters → List Bundle → Fields → Option VerifyReason
check_bundle t rosters bs env =
    let kind = text_or_empty (get? "kind" env) in
    let record_id = text_or_empty (get? "record_id" env) in
    let pubkey = text_or_empty (get? "pubkey" (entries_of (get? "author" env))) in
    raise_if (not (kind == "search.result") && not (elem pubkey rosters.alchemists))
      author_not_alchemist
      (raise_if (not (verify_bundle_signature t env)) signature_invalid (
        raise_if
          (not_greater (time_or_zero (get? "version" env)) (latest_version kind record_id bs))
          version_not_monotonic
          (raise_if (outside_reservoir rosters.reservoir (get? "encryption" env))
            encryption_recipient_not_in_reservoir none)))

abbrev after_shape : Option ShapeError → Option VerifyReason → Option VerifyReason
after_shape (some e) rest = some (shape e)
after_shape none rest = rest

-- `verify_bundle`: the reason of a refusal, none if the bundle is right.
unfoldable pub verify_bundle : Tools → Rosters → List Bundle → Json → Option VerifyReason
unfolding check_bundle
verify_bundle t rosters bs (obj env) =
    after_shape (validate_shape t (obj env)) (check_bundle t rosters bs env)
verify_bundle t rosters bs v = after_shape (validate_shape t v) none

-- An insert that raises leaves the rows; the caller goes on.
abbrev pub or_skipped : List Bundle → Option (Bool × List Bundle) → Bool × List Bundle
or_skipped bs none = (false, bs)
or_skipped bs (some result) = result

-- The rows after a verified insert.
abbrev pub insert_if : Option VerifyReason → Tools → Fields → List Bundle → Bool × List Bundle
insert_if none t env bs = or_skipped bs (insert t env bs)
insert_if (some reason) t env bs = (false, bs)

-- `verify_bundle` and then `insert`, as every path to the store does.
unfoldable pub accept : Tools → Rosters → Json → List Bundle → Bool × List Bundle
unfolding verify_bundle insert
accept t rosters (obj env) bs = insert_if (verify_bundle t rosters bs (obj env)) t env bs
accept t rosters v bs = (false, bs)
