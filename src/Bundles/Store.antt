-- ===== src/Bundles/Store.antt =====
-- src/swf/bundles/store.py: the table of bundles. SQLite gives a new row the largest row id and one more.
use searxng_wth_frnds.Prelude.{
  ℕ, suc, String, Bool, true, false, Option, none, some, List, [], ◌∷◌, ◌++◌, ◌&&◌, ◌==◌, nat_eq,
  string_eq, any, keep, take, max, map, if◌then◌else◌, ltb,
}
use searxng_wth_frnds.Prelude.Int.{pos, negsuc}
use searxng_wth_frnds.Prelude.Json.{Json, Fields, int, arr, obj, get?}
use searxng_wth_frnds.Prelude.Sorting.{sort_by}
use searxng_wth_frnds.Sync.Envelope.{text_or_empty, time_or_zero}
use searxng_wth_frnds.Sync.Store.{text_ltb}
use searxng_wth_frnds.Bundles.Envelope.{Tools, cid_for, entries_of}

-- A row of `bundles`; the document stands for its other columns.
pub record Bundle : Type 0 where
  pub rowid : ℕ
  pub cid : String
  pub kind : String
  pub record_id : String
  pub version : ℕ
  pub signed_at : String
  pub wire : Fields

unfoldable pub largest_rowid : List Bundle → ℕ
largest_rowid [] = 0
largest_rowid (b ∷ bs) = max b.rowid (largest_rowid bs)

unfoldable pub bundle_of : Tools → ℕ → Fields → Bundle
bundle_of t rowid env = record {
  rowid = rowid;
  cid = cid_for t env;
  kind = text_or_empty (get? "kind" env);
  record_id = text_or_empty (get? "record_id" env);
  version = time_or_zero (get? "version" env);
  signed_at = text_or_empty (get? "signed_at" (entries_of (get? "author" env)));
  wire = env;
}

abbrev pub has_cid : String → List Bundle → Bool
has_cid cid bs = any (λ b. b.cid == cid) bs

-- The integers of SQLite have 64 bits.
abbrev pub integer_end : ℕ
integer_end = 9223372036854775808

-- Whether SQLite takes a value as a parameter: another integer is an `OverflowError`, and a list or an
-- object another error.
abbrev can_bind : Option Json → Bool
can_bind (some (int (pos n))) = ltb n integer_end
can_bind (some (int (negsuc n))) = ltb n integer_end
can_bind (some (arr vs)) = false
can_bind (some (obj d)) = false
can_bind _ = true

-- The parameters of the statement that may be other than a text.
unfoldable pub can_bind_row : Fields → Bool
can_bind_row env = can_bind (get? "version" env) && can_bind (get? "prev_cid" env)

-- The `INSERT OR IGNORE` on the content id: whether the row is new, and the rows.
unfoldable pub insert_row : Tools → Fields → List Bundle → Bool × List Bundle
unfolding bundle_of largest_rowid
insert_row t env bs =
    if has_cid (cid_for t env) bs
    then (false, bs)
    else (true, bs ++ bundle_of t (suc (largest_rowid bs)) env ∷ [])

-- `insert`; `none` if a value cannot be bound.
unfoldable pub insert : Tools → Fields → List Bundle → Option (Bool × List Bundle)
unfolding insert_row can_bind_row
insert t env bs = if can_bind_row env then some (insert_row t env bs) else none

abbrev find_cid : String → List Bundle → Option Fields
find_cid cid [] = none
find_cid cid (b ∷ bs) = if b.cid == cid then some b.wire else find_cid cid bs

unfoldable pub get_by_cid : String → List Bundle → Option Fields
get_by_cid cid bs = if cid == "" then none else find_cid cid bs

abbrev pub max_version : ℕ → Option ℕ → ℕ
max_version v none = v
max_version v (some w) = max v w

-- `SELECT MAX(version) ... WHERE kind=? AND record_id=?`.
unfoldable pub latest_version : String → String → List Bundle → Option ℕ
latest_version kind record_id [] = none
latest_version kind record_id (b ∷ bs) =
    let rest = latest_version kind record_id bs in
    if b.kind == kind && b.record_id == record_id then some (max_version b.version rest) else rest

abbrev clamp : ℕ → ℕ
clamp limit = if ltb limit 1 then 1 else if ltb 1000 limit then 1000 else limit

abbrev is_or_any : Option String → String → Bool
is_or_any none s = true
is_or_any (some t) s = s == t

abbrev after_or_any : Option ℕ → ℕ → Bool
after_or_any none v = true
after_or_any (some since) v = ltb since v

-- `list_with_rowid`: the cursor of the row ids.
unfoldable pub list_with_rowid : Option String → ℕ → ℕ → List Bundle → List Bundle
list_with_rowid kind received_since limit bs = take (clamp limit) (
    sort_by (λ a b. ltb a.rowid b.rowid)
      (keep (λ b. ltb received_since b.rowid && is_or_any kind b.kind) bs))

abbrev by_signed_at : Option String → Bundle → Bundle → Bool
by_signed_at none a b = text_ltb b.signed_at a.signed_at
by_signed_at (some record_id) a b = ltb b.version a.version

-- `list_` without a row id: a record's versions, the latest first, or all by the time of signing.
unfoldable pub list_versions :
    Option String → Option String → Option ℕ → ℕ → List Bundle → List Fields
list_versions kind record_id since_version limit bs =
    map (λ b. b.wire)
      (take (clamp limit) (
        sort_by (by_signed_at record_id) (
          keep
            (λ b.
              after_or_any since_version b.version
              && is_or_any kind b.kind
              && is_or_any record_id b.record_id)
            bs)))
