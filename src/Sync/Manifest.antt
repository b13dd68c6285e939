-- ===== src/Sync/Manifest.antt =====
-- src/swf/sync/store.py: what a node tells its peers of its records. `build_manifest` selects with `MAX`,
-- the reads of a record's envelopes with `ORDER BY wall_ts_ms DESC, content_hash DESC LIMIT`.
pub mod Top
pub mod Current
pub mod Page
mod Tests
use searxng_wth_frnds.Prelude.{
  ℕ, String, Bool, true, false, Option, none, some, List, [], ◌∷◌, ◌&&◌, ◌==◌, nat_eq, string_eq,
  keep, map, take, max, min, if◌then◌else◌, ltb,
}
use searxng_wth_frnds.Prelude.Dict
use searxng_wth_frnds.Prelude.Dict.{Dict}
use searxng_wth_frnds.Prelude.Int.{pos}
use searxng_wth_frnds.Prelude.Json.{Json, Fields, int, str, obj, end, field}
use searxng_wth_frnds.Prelude.Sorting.{sort_by}
use searxng_wth_frnds.Sync.Envelope.{Codec, Envelope, content_hash}
use searxng_wth_frnds.Sync.Store.{Row, AuthorRow, Tables, pinned_author_row, text_ltb, newer}

abbrev author_of : Option AuthorRow → Option String
author_of none = none
author_of (some a) = some a.author_pubkey

abbrev forked_of : Option AuthorRow → Bool
forked_of none = false
forked_of (some a) = a.forked

unfoldable pub pinned_author : String → List AuthorRow → Option String
pinned_author record_id as' = author_of (pinned_author_row record_id as')

unfoldable pub is_record_forked : String → List AuthorRow → Bool
is_record_forked record_id as' = forked_of (pinned_author_row record_id as')

-- `max(1, min(limit, 1000))`.
abbrev pub clamp_limit : ℕ → ℕ
clamp_limit limit = max 1 (min limit 1000)

abbrev pub is_after : String → ℕ → Envelope → Bool
is_after record_id since_ms e = e.record_id == record_id && ltb since_ms e.wall_ts_ms

unfoldable pub get_record_envelopes : String → ℕ → ℕ → List Row → List Envelope
get_record_envelopes record_id since_ms limit rows =
    take (clamp_limit limit)
      (sort_by newer (keep (is_after record_id since_ms) (map (λ r. r.envelope) rows)))

unfoldable pub get_record_history : String → ℕ → List Row → List Envelope
get_record_history record_id limit rows =
    take (clamp_limit limit)
      (sort_by newer (keep (λ e. e.record_id == record_id) (map (λ r. r.envelope) rows)))

-- `SELECT MAX(wall_ts_ms) ... WHERE r2.record_id = r.record_id`, of a record with a row.
unfoldable pub max_wall_ts : String → List Row → ℕ
max_wall_ts record_id [] = 0
max_wall_ts record_id (r ∷ rows) =
    let rest = max_wall_ts record_id rows in
    if r.envelope.record_id == record_id then max r.envelope.wall_ts_ms rest else rest

abbrev pub text_max : String → String → String
text_max s t = if text_ltb s t then t else s

-- `SELECT MAX(content_hash) ... WHERE r3.record_id = r.record_id AND r3.wall_ts_ms = r.wall_ts_ms`.
unfoldable pub max_content_hash : String → ℕ → List Row → String
max_content_hash record_id ts [] = ""
max_content_hash record_id ts (r ∷ rows) =
    let rest = max_content_hash record_id ts rows in
    if r.envelope.record_id == record_id && r.envelope.wall_ts_ms == ts
    then text_max r.envelope.content_hash rest
    else rest

-- The `WHERE` of the manifest's query.
unfoldable pub is_top : List Row → Row → Bool
unfolding max_wall_ts max_content_hash
is_top rows r =
    r.envelope.wall_ts_ms == max_wall_ts r.envelope.record_id rows
    && r.envelope.content_hash == max_content_hash r.envelope.record_id r.envelope.wall_ts_ms rows

-- An entry of the manifest.
pub record Meta : Type 0 where
  pub kind : String
  pub author_pubkey : String
  pub latest_content_hash : String
  pub latest_wall_ts_ms : ℕ

abbrev pub meta_of : Envelope → Meta
meta_of e = record {
  kind = e.kind;
  author_pubkey = e.author_pubkey;
  latest_content_hash = e.content_hash;
  latest_wall_ts_ms = e.wall_ts_ms;
}

-- The loop over the selected rows, with the join's `forked`.
unfoldable pub add_rows : List AuthorRow → List Row → Dict Meta → Dict Meta
unfolding is_record_forked
add_rows as' [] records = records
add_rows as' (r ∷ rows) records = add_rows as' rows (
    if is_record_forked r.envelope.record_id as'
    then records
    else Dict.insert r.envelope.record_id (meta_of r.envelope) records)

abbrev pub by_record_id : Row → Row → Bool
by_record_id a b = text_ltb a.envelope.record_id b.envelope.record_id

unfoldable pub build_manifest : Tables → Dict Meta
unfolding add_rows is_top
build_manifest t = add_rows t.authors (sort_by by_record_id (keep (is_top t.records) t.records)) []

-- The manifest's `records` as a document, and its hash.
abbrev pub meta_fields : Meta → Fields
meta_fields m = field "kind" (str m.kind) (
    field "author_pubkey" (str m.author_pubkey) (
      field "latest_content_hash" (str m.latest_content_hash)
        (field "latest_wall_ts_ms" (int (pos m.latest_wall_ts_ms)) end)))

abbrev pub records_json : Dict Meta → Fields
records_json [] = end
records_json ((record_id, m) ∷ d) = field record_id (obj (meta_fields m)) (records_json d)

unfoldable pub manifest_hash : Codec → Dict Meta → String
unfolding content_hash
manifest_hash c records = content_hash c (obj (records_json records))
