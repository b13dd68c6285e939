-- ===== src/Sync/Compare.antt =====
-- src/swf/sync/sync_loop.py: how `sync_with_peer` compares a record of a peer's manifest with its own.
pub mod Newer
mod Tests
use Prim.Native.Char.{code}
use searxng_wth_frnds.Prelude.{
  ℕ, suc, ◌+◌, ◌-◌, String, Bool, true, false, Option, none, some, List, [], ◌∷◌, ◌&&◌, ◌||◌, not,
  ◌==◌, nat_eq, string_eq, is_empty, if◌then◌else◌, ltb,
}
use searxng_wth_frnds.Prelude.Dict
use searxng_wth_frnds.Prelude.Dict.{Dict}
use searxng_wth_frnds.Prelude.Int.{ℤ, pos, negsuc}
use searxng_wth_frnds.Prelude.Json.{
  Json, Items, Fields, null, bool, int, float, str, arr, obj, nil, cons, end, field, get?, truthy,
}
use searxng_wth_frnds.Sync.CohortKeys.{CohortKeys}
use searxng_wth_frnds.Sync.Envelope.{Codec, Envelope, read}
use searxng_wth_frnds.Sync.Store.{
  Conn, ApplyResult, Reason, applied, text_ltb, apply_envelope, node_of, commit,
}
use searxng_wth_frnds.Sync.Manifest.{Meta, build_manifest, manifest_hash}
use searxng_wth_frnds.Sync.Reachability.{
  Status, reachable, unreachable, Event, manifest_fetched, pulled, Board, emit, record_peer_status,
}

-- What `int(v)` does: a number, a `TypeError` or `ValueError`, or an `OverflowError`.
pub data Converted : Type 0 where
  converted : ℤ → Converted
  refused overflowed : Converted

-- What Python makes of values of JSON: the number in a text and in a float, and the text of a value.
pub record Builtins : Type 0 where
  pub int_of_text : String → Option ℤ
  pub int_of_float : String → Converted
  pub repr : Json → String

abbrev pub or_refused : Option ℤ → Converted
or_refused none = refused
or_refused (some z) = converted z

abbrev pub to_int : Builtins → Json → Converted
to_int b (bool true) = converted (pos 1)
to_int b (bool false) = converted (pos 0)
to_int b (int z) = converted z
to_int b (float r) = b.int_of_float r
to_int b (str s) = or_refused (b.int_of_text s)
to_int b null = refused
to_int b (arr vs) = refused
to_int b (obj d) = refused

-- `d.get(k) or 0`.
abbrev pub or_zero : Option Json → Json
or_zero none = int (pos 0)
or_zero (some v) = if truthy v then v else int (pos 0)

-- `str(d.get(k, ""))`.
abbrev pub to_text : Builtins → Option Json → String
to_text b none = ""
to_text b (some (str s)) = s
to_text b (some v) = b.repr v

-- `v == text`.
abbrev pub is_text : Option Json → String → Bool
is_text (some (str s)) t = s == t
is_text v t = false

-- What becomes of a record of a peer's manifest.
pub data Decision : Type 0 where
  skip : Decision
  pull : ℕ → Decision
  crash : Decision

-- The three cases of the two times, the last with the tiebreaker.
abbrev pub by_time : String → ℕ → String → Converted → Decision
by_time remote_hash local_ts local_hash refused = skip
by_time remote_hash local_ts local_hash overflowed = crash
by_time remote_hash local_ts local_hash (converted (negsuc n)) = skip
by_time remote_hash local_ts local_hash (converted (pos remote_ts)) =
    if ltb local_ts remote_ts
    then pull local_ts
    else if ltb remote_ts local_ts
    then skip
    else if text_ltb local_hash remote_hash
    then pull (local_ts - 1)
    else skip

unfoldable pub decide : Builtins → Option Meta → Fields → Decision
decide b none remote_meta = pull 0
decide b (some local_meta) remote_meta =
    if is_text (get? "latest_content_hash" remote_meta) local_meta.latest_content_hash
    then skip
    else by_time (to_text b (get? "latest_content_hash" remote_meta)) local_meta.latest_wall_ts_ms
        local_meta.latest_content_hash (to_int b (or_zero (get? "latest_wall_ts_ms" remote_meta)))
