-- ===== src/Sync/Compare/Tests.antt =====
-- The comparison on two envelopes, and on a time that is no number.
use searxng_wth_frnds.Prelude.{
  none, some, ◌≡◌, refl, ◌&&◌, not, ◌==◌, string_eq, if◌then◌else◌, min, ◌-◌,
}
use searxng_wth_frnds.Prelude.Json.{float, str, field, end, get?, truthy}
use searxng_wth_frnds.Sync.Store.{newer}
use searxng_wth_frnds.Sync.Manifest.{meta_of, meta_fields}
use searxng_wth_frnds.Sync.Samples.{envelope, older}
use searxng_wth_frnds.Sync.Compare.{Builtins, overflowed, skip, pull, crash, decide}
use searxng_wth_frnds.Sync.Compare.Newer.{decide-newer}

-- Every float is infinite.
abbrev builtins : Builtins
builtins = record { int_of_text = λ s. none; int_of_float = λ s. overflowed; repr = λ v. "" }

-- `{"latest_content_hash": "h", "latest_wall_ts_ms": Infinity}`, on which the call raises.
infinite_time :
    decide builtins
      (some (meta_of older))
      (field "latest_content_hash" (str "h") (field "latest_wall_ts_ms" (float "inf") end))
    ≡ crash
unfolding decide get? truthy
infinite_time = refl

decide-newer_example : decide builtins (some (meta_of older)) (meta_fields (meta_of envelope)) ≡ (
    if not (envelope.content_hash == older.content_hash) && newer envelope older
    then pull (min older.wall_ts_ms (envelope.wall_ts_ms - 1))
    else skip)
decide-newer_example = decide-newer builtins older envelope
