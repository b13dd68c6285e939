-- ===== src/Sync/Manifest/Tests.antt =====
-- The reads of a small store, and their theorems there.
use searxng_wth_frnds.Prelude.{[], ◌∷◌, ◌≡◌}
use searxng_wth_frnds.Prelude.Dict
use searxng_wth_frnds.Sync.Envelope.{Envelope}
use searxng_wth_frnds.Sync.Store.{Tables, latest_envelope}
use searxng_wth_frnds.Sync.Samples.{envelope, older, tables_of}
use searxng_wth_frnds.Sync.Manifest.{is_record_forked, build_manifest}
use searxng_wth_frnds.Sync.Manifest.Current.{
  map_stamp, unless_forked, current_stamp, build_manifest-latest_envelope,
}

abbrev store : Tables
store = tables_of (older ∷ envelope ∷ [])

build_manifest-latest_envelope_example :
    map_stamp (Dict.lookup "ada" (build_manifest store))
    ≡ unless_forked
        (is_record_forked "ada" store.authors)
        (current_stamp (latest_envelope "ada" store.records))
build_manifest-latest_envelope_example = build_manifest-latest_envelope store "ada"
