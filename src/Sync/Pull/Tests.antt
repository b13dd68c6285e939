-- ===== src/Sync/Pull/Tests.antt =====
-- A node that trusts its LAN, and a peer with a newer envelope.
use searxng_wth_frnds.Prelude.{false, none, some, [], ◌∷◌, ◌≡◌, refl, any, string_eq, arith}
use searxng_wth_frnds.Prelude.Json.{Json, obj, field, end, get?, has_key}
use searxng_wth_frnds.Sync.Envelope.{
  Envelope, read, validate_shape, is_record_id, is_pubkey, content_depth, is_sha256, is_signature,
  canonicalize, verify_envelope_signature,
}
use searxng_wth_frnds.Sync.Store.{
  Tables, applied, latest_envelope, is_row, apply_envelope, pinned_author_row,
}
use searxng_wth_frnds.Sync.Manifest.{meta_of, meta_fields, get_record_envelopes}
use searxng_wth_frnds.Sync.Manifest.Page.{stamp}
use searxng_wth_frnds.Sync.Compare.{decide}
use searxng_wth_frnds.Sync.Samples.{envelope, older, wire, tables_of, setting, round_with}
use searxng_wth_frnds.Sync.Pull.{Peer, none_pulled, pull_decided, sync_with_peer, apply_at}
use searxng_wth_frnds.Sync.Pull.Safe.{IsClean, round_of, sync_with_peer-IsClean}
use searxng_wth_frnds.Sync.Pull.Leads.{page_of}
use searxng_wth_frnds.Sync.Pull.CatchUp.{Serves, Welcomes, pull_decided-latest_envelope}
use searxng_wth_frnds.Prelude.Checks.{first_raised}
use searxng_wth_frnds.Prelude.Text.{matches_class, is_record_char, matches_prefixed, is_hex}

abbrev store : Tables
store = tables_of (envelope ∷ [])

abbrev manifest : Json
manifest = obj (field "records" (obj (field "ada" (obj (meta_fields (meta_of envelope))) end)) end)

-- A peer that serves its store.
abbrev peer : Peer
peer = record {
  manifest = some manifest;
  page = λ record_id since_ms limit.
      some (page_of (get_record_envelopes record_id since_ms limit store.records));
}

sync_with_peer-IsClean_example :
    IsClean setting (round_of (sync_with_peer setting peer "http://a/" none 100 (round_with [])))
sync_with_peer-IsClean_example =
    sync_with_peer-IsClean setting peer "http://a/" none 100 (round_with [])
      (record { clean = record { work = tt; durable = tt } })

older_is_current : latest_envelope "ada" (round_with (older ∷ [])).conn.work.records ≡ some older
unfolding latest_envelope
older_is_current = refl

envelope_is_current : latest_envelope "ada" store.records ≡ some envelope
unfolding latest_envelope
envelope_is_current = refl

read_wire : read wire ≡ envelope
unfolding read get?
read_wire = refl

peer-Serves : Serves peer "ada" 100 store
peer-Serves = record { pages = λ since_ms. refl; read_back = (read_wire, tt) }

envelope_passes : (apply_at setting wire (round_with (older ∷ []))).0.reason ≡ applied
unfolding apply_envelope validate_shape first_raised has_key read get? is_record_id matches_class
    is_record_char is_pubkey matches_prefixed is_hex content_depth is_sha256 is_signature
    canonicalize pinned_author_row verify_envelope_signature
envelope_passes = refl

envelope_is_fresh : any (is_row envelope) (round_with (older ∷ [])).conn.work.records ≡ false
envelope_is_fresh = refl

welcome : Welcomes setting (round_with (older ∷ [])) envelope
welcome = record { fresh = envelope_is_fresh; passes = envelope_passes }

pull_decided-latest_envelope_example :
    (e : Envelope) × (latest_envelope "ada"
        (round_of (
          pull_decided setting peer "http://a" "" 100 "ada"
            (decide setting.builtins (some (meta_of older)) (meta_fields (meta_of envelope)))
            none_pulled
            (round_with (older ∷ [])))).conn.work.records
      ≡ some e)
    × (stamp e ≡ stamp envelope)
pull_decided-latest_envelope_example =
    pull_decided-latest_envelope setting peer "http://a" "" 100 "ada" store older envelope
      none_pulled (round_with (older ∷ [])) older_is_current envelope_is_current refl refl
      (omega arith) peer-Serves ((λ same. welcome), tt)
