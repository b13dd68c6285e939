-- ===== src/Sync/Pull/Safe.antt =====
-- No peer brings into the store what does not pass its checks.
use searxng_wth_frnds.Prelude.{
  ℕ, String, Bool, true, false, Option, some, ◌&&◌, not, is_empty, if◌then◌else◌, Bool-cases, inl,
  inr,
}
use searxng_wth_frnds.Prelude.Dict
use searxng_wth_frnds.Prelude.Dict.{Dict}
use searxng_wth_frnds.Prelude.Json.{Json, Items, Fields, arr, obj, nil, cons, end, field, get?}
use searxng_wth_frnds.Sync.Store.Genuine.{Stores, IsGenuine, delivers, step-Stores}
use searxng_wth_frnds.Sync.Manifest.{Meta, build_manifest, manifest_hash}
use searxng_wth_frnds.Sync.Compare.{Decision, skip, pull, crash, decide}
use searxng_wth_frnds.Sync.Pull.{
  Peer, Round, Counts, Outcome, returned, raised, and_then, Setting, pull_envelope, pull_envelopes,
  pull_values, pull_page, pull_decided, pull_records, pull_diff, with_records, with_manifest,
  sync_with_peer, none_pulled, has_hash, hear,
}

-- The connection that a call leaves, returned or raised.
abbrev pub round_of : Outcome → Round
round_of (returned c r) = r
round_of (raised r) = r

module _ (s : Setting) where
  -- All that is stored is genuine.
  pub record IsClean (r : Round) : Type 0 where
    pub clean : Stores (λ row. IsGenuine s.codec row.envelope) r.conn

  IsClean-if :
      (b : Bool) (x y : Counts × Round) → IsClean x.1 → IsClean y.1 → IsClean (if b then x else y).1
  IsClean-if true x y h k = h
  IsClean-if false x y h k = k

  module _ (peer : Peer) (base peer_label : String) (record_limit : ℕ) where
    pull_envelope-IsClean :
        (record_id : String) (v : Json) (c : Counts) (r : Round)
        → IsClean r
        → IsClean (pull_envelope s peer base peer_label record_limit record_id v c r).1
    unfolding pull_envelope
    pull_envelope-IsClean record_id (obj wire) c r h =
        let stored =
          step-Stores s.codec s.cohort_keys s.lan_trust (s.clock r.readings) s.clock_skew_ms
            (delivers (s.clock r.readings) wire) r.conn h.clean in
        IsClean-if _ _ _ (record { clean = stored }) (record { clean = stored })
    pull_envelope-IsClean record_id v c r h = h

    pull_envelopes-IsClean :
        (record_id : String) (vs : Items) (c : Counts) (r : Round)
        → IsClean r
        → IsClean (pull_envelopes s peer base peer_label record_limit record_id vs c r).1
    unfolding pull_envelopes
    pull_envelopes-IsClean record_id nil c r h = h
    pull_envelopes-IsClean record_id (cons v vs) c r h =
        pull_envelopes-IsClean record_id vs _ _ (pull_envelope-IsClean record_id v c r h)

    pull_values-IsClean :
        (record_id : String) (v : Option Json) (c : Counts) (r : Round)
        → IsClean r
        → IsClean (pull_values s peer base peer_label record_limit record_id v c r).1
    pull_values-IsClean record_id (some (arr vs)) c r h = pull_envelopes-IsClean record_id vs _ r h
    pull_values-IsClean record_id v c r h = h

    pull_page-IsClean :
        (record_id : String) (v : Option Json) (c : Counts) (r : Round)
        → IsClean r
        → IsClean (pull_page s peer base peer_label record_limit record_id v c r).1
    unfolding pull_page
    pull_page-IsClean record_id (some (obj page)) c r h =
        pull_values-IsClean record_id (get? "envelopes" page) c r h
    pull_page-IsClean record_id v c r h = h

    pull_decided-IsClean :
        (record_id : String) (d : Decision) (c : Counts) (r : Round)
        → IsClean r
        → IsClean (round_of (pull_decided s peer base peer_label record_limit record_id d c r))
    unfolding pull_decided
    pull_decided-IsClean record_id skip c r h = h
    pull_decided-IsClean record_id crash c r h = h
    pull_decided-IsClean record_id (pull since_ms) c r h = pull_page-IsClean record_id _ c r h

    and_then-IsClean :
        (o : Outcome) (next : Counts → Round → Outcome)
        → IsClean (round_of o)
        → ((c : Counts) (r : Round) → IsClean r → IsClean (round_of (next c r)))
        → IsClean (round_of (and_then o next))
    and_then-IsClean (returned c r) next h k = k c r h
    and_then-IsClean (raised r) next h k = h

    pull_records-IsClean :
        (local_records : Dict Meta) (d : Fields) (c : Counts) (r : Round)
        → IsClean r
        → IsClean (round_of (pull_records s peer base peer_label record_limit local_records d c r))
    unfolding pull_records
    pull_records-IsClean local_records end c r h = h
    pull_records-IsClean local_records (field record_id (obj remote_meta) d) c r h =
        and_then-IsClean
          (pull_decided s peer base peer_label record_limit record_id
            (decide s.builtins (Dict.lookup record_id local_records) remote_meta) c r)
          (λ c' r'. pull_records s peer base peer_label record_limit local_records d c' r')
          (pull_decided-IsClean record_id
            (decide s.builtins (Dict.lookup record_id local_records) remote_meta) c r h)
          (λ c' r' h'. pull_records-IsClean local_records d c' r' h')
    pull_records-IsClean local_records (field record_id v d) c r h =
        pull_records-IsClean local_records d c r h

  module _ (peer : Peer) (base peer_key peer_label : String) (record_limit : ℕ) where
    pull_diff-IsClean :
        (remote remote_records : Fields) (r : Round)
        → IsClean r
        → IsClean (
            round_of
              (pull_diff s peer base peer_key peer_label record_limit remote remote_records r))
    unfolding pull_diff
    pull_diff-IsClean remote remote_records r h =
        elim (Bool-cases (
          has_hash (get? "manifest_hash" remote)
            (manifest_hash s.codec (build_manifest r.conn.work)))) [
              | inl y ↦ rw y h
              | inr n ↦ rw n (
                  pull_records-IsClean peer base peer_label record_limit
                    (build_manifest r.conn.work) remote_records none_pulled r h)
            ]

    with_records-IsClean :
        (remote : Fields) (v : Option Json) (r : Round)
        → IsClean r
        → IsClean (round_of (with_records s peer base peer_key peer_label record_limit remote v r))
    with_records-IsClean remote (some (obj remote_records)) r h =
        pull_diff-IsClean remote remote_records
          (hear s peer base peer_key peer_label record_limit remote_records r)
          (record { clean = record { work = h.clean.work; durable = h.clean.work } })
    with_records-IsClean remote v r h = record { clean = h.clean }

    with_manifest-IsClean :
        (v : Option Json) (r : Round)
        → IsClean r
        → IsClean (round_of (with_manifest s peer base peer_key peer_label record_limit v r))
    unfolding with_manifest
    with_manifest-IsClean (some (obj remote)) r h =
        with_records-IsClean remote (get? "records" remote) r h
    with_manifest-IsClean v r h = record { clean = h.clean }

  -- Whatever a peer answers, to the manifest and to any page, and also when the call raises: if at first all
  -- that is stored is genuine, in the open transaction and on the disk, then so it is after the call.
  pub sync_with_peer-IsClean :
      (peer : Peer) (peer_url : String) (peer_pubkey : Option String) (record_limit : ℕ) (r : Round)
      → IsClean r
      → IsClean (round_of (sync_with_peer s peer peer_url peer_pubkey record_limit r))
  unfolding sync_with_peer
  sync_with_peer-IsClean peer peer_url peer_pubkey record_limit r h =
      elim (Bool-cases (is_empty s.cohort_keys.members && not s.lan_trust)) [
        | inl y ↦ rw y h
        | inr n ↦ rw n (with_manifest-IsClean peer _ _ _ record_limit peer.manifest r h)
      ]
