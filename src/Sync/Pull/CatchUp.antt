-- ===== src/Sync/Pull/CatchUp.antt =====
-- A record whose newest envelope is at a peer is brought up to date by one call.
use searxng_wth_frnds.Prelude.{
  ℕ, ◌-◌, ◌<◌, ◌≤◌, min, String, true, false, some, List, [], ◌∷◌, ◌≡◌, refl, ap, ◌∙◌, ◌&&◌, not,
  ◌==◌, nat_eq, string_eq, if◌then◌else◌, any, arith, All, All-In,
}
use searxng_wth_frnds.Sync.Envelope.{Envelope}
use searxng_wth_frnds.Sync.Store.{Tables, applied, newer, is_row, latest_envelope}
use searxng_wth_frnds.Sync.Store.Latest.{latest_envelope-IsLatest}
use searxng_wth_frnds.Prelude.Sorting.{IsSorted}
use searxng_wth_frnds.Sync.Manifest.{get_record_envelopes, meta_of, meta_fields}
use searxng_wth_frnds.Sync.Manifest.Page.{
  IsAfter, stamp, first_stamp, get_record_envelopes-IsAfter, get_record_envelopes-latest_envelope,
}
use searxng_wth_frnds.Sync.Compare.{skip, pull, decide}
use searxng_wth_frnds.Sync.Compare.Newer.{decide-newer}
use searxng_wth_frnds.Sync.Pull.{Peer, Round, Counts, Setting, apply_at, pull_decided}
use searxng_wth_frnds.Sync.Pull.Safe.{round_of}
use searxng_wth_frnds.Sync.Pull.Leads.{page_of, IsRead, Leads-stamp, pull_decided-Leads, All-of}

newer-stamp : (a b c : Envelope) → stamp a ≡ stamp b → newer b c ≡ true → newer a c ≡ true
newer-stamp a b c e h =
    let time : a.wall_ts_ms ≡ b.wall_ts_ms = ap (λ x. x.0) e in
    let hash : a.content_hash ≡ b.content_hash = ap (λ x. x.1) e in rw (time, hash) h

since_lt :
    (own other : Envelope)
    → 1 ≤ other.wall_ts_ms
    → min own.wall_ts_ms (other.wall_ts_ms - 1) < other.wall_ts_ms
since_lt own other h = omega arith

-- A peer that serves its store, and of which each envelope is what its document reads as.
pub record Serves (peer : Peer) (record_id : String) (record_limit : ℕ) (t : Tables) : Type 0 where
  pub pages :
      (since_ms : ℕ)
      → peer.page record_id since_ms record_limit
        ≡ some (page_of (get_record_envelopes record_id since_ms record_limit t.records))
  pub read_back : All (λ row. IsRead row.envelope) t.records

-- The node would store an envelope: it does not have its content, and the checks let it pass.
pub record Welcomes (s : Setting) (r : Round) (e : Envelope) : Type 0 where
  pub fresh : any (is_row e) r.conn.work.records ≡ false
  pub passes : (apply_at s e.wire r).0.reason ≡ applied

-- A node with a record pulls it from a peer that serves its store, and whose manifest shows a newer
-- envelope of another content, of a time after 0. If the node does not have the content of that
-- envelope and its checks let the envelope pass, then one call brings the node's current view of the record to
-- the time and hash of the peer's.
pub pull_decided-latest_envelope :
    (s : Setting) (peer : Peer) (base peer_label : String) (record_limit : ℕ) (record_id : String)
    (t : Tables) (own other : Envelope) (c : Counts) (r : Round)
    → latest_envelope record_id r.conn.work.records ≡ some own
    → latest_envelope record_id t.records ≡ some other
    → newer other own ≡ true
    → (other.content_hash == own.content_hash) ≡ false
    → 1 ≤ other.wall_ts_ms
    → Serves peer record_id record_limit t
    → All (λ q. stamp q.envelope ≡ stamp other → Welcomes s r q.envelope) t.records
    → (e : Envelope) × (latest_envelope record_id
          (round_of (
            pull_decided s peer base peer_label record_limit record_id
              (decide s.builtins (some (meta_of own)) (meta_fields (meta_of other)))
              c
              r)).conn.work.records
        ≡ some e)
      × (stamp e ≡ stamp other)
pull_decided-latest_envelope s peer base peer_label record_limit record_id t own other c r
      own_latest other_latest later apart positive serves welcomes =
    let since_ms = min own.wall_ts_ms (other.wall_ts_ms - 1) in
    let decided : decide s.builtins (some (meta_of own)) (meta_fields (meta_of other))
        ≡ pull since_ms =
      decide-newer s.builtins own other ∙ pulls in
    let begins =
      get_record_envelopes-latest_envelope record_id since_ms record_limit t.records other
        other_latest (since_lt own other positive) in
    let (sorted, bounded, after, complete, newest) =
      get_record_envelopes-IsAfter record_id since_ms record_limit t.records in
    rw decided (
      go since_ms _ (All-of _ _ (λ e i. welcome_of e (after e i))) begins sorted
        (All-of IsRead _ (λ e i. read_back e (after e i)))
        (All-of (λ e. e.record_id ≡ record_id) _ (λ e i. (after e i).1)) (serves.pages since_ms))
  where
    read_back :
        (e : Envelope)
        → IsAfter record_id (min own.wall_ts_ms (other.wall_ts_ms - 1)) record_limit t.records e
        → IsRead e
    read_back e (stored, of_record, late) =
        let (q, j, same) = stored in
        rw (← same) (All-In (λ row. IsRead row.envelope) t.records q serves.read_back j)

    pulls :
        (if not (other.content_hash == own.content_hash) && newer other own
          then pull (min own.wall_ts_ms (other.wall_ts_ms - 1))
          else skip)
        ≡ pull (min own.wall_ts_ms (other.wall_ts_ms - 1))
    pulls = rw (apart, later) refl

    welcome_of :
        (e : Envelope)
        → IsAfter record_id (min own.wall_ts_ms (other.wall_ts_ms - 1)) record_limit t.records e
        → stamp e ≡ stamp other
        → Welcomes s r e
    welcome_of e (stored, of_record, late) =
        let (q, j, same) = stored in
        rw (← same) (
          All-In (λ row. stamp row.envelope ≡ stamp other → Welcomes s r row.envelope) t.records q
            welcomes j)

    go :
        (since_ms : ℕ) (es : List Envelope)
        → All (λ e. stamp e ≡ stamp other → Welcomes s r e) es
        → first_stamp es ≡ some (stamp other)
        → IsSorted newer es
        → All IsRead es
        → All (λ e. e.record_id ≡ record_id) es
        → peer.page record_id since_ms record_limit ≡ some (page_of es)
        → (e : Envelope) × (latest_envelope record_id
              (round_of (
                pull_decided s peer base peer_label record_limit record_id
                  (pull since_ms)
                  c
                  r)).conn.work.records
            ≡ some e)
          × (stamp e ≡ stamp other)
    go since_ms [] welcome begins sorted are_read of_record served = cc
    go since_ms (e ∷ es) welcome begins sorted are_read of_record served =
        let same : stamp e ≡ stamp other = cc in
        let here = welcome.0 same in
        let led =
          pull_decided-Leads s peer base peer_label record_limit record_id since_ms own e es c r
            own_latest (newer-stamp e other own same later) of_record.0 here.fresh here.passes
            sorted are_read served in
        let (x, found, equal) =
          Leads-stamp record_id _ e led.leads _ (latest_envelope-IsLatest record_id _) in
        (x, found, equal ∙ same)
