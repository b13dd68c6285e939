-- ===== src/Sync/Pull/Leads.antt =====
-- A page of envelopes, of which the first is the newest, applied in its order.
use searxng_wth_frnds.Prelude.{
  ℕ, suc, String, Bool, true, false, Option, none, some, List, [], ◌∷◌, ◌≡◌, refl, ap, ◌∙◌, ◌&&◌,
  nat_eq, string_eq, if◌then◌else◌, any, All, In, Bool-cases, inl, inr,
}
use searxng_wth_frnds.Prelude.Json.{Json, Items, arr, obj, nil, cons, end, field, get?}
use searxng_wth_frnds.Sync.Envelope.{Envelope, read}
use searxng_wth_frnds.Sync.Store.{Row, applied, newer, is_row, latest_envelope, node_of}
use searxng_wth_frnds.Sync.Store.Latest.{
  IsNewest, IsLatest, IsNewest-some, latest_envelope-IsLatest, newer_asym, newer_trans,
}
use searxng_wth_frnds.Sync.Store.Advance.{apply_envelope-IsNewest, apply_envelope-IsNewest'}
use searxng_wth_frnds.Prelude.Sorting.{IsSorted}
use searxng_wth_frnds.Sync.Manifest.Page.{stamp, newer_antisym}
use searxng_wth_frnds.Sync.Compare.{pull}
use searxng_wth_frnds.Sync.Pull.{
  Peer, Round, Counts, Setting, apply_at, pull_envelope, pull_envelopes, pull_page, pull_decided,
  is_applied,
}
use searxng_wth_frnds.Sync.Pull.Safe.{round_of}

-- The documents of envelopes, as a page has them.
abbrev pub wires : List Envelope → Items
wires [] = nil
wires (e ∷ es) = cons (obj e.wire) (wires es)

abbrev pub page_of : List Envelope → Json
page_of es = obj (field "envelopes" (arr (wires es)) end)

-- The envelope is what its document reads as.
abbrev pub IsRead : Envelope → Type 0
IsRead e = read e.wire ≡ e

-- The newest of a round's rows of a record.
pub record Leads (record_id : String) (r : Round) (m : Envelope) : Type 0 where
  pub leads : IsNewest record_id r.conn.work.records m

-- The stamp of the current view is that of the newest.
pub Leads-stamp :
    (record_id : String) (rows : List Row) (m : Envelope)
    → IsNewest record_id rows m
    → (o : Option Envelope) → IsLatest record_id rows o
    → (e : Envelope) × (o ≡ some e) × (stamp e ≡ stamp m)
Leads-stamp record_id rows m h none l =
    let (r, i, s) = h.stored in absurd (l r i (ap (λ e. e.record_id) s ∙ h.of_record))
Leads-stamp record_id rows m h (some e) l =
    let (r, i, s) = h.stored in
    let (q, j, t) = l.stored in
    let below : newer e m ≡ false =
      rw (← t) (h.newest q j (ap (λ x. x.record_id) t ∙ l.of_record)) in
    let above : newer m e ≡ false =
      rw (← s) (l.newest r i (ap (λ x. x.record_id) s ∙ h.of_record)) in
    (e, refl, newer_antisym e m below above)

module _ (s : Setting) (peer : Peer) (base peer_label : String) (record_limit : ℕ)
    (record_id : String) where
  Leads-if :
      (m : Envelope) (b : Bool) (x y : Counts × Round)
      → Leads record_id x.1 m
      → Leads record_id y.1 m
      → Leads record_id (if b then x else y).1 m
  Leads-if m true x y h k = h
  Leads-if m false x y h k = k

  -- an envelope that is not newer
  pull_envelope-Leads :
      (e m : Envelope) (c : Counts) (r : Round)
      → Leads record_id r m
      → newer e m ≡ false
      → IsRead e
      → Leads record_id
          (pull_envelope s peer base peer_label record_limit record_id (obj e.wire) c r).1
          m
  unfolding pull_envelope
  pull_envelope-Leads e m c r h old is_read =
      let kept =
        apply_envelope-IsNewest
          (node_of s.codec s.cohort_keys s.lan_trust (s.clock r.readings) s.clock_skew_ms)
          (read e.wire) r.conn record_id m h.leads (rw is_read old) in
      Leads-if m _ _ _ (record { leads = kept }) (record { leads = kept })

  pull_envelopes-Leads :
      (es : List Envelope) (m : Envelope) (c : Counts) (r : Round)
      → Leads record_id r m
      → All (λ e. newer e m ≡ false) es
      → All IsRead es
      → Leads record_id
          (pull_envelopes s peer base peer_label record_limit record_id (wires es) c r).1
          m
  unfolding pull_envelopes
  pull_envelopes-Leads [] m c r h old is_read = h
  pull_envelopes-Leads (e ∷ es) m c r h (o, os) (i, is) =
      pull_envelopes-Leads es m _ _ (pull_envelope-Leads e m c r h o i) os is

  -- the first envelope, which is newer than what is there
  first-Leads :
      (e : Envelope) (c : Counts) (r : Round)
      → e.record_id ≡ record_id
      → IsRead e
      → (apply_at s e.wire r).0.reason ≡ applied
      → any (is_row e) r.conn.work.records ≡ false
      → ((q : Row)
          → In q r.conn.work.records
          → q.envelope.record_id ≡ record_id
          → newer q.envelope e ≡ false)
      → Leads record_id
          (pull_envelope s peer base peer_label record_limit record_id (obj e.wire) c r).1
          e
  unfolding pull_envelope
  first-Leads e c r of_record is_read ok fresh top =
      let node = node_of s.codec s.cohort_keys s.lan_trust (s.clock r.readings) s.clock_skew_ms in
      let leading =
        apply_envelope-IsNewest' node (read e.wire) r.conn record_id e is_read of_record ok fresh
          top in
      elim (Bool-cases
        (is_applied (apply_at s e.wire r).0.reason && (apply_at s e.wire r).0.was_new)) [
          | inl y ↦ rw y (record { leads = leading })
          | inr n ↦ rw n (record { leads = leading })
        ]

  -- a page, the newest first, of which the first envelope is newer than what is there
  pub pull_decided-Leads :
      (since_ms : ℕ) (own e : Envelope) (es : List Envelope) (c : Counts) (r : Round)
      → latest_envelope record_id r.conn.work.records ≡ some own
      → newer e own ≡ true
      → e.record_id ≡ record_id
      → any (is_row e) r.conn.work.records ≡ false
      → (apply_at s e.wire r).0.reason ≡ applied
      → IsSorted newer (e ∷ es)
      → All IsRead (e ∷ es)
      → peer.page record_id since_ms record_limit ≡ some (page_of (e ∷ es))
      → Leads record_id
          (round_of
            (pull_decided s peer base peer_label record_limit record_id (pull since_ms) c r))
          e
  unfolding pull_decided pull_page pull_envelopes get?
  pull_decided-Leads since_ms own e es c r latest later of_record fresh ok (behind, sorted)
        (is_read, are_read) served =
      let newest =
        IsNewest-some record_id r.conn.work.records _ own latest
          (latest_envelope-IsLatest record_id r.conn.work.records) in
      let first =
        first-Leads e (record c { pulled = suc c.pulled }) r of_record is_read ok fresh
          (λ q i f. newer_trans q.envelope own e (newest.newest q i f) (newer_asym e own later)) in
      rw served (pull_envelopes-Leads es e _ _ first behind are_read)

pub All-of : {A : Type 0} (P : A → Type 0) (xs : List A) → ((a : A) → In a xs → P a) → All P xs
All-of P [] h = tt
All-of P (x ∷ xs) h = (h x (inl refl), All-of P xs (λ a i. h a (inr i)))
