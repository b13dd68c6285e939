-- ===== src/Sync/Store/Latest.antt =====
-- The current view of a record: the last writer wins.
use searxng_wth_frnds.Prelude.{
  String, true, false, Option, none, some, List, [], ◌∷◌, ◌≡◌, ◌≢◌, refl, inl, inr, ◌==◌, nat_eq,
  string_eq, arith, Bool-cases, ==→eq, eq→==, In,
}
use searxng_wth_frnds.Sync.Envelope.{Envelope}
use searxng_wth_frnds.Sync.Store.{Row, text_ltb, newer, keep_newer, latest_envelope}

pub text_ltb_trans :
    (a b c : String) → text_ltb a b ≡ false → text_ltb b c ≡ false → text_ltb a c ≡ false
text_ltb_trans String.[] String.[] c h k = k
text_ltb_trans String.[] (String.◌∷◌ y b) c h k = cc
text_ltb_trans (String.◌∷◌ x a) b String.[] h k = refl
text_ltb_trans (String.◌∷◌ x a) String.[] (String.◌∷◌ z c) h k = cc
text_ltb_trans (String.◌∷◌ x a) (String.◌∷◌ y b) (String.◌∷◌ z c) h k =
    ground (arith, text_ltb_trans a b c)

pub text_ltb_asym : (a b : String) → text_ltb a b ≡ true → text_ltb b a ≡ false
text_ltb_asym String.[] String.[] h = cc
text_ltb_asym String.[] (String.◌∷◌ y b) h = refl
text_ltb_asym (String.◌∷◌ x a) String.[] h = cc
text_ltb_asym (String.◌∷◌ x a) (String.◌∷◌ y b) h = ground (arith, text_ltb_asym a b)

pub text_ltb_irrefl : (a : String) → text_ltb a a ≡ false
text_ltb_irrefl a = elim (Bool-cases (text_ltb a a)) [ inl y ↦ text_ltb_asym a a y | inr n ↦ n ]

pub newer_trans : (a b c : Envelope) → newer a b ≡ false → newer b c ≡ false → newer a c ≡ false
newer_trans a b c h k = ground (
  arith,
  text_ltb_trans c.content_hash b.content_hash a.content_hash,
  text_ltb_trans b.content_hash c.content_hash a.content_hash,
)

pub newer_asym : (a b : Envelope) → newer a b ≡ true → newer b a ≡ false
newer_asym a b h = ground (arith, text_ltb_asym b.content_hash a.content_hash)

pub newer_irrefl : (a : Envelope) → newer a a ≡ false
newer_irrefl a = elim (Bool-cases (newer a a)) [ inl y ↦ newer_asym a a y | inr n ↦ n ]

-- The current envelope of a record among the rows: one of its rows, and none of its rows is newer; or
-- there is no row of the record.
pub record IsNewest (record_id : String) (rows : List Row) (m : Envelope) : Type 0 where
  pub stored : (r : Row) × In r rows × (r.envelope ≡ m)
  pub of_record : m.record_id ≡ record_id
  pub newest : (r : Row) → In r rows → r.envelope.record_id ≡ record_id → newer r.envelope m ≡ false

abbrev pub IsLatest : String → List Row → Option Envelope → Type 0
IsLatest record_id rows none = (r : Row) → In r rows → r.envelope.record_id ≢ record_id
IsLatest record_id rows (some m) = IsNewest record_id rows m

skip_row :
    (record_id : String) (r : Row) (rows : List Row) (o : Option Envelope)
    → r.envelope.record_id ≢ record_id
    → IsLatest record_id rows o
    → IsLatest record_id (r ∷ rows) o
skip_row record_id r rows none n h = none_of
  where
    none_of : (q : Row) → In q (r ∷ rows) → q.envelope.record_id ≢ record_id
    none_of q (inl e) = λ s. n (cc)
    none_of q (inr m) = h q m
skip_row record_id r rows (some m) n h = record {
  stored = let (q, i, e) = h.stored in (q, inr i, e);
  of_record = h.of_record;
  newest = newest_of;
}
  where
    newest_of :
        (q : Row) → In q (r ∷ rows) → q.envelope.record_id ≡ record_id → newer q.envelope m ≡ false
    newest_of q (inl e) s = absurd (n (cc))
    newest_of q (inr i) s = h.newest q i s

take_row :
    (record_id : String) (r : Row) (rows : List Row) (o : Option Envelope)
    → r.envelope.record_id ≡ record_id
    → IsLatest record_id rows o
    → IsLatest record_id (r ∷ rows) (keep_newer r.envelope o)
take_row record_id r rows none s h = record {
  stored = (r, inl refl, refl);
  of_record = s;
  newest = only;
}
  where
    only :
        (q : Row)
        → In q (r ∷ rows)
        → q.envelope.record_id ≡ record_id
        → newer q.envelope r.envelope ≡ false
    only q (inl e) t = rw e (newer_irrefl r.envelope)
    only q (inr i) t = absurd (h q i t)
take_row record_id r rows (some m) s h = elim (Bool-cases (newer m r.envelope)) [
  | inl old ↦ rw old (record {
    stored = let (q, i, e) = h.stored in (q, inr i, e);
    of_record = h.of_record;
    newest = behind old;
  })
  | inr new ↦ rw new (record { stored = (r, inl refl, refl); of_record = s; newest = ahead new })
]
  where
    behind :
        newer m r.envelope ≡ true
        → (q : Row) → In q (r ∷ rows)
        → q.envelope.record_id ≡ record_id
        → newer q.envelope m ≡ false
    behind old q (inl e) t = rw e (newer_asym m r.envelope old)
    behind old q (inr i) t = h.newest q i t

    ahead :
        newer m r.envelope ≡ false
        → (q : Row) → In q (r ∷ rows)
        → q.envelope.record_id ≡ record_id
        → newer q.envelope r.envelope ≡ false
    ahead new q (inl e) t = rw e (newer_irrefl r.envelope)
    ahead new q (inr i) t = newer_trans q.envelope m r.envelope (h.newest q i t) new

-- The last writer wins, in whatever order the rows were stored: the current envelope of a record is one
-- of its rows, and no row of the record is newer, by time and then by content hash; there is none only
-- if no row is of the record.
pub latest_envelope-IsLatest :
    (record_id : String) (rows : List Row)
    → IsLatest record_id rows (latest_envelope record_id rows)
unfolding latest_envelope
latest_envelope-IsLatest record_id [] = λ r m. absurd m
latest_envelope-IsLatest record_id (r ∷ rows) =
    elim (Bool-cases (r.envelope.record_id == record_id)) [
      | inl mine ↦ rw mine (
          take_row record_id r rows _ (==→eq r.envelope.record_id record_id mine)
            (latest_envelope-IsLatest record_id rows))
      | inr other ↦ rw other (
          skip_row record_id r rows _ (λ e. cc (eq→== r.envelope.record_id record_id e))
            (latest_envelope-IsLatest record_id rows))
    ]

pub IsNewest-some :
    (record_id : String) (rows : List Row) (o : Option Envelope) (m : Envelope)
    → o ≡ some m
    → IsLatest record_id rows o
    → IsNewest record_id rows m
IsNewest-some record_id rows none m e h = cc
IsNewest-some record_id rows (some x) m e h = let same : x ≡ m = cc in rw (← same) h
