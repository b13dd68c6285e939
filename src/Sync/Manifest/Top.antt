-- ===== src/Sync/Manifest/Top.antt =====
-- The rows that the manifest's query selects have the newest stamp of their record.
use searxng_wth_frnds.Prelude.{
  ℕ, ◌≤◌, String, Bool, true, false, List, [], ◌∷◌, ◌≡◌, refl, sym, ap, ◌∙◌, inl, inr, ◌&&◌, ◌==◌,
  nat_eq, string_eq, arith, In, Bool-cases, ==→eq, eq→==,
}
use searxng_wth_frnds.Sync.Envelope.{Envelope}
use searxng_wth_frnds.Sync.Store.{Row, text_ltb, newer}
use searxng_wth_frnds.Sync.Store.Latest.{IsNewest, text_ltb_trans, text_ltb_asym, text_ltb_irrefl}
use searxng_wth_frnds.Sync.Manifest.{max_wall_ts, max_content_hash, is_top, text_max}
use searxng_wth_frnds.Sync.Manifest.Page.{text_ltb_antisym, stamp}

-- The maximum of the times is one, and at most every bound of them.
In-max_wall_ts :
    (record_id : String) (rows : List Row) (r : Row)
    → In r rows
    → r.envelope.record_id ≡ record_id
    → r.envelope.wall_ts_ms ≤ max_wall_ts record_id rows
unfolding max_wall_ts
In-max_wall_ts record_id [] r i e = absurd i
In-max_wall_ts record_id (q ∷ rows) r (inl same) e =
    let mine : (q.envelope.record_id == record_id) ≡ true =
      eq→== q.envelope.record_id record_id (rw (← same) e) in
    rw (mine, same) (omega arith)
In-max_wall_ts record_id (q ∷ rows) r (inr i) e =
    let below = In-max_wall_ts record_id rows r i e in
    elim (Bool-cases (q.envelope.record_id == record_id)) [
      | inl y ↦ rw y (omega arith)
      | inr n ↦ rw n below
    ]

max_wall_ts_le :
    (record_id : String) (rows : List Row) (bound : ℕ)
    → ((r : Row) → In r rows → r.envelope.record_id ≡ record_id → r.envelope.wall_ts_ms ≤ bound)
    → max_wall_ts record_id rows ≤ bound
unfolding max_wall_ts
max_wall_ts_le record_id [] bound h = omega arith
max_wall_ts_le record_id (q ∷ rows) bound h =
    let below = max_wall_ts_le record_id rows bound (λ r i. h r (inr i)) in
    elim (Bool-cases (q.envelope.record_id == record_id)) [
      | inl y ↦
          let here = h q (inl refl) (==→eq q.envelope.record_id record_id y) in rw y (omega arith)
      | inr n ↦ rw n below
    ]

-- The same of the hashes, by the order of texts.
nothing_less : (s : String) → text_ltb s "" ≡ false
nothing_less String.[] = refl
nothing_less (String.◌∷◌ c s) = refl

text_max_left : (s t : String) → text_ltb (text_max s t) s ≡ false
text_max_left s t = elim (Bool-cases (text_ltb s t)) [
  | inl y ↦ rw y (text_ltb_asym s t y)
  | inr n ↦ rw n (text_ltb_irrefl s)
]

text_max_right : (s t : String) → text_ltb (text_max s t) t ≡ false
text_max_right s t = elim (Bool-cases (text_ltb s t)) [
  | inl y ↦ rw y (text_ltb_irrefl t)
  | inr n ↦ rw n n
]

text_max_bound :
    (bound s t : String)
    → text_ltb bound s ≡ false
    → text_ltb bound t ≡ false
    → text_ltb bound (text_max s t) ≡ false
text_max_bound bound s t h k = elim (Bool-cases (text_ltb s t)) [ inl y ↦ rw y k | inr n ↦ rw n h ]

In-max_content_hash :
    (record_id : String) (ts : ℕ) (rows : List Row) (r : Row)
    → In r rows
    → r.envelope.record_id ≡ record_id
    → r.envelope.wall_ts_ms ≡ ts
    → text_ltb (max_content_hash record_id ts rows) r.envelope.content_hash ≡ false
unfolding max_content_hash
In-max_content_hash record_id ts [] r i e t = absurd i
In-max_content_hash record_id ts (q ∷ rows) r (inl same) e t =
    let of_record = eq→== q.envelope.record_id record_id (rw (← same) e) in
    let at_time = eq→== q.envelope.wall_ts_ms ts (rw (← same) t) in
    let mine : (q.envelope.record_id == record_id && q.envelope.wall_ts_ms == ts) ≡ true =
      rw (of_record, at_time) refl in
    rw (mine, same) (text_max_left q.envelope.content_hash (max_content_hash record_id ts rows))
In-max_content_hash record_id ts (q ∷ rows) r (inr i) e t =
    let below = In-max_content_hash record_id ts rows r i e t in
    elim (Bool-cases (q.envelope.record_id == record_id && q.envelope.wall_ts_ms == ts)) [
      | inl y ↦ rw y (
          text_ltb_trans _ (max_content_hash record_id ts rows) r.envelope.content_hash
            (text_max_right q.envelope.content_hash (max_content_hash record_id ts rows)) below)
      | inr n ↦ rw n below
    ]

max_content_hash_le :
    (record_id : String) (ts : ℕ) (rows : List Row) (bound : String)
    → ((r : Row)
        → In r rows
        → r.envelope.record_id ≡ record_id
        → r.envelope.wall_ts_ms ≡ ts
        → text_ltb bound r.envelope.content_hash ≡ false)
    → text_ltb bound (max_content_hash record_id ts rows) ≡ false
unfolding max_content_hash
max_content_hash_le record_id ts [] bound h = nothing_less bound
max_content_hash_le record_id ts (q ∷ rows) bound h =
    let below = max_content_hash_le record_id ts rows bound (λ r i. h r (inr i)) in
    elim (Bool-cases (q.envelope.record_id == record_id && q.envelope.wall_ts_ms == ts)) [
      | inl y ↦
          let of_record : (q.envelope.record_id == record_id) ≡ true = ground arith in
          let at_time : (q.envelope.wall_ts_ms == ts) ≡ true = ground arith in
          let here = h q (inl refl) (==→eq _ _ of_record) (==→eq _ _ at_time) in
          rw y (text_max_bound bound _ _ here below)
      | inr n ↦ rw n below
    ]

both_true : {a b : Bool} → a ≡ true → b ≡ true → (a && b) ≡ true
both_true h k = ground arith

stamps_equal :
    (a b : Envelope)
    → a.wall_ts_ms ≡ b.wall_ts_ms
    → a.content_hash ≡ b.content_hash
    → stamp a ≡ stamp b
stamps_equal a b h k = cc

not_newer_le : (a m : Envelope) → newer a m ≡ false → a.wall_ts_ms ≤ m.wall_ts_ms
not_newer_le a m h = ground arith

not_newer_hash :
    (a m : Envelope)
    → newer a m ≡ false
    → a.wall_ts_ms ≡ m.wall_ts_ms
    → text_ltb m.content_hash a.content_hash ≡ false
not_newer_hash a m h e = ground arith

-- The rows that the query selects are those with the newest stamp.
module _ (record_id : String) (rows : List Row) (m : Envelope)
    (newest : IsNewest record_id rows m) where
  max_wall_ts-IsNewest : max_wall_ts record_id rows ≡ m.wall_ts_ms
  max_wall_ts-IsNewest =
      let (r, i, s) = newest.stored in
      let above : m.wall_ts_ms ≤ max_wall_ts record_id rows =
        rw (← s) (In-max_wall_ts record_id rows r i (rw s newest.of_record)) in
      let below =
        max_wall_ts_le record_id rows m.wall_ts_ms
          (λ q j e. not_newer_le q.envelope m (newest.newest q j e)) in
      omega arith

  max_content_hash-IsNewest : max_content_hash record_id m.wall_ts_ms rows ≡ m.content_hash
  max_content_hash-IsNewest =
      let (r, i, s) = newest.stored in
      let above =
        In-max_content_hash record_id m.wall_ts_ms rows r i (rw s newest.of_record)
          (ap (λ e. e.wall_ts_ms) s) in
      let below =
        max_content_hash_le record_id m.wall_ts_ms rows m.content_hash
          (λ q j e t. not_newer_hash q.envelope m (newest.newest q j e) t) in
      text_ltb_antisym _ m.content_hash (rw s at above) below

  top_time : (x : String) → x ≡ record_id → max_wall_ts x rows ≡ m.wall_ts_ms
  top_time x e = ap (λ y. max_wall_ts y rows) e ∙ max_wall_ts-IsNewest

  top_hash :
      (x : String) (t : ℕ)
      → x ≡ record_id
      → t ≡ m.wall_ts_ms
      → max_content_hash x t rows ≡ m.content_hash
  top_hash x t e f = rw (e, f) max_content_hash-IsNewest

  pub is_top-stamp :
      (r : Row)
      → r.envelope.record_id ≡ record_id
      → is_top rows r ≡ true
      → stamp r.envelope ≡ stamp m
  unfolding is_top
  is_top-stamp r e top =
      let time : (r.envelope.wall_ts_ms == max_wall_ts r.envelope.record_id rows) ≡ true =
        ground arith in
      let hash : (r.envelope.content_hash
            == max_content_hash r.envelope.record_id r.envelope.wall_ts_ms rows)
          ≡ true =
        ground arith in
      let same_time = ==→eq _ _ time ∙ top_time r.envelope.record_id e in
      let same_hash =
        ==→eq _ _ hash ∙ top_hash r.envelope.record_id r.envelope.wall_ts_ms e same_time in
      stamps_equal r.envelope m same_time same_hash

  pub newest-is_top : (r : Row) → r.envelope ≡ m → is_top rows r ≡ true
  unfolding is_top
  newest-is_top r s =
      let of_record : r.envelope.record_id ≡ record_id =
        ap (λ e. e.record_id) s ∙ newest.of_record in
      let same_time : r.envelope.wall_ts_ms ≡ m.wall_ts_ms = ap (λ e. e.wall_ts_ms) s in
      let same_hash : r.envelope.content_hash ≡ m.content_hash = ap (λ e. e.content_hash) s in
      let time = eq→== _ _ (same_time ∙ sym (top_time r.envelope.record_id of_record)) in
      let hash = eq→== _ _ (
        same_hash
        ∙ sym (top_hash r.envelope.record_id r.envelope.wall_ts_ms of_record same_time)) in
      both_true time hash
