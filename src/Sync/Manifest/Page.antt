-- ===== src/Sync/Manifest/Page.antt =====
-- What a page of a record's envelopes holds.
use Prim.Native.Char.{code}
use mathlib.Core.List.{map}
use text.Mathlib.TextEquality.{Char-path}
use searxng_wth_frnds.Prelude.{
  ℕ, zero, suc, ◌≤◌, ◌<◌, String, false, Option, none, some, List, [], ◌∷◌, ◌≡◌, refl, sym, ap, ◌∙◌,
  inl, inr, nat_eq, string_eq, true, keep, take, length, arith, In, In-keep, keep-In, All, All-In,
  ==→eq, eq→==,
}
use searxng_wth_frnds.Prelude.Sorting.{sort_by, IsSorted, In-sort_by, sort_by-In, sort_by-IsSorted}
use searxng_wth_frnds.Sync.Envelope.{Envelope}
use searxng_wth_frnds.Sync.Store.{Row, text_ltb, newer, latest_envelope}
use searxng_wth_frnds.Sync.Store.Latest.{
  IsNewest-some, IsNewest, latest_envelope-IsLatest, newer_asym, newer_trans,
}
use searxng_wth_frnds.Sync.Manifest.{clamp_limit, is_after, get_record_envelopes}

-- Texts neither of which is less are one text.
pub text_ltb_antisym : (a b : String) → text_ltb a b ≡ false → text_ltb b a ≡ false → a ≡ b
text_ltb_antisym String.[] String.[] h k = refl
text_ltb_antisym String.[] (String.◌∷◌ y b) h k = cc
text_ltb_antisym (String.◌∷◌ x a) String.[] h k = cc
text_ltb_antisym (String.◌∷◌ x a) (String.◌∷◌ y b) h k =
    let same_char : code x ≡ code y = ground arith in
    let ab : text_ltb a b ≡ false = ground arith in
    let ba : text_ltb b a ≡ false = ground arith in
    rw (Char-path x y same_char, text_ltb_antisym a b ab ba) refl

-- The time and the hash, by which the rows of a record are ordered.
abbrev pub stamp : Envelope → ℕ × String
stamp e = (e.wall_ts_ms, e.content_hash)

pub newer_antisym : (a b : Envelope) → newer a b ≡ false → newer b a ≡ false → stamp a ≡ stamp b
newer_antisym a b h k =
    let same_time : a.wall_ts_ms ≡ b.wall_ts_ms = ground arith in
    let ab : text_ltb b.content_hash a.content_hash ≡ false = ground arith in
    let ba : text_ltb a.content_hash b.content_hash ≡ false = ground arith in
    rw (same_time, text_ltb_antisym b.content_hash a.content_hash ab ba) refl

In-map :
    {A B : Type 0} (f : A → B) (b : B) (xs : List A)
    → In b (map f xs)
    → (a : A) × In a xs × (f a ≡ b)
In-map f b [] m = absurd m
In-map f b (x ∷ xs) (inl e) = (x, inl refl, sym e)
In-map f b (x ∷ xs) (inr m) = let (a, i, e) = In-map f b xs m in (a, inr i, e)

map-In : {A B : Type 0} (f : A → B) (a : A) (xs : List A) → In a xs → In (f a) (map f xs)
map-In f a [] m = absurd m
map-In f a (x ∷ xs) (inl e) = inl (ap f e)
map-In f a (x ∷ xs) (inr m) = inr (map-In f a xs m)

take-In : {A : Type 0} (n : ℕ) (a : A) (xs : List A) → In a (take n xs) → In a xs
take-In zero a xs m = absurd m
take-In (suc n) a [] m = absurd m
take-In (suc n) a (x ∷ xs) (inl e) = inl e
take-In (suc n) a (x ∷ xs) (inr m) = inr (take-In n a xs m)

take-All : {A : Type 0} (P : A → Type 0) (n : ℕ) (xs : List A) → All P xs → All P (take n xs)
take-All P zero xs h = tt
take-All P (suc n) [] h = h
take-All P (suc n) (x ∷ xs) h = (h.0, take-All P n xs h.1)

take-IsSorted : (n : ℕ) (es : List Envelope) → IsSorted newer es → IsSorted newer (take n es)
take-IsSorted zero es h = tt
take-IsSorted (suc n) [] h = h
take-IsSorted (suc n) (e ∷ es) (a, s) = (take-All _ n es a, take-IsSorted n es s)

length-take_le : {A : Type 0} (n : ℕ) (xs : List A) → length (take n xs) ≤ n
length-take_le zero xs = omega arith
length-take_le (suc n) [] = omega arith
length-take_le (suc n) (x ∷ xs) = omega (arith, length-take_le n xs)

take_all : {A : Type 0} (n : ℕ) (xs : List A) → length (take n xs) < n → take n xs ≡ xs
take_all zero xs h = absurd (omega arith)
take_all (suc n) [] h = refl
take_all (suc n) (x ∷ xs) h = ap (λ ys. x ∷ ys) (take_all n xs (omega arith))

-- What a prefix of a sorted list leaves out is newer than nothing in the prefix.
take-newest :
    (n : ℕ) (es : List Envelope) (a b : Envelope)
    → IsSorted newer es
    → In a es
    → In b (take n es)
    → newer a b ≡ true
    → In a (take n es)
take-newest zero es a b s i k h = absurd k
take-newest (suc n) [] a b s i k h = absurd i
take-newest (suc n) (e ∷ es) a b s (inl same) k h = inl same
take-newest (suc n) (e ∷ es) a b s (inr i) (inl same) h =
    absurd (behind (All-In _ es a s.0 i) (rw (← same) h))
  where
    behind : newer a e ≡ false → newer a e ≡ true → ⊥
    behind x y = cc
take-newest (suc n) (e ∷ es) a b s (inr i) (inr k) h = inr (take-newest n es a b s.1 i k h)

module _ (record_id : String) (since_ms limit : ℕ) (rows : List Row) where
  abbrev page : List Envelope
  page = get_record_envelopes record_id since_ms limit rows

  abbrev all_after : List Envelope
  all_after = sort_by newer (keep (is_after record_id since_ms) (map (λ r. r.envelope) rows))

  -- A stored envelope of the record after the time.
  abbrev pub IsAfter : Envelope → Type 0
  IsAfter e =
      ((r : Row) × In r rows × (r.envelope ≡ e))
      × (e.record_id ≡ record_id)
      × (since_ms < e.wall_ts_ms)

  all_after-IsAfter : (e : Envelope) → In e all_after → IsAfter e
  all_after-IsAfter e m =
      let (stored, test) = keep-In (is_after record_id since_ms) e _ (sort_by-In newer e _ m) in
      (In-map _ e rows stored, ==→eq e.record_id record_id (ground arith), ground arith)

  IsAfter-all_after : (e : Envelope) → IsAfter e → In e all_after
  IsAfter-all_after e ((r, i, s), of_record, late) =
      let stored : In e (map (λ r. r.envelope) rows) =
        rw (← s) (map-In (λ r. r.envelope) r rows i) in
      let same = eq→== e.record_id record_id of_record in
      In-sort_by newer e _ (In-keep (is_after record_id since_ms) e _ stored (ground (arith, same)))

  all_after-IsSorted : IsSorted newer all_after
  all_after-IsSorted = sort_by-IsSorted newer newer_asym newer_trans _

  pub get_record_envelopes-IsAfter :
      IsSorted newer page
      × (length page ≤ clamp_limit limit)
      × ((e : Envelope) → In e page → IsAfter e)
      × (length page < clamp_limit limit → (e : Envelope) → IsAfter e → In e page)
      × ((e b : Envelope) → IsAfter e → In b page → newer e b ≡ true → In e page)
  unfolding get_record_envelopes
  get_record_envelopes-IsAfter = (
    take-IsSorted (clamp_limit limit) all_after all_after-IsSorted,
    length-take_le (clamp_limit limit) all_after,
    λ e m. all_after-IsAfter e (take-In (clamp_limit limit) e all_after m),
    λ short e a. rw (take_all (clamp_limit limit) all_after short) (IsAfter-all_after e a),
    λ e b a k.
        take-newest (clamp_limit limit) all_after e b all_after-IsSorted (IsAfter-all_after e a) k,
  )

-- The time and the hash of the first envelope.
abbrev pub first_stamp : List Envelope → Option (ℕ × String)
first_stamp [] = none
first_stamp (e ∷ es) = some (stamp e)

clamp_limit_pos : (limit : ℕ) → 1 ≤ clamp_limit limit
clamp_limit_pos limit = omega arith

first_stamp-take : (n : ℕ) (es : List Envelope) → 1 ≤ n → first_stamp (take n es) ≡ first_stamp es
first_stamp-take zero es h = absurd (omega arith)
first_stamp-take (suc n) [] h = refl
first_stamp-take (suc n) (e ∷ es) h = refl

first_stamp-IsSorted :
    (m : Envelope) (es : List Envelope)
    → IsSorted newer es
    → In m es
    → ((e : Envelope) → In e es → newer e m ≡ false)
    → first_stamp es ≡ some (stamp m)
first_stamp-IsSorted m [] s i top = absurd i
first_stamp-IsSorted m (e ∷ es) s (inl same) top = rw same refl
first_stamp-IsSorted m (e ∷ es) (behind, s) (inr i) top =
    ap some (newer_antisym e m (top e (inl refl)) (All-In _ es m behind i))

-- A page after a time before a record's current envelope begins with it, by time and hash.
pub get_record_envelopes-latest_envelope :
    (record_id : String) (since_ms limit : ℕ) (rows : List Row) (m : Envelope)
    → latest_envelope record_id rows ≡ some m
    → since_ms < m.wall_ts_ms
    → first_stamp (get_record_envelopes record_id since_ms limit rows) ≡ some (stamp m)
unfolding get_record_envelopes
get_record_envelopes-latest_envelope record_id since_ms limit rows m e late =
    let newest = IsNewest-some record_id rows _ m e (latest_envelope-IsLatest record_id rows) in
    let inside =
      IsAfter-all_after record_id since_ms limit rows m (newest.stored, newest.of_record, late) in
    first_stamp-take (clamp_limit limit) (all_after record_id since_ms limit rows)
      (clamp_limit_pos limit)
    ∙ first_stamp-IsSorted m (all_after record_id since_ms limit rows)
        (all_after-IsSorted record_id since_ms limit rows) inside (not_newer newest)
  where
    not_newer :
        IsNewest record_id rows m
        → (a : Envelope) → In a (all_after record_id since_ms limit rows)
        → newer a m ≡ false
    not_newer newest a k =
        let (stored, of_record, after) = all_after-IsAfter record_id since_ms limit rows a k in
        let (r, i, same) = stored in rw (← same) (newest.newest r i (rw same of_record))
