-- ===== src/Bundles/Verify/Log.antt =====
-- The table of bundles is a log: every record's versions grow along it.
use searxng_wth_frnds.Prelude.{
  ℕ, suc, ◌≤◌, ◌<◌, String, Bool, true, false, Option, none, some, List, [], ◌∷◌, ◌++◌, ◌≡◌, refl,
  sym, ◌&&◌, not, ◌==◌, string_eq, max, elem, leb, arith, All, All-append_one, Bool-cases, ==→eq,
  eq→==, inl, inr, ◌⊎◌,
}
use searxng_wth_frnds.Prelude.Json.{Json, Fields, obj, get?}
use searxng_wth_frnds.Prelude.Checks.{raise_if-none, unnegate, both_ways}
use searxng_wth_frnds.Sync.Envelope.{text_or_empty, time_or_zero}
use searxng_wth_frnds.Bundles.Envelope.{
  Tools, ShapeError, validate_shape, verify_bundle_signature, cid_for, entries_of,
}
use searxng_wth_frnds.Bundles.Store.{
  Bundle, largest_rowid, bundle_of, has_cid, insert_row, can_bind_row, insert, max_version,
  latest_version,
}
use searxng_wth_frnds.Bundles.Verify.{
  Rosters, VerifyReason, not_greater, check_bundle, verify_bundle, after_shape, or_skipped,
  insert_if, accept,
}

-- Where one row stands before another: its row id is smaller, and so is its version, if they are of one record.
pub record Precedes (a b : Bundle) : Type 0 where
  pub rowid : a.rowid < b.rowid
  pub version : a.kind ≡ b.kind → a.record_id ≡ b.record_id → a.version < b.version

abbrev pub IsChain : List Bundle → Type 0
IsChain [] = Unit
IsChain (b ∷ bs) = All (Precedes b) bs × IsChain bs

-- What the checks gave of a row: the shape, its content id, an author of the roster, and the signature.
pub record IsVerified (t : Tools) (rosters : Rosters) (b : Bundle) : Type 0 where
  pub shaped : validate_shape t (obj b.wire) ≡ none
  pub addressed : b.cid ≡ cid_for t b.wire
  pub authored :
      (b.kind ≡ "search.result")
      ⊎ (elem (text_or_empty (get? "pubkey" (entries_of (get? "author" b.wire)))) rosters.alchemists
          ≡ true)
  pub verified : verify_bundle_signature t b.wire ≡ true

pub record IsLog (t : Tools) (rosters : Rosters) (bs : List Bundle) : Type 0 where
  pub chain : IsChain bs
  pub rows : All (IsVerified t rosters) bs

IsChain-append :
    (bs : List Bundle) (b : Bundle)
    → IsChain bs
    → All (λ a. Precedes a b) bs
    → IsChain (bs ++ b ∷ [])
IsChain-append [] b c h = (tt, tt)
IsChain-append (a ∷ bs) b (c, cs) (h, hs) =
    (All-append_one (Precedes a) bs b c h, IsChain-append bs b cs hs)

-- The largest row id, and the latest version of a record, bound what they are taken over.
largest_rowid-All :
    (bs : List Bundle) (n : ℕ) → largest_rowid bs ≤ n → All (λ a. a.rowid < suc n) bs
unfolding largest_rowid
largest_rowid-All [] n h = tt
largest_rowid-All (b ∷ bs) n h = (omega arith, largest_rowid-All bs n (omega arith))

leb-false : (w p : ℕ) → p < w → leb w p ≡ false
leb-false w p h = ground arith

one_of : (k a : Bool) → (not k && not a) ≡ false → (k ≡ true) ⊎ (a ≡ true)
one_of true a h = inl refl
one_of false a h = inr (unnegate h)

greater_split :
    (w v : ℕ) (rest : Option ℕ)
    → not_greater w (some (max_version v rest)) ≡ false
    → (v < w) × (not_greater w rest ≡ false)
greater_split w v none h = (ground arith, refl)
greater_split w v (some p) h =
    let above : max v p < w = ground arith in (omega arith, leb-false w p (omega arith))

latest_version-All :
    (kind record_id : String) (bs : List Bundle) (w : ℕ)
    → not_greater w (latest_version kind record_id bs) ≡ false
    → All (λ a. a.kind ≡ kind → a.record_id ≡ record_id → a.version < w) bs
unfolding latest_version
latest_version-All kind record_id [] w h = tt
latest_version-All kind record_id (b ∷ bs) w h =
    elim (Bool-cases (b.kind == kind && b.record_id == record_id)) [
      | inl y ↦
          let (this, rest) =
            greater_split w b.version (latest_version kind record_id bs) (rw y at h) in
          ((λ k r. this), latest_version-All kind record_id bs w rest)
      | inr n ↦ (
        λ k r. absurd (both_ways n (rw (eq→== b.kind kind k, eq→== b.record_id record_id r) refl)),
        latest_version-All kind record_id bs w (rw n at h),
      )
    ]

All-zip :
    (P Q R : Bundle → Type 0) (bs : List Bundle)
    → ((a : Bundle) → P a → Q a → R a)
    → All P bs
    → All Q bs
    → All R bs
All-zip P Q R [] f ps qs = tt
All-zip P Q R (b ∷ bs) f (p, ps) (q, qs) = (f b p q, All-zip P Q R bs f ps qs)

module _ (t : Tools) (rosters : Rosters) where
  -- the four facts of an accepted bundle
  record IsChecked (bs : List Bundle) (env : Fields) : Type 0 where
    authored :
        (text_or_empty (get? "kind" env) ≡ "search.result")
        ⊎ (elem (text_or_empty (get? "pubkey" (entries_of (get? "author" env)))) rosters.alchemists
            ≡ true)
    verified : verify_bundle_signature t env ≡ true
    greater :
        not_greater (time_or_zero (get? "version" env)) (
          latest_version
            (text_or_empty (get? "kind" env))
            (text_or_empty (get? "record_id" env))
            bs)
        ≡ false

  check_bundle-IsChecked :
      (bs : List Bundle) (env : Fields) → check_bundle t rosters bs env ≡ none → IsChecked bs env
  unfolding check_bundle
  check_bundle-IsChecked bs env h =
      let (author, h1) = raise_if-none _ _ h in
      let (signature, h2) = raise_if-none _ _ h1 in
      let (version, h3) = raise_if-none _ _ h2 in
      record {
        authored = elim (one_of _ _ author) [ inl k ↦ inl (==→eq _ _ k) | inr a ↦ inr a ];
        verified = unnegate signature;
        greater = version;
      }

  insert_row-IsLog :
      (env : Fields) (bs : List Bundle)
      → validate_shape t (obj env) ≡ none
      → IsChecked bs env
      → IsLog t rosters bs
      → IsLog t rosters (insert_row t env bs).1
  unfolding insert_row bundle_of
  insert_row-IsLog env bs shaped h l = elim (Bool-cases (has_cid (cid_for t env) bs)) [
    | inl y ↦ rw y l
    | inr n ↦ rw n (record {
      chain = IsChain-append bs (bundle_of t (suc (largest_rowid bs)) env) l.chain (
          All-zip _ _ _ bs (λ a r v. record { rowid = r; version = v })
            (largest_rowid-All bs (largest_rowid bs) (omega arith))
            (latest_version-All _ _ bs _ h.greater));
      rows = All-append_one (IsVerified t rosters) bs _ l.rows (record {
        shaped = shaped;
        addressed = refl;
        authored = h.authored;
        verified = h.verified;
      });
    })
  ]

  after_shape-none :
      (e : Option ShapeError) (rest : Option VerifyReason)
      → after_shape e rest ≡ none
      → (e ≡ none) × (rest ≡ none)
  after_shape-none none rest h = (refl, h)
  after_shape-none (some e) rest h = cc

  or_skipped-IsLog :
      (env : Fields) (bs : List Bundle)
      → IsLog t rosters bs
      → IsLog t rosters (insert_row t env bs).1
      → IsLog t rosters (or_skipped bs (insert t env bs)).1
  unfolding insert
  or_skipped-IsLog env bs l h = elim (Bool-cases (can_bind_row env)) [
    | inl y ↦ rw y h
    | inr n ↦ rw n l
  ]

  insert_if-IsLog :
      (env : Fields) (bs : List Bundle) (o : Option VerifyReason)
      → o ≡ verify_bundle t rosters bs (obj env)
      → IsLog t rosters bs
      → IsLog t rosters (insert_if o t env bs).1
  unfolding verify_bundle
  insert_if-IsLog env bs (some reason) e l = l
  insert_if-IsLog env bs none e l =
      let (shaped, checked) = after_shape-none _ _ (sym e) in
      or_skipped-IsLog env bs l
        (insert_row-IsLog env bs shaped (check_bundle-IsChecked bs env checked) l)

  -- An accepted document, or a refused one, leaves a log.
  pub accept-IsLog :
      (v : Json) (bs : List Bundle) → IsLog t rosters bs → IsLog t rosters (accept t rosters v bs).1
  unfolding accept
  accept-IsLog (obj env) bs l = insert_if-IsLog env bs (verify_bundle t rosters bs (obj env)) refl l
  accept-IsLog v bs l = l
