-- ===== src/Prelude/Lists.antt =====
-- Lists measured and searched with native numbers and Boolean tests.
use Prim.Native.Nat.{ℕ, zero, suc, ◌+◌, ◌-◌, ◌≤◌}
use mathlib.Core.Path.{◌≡◌, refl, ap, sym, ◌∙◌}
use mathlib.Core.Bool.{Bool, true, false, ◌&&◌, ◌||◌}
use mathlib.Core.Logic.{◌⊎◌, inl, inr}
use mathlib.Core.List.{List, [], ◌∷◌, ◌++◌}
use native.Mathlib.Omega.{arith}
use searxng_wth_frnds.Prelude.Tests.{if◌then◌else◌, Bool-cases}
use searxng_wth_frnds.Prelude.Equality.{Eq, ◌==◌, ==→eq, eq→==}

module _ {ℓ} {A : Type ℓ} where
  abbrev pub length : List A → ℕ
  length [] = 0
  length (x ∷ xs) = suc (length xs)

  abbrev pub is_empty : List A → Bool
  is_empty [] = true
  is_empty (x ∷ xs) = false

  abbrev pub drop : ℕ → List A → List A
  drop zero xs = xs
  drop (suc n) [] = []
  drop (suc n) (x ∷ xs) = drop n xs

  abbrev pub take : ℕ → List A → List A
  take zero xs = []
  take (suc n) [] = []
  take (suc n) (x ∷ xs) = x ∷ take n xs

  -- `[x for x in xs if test x]`.
  abbrev pub keep : (A → Bool) → List A → List A
  keep test [] = []
  keep test (x ∷ xs) = let rest = keep test xs in if test x then x ∷ rest else rest

  -- `any(test(x) for x in xs)`, `all(test(x) for x in xs)`.
  abbrev pub any : (A → Bool) → List A → Bool
  any test [] = false
  any test (x ∷ xs) = test x || any test xs

  abbrev pub all : (A → Bool) → List A → Bool
  all test [] = true
  all test (x ∷ xs) = test x && all test xs

  -- A property of every element, and of some element.
  abbrev pub All {κ} : (A → Type κ) → List A → Type κ
  All P [] = Unit
  All P (x ∷ xs) = P x × All P xs

module _ {A : Type 0} where
  -- `a` stands in the list; the evidence says where.
  abbrev pub In : A → List A → Type 0
  In a [] = ⊥
  In a (x ∷ xs) = (a ≡ x) ⊎ In a xs

  -- No element stands twice.
  abbrev pub Distinct : List A → Type 0
  Distinct [] = Unit
  Distinct (x ∷ xs) = (¬ In x xs) × Distinct xs

  pub All-In : (P : A → Type 0) (xs : List A) (a : A) → All P xs → In a xs → P a
  All-In P [] a h m = absurd m
  All-In P (x ∷ xs) a h (inl e) = rw e h.0
  All-In P (x ∷ xs) a h (inr m) = All-In P xs a h.1 m

  pub In-append_left : (a : A) (xs ys : List A) → In a xs → In a (xs ++ ys)
  In-append_left a [] ys m = absurd m
  In-append_left a (x ∷ xs) ys (inl e) = inl e
  In-append_left a (x ∷ xs) ys (inr m) = inr (In-append_left a xs ys m)

  pub In-append_right : (a : A) (xs ys : List A) → In a ys → In a (xs ++ ys)
  In-append_right a [] ys m = m
  In-append_right a (x ∷ xs) ys m = inr (In-append_right a xs ys m)

  pub In-append_cases : (a : A) (xs ys : List A) → In a (xs ++ ys) → In a xs ⊎ In a ys
  In-append_cases a [] ys m = inr m
  In-append_cases a (x ∷ xs) ys (inl e) = inl (inl e)
  In-append_cases a (x ∷ xs) ys (inr m) = elim (In-append_cases a xs ys m) [
    | inl l ↦ inl (inr l)
    | inr r ↦ inr r
  ]

  -- What `keep` keeps: exactly the elements that pass the test.
  pub In-keep :
      (test : A → Bool) (a : A) (xs : List A) → In a xs → test a ≡ true → In a (keep test xs)
  In-keep test a [] m h = absurd m
  In-keep test a (x ∷ xs) (inl e) h = rw (← e, h) (inl refl)
  In-keep test a (x ∷ xs) (inr m) h = elim (Bool-cases (test x)) [
    | inl k ↦ rw k (inr (In-keep test a xs m h))
    | inr k ↦ rw k (In-keep test a xs m h)
  ]

  pub keep-In :
      (test : A → Bool) (a : A) (xs : List A) → In a (keep test xs) → In a xs × (test a ≡ true)
  keep-In test a [] m = absurd m
  keep-In test a (x ∷ xs) m = elim (Bool-cases (test x)) [
    | inl k ↦ elim (let m' : (a ≡ x) ⊎ In a (keep test xs) = rw k at m in m') [
      | inl e ↦ (inl e, rw e k)
      | inr l ↦ (inr (keep-In test a xs l).0, (keep-In test a xs l).1)
    ]
    | inr k ↦
        let l : In a (keep test xs) = rw k at m in
        (inr (keep-In test a xs l).0, (keep-In test a xs l).1)
  ]

  module _ ⦃e : Eq A⦄ where
    -- `a in xs`.
    abbrev pub elem : A → List A → Bool
    elem a [] = false
    elem a (x ∷ xs) = a == x || elem a xs

    pub elem-In : (a : A) (xs : List A) → elem a xs ≡ true → In a xs
    elem-In a [] h = absurd (ground arith)
    elem-In a (x ∷ xs) h = elim (Bool-cases (a == x)) [
      | inl k ↦ inl (==→eq a x k)
      | inr k ↦ inr (elem-In a xs (ground arith))
    ]

    pub In-elem : (a : A) (xs : List A) → In a xs → elem a xs ≡ true
    In-elem a [] m = absurd m
    In-elem a (x ∷ xs) (inl p) = rw (eq→== a x p)
    In-elem a (x ∷ xs) (inr m) = ground (arith, In-elem a xs m)

pub length-append {ℓ} : {A : Type ℓ} (xs ys : List A) → length (xs ++ ys) ≡ length xs + length ys
length-append [] ys = omega arith
length-append (x ∷ xs) ys = omega (arith, length-append xs ys)

pub length-drop {ℓ} : {A : Type ℓ} (n : ℕ) (xs : List A) → length (drop n xs) ≡ length xs - n
length-drop zero xs = omega arith
length-drop (suc n) [] = omega arith
length-drop (suc n) (x ∷ xs) = omega (arith, length-drop n xs)

pub length-keep-le {ℓ} :
    {A : Type ℓ} (test : A → Bool) (xs : List A) → length (keep test xs) ≤ length xs
length-keep-le test [] = omega arith
length-keep-le test (x ∷ xs) = ground (arith, length-keep-le test xs)

pub drop-append_length {ℓ} : {A : Type ℓ} (xs ys : List A) → drop (length xs) (xs ++ ys) ≡ ys
drop-append_length [] ys = refl
drop-append_length (x ∷ xs) ys = drop-append_length xs ys

pub drop-drop {ℓ} : {A : Type ℓ} (m n : ℕ) (xs : List A) → drop m (drop n xs) ≡ drop (n + m) xs
drop-drop m zero xs = let e : 0 + m ≡ m = omega arith in rw e
drop-drop zero (suc n) [] = let e : suc n + 0 ≡ suc n = omega arith in rw e
drop-drop (suc m) (suc n) [] = let e : suc n + suc m ≡ suc (n + suc m) = omega arith in rw e
drop-drop m (suc n) (x ∷ xs) =
    let e : suc n + m ≡ suc (n + m) = omega arith in rw e (drop-drop m n xs)

pub drop-append_le {ℓ} :
    {A : Type ℓ} (n : ℕ) (xs ys : List A) → n ≤ length xs → drop n (xs ++ ys) ≡ drop n xs ++ ys
drop-append_le zero xs ys h = refl
drop-append_le (suc n) [] ys h = absurd (omega arith)
drop-append_le (suc n) (x ∷ xs) ys h = drop-append_le n xs ys (omega arith)

-- The last `n` elements.
abbrev pub last_of {ℓ} : {A : Type ℓ} → ℕ → List A → List A
last_of n xs = drop (length xs - n) xs

pub last_of-append_last_of {ℓ} :
    {A : Type ℓ} (n : ℕ) (xs ys : List A) → last_of n (last_of n xs ++ ys) ≡ last_of n (xs ++ ys)
last_of-append_last_of n xs ys =
    let a = length xs - n in
    let moved : drop a xs ++ ys ≡ drop a (xs ++ ys) = sym (drop-append_le a xs ys (omega arith)) in
    let count : a + (length (drop a (xs ++ ys)) - n) ≡ length (xs ++ ys) - n =
      omega (arith, length-drop a (xs ++ ys), length-append xs ys) in
    rw moved (drop-drop _ a (xs ++ ys) ∙ ap (λ k. drop k (xs ++ ys)) count)

pub drop-In : {A : Type 0} (n : ℕ) (a : A) (xs : List A) → In a (drop n xs) → In a xs
drop-In zero a xs m = m
drop-In (suc n) a [] m = m
drop-In (suc n) a (x ∷ xs) m = inr (drop-In n a xs m)

pub drop-All {ℓ} :
    {A : Type 0} (P : A → Type ℓ) (n : ℕ) (xs : List A) → All P xs → All P (drop n xs)
drop-All P zero xs h = h
drop-All P (suc n) [] h = h
drop-All P (suc n) (x ∷ xs) h = drop-All P n xs h.1

pub All-append_one {ℓ} :
    {A : Type 0} (P : A → Type ℓ) (xs : List A) (a : A) → All P xs → P a → All P (xs ++ a ∷ [])
All-append_one P [] a h p = (p, tt)
All-append_one P (x ∷ xs) a h p = (h.0, All-append_one P xs a h.1 p)
