-- ===== src/Prelude/Sorting.antt =====
-- Insertion sort by a Boolean order, as `ORDER BY` and `sorted` sort: equal elements keep their order.
use mathlib.Core.Path.{◌≡◌}
use mathlib.Core.Bool.{Bool, true, false}
use mathlib.Core.Logic.{inl, inr}
use mathlib.Core.List.{List, [], ◌∷◌}
use searxng_wth_frnds.Prelude.Tests.{if◌then◌else◌, Bool-cases}
use searxng_wth_frnds.Prelude.Lists.{In, All}

module _ {A : Type 0} (before : A → A → Bool) where
  unfoldable pub insert_sorted : A → List A → List A
  insert_sorted x [] = x ∷ []
  insert_sorted x (y ∷ ys) =
      let rest = insert_sorted x ys in if before y x then y ∷ rest else x ∷ y ∷ ys

  unfoldable pub sort_by : List A → List A
  unfolding insert_sorted
  sort_by [] = []
  sort_by (x ∷ xs) = insert_sorted x (sort_by xs)

  -- No later element comes before an earlier one.
  abbrev pub IsSorted : List A → Type 0
  IsSorted [] = Unit
  IsSorted (x ∷ xs) = All (λ y. before y x ≡ false) xs × IsSorted xs

  In-insert_sorted : (a x : A) (xs : List A) → In a (x ∷ xs) → In a (insert_sorted x xs)
  unfolding insert_sorted
  In-insert_sorted a x [] m = m
  In-insert_sorted a x (y ∷ ys) m = elim (Bool-cases (before y x)) [
    | inr n ↦ rw n m
    | inl b ↦ rw b (elim m [
      | inl e ↦ inr (In-insert_sorted a x ys (inl e))
      | inr (inl e) ↦ inl e
      | inr (inr k) ↦ inr (In-insert_sorted a x ys (inr k))
    ])
  ]

  insert_sorted-In : (a x : A) (xs : List A) → In a (insert_sorted x xs) → In a (x ∷ xs)
  unfolding insert_sorted
  insert_sorted-In a x [] m = m
  insert_sorted-In a x (y ∷ ys) m = elim (Bool-cases (before y x)) [
    | inr n ↦ rw n at m
    | inl b ↦ elim (let m' : In a (y ∷ insert_sorted x ys) = rw b at m in m') [
      | inl e ↦ inr (inl e)
      | inr k ↦ elim (insert_sorted-In a x ys k) [ inl e ↦ inl e | inr j ↦ inr (inr j) ]
    ]
  ]

  -- Sorting moves elements and neither adds nor drops any.
  pub In-sort_by : (a : A) (xs : List A) → In a xs → In a (sort_by xs)
  unfolding sort_by
  In-sort_by a [] m = m
  In-sort_by a (x ∷ xs) (inl e) = In-insert_sorted a x (sort_by xs) (inl e)
  In-sort_by a (x ∷ xs) (inr m) = In-insert_sorted a x (sort_by xs) (inr (In-sort_by a xs m))

  pub sort_by-In : (a : A) (xs : List A) → In a (sort_by xs) → In a xs
  unfolding sort_by
  sort_by-In a [] m = m
  sort_by-In a (x ∷ xs) m = elim (insert_sorted-In a x (sort_by xs) m) [
    | inl e ↦ inl e
    | inr k ↦ inr (sort_by-In a xs k)
  ]

  All-insert_sorted :
      (P : A → Type 0) (x : A) (xs : List A) → P x → All P xs → All P (insert_sorted x xs)
  unfolding insert_sorted
  All-insert_sorted P x [] p ps = (p, tt)
  All-insert_sorted P x (y ∷ ys) p ps = elim (Bool-cases (before y x)) [
    | inr n ↦ rw n (p, ps)
    | inl b ↦ rw b (ps.0, All-insert_sorted P x ys p ps.1)
  ]

  -- `before` is asymmetric, and not before is transitive: a strict weak order.
  module _ (asym : (a b : A) → before a b ≡ true → before b a ≡ false)
      (trans_not : (a b c : A) → before a b ≡ false → before b c ≡ false → before a c ≡ false) where
    behind-All :
        (x y : A) (ys : List A)
        → before y x ≡ false
        → All (λ z. before z y ≡ false) ys
        → All (λ z. before z x ≡ false) ys
    behind-All x y [] h a = tt
    behind-All x y (z ∷ zs) h a = (trans_not z y x a.0 h, behind-All x y zs h a.1)

    insert_sorted-IsSorted : (x : A) (xs : List A) → IsSorted xs → IsSorted (insert_sorted x xs)
    unfolding insert_sorted
    insert_sorted-IsSorted x [] s = (tt, tt)
    insert_sorted-IsSorted x (y ∷ ys) (a, s) = elim (Bool-cases (before y x)) [
      | inr n ↦ rw n ((n, behind-All x y ys n a), (a, s))
      | inl b ↦ rw b (
        All-insert_sorted (λ z. before z y ≡ false) x ys (asym y x b) a,
        insert_sorted-IsSorted x ys s,
      )
    ]

    pub sort_by-IsSorted : (xs : List A) → IsSorted (sort_by xs)
    unfolding sort_by
    sort_by-IsSorted [] = tt
    sort_by-IsSorted (x ∷ xs) = insert_sorted-IsSorted x (sort_by xs) (sort_by-IsSorted xs)
