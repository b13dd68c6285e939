-- ===== src/Search/Policy/Consistent.antt =====
-- What `_check_consistency` accepts.
use searxng_wth_frnds.Prelude.{
  ℕ, suc, ◌+◌, ◌≤◌, ◌<◌, ◌≡◌, inl, inr, refl, ◌∙◌, Bool, true, false, Option, none, some, List, [],
  ◌∷◌, ◌++◌, ◌&&◌, ◌||◌, not, arith, ◌==◌, elem, any, all, length, In, In-elem, All, Distinct,
  ==→eq, eq→==, Bool-cases, ltb, nat_eq,
}
use searxng_wth_frnds.Prelude.Checks.{raise_if-none, implied, both_ways, unnegate}
use searxng_wth_frnds.Search.Response.{
  DeliveryPath, local_cache, self_public_egress, no_result, mixed, path_eq,
}
use searxng_wth_frnds.Search.Policy.{
  SearchPolicy, PolicyError, allow, mode_eq, route_allowed, to_set, is_private_route, first_index,
  precedes, egress_first, cacheable, check_cache_origins, check_consistency, max_route_order_length,
}

-- A private route stands in the list.
abbrev pub HasPrivate : List DeliveryPath → Type 0
HasPrivate ps = (r : DeliveryPath) × (is_private_route r ≡ true) × In r ps

-- The rules for a policy, stated over its parts.
pub record IsConsistent (p : SearchPolicy) (dev_allowed : Bool) : Type 0 where
  pub short : length p.route_order ≤ max_route_order_length
  pub distinct : Distinct p.route_order
  pub placeholder_dev : p.allowed.lan_friend_direct_placeholder_allowed ≡ true → dev_allowed ≡ true
  pub egress_agrees : p.public_egress.mode ≡ allow → p.allowed.self_public_egress_allowed ≡ true
  pub routes_allowed : All (λ r. route_allowed p.allowed r ≡ true) p.route_order
  pub private_first :
      (pre post : List DeliveryPath)
      → p.route_order ≡ pre ++ self_public_egress ∷ post
      → HasPrivate post
      → HasPrivate pre
  pub origins_cacheable :
      All
        (λ op. (cacheable op ≡ true) × (route_allowed p.allowed op ≡ true))
        p.cache.allowed_origin_paths

length-to_set-le : (ps : List DeliveryPath) → length (to_set ps) ≤ length ps
unfolding to_set
length-to_set-le [] = omega arith
length-to_set-le (p ∷ ps) = ground (arith, length-to_set-le ps)

-- A list is as long as its set exactly if nothing repeats.
pub to_set-Distinct : (ps : List DeliveryPath) → length (to_set ps) ≡ length ps → Distinct ps
unfolding to_set
to_set-Distinct [] h = tt
to_set-Distinct (p ∷ ps) h = elim (Bool-cases (elem p ps)) [
  | inl m ↦ absurd (ground (arith, length-to_set-le ps))
  | inr n ↦ (λ i. both_ways n (In-elem p ps i), to_set-Distinct ps (ground arith))
]

all-All :
    (test : DeliveryPath → Bool) (ps : List DeliveryPath)
    → all test ps ≡ true
    → All (λ p. test p ≡ true) ps
all-All test [] h = tt
all-All test (p ∷ ps) h = (ground arith, all-All test ps (ground arith))

unmatched-All :
    (test : DeliveryPath → Bool) (ps : List DeliveryPath)
    → any test ps ≡ false
    → All (λ p. test p ≡ false) ps
unmatched-All test [] h = tt
unmatched-All test (p ∷ ps) h = (ground arith, unmatched-All test ps (ground arith))

-- If the egress route is found at `pre`'s end and a private one after it, and none in `pre`, then
-- the check fires.
first_index-skip :
    (test : DeliveryPath → Bool) (i : ℕ) (ps qs : List DeliveryPath)
    → All (λ p. test p ≡ false) ps
    → first_index test i (ps ++ qs) ≡ first_index test (i + length ps) qs
unfolding first_index
first_index-skip test i [] qs h = let e : i + 0 ≡ i = omega arith in rw e
first_index-skip test i (p ∷ ps) qs h =
    let e : i + suc (length ps) ≡ suc i + length ps = omega arith in
    rw (h.0, e) (first_index-skip test (suc i) ps qs h.1)

first_index-In :
    (test : DeliveryPath → Bool) (i : ℕ) (r : DeliveryPath) (ps : List DeliveryPath)
    → test r ≡ true
    → In r ps
    → (j : ℕ) × (first_index test i ps ≡ some j) × (i ≤ j)
unfolding first_index
first_index-In test i r [] t m = absurd m
first_index-In test i r (p ∷ ps) t m = elim (Bool-cases (test p)) [
  | inl y ↦ (i, rw y, omega arith)
  | inr n ↦
      let later : In r ps = elim m [ inl e ↦ absurd (both_ways n (rw (← e) t)) | inr k ↦ k ] in
      let (j, found, le) = first_index-In test (suc i) r ps t later in (j, rw n found, omega arith)
]

first_index-le :
    (test : DeliveryPath → Bool) (i : ℕ) (r : DeliveryPath) (pre post : List DeliveryPath)
    → test r ≡ true
    → (j : ℕ) × (first_index test i (pre ++ r ∷ post) ≡ some j) × (j ≤ i + length pre)
unfolding first_index
first_index-le test i r [] post t = (i, rw t, omega arith)
first_index-le test i r (p ∷ pre) post t = elim (Bool-cases (test p)) [
  | inl y ↦ (i, rw y, omega arith)
  | inr n ↦
      let (j, found, le) = first_index-le test (suc i) r pre post t in (j, rw n found, omega arith)
]

any-HasPrivate : (ps : List DeliveryPath) → any is_private_route ps ≡ true → HasPrivate ps
any-HasPrivate [] h = absurd (ground arith)
any-HasPrivate (p ∷ ps) h = elim (Bool-cases (is_private_route p)) [
  | inl y ↦ (p, y, inl refl)
  | inr n ↦ let (r, t, m) = any-HasPrivate ps (ground arith) in (r, t, inr m)
]

precedes-lt : (a b : Option ℕ) (i j : ℕ) → a ≡ some i → b ≡ some j → i < j → precedes a b ≡ true
precedes-lt a b i j p q h = rw (p, q) (ground arith)

egress_first-private :
    (order pre post : List DeliveryPath)
    → egress_first order ≡ false
    → order ≡ pre ++ self_public_egress ∷ post
    → HasPrivate post
    → HasPrivate pre
unfolding egress_first
egress_first-private order pre post h e (r, t, m) = elim (Bool-cases (any is_private_route pre)) [
  | inl y ↦ any-HasPrivate pre y
  | inr n ↦
      let is_egress : DeliveryPath → Bool = λ p. p == self_public_egress in
      let (i, at_egress, early) = first_index-le is_egress 0 self_public_egress pre post refl in
      let (j, at_private, late) =
        first_index-In is_private_route (suc (0 + length pre)) r post t m in
      let skipped =
        first_index-skip is_private_route 0 pre (self_public_egress ∷ post)
          (unmatched-All is_private_route pre n) in
      absurd (
        both_ways h (
          rw e (
            precedes-lt _ _ i j at_egress (skipped ∙ egress_not_private _ post ∙ at_private)
              (omega arith))))
]
  where
    egress_not_private :
        (i : ℕ) (ps : List DeliveryPath)
        → first_index is_private_route i (self_public_egress ∷ ps)
          ≡ first_index is_private_route (suc i) ps
    egress_not_private i ps = refl

cacheable_of :
    (op : DeliveryPath)
    → (op == local_cache) ≡ false
    → (op == no_result || op == mixed) ≡ false
    → cacheable op ≡ true
unfolding cacheable
cacheable_of op h k = ground arith

check_cache_origins-none :
    (ops : List DeliveryPath) {rest : Option PolicyError}
    → check_cache_origins ops rest ≡ none
    → All (λ op. cacheable op ≡ true) ops × (rest ≡ none)
unfolding check_cache_origins
check_cache_origins-none [] h = (tt, h)
check_cache_origins-none (op ∷ ops) h =
    let first = raise_if-none _ _ h in
    let second = raise_if-none _ _ first.1 in
    let (others, last) = check_cache_origins-none ops second.1 in
    ((cacheable_of op first.0 second.0, others), last)

allowed_of_cacheable :
    (test : DeliveryPath → Bool) (ops : List DeliveryPath)
    → All (λ op. cacheable op ≡ true) ops
    → any (λ op. cacheable op && not (test op)) ops ≡ false
    → All (λ op. (cacheable op ≡ true) × (test op ≡ true)) ops
allowed_of_cacheable test [] c h = tt
allowed_of_cacheable test (op ∷ ops) c h =
    ((c.0, ground (arith, c.0)), allowed_of_cacheable test ops c.1 (ground arith))

-- A policy that passes the check is consistent: at most eight routes, none twice, each allowed; the
-- placeholder only for a development policy; the egress mode `allow` only with the egress route
-- allowed; no egress route before the private ones, if there are any behind it; and only routes
-- that are allowed, and no cache or pseudo-route, as origins of cached results.
pub check_consistency-IsConsistent :
    (p : SearchPolicy) (dev_allowed : Bool)
    → check_consistency p dev_allowed ≡ none
    → IsConsistent p dev_allowed
unfolding check_consistency
check_consistency-IsConsistent p dev_allowed h =
    let c1 = raise_if-none _ _ h in
    let c2 = raise_if-none _ _ c1.1 in
    let c3 = raise_if-none _ _ c2.1 in
    let c4 = raise_if-none _ _ c3.1 in
    let c5 = raise_if-none _ _ c4.1 in
    let c6 = raise_if-none _ _ c5.1 in
    let c7 = check_cache_origins-none p.cache.allowed_origin_paths c6.1 in
    let c8 = raise_if-none _ _ c7.1 in
    record {
      short = not_longer (length p.route_order) c1.0;
      distinct = to_set-Distinct p.route_order (==→eq _ _ (unnegate c2.0));
      placeholder_dev = λ e. implied c3.0 e;
      egress_agrees = λ e. implied c4.0 (eq→== p.public_egress.mode _ e);
      routes_allowed = all-All _ p.route_order (unnegate c5.0);
      private_first = λ pre post e m. egress_first-private p.route_order pre post c6.0 e m;
      origins_cacheable = allowed_of_cacheable _ p.cache.allowed_origin_paths c7.0 c8.0;
    }
  where
    not_longer : (n : ℕ) → ltb 8 n ≡ false → n ≤ 8
    not_longer n k = ground arith
