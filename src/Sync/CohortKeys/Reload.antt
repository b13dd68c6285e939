-- ===== src/Sync/CohortKeys/Reload.antt =====
-- The cache over the loader.
use searxng_wth_frnds.Prelude.{
  String, Option, none, some, List, [], ◌∷◌, ◌≡◌, refl, nat_eq, ◌⊎◌, inl, inr, Bool-cases, ℕ, true,
  false, ap, In, any, ==→eq, ==_refl, arith,
}
use searxng_wth_frnds.Sync.CohortKeys.{
  CohortKeys, Files, load_cohort_keys, is_stale, differs, load_cohort_keys_cached,
}
use searxng_wth_frnds.Sync.CohortKeys.Roster.{IsRoster, load_cohort_keys-IsRoster}

-- The files at each call since the start of the process, the last call first.
abbrev pub after_calls : List String → List Files → Option CohortKeys
after_calls candidates [] = none
after_calls candidates (f ∷ fs) =
    some (load_cohort_keys_cached f candidates (after_calls candidates fs))

-- The cache holds what the loader made of the files at some call.
abbrev pub IsLoaded : List String → List Files → CohortKeys → Type 0
IsLoaded candidates [] k = ⊥
IsLoaded candidates (f ∷ fs) k = (k ≡ load_cohort_keys f candidates) ⊎ IsLoaded candidates fs k

cached-IsLoaded :
    (candidates : List String) (f : Files) (fs : List Files) (cached : Option CohortKeys)
    → ((k : CohortKeys) → cached ≡ some k → IsLoaded candidates fs k)
    → IsLoaded candidates (f ∷ fs) (load_cohort_keys_cached f candidates cached)
unfolding load_cohort_keys_cached
cached-IsLoaded candidates f fs none h = inl refl
cached-IsLoaded candidates f fs (some k) h = elim (Bool-cases (is_stale f candidates k)) [
  | inl y ↦ rw y (inl refl)
  | inr n ↦ rw n (inr (h k refl))
]

IsLoaded-IsRoster :
    (candidates : List String) (fs : List Files) (k : CohortKeys)
    → IsLoaded candidates fs k
    → IsRoster k.members
IsLoaded-IsRoster candidates [] k h = absurd h
IsLoaded-IsRoster candidates (f ∷ fs) k (inl e) = rw e (load_cohort_keys-IsRoster f candidates)
IsLoaded-IsRoster candidates (f ∷ fs) k (inr h) = IsLoaded-IsRoster candidates fs k h

calls-IsLoaded :
    (candidates : List String) (fs : List Files) (k : CohortKeys)
    → after_calls candidates fs ≡ some k
    → IsLoaded candidates fs k
calls-IsLoaded candidates [] k h = cc
calls-IsLoaded candidates (f ∷ fs) k h =
    let same : load_cohort_keys_cached f candidates (after_calls candidates fs) ≡ k = cc in
    rw (← same) (cached-IsLoaded candidates f fs _ (calls-IsLoaded candidates fs))

-- Nothing says that the cached keys are out of date: their file is away or as old as it was read; or
-- there was no file, and there is none now.
abbrev pub IsCurrent : Files → List String → CohortKeys → Type 0
IsCurrent f candidates k =
    ((k.path ≡ none) × ((c : String) → In c candidates → f.is_file c ≡ false))
    ⊎ ((p : String) × (k.path ≡ some p)
        × ((f.mtime_ns p ≡ none) ⊎ (f.mtime_ns p ≡ some k.mtime_ns)))

any-is_file :
    (f : Files) (candidates : List String)
    → any f.is_file candidates ≡ false
    → (c : String) → In c candidates
    → f.is_file c ≡ false
any-is_file f [] h c m = absurd m
any-is_file f (d ∷ ds) h c (inl e) = rw e (ground arith)
any-is_file f (d ∷ ds) h c (inr m) = any-is_file f ds (ground arith) c m

is_file-any :
    (f : Files) (candidates : List String)
    → ((c : String) → In c candidates → f.is_file c ≡ false)
    → any f.is_file candidates ≡ false
is_file-any f [] h = refl
is_file-any f (d ∷ ds) h = rw (h d (inl refl)) (is_file-any f ds (λ c m. h c (inr m)))

same_time : (t : Option ℕ) (old : ℕ) → differs t old ≡ false → (t ≡ none) ⊎ (t ≡ some old)
same_time none old h = inl refl
same_time (some t) old h = inr (ap some (==→eq t old (ground arith)))

not_differs : (t : Option ℕ) (old : ℕ) → (t ≡ none) ⊎ (t ≡ some old) → differs t old ≡ false
not_differs t old (inl e) = rw e refl
not_differs t old (inr e) = rw e (ground (arith, ==_refl old))

is_stale-IsCurrent :
    (f : Files) (candidates : List String) (k : CohortKeys)
    → is_stale f candidates k ≡ false
    → IsCurrent f candidates k
unfolding is_stale
is_stale-IsCurrent f candidates k h = go k.path refl
  where
    go : (o : Option String) → k.path ≡ o → IsCurrent f candidates k
    go none e = inl (e, any-is_file f candidates (rw e at h))
    go (some p) e = inr (p, e, same_time (f.mtime_ns p) k.mtime_ns (rw e at h))

IsCurrent-is_stale :
    (f : Files) (candidates : List String) (k : CohortKeys)
    → IsCurrent f candidates k
    → is_stale f candidates k ≡ false
unfolding is_stale
IsCurrent-is_stale f candidates k (inl (e, none_now)) = rw e (is_file-any f candidates none_now)
IsCurrent-is_stale f candidates k (inr (p, e, t)) = rw e (not_differs (f.mtime_ns p) k.mtime_ns t)

-- What a call at the files `f` leaves in the cache, after earlier calls.
abbrev pub IsServed : List String → Files → List Files → CohortKeys → Type 0
IsServed candidates f fs k =
    ((after_calls candidates fs ≡ some k) × IsCurrent f candidates k)
    ⊎ ((k ≡ load_cohort_keys f candidates)
        × ((old : CohortKeys)
            → after_calls candidates fs ≡ some old
            → ¬ (IsCurrent f candidates old)))

call-IsServed :
    (candidates : List String) (f : Files) (fs : List Files) (cached : Option CohortKeys)
    → after_calls candidates fs ≡ cached
    → IsServed candidates f fs (load_cohort_keys_cached f candidates cached)
unfolding load_cohort_keys_cached
call-IsServed candidates f fs none e = inr (refl, λ old e'. cc)
call-IsServed candidates f fs (some k) e = elim (Bool-cases (is_stale f candidates k)) [
  | inr n ↦ rw n (inl (e, is_stale-IsCurrent f candidates k n))
  | inl y ↦ rw y (inr (refl, λ old e' current. stale old (cc (e, e')) current y))
]
  where
    stale :
        (old : CohortKeys)
        → k ≡ old
        → IsCurrent f candidates old
        → is_stale f candidates k ≡ true
        → ⊥
    stale old same current y = cc (IsCurrent-is_stale f candidates k (rw same current), y)

-- After any calls, and a call at the files `f`: the cached keys are kept exactly if they are current at
-- `f`; else, and at the first call, the cache is what the loader makes of `f`. In each case it is what
-- the loader made of the files at one of the calls, a roster in which handles and keys belong together.
pub after_calls-IsServed :
    (candidates : List String) (f : Files) (fs : List Files) (k : CohortKeys)
    → after_calls candidates (f ∷ fs) ≡ some k
    → IsServed candidates f fs k × IsLoaded candidates (f ∷ fs) k × IsRoster k.members
after_calls-IsServed candidates f fs k h =
    let loaded = calls-IsLoaded candidates (f ∷ fs) k h in
    let same : load_cohort_keys_cached f candidates (after_calls candidates fs) ≡ k = cc in
    (
      rw (← same) (call-IsServed candidates f fs (after_calls candidates fs) refl),
      loaded,
      IsLoaded-IsRoster candidates (f ∷ fs) k loaded,
    )
