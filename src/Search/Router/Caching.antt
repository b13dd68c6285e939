-- ===== src/Search/Router/Caching.antt =====
-- What the router returns, audits and caches, by one induction over its walk.
use searxng_wth_frnds.Prelude.{
  ℕ, String, Bool, true, false, Option, none, some, List, [], ◌∷◌, ◌≡◌, ◌≢◌, refl, ap, inl, inr,
  ◌||◌, not, ◌==◌, string_eq, Bool-cases, if◌then◌else◌, is_empty, In, In-append_right,
  In-append_cases, elem-In, All-In, eq→==,
}
use mathlib.Core.Path.{subst}
use searxng_wth_frnds.Prelude.Dict
use searxng_wth_frnds.Prelude.Dict.{Dict}
use searxng_wth_frnds.Search.Response.{
  DeliveryPath, local_cache, path_eq, SearchAttempt, SearchResponse, Made, made, raised,
  index_error, make,
}
use searxng_wth_frnds.Search.Response.Invariants.{IsHonest, make-made}
use searxng_wth_frnds.Search.Policy.{SearchPolicy, route_allowed}
use searxng_wth_frnds.Search.Policy.Consistent.{IsConsistent}
use searxng_wth_frnds.Search.Query.{QueryContext}
use searxng_wth_frnds.Search.Sufficiency
use searxng_wth_frnds.Search.Router.{
  RouteOutcome, RouteHandler, Services, Served, Effect, audited, stored, handlers, path_or,
  first_path,
}
use searxng_wth_frnds.Search.Router.Visit.{
  Turn, next, stop, resume, visit, visit_handler, after_run, go_on, ask, succeed, answer,
  build_response, maybe_cache, needs_confirmation, failed_suspiciously, walk, SearchRequest,
  context_of, search_with, web_search, listed_in, success_envelope,
}

module _ (s : Services) (ctx : QueryContext) (policy : SearchPolicy) (confirmed : Bool)
    (P : Served → Type 0) (of_envelope : (r : SearchResponse) → P (answer [] (make r)))
    (of_route : (o : RouteOutcome) (attempts : List SearchAttempt) (fallbacks : List DeliveryPath)
        (reason : String)
      → P (
          answer
            (maybe_cache policy o)
            (build_response ctx policy o s.now_ms attempts fallbacks reason))) where
  data Ends : Turn → Type 0 where
    goes :
        (attempts : List SearchAttempt) (fallbacks : List DeliveryPath)
        → Ends (next attempts fallbacks)
    stops : {served : Served} → P served → Ends (stop served)

  Ends-if : (b : Bool) (t u : Turn) → Ends t → Ends u → Ends (if b then t else u)
  Ends-if true t u h k = h
  Ends-if false t u h k = k

  ask-Ends :
      (reason : String) (attempts : List SearchAttempt) (fallbacks : List DeliveryPath)
      → Ends (ask s ctx policy confirmed reason attempts fallbacks)
  unfolding ask
  ask-Ends reason attempts fallbacks = stops (of_envelope _)

  go_on-Ends :
      (path : DeliveryPath) (o : RouteOutcome) (attempts : List SearchAttempt)
      (fallbacks : List DeliveryPath)
      → Ends (go_on s ctx policy confirmed path o attempts fallbacks)
  unfolding go_on
  go_on-Ends path o attempts fallbacks =
      Ends-if (failed_suspiciously s ctx policy confirmed path o) _ _
        (ask-Ends _ attempts fallbacks) (goes _ _)

  succeed-Ends :
      (o : RouteOutcome) (attempts : List SearchAttempt) (fallbacks : List DeliveryPath)
      (reason : String)
      → Ends (succeed s ctx policy confirmed o attempts fallbacks reason)
  unfolding succeed
  succeed-Ends o attempts fallbacks reason = stops (of_route _ attempts fallbacks reason)

  after_run-Ends :
      (path : DeliveryPath) (o : RouteOutcome) (attempts : List SearchAttempt)
      (fallbacks : List DeliveryPath)
      → Ends (after_run s ctx policy confirmed path o attempts fallbacks)
  unfolding after_run
  after_run-Ends path o attempts fallbacks =
      Ends-if (is_empty o.results) _ _ (go_on-Ends path o _ fallbacks) (
        Ends-if (Sufficiency.check s.hostname o.results ctx).sufficient _ _
          (succeed-Ends o _ fallbacks _) (go_on-Ends path o _ fallbacks))

  visit_handler-Ends :
      (path : DeliveryPath) (h : Option RouteHandler) (attempts : List SearchAttempt)
      (fallbacks : List DeliveryPath)
      → Ends (visit_handler s ctx policy confirmed path h attempts fallbacks)
  unfolding visit_handler
  visit_handler-Ends path none attempts fallbacks = goes _ _
  visit_handler-Ends path (some h) attempts fallbacks =
      Ends-if (not (h.is_enabled policy)) _ _ (goes _ _) (
        Ends-if (needs_confirmation s ctx policy confirmed path) _ _ (ask-Ends _ attempts fallbacks)
          (after_run-Ends path _ attempts fallbacks))

  visit-Ends :
      (path : DeliveryPath) (attempts : List SearchAttempt) (fallbacks : List DeliveryPath)
      → Ends (visit s ctx policy confirmed path attempts fallbacks)
  unfolding visit
  visit-Ends path attempts fallbacks = visit_handler-Ends path (handlers s path) attempts fallbacks

  resume-Ends :
      {t : Turn} (rest : List SearchAttempt → List DeliveryPath → Served)
      → Ends t
      → ((a : List SearchAttempt) (f : List DeliveryPath) → P (rest a f))
      → P (resume rest t)
  resume-Ends rest (goes a f) h = h a f
  resume-Ends rest (stops p) h = p

  -- What holds of every answer that the walk can make holds of its result.
  walk-induction :
      (paths : List DeliveryPath) (attempts : List SearchAttempt) (fallbacks : List DeliveryPath)
      → P (walk s ctx policy confirmed paths attempts fallbacks)
  unfolding walk
  walk-induction [] attempts fallbacks = of_envelope _
  walk-induction (path ∷ paths) attempts fallbacks =
      resume-Ends _ (visit-Ends path attempts fallbacks) (λ a f. walk-induction paths a f)

-- A response that is returned is honest, and it is audited.
record IsSound (served : Served) : Type 0 where
  sound :
      (r : SearchResponse) → served.response ≡ made r → IsHonest r × In (audited r) served.effects

answer-IsSound :
    (effects : List Effect) (m : Made SearchResponse)
    → ((r : SearchResponse) → m ≡ made r → IsHonest r)
    → IsSound (answer effects m)
unfolding answer
answer-IsSound effects (made r) h = record {
  sound =
      λ r' e. (h r' e, In-append_right (audited r') effects _ (inl (ap audited (injected r r' e))));
}
  where
    injected : (r r' : SearchResponse) → Made.made r ≡ made r' → r' ≡ r
    injected r r' e = cc
answer-IsSound effects (raised err) h = record { sound = λ r e. cc }
answer-IsSound effects index_error h = record { sound = λ r e. cc }

make-IsHonest : (r r' : SearchResponse) → make r ≡ made r' → IsHonest r'
make-IsHonest r r' e = let m = make-made r e in subst IsHonest m.1 m.0

build_response-IsHonest :
    (ctx : QueryContext) (policy : SearchPolicy) (o : RouteOutcome) (now_ms : ℕ)
    (attempts : List SearchAttempt) (fallbacks : List DeliveryPath) (reason : String)
    (r : SearchResponse)
    → build_response ctx policy o now_ms attempts fallbacks reason ≡ made r
    → IsHonest r
unfolding build_response
build_response-IsHonest ctx policy o now_ms attempts fallbacks reason r e =
    go (path_or o.dominant_origin_path (first_path o.origin_paths)) refl
  where
    go :
        (d : Option DeliveryPath)
        → path_or o.dominant_origin_path (first_path o.origin_paths) ≡ d
        → IsHonest r
    go none p = cc (rw (p, build_response) at e)
    go (some d) p =
        make-IsHonest (success_envelope ctx policy o now_ms attempts fallbacks reason d) r
          (rw (p, build_response) at e)

-- Every response that `web_search` returns is an honest envelope, and it is audited before it is
-- returned, whatever the routes return.
pub web_search-IsHonest :
    (s : Services) (policies : Dict SearchPolicy) (req : SearchRequest) (r : SearchResponse)
    → (web_search s policies req).response ≡ made r
    → IsHonest r × In (audited r) (web_search s policies req).effects
unfolding web_search
web_search-IsHonest s policies req r e = (served (Dict.lookup req.policy_name policies)).sound r e
  where
    of_envelope : (r' : SearchResponse) → IsSound (answer [] (make r'))
    of_envelope r' = answer-IsSound [] (make r') (make-IsHonest r')

    served : (found : Option SearchPolicy) → IsSound (search_with s req found)
    served none = of_envelope _
    served (some policy) = elim (Bool-cases (req.q == "" || s.is_blank req.q)) [
      | inl blank ↦ rw blank (of_envelope _)
      | inr asked ↦ rw asked (
          walk-induction s (context_of s req) policy req.confirm_public_egress IsSound of_envelope
            (λ o a f reason.
              answer-IsSound _ _ (build_response-IsHonest _ policy o s.now_ms a f reason))
            policy.route_order [] [])
    ]

-- What the policy asks of a result set that is cached.
abbrev pub MayStore : SearchPolicy → RouteOutcome → Type 0
MayStore policy o =
    (policy.cache.allow_result_cache ≡ true)
    × (o.attempt.path ≢ local_cache)
    × ((d : DeliveryPath) × (o.dominant_origin_path ≡ some d)
        × In d policy.cache.allowed_origin_paths)

record StoresAllowed (policy : SearchPolicy) (served : Served) : Type 0 where
  at : (o : RouteOutcome) → In (stored o) served.effects → MayStore policy o

listed_origin :
    (d : Option DeliveryPath) (ps : List DeliveryPath)
    → listed_in d ps ≡ true
    → (p : DeliveryPath) × (d ≡ some p) × In p ps
listed_origin none ps h = cc
listed_origin (some p) ps h = (p, refl, elem-In p ps h)

maybe_cache-MayStore :
    (policy : SearchPolicy) (o o' : RouteOutcome)
    → In (stored o) (maybe_cache policy o')
    → MayStore policy o
unfolding maybe_cache
maybe_cache-MayStore policy o o' m = elim (Bool-cases policy.cache.allow_result_cache) [
  | inr off ↦ absurd (rw off at m)
  | inl on ↦ elim (Bool-cases (o'.attempt.path == local_cache)) [
    | inl replay ↦ absurd (rw (on, replay) at m)
    | inr fresh ↦
        elim (Bool-cases (listed_in o'.dominant_origin_path policy.cache.allowed_origin_paths)) [
          | inr unlisted ↦ absurd (rw (on, fresh, unlisted) at m)
          | inl listed ↦
              subst (MayStore policy) (stored_same (rw (on, fresh, listed) at m))
                (on, not_cache fresh, listed_origin _ _ listed)
        ]
  ]
]
  where
    stored_same : In (stored o) (stored o' ∷ []) → o' ≡ o
    stored_same (inl e) = cc
    stored_same (inr n) = absurd n

    not_cache : (o'.attempt.path == local_cache) ≡ false → o'.attempt.path ≢ local_cache
    not_cache fresh e = cc (eq→== o'.attempt.path local_cache e)

answer-StoresAllowed :
    (policy : SearchPolicy) (effects : List Effect) (m : Made SearchResponse)
    → ((o : RouteOutcome) → In (stored o) effects → MayStore policy o)
    → StoresAllowed policy (answer effects m)
unfolding answer
answer-StoresAllowed policy effects (made r) h = record {
  at = λ o m. elim (In-append_cases (stored o) effects (audited r ∷ []) m) [
    | inl k ↦ h o k
    | inr (inl e) ↦ cc
    | inr (inr n) ↦ absurd n
  ];
}
answer-StoresAllowed policy effects (raised e) h = record { at = λ o m. absurd m }
answer-StoresAllowed policy effects index_error h = record { at = λ o m. absurd m }

-- Whatever `web_search` writes to the cache under a consistent policy, the policy lets results be
-- cached, the result set is no replay of the cache, and its dominant origin is one that the policy
-- lists as cacheable and whose route it allows.
pub web_search-MayStore :
    (s : Services) (policies : Dict SearchPolicy) (req : SearchRequest) (policy : SearchPolicy)
    (dev_allowed : Bool) (o : RouteOutcome)
    → Dict.lookup req.policy_name policies ≡ some policy
    → IsConsistent policy dev_allowed
    → In (stored o) (web_search s policies req).effects
    → MayStore policy o
      × ((d : DeliveryPath) × (o.dominant_origin_path ≡ some d)
          × (route_allowed policy.allowed d ≡ true))
unfolding web_search
web_search-MayStore s policies req policy dev_allowed o found consistent m =
    let may = served.at o (rw found at m) in
    let (d, dominant, listed) = may.2 in
    (
      may,
      (
        d,
        dominant,
        (All-In _ policy.cache.allowed_origin_paths d consistent.origins_cacheable listed).1,
      ),
    )
  where
    of_envelope : (r : SearchResponse) → StoresAllowed policy (answer [] (make r))
    of_envelope r = answer-StoresAllowed policy [] (make r) (λ o' n. absurd n)

    served : StoresAllowed policy (search_with s req (some policy))
    served = elim (Bool-cases (req.q == "" || s.is_blank req.q)) [
      | inl blank ↦ rw blank (of_envelope _)
      | inr asked ↦ rw asked (
          walk-induction s (context_of s req) policy req.confirm_public_egress
            (StoresAllowed policy) of_envelope
            (λ o' a f reason.
              answer-StoresAllowed policy _ _ (λ o'' n. maybe_cache-MayStore policy o'' o' n))
            policy.route_order [] [])
    ]
