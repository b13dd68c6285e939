-- ===== src/Search/Router/Ends.antt =====
-- How a walk over the routes can end: what the answers of the router are.
use searxng_wth_frnds.Prelude.{
  Bool, true, false, none, some, List, [], ◌∷◌, ◌++◌, ◌≡◌, ◌⊎◌, ◌==◌, string_eq, All, is_empty,
}
use searxng_wth_frnds.Search.Response.{
  DeliveryPath, self_public_egress, SearchAttempt, SearchResponse, made, Status, no_results,
  confirmation_required, path_eq,
}
use searxng_wth_frnds.Search.Response.Invariants.{IsHonest}
use searxng_wth_frnds.Search.Policy.{SearchPolicy, deny, mode_eq}
use searxng_wth_frnds.Search.Query.{QueryContext}
use searxng_wth_frnds.Search.Sufficiency
use searxng_wth_frnds.Search.Router.{
  RouteOutcome, RouteHandler, Services, Served, audited, handlers,
}
use searxng_wth_frnds.Search.Router.Serve.{reason_value}
use searxng_wth_frnds.Search.Router.Visit.{answer, build_response, maybe_cache}

-- An answer without results: an honest envelope of a status, audited, and nothing cached.
abbrev pub EmptyAnswer : Status → Served → Type 0
EmptyAnswer status served =
    (r : SearchResponse) × (served.response ≡ made r)
    × (r.status ≡ status)
    × IsHonest r
    × (r.results ≡ [])
    × (served.effects ≡ audited r ∷ [])

module _ (s : Services) (ctx : QueryContext) (policy : SearchPolicy) (confirmed : Bool) where
  -- The caller has confirmed public egress, or the policy denies it.
  abbrev pub NeedsNoAnswer : Type 0
  NeedsNoAnswer = (confirmed ≡ true) ⊎ ((policy.public_egress.mode == deny) ≡ true)

  -- A route's results are none, or do not suffice.
  abbrev pub IsFruitless : RouteOutcome → Type 0
  IsFruitless o =
      (is_empty o.results ≡ true)
      ⊎ ((Sufficiency.check s.hostname o.results ctx).sufficient ≡ false)

  -- A handler ran in vain, and there was nothing to ask the user.
  pub record IsTried (path : DeliveryPath) (h : RouteHandler) : Type 0 where
    pub consent : path ≡ self_public_egress → confirmed ≡ true
    pub fruitless : IsFruitless (h.run ctx policy)
    pub unsuspicious :
        (h.run ctx policy).suspicious_failure ≡ true
        → policy.public_egress.confirm_after_suspicious_private_failure ≡ true
        → (path == self_public_egress) ≡ false
        → NeedsNoAnswer

  -- The walk passes a route: it has no handler, is not enabled, or was tried.
  abbrev pub IsPassed : DeliveryPath → Type 0
  IsPassed path =
      (handlers s path ≡ none)
      ⊎ ((h : RouteHandler) × (handlers s path ≡ some h)
          × ((h.is_enabled policy ≡ false) ⊎ IsTried path h))

  -- The walk asks at a route: at public egress; or where a private route failed suspiciously, under a
  -- policy that wants to know.
  pub record IsAsked (path : DeliveryPath) : Type 0 where
    pub handler : RouteHandler
    pub found : handlers s path ≡ some handler
    pub enabled : handler.is_enabled policy ≡ true
    pub unconfirmed : confirmed ≡ false
    pub permitted : (policy.public_egress.mode == deny) ≡ false
    pub cause :
        ((path == self_public_egress) ≡ true)
        ⊎ (IsFruitless (handler.run ctx policy)
            × ((handler.run ctx policy).suspicious_failure ≡ true)
            × (policy.public_egress.confirm_after_suspicious_private_failure ≡ true))

  -- The answer is that of a route: of its own results, which suffice, with their reputation; its attempt is
  -- the last one, and the reason is that of the check.
  pub record IsServedBy (path : DeliveryPath) (served : Served) : Type 0 where
    pub handler : RouteHandler
    pub found : handlers s path ≡ some handler
    pub enabled : handler.is_enabled policy ≡ true
    pub consent : path ≡ self_public_egress → confirmed ≡ true
    pub some_results : is_empty (handler.run ctx policy).results ≡ false
    pub sufficient :
        (Sufficiency.check s.hostname (handler.run ctx policy).results ctx).sufficient ≡ true
    pub attempts : List SearchAttempt
    pub fallbacks : List DeliveryPath
    pub is_answer :
        let o = handler.run ctx policy in
        let enriched : RouteOutcome = record o { results = s.enrich_results o.results } in
        served
        ≡ answer (maybe_cache policy enriched) (
            build_response ctx policy enriched s.now_ms
              (attempts ++ o.attempt ∷ [])
              fallbacks
              (reason_value (Sufficiency.check s.hostname o.results ctx).reason))

  -- Where a walk stops.
  abbrev pub StopsAt : DeliveryPath → Served → Type 0
  StopsAt path served =
      (IsAsked path × EmptyAnswer confirmation_required served) ⊎ IsServedBy path served

  -- How a walk ends: all routes are passed, or it stops at the first that is not.
  abbrev pub Ends : List DeliveryPath → Served → Type 0
  Ends paths served =
      (All IsPassed paths × EmptyAnswer no_results served)
      ⊎ ((before : List DeliveryPath) × (path : DeliveryPath) × (after : List DeliveryPath) × (paths
            ≡ before ++ path ∷ after)
          × All IsPassed before
          × StopsAt path served)
