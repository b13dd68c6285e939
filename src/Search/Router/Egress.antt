-- ===== src/Search/Router/Egress.antt =====
-- The public web is asked only with the client's confirmation and the policy's leave.
use searxng_wth_frnds.Prelude.{
  Bool, true, false, some, List, [], ◌∷◌, ◌≡◌, refl, ap, ◌∙◌, ◌⊎◌, inl, inr, ◌||◌, string_eq, ◌==◌,
  arith, Bool-cases,
}
use searxng_wth_frnds.Prelude.Dict
use searxng_wth_frnds.Prelude.Dict.{Dict}
use searxng_wth_frnds.Search.Response.{DeliveryPath, self_public_egress, SearchAttempt, path_eq}
use searxng_wth_frnds.Search.Policy.{SearchPolicy, mode_eq}
use searxng_wth_frnds.Search.Query.{QueryContext}
use searxng_wth_frnds.Search.Router.{RouteOutcome, Services, Served, handlers, egress_enabled}
use searxng_wth_frnds.Search.Router.Visit.{
  Turn, resume, context_of, next, stop, visit, visit_handler, after_run, go_on, ask, succeed,
  needs_confirmation, walk, SearchRequest, web_search,
}

-- The same services, with another module behind the egress route.
abbrev pub with_egress : Services → (QueryContext → RouteOutcome) → Services
with_egress s other = record s { egress_search = other }

-- Egress is closed: the client has not confirmed it, or the policy does not allow it.
abbrev pub EgressClosed : SearchPolicy → Bool → Type 0
EgressClosed policy confirmed =
    (confirmed ≡ false) ⊎ (policy.allowed.self_public_egress_allowed ≡ false)

-- An enabled egress handler that is closed meets the gate.
gate_of_closed :
    (s : Services) (ctx : QueryContext) (policy : SearchPolicy) (confirmed : Bool)
    → EgressClosed policy confirmed
    → egress_enabled policy ≡ true
    → needs_confirmation s ctx policy confirmed self_public_egress ≡ true
unfolding egress_enabled needs_confirmation
gate_of_closed s ctx policy confirmed (inl h) e = ground arith
gate_of_closed s ctx policy confirmed (inr h) e = ground arith

module _ (s : Services) (other : QueryContext → RouteOutcome) (ctx : QueryContext)
    (policy : SearchPolicy) (confirmed : Bool) where
  visit_egress :
      (attempts : List SearchAttempt) (fallbacks : List DeliveryPath)
      → EgressClosed policy confirmed
      → visit s ctx policy confirmed self_public_egress attempts fallbacks
        ≡ visit (with_egress s other) ctx policy confirmed self_public_egress attempts fallbacks
  unfolding visit visit_handler handlers ask
  visit_egress attempts fallbacks closed = elim (Bool-cases (egress_enabled policy)) [
    | inl enabled ↦
        rw (enabled, gate_of_closed s ctx policy confirmed closed enabled)
          (rw (gate_of_closed (with_egress s other) ctx policy confirmed closed enabled))
    | inr disabled ↦ rw disabled
  ]

  visit-with_egress :
      (path : DeliveryPath) (attempts : List SearchAttempt) (fallbacks : List DeliveryPath)
      → EgressClosed policy confirmed
      → visit s ctx policy confirmed path attempts fallbacks
        ≡ visit (with_egress s other) ctx policy confirmed path attempts fallbacks
  unfolding visit visit_handler handlers ask after_run go_on succeed needs_confirmation
  visit-with_egress self_public_egress attempts fallbacks closed =
      visit_egress attempts fallbacks closed
  visit-with_egress _ attempts fallbacks closed = refl

  resume-ext :
      (k k' : List SearchAttempt → List DeliveryPath → Served)
      → ((a : List SearchAttempt) (f : List DeliveryPath) → k a f ≡ k' a f)
      → (t : Turn) → resume k t ≡ resume k' t
  resume-ext k k' h (next a f) = h a f
  resume-ext k k' h (stop served) = refl

  walk-with_egress :
      (paths : List DeliveryPath) (attempts : List SearchAttempt) (fallbacks : List DeliveryPath)
      → EgressClosed policy confirmed
      → walk s ctx policy confirmed paths attempts fallbacks
        ≡ walk (with_egress s other) ctx policy confirmed paths attempts fallbacks
  unfolding walk
  walk-with_egress [] attempts fallbacks closed = refl
  walk-with_egress (path ∷ paths) attempts fallbacks closed =
      resume-ext _ _ (λ a f. walk-with_egress paths a f closed)
        (visit s ctx policy confirmed path attempts fallbacks)
      ∙ ap (resume (walk (with_egress s other) ctx policy confirmed paths))
          (visit-with_egress path attempts fallbacks closed)

-- If egress is closed, because the client did not confirm it or the policy does not allow it, then
-- the whole answer of the router, response and effects, is the same whatever the egress module
-- would return: nothing that it returns reaches the client, the audit or the cache.
pub web_search-with_egress :
    (s : Services) (other : QueryContext → RouteOutcome) (policies : Dict SearchPolicy)
    (req : SearchRequest) (policy : SearchPolicy)
    → Dict.lookup req.policy_name policies ≡ some policy
    → EgressClosed policy req.confirm_public_egress
    → web_search s policies req ≡ web_search (with_egress s other) policies req
unfolding web_search
web_search-with_egress s other policies req policy found closed =
    let walked =
      walk-with_egress s other (context_of s req) policy req.confirm_public_egress
        policy.route_order [] [] closed in
    elim (Bool-cases (req.q == "" || s.is_blank req.q)) [
      | inl blank ↦ rw (found, blank)
      | inr asked ↦ rw (found, asked, walked)
    ]
