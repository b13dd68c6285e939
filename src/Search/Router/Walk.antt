-- ===== src/Search/Router/Walk.antt =====
-- What the walk over the routes returns.
use searxng_wth_frnds.Prelude.{true, false, none, some, ◌≡◌, ◌⊎◌, ◌||◌, ◌==◌, string_eq}
use searxng_wth_frnds.Prelude.Dict
use searxng_wth_frnds.Prelude.Dict.{Dict}
use searxng_wth_frnds.Search.Response.{error, path_eq}
use searxng_wth_frnds.Search.Policy.{SearchPolicy, mode_eq}
use searxng_wth_frnds.Search.Router.{Services, Served}
use searxng_wth_frnds.Search.Router.Ends.{EmptyAnswer, Ends}
use searxng_wth_frnds.Search.Router.Visit.{SearchRequest, context_of}

-- How the router answers a request, without results or from a route.
abbrev pub IsAnswered : Services → Dict SearchPolicy → SearchRequest → Served → Type 0
IsAnswered s policies req served =
    ((Dict.lookup req.policy_name policies ≡ none) × EmptyAnswer error served)
    ⊎ ((policy : SearchPolicy) × (Dict.lookup req.policy_name policies ≡ some policy)
        × ((((req.q == "" || s.is_blank req.q) ≡ true) × EmptyAnswer error served)
            ⊎ (((req.q == "" || s.is_blank req.q) ≡ false)
                × Ends s (context_of s req) policy req.confirm_public_egress policy.route_order
                    served)))
