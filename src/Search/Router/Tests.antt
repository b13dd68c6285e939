-- ===== src/Search/Router/Tests.antt =====
-- The router with concrete modules behind its routes, and its theorems there: a local index that finds
-- nothing, and an egress module that finds one page.
use searxng_wth_frnds.Prelude.{ℕ, Bool, true, false, none, some, [], ◌∷◌, ◌≡◌, ◌↔◌, refl, inl, In}
use searxng_wth_frnds.Prelude.Int.{pos}
use searxng_wth_frnds.Prelude.Dict
use searxng_wth_frnds.Prelude.Dict.{Dict}
use searxng_wth_frnds.Search.Response.{
  validate_invariants, DeliveryPath, local_cache, local_indrex, lan_friend_direct_placeholder,
  lan_friend_dcnet, self_public_egress, public_from_self, SearchAttempt, SearchResult, no_ticket,
  SearchResponse, made, make, is_non_local_origin, is_public_origin, confirmation_required,
}
use searxng_wth_frnds.Search.Response.Invariants.{IsHonest, validate_invariants-IsHonest}
use searxng_wth_frnds.Search.Policy.{
  SearchPolicy, check_consistency, to_set, egress_first, cacheable, route_allowed,
}
use searxng_wth_frnds.Search.Policy.Consistent.{IsConsistent, check_consistency-IsConsistent}
use searxng_wth_frnds.Search.Policy.BuiltIn.{default_policy}
use searxng_wth_frnds.Search.Query.{navigational, medium, no_freshness, build_context}
use searxng_wth_frnds.Prelude.Text.{codes}
use searxng_wth_frnds.Search.Sufficiency.{check}
use searxng_wth_frnds.Search.Router.{RouteOutcome, Services, stored, audited, handlers}
use searxng_wth_frnds.Search.Router.Serve.{confirmation_response, empty_envelope}
use searxng_wth_frnds.Search.Router.Visit.{
  SearchRequest, context_of, web_search, visit, visit_handler, needs_confirmation, ask, go_on,
  succeed, after_run, answer, maybe_cache,
}
use searxng_wth_frnds.Search.Router.Labels.{NamesRoutes, empty_envelope-IsHonest}
use searxng_wth_frnds.Search.Router.Egress.{with_egress, web_search-with_egress}
use searxng_wth_frnds.Search.Router.Caching.{MayStore, web_search-IsHonest, web_search-MayStore}

abbrev attempt : DeliveryPath → ℕ → Bool → SearchAttempt
attempt path n used = record {
  path = path;
  status = "ok";
  started_ms = 40;
  completed_ms = 45;
  duration_ms = 5;
  reason = "";
  results_count = n;
  network_used = used;
  public_egress_used = used;
  suspicious_failure = false;
}

abbrev page : SearchResult
page = record {
  result_id = "r1";
  canonical_url = "https://www.example.org/";
  score = some (pos 9000);
  rank = 1;
  delivery_path = self_public_egress;
  origin_path = self_public_egress;
  provider = record { provider_pubkey = none; provider_label = none; provider_score_local = none };
}

abbrev public_outcome : RouteOutcome
public_outcome = record {
  attempt = attempt self_public_egress 1 true;
  results = page ∷ [];
  origin_paths = self_public_egress ∷ [];
  dominant_origin_path = some self_public_egress;
  privacy_level = some public_from_self;
  warnings = [];
  network_used = true;
  public_egress_used = true;
  friend_query_visible = false;
  suspicious_failure = false;
  anonymous_ticket = no_ticket;
}

abbrev no_outcome : DeliveryPath → RouteOutcome
no_outcome path = record {
  attempt = attempt path 0 false;
  results = [];
  origin_paths = [];
  dominant_origin_path = none;
  privacy_level = none;
  warnings = [];
  network_used = false;
  public_egress_used = false;
  friend_query_visible = false;
  suspicious_failure = false;
  anonymous_ticket = no_ticket;
}

abbrev services : Services
services = record {
  cache_lookup = λ q ps. record {
    attempt = attempt local_cache 0 false;
    results = [];
    origin_paths = [];
    dominant_origin_path = none;
    warnings = [];
  };
  indrex_search = λ q k. record { attempt = attempt local_indrex 0 false; results = [] };
  dcnet_search = λ ctx. no_outcome lan_friend_dcnet;
  dcnet_flag_enabled = false;
  direct_search = λ ctx. no_outcome lan_friend_direct_placeholder;
  egress_search = λ ctx. public_outcome;
  enrich_results = λ rs. rs;
  hostname = λ url. some (codes "www.example.org");
  tools = record {
    normalize_query = λ q. q;
    hmac_query = λ q. "hmac:demo";
    infer_intent = λ q. navigational;
    infer_sensitivity = λ q. medium;
    infer_freshness = λ q. no_freshness;
    make_request_id = "req_1";
  };
  is_blank = λ q. false;
  now_ms = 50;
}

abbrev policies : Dict SearchPolicy
policies = ("default", default_policy) ∷ []

abbrev request : Bool → SearchRequest
request confirmed = record {
  q = "example.org";
  policy_name = "default";
  caller = none;
  requested_top_k = 10;
  request_id = none;
  confirm_public_egress = confirmed;
}

found : Dict.lookup "default" policies ≡ some default_policy
unfolding Dict.lookup
found = refl

consistent : IsConsistent default_policy false
unfolding check_consistency to_set egress_first cacheable route_allowed
consistent = check_consistency-IsConsistent default_policy false refl

-- What the default policy answers without a confirmation.
abbrev asked_back : SearchResponse
asked_back =
    confirmation_response "public_egress_requires_confirmation"
      (context_of services (request false)) default_policy 50
      (attempt local_cache 0 false ∷ attempt local_indrex 0 false ∷ [])
      (local_cache ∷ local_indrex ∷ [])

unconfirmed_asks_back : (web_search services policies (request false)).response ≡ made asked_back
unfolding web_search Dict.lookup visit visit_handler handlers needs_confirmation after_run go_on ask
    answer make confirmation_response
unconfirmed_asks_back = refl

confirmed_caches : In (stored public_outcome) (web_search services policies (request true)).effects
unfolding web_search Dict.lookup visit visit_handler handlers needs_confirmation after_run go_on
    check build_context succeed answer make maybe_cache
confirmed_caches = inl refl

web_search-with_egress_example :
    web_search services policies (request false)
    ≡ web_search
        (with_egress services (λ ctx. no_outcome self_public_egress))
        policies
        (request false)
web_search-with_egress_example =
    web_search-with_egress services (λ ctx. no_outcome self_public_egress) policies (request false)
      default_policy found (inl refl)

web_search-IsHonest_example :
    IsHonest asked_back
    × In (audited asked_back) (web_search services policies (request false)).effects
web_search-IsHonest_example =
    web_search-IsHonest services policies (request false) asked_back unconfirmed_asks_back

web_search-MayStore_example :
    MayStore default_policy public_outcome
    × ((d : DeliveryPath) × (some self_public_egress ≡ some d)
        × (route_allowed default_policy.allowed d ≡ true))
web_search-MayStore_example =
    web_search-MayStore services policies (request true) default_policy false public_outcome found
      consistent confirmed_caches

empty_envelope-IsHonest_example :
    let attempts = attempt self_public_egress 1 true ∷ [] in
    let answer =
      empty_envelope confirmation_required "why" [] asked_back.debug
        (context_of services (request false))
        default_policy
        50
        attempts
        [] in
    IsHonest answer × NamesRoutes attempts answer.origin_paths
unfolding is_non_local_origin
empty_envelope-IsHonest_example =
    empty_envelope-IsHonest confirmation_required "why" [] asked_back.debug
      (context_of services (request false)) default_policy 50
      (attempt self_public_egress 1 true ∷ []) []
      (record { egress = λ e. refl; network = λ e. refl }, tt)

-- A public origin by another delivery than the cache passes without the egress flag.
unflagged_passes :
    validate_invariants (record asked_back {
      delivery_path = local_indrex;
      dominant_origin_path = local_indrex;
      origin_paths = local_indrex ∷ self_public_egress ∷ [];
      network_used_this_request = false;
      public_egress_used_this_request = false;
    })
    ≡ none
unfolding validate_invariants is_non_local_origin is_public_origin confirmation_response
unflagged_passes = refl

validate_invariants-IsHonest_example : (validate_invariants asked_back ≡ none) ↔ IsHonest asked_back
validate_invariants-IsHonest_example = validate_invariants-IsHonest asked_back
