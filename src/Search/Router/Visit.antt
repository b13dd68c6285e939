-- ===== src/Search/Router/Visit.antt =====
-- `web_search` of src/swf/search/router.py: the visit of one route, and the walk over all of them.
use Prim.Native.String.{◌++◌ as str_append}
use searxng_wth_frnds.Prelude.{
  ℕ, String, Bool, true, false, Option, none, some, List, [], ◌∷◌, ◌++◌, ◌&&◌, ◌||◌, not, ◌==◌,
  string_eq, elem, is_empty, if◌then◌else◌,
}
use searxng_wth_frnds.Prelude.Dict
use searxng_wth_frnds.Prelude.Dict.{Dict}
use searxng_wth_frnds.Search.Response.{
  DeliveryPath, local_cache, self_public_egress, path_eq, status_ok, SearchAttempt, SearchResponse,
  Made, made, raised, index_error, make,
}
use searxng_wth_frnds.Search.Policy.{SearchPolicy, deny, mode_eq}
use searxng_wth_frnds.Search.Query.{QueryContext, build_context}
use searxng_wth_frnds.Search.Sufficiency
use searxng_wth_frnds.Search.Router.{
  RouteOutcome, RouteHandler, Services, Effect, stored, audited, Served, handlers, path_or,
  first_path,
}
use searxng_wth_frnds.Search.Router.Serve.{
  policy_block, reason_value, not_implemented_attempt, annotate, no_results_response,
  confirmation_response, error_response,
}

-- The envelope of `_build_response`, with the dominant origin found.
unfoldable pub success_envelope :
    QueryContext
    → SearchPolicy
    → RouteOutcome
    → ℕ
    → List SearchAttempt
    → List DeliveryPath
    → String
    → DeliveryPath
    → SearchResponse
unfolding policy_block
success_envelope ctx policy outcome now_ms attempts fallbacks reason dominant = record {
  status = status_ok;
  request_id = ctx.request_id;
  created_ms = ctx.created_ms;
  completed_ms = now_ms;
  delivery_path = outcome.attempt.path;
  origin_paths = outcome.origin_paths;
  dominant_origin_path = dominant;
  privacy_level = outcome.privacy_level;
  network_used_this_request = outcome.network_used;
  public_egress_used_this_request = outcome.public_egress_used;
  friend_query_visible = outcome.friend_query_visible;
  policy = policy_block policy;
  anonymous_ticket = outcome.anonymous_ticket;
  fallbacks_tried = fallbacks;
  fallback_reason = "";
  warnings = outcome.warnings;
  attempts = attempts;
  results = outcome.results;
  debug = record {
    query_hmac = some ctx.query_hmac;
    sufficient = some true;
    reason = reason;
    proposed_path = none;
  };
}

-- `dominant_origin_path or origin_paths[0]`, which may raise `IndexError`.
unfoldable pub build_response :
    QueryContext
    → SearchPolicy
    → RouteOutcome
    → ℕ
    → List SearchAttempt
    → List DeliveryPath
    → String
    → Made SearchResponse
unfolding success_envelope
build_response ctx policy outcome now_ms attempts fallbacks reason =
    elim (path_or outcome.dominant_origin_path (first_path outcome.origin_paths)) [
      | none ↦ index_error
      | some d ↦ make (success_envelope ctx policy outcome now_ms attempts fallbacks reason d)
    ]

abbrev pub listed_in : Option DeliveryPath → List DeliveryPath → Bool
listed_in none ps = false
listed_in (some p) ps = elem p ps

-- `_maybe_cache`: the writes to the cache.
unfoldable pub maybe_cache : SearchPolicy → RouteOutcome → List Effect
maybe_cache policy outcome =
    if not policy.cache.allow_result_cache
    then []
    else if outcome.attempt.path == local_cache
    then []
    else if not (listed_in outcome.dominant_origin_path policy.cache.allowed_origin_paths)
    then []
    else stored outcome ∷ []

-- The response, with the effects of the calls behind it: none if it raises.
unfoldable pub answer : List Effect → Made SearchResponse → Served
answer effects (made r) = record { response = made r; effects = effects ++ audited r ∷ [] }
answer effects (raised e) = record { response = raised e; effects = [] }
answer effects index_error = record { response = index_error; effects = [] }

-- What a turn of the loop does: go on with longer lists, or return.
pub data Turn : Type 0 where
  next : List SearchAttempt → List DeliveryPath → Turn
  stop : Served → Turn

-- The rest of the loop after a turn.
abbrev pub resume : (List SearchAttempt → List DeliveryPath → Served) → Turn → Served
resume rest (next attempts fallbacks) = rest attempts fallbacks
resume rest (stop served) = served

module _ (s : Services) (ctx : QueryContext) (policy : SearchPolicy)
    (confirm_public_egress : Bool) where
  -- the two gates
  unfoldable pub needs_confirmation : DeliveryPath → Bool
  needs_confirmation path =
      path == self_public_egress
      && not (policy.public_egress.mode == deny)
      && not confirm_public_egress

  unfoldable pub failed_suspiciously : DeliveryPath → RouteOutcome → Bool
  failed_suspiciously path outcome =
      outcome.suspicious_failure
      && policy.public_egress.confirm_after_suspicious_private_failure
      && not (policy.public_egress.mode == deny)
      && not (path == self_public_egress)
      && not confirm_public_egress

  unfoldable pub ask : String → List SearchAttempt → List DeliveryPath → Turn
  ask reason attempts fallbacks =
      stop (answer [] (make (confirmation_response reason ctx policy s.now_ms attempts fallbacks)))

  unfoldable pub go_on : DeliveryPath → RouteOutcome → List SearchAttempt → List DeliveryPath → Turn
  unfolding failed_suspiciously
  go_on path outcome attempts fallbacks =
      if failed_suspiciously path outcome
      then ask "private_route_failed_suspiciously" attempts fallbacks
      else next attempts (fallbacks ++ path ∷ [])

  -- `reputation.enrich_results` changes the results in place, before the response and the cache.
  unfoldable pub succeed : RouteOutcome → List SearchAttempt → List DeliveryPath → String → Turn
  unfolding build_response
  succeed outcome attempts fallbacks reason =
      let enriched : RouteOutcome = record outcome { results = s.enrich_results outcome.results } in
      stop (
        answer (maybe_cache policy enriched)
          (build_response ctx policy enriched s.now_ms attempts fallbacks reason))

  unfoldable pub after_run :
      DeliveryPath → RouteOutcome → List SearchAttempt → List DeliveryPath → Turn
  after_run path outcome attempts fallbacks =
      let suff = Sufficiency.check s.hostname outcome.results ctx in
      let reason = reason_value suff.reason in
      if is_empty outcome.results
      then go_on path outcome (attempts ++ outcome.attempt ∷ []) fallbacks
      else if suff.sufficient
      then succeed outcome (attempts ++ outcome.attempt ∷ []) fallbacks reason
      else go_on path outcome
          (attempts ++ annotate outcome.attempt (str_append "insufficient:" reason) ∷ []) fallbacks

  unfoldable pub visit_handler :
      DeliveryPath → Option RouteHandler → List SearchAttempt → List DeliveryPath → Turn
  visit_handler path none attempts fallbacks =
      next (attempts ++ not_implemented_attempt s.now_ms path ∷ []) (fallbacks ++ path ∷ [])
  visit_handler path (some h) attempts fallbacks =
      if not (h.is_enabled policy)
      then next attempts fallbacks
      else if needs_confirmation path
      then ask "public_egress_requires_confirmation" attempts fallbacks
      else after_run path (h.run ctx policy) attempts fallbacks

  unfoldable pub visit : DeliveryPath → List SearchAttempt → List DeliveryPath → Turn
  visit path = visit_handler path (handlers s path)

  -- the loop over `route_order`, with what follows it
  unfoldable pub walk : List DeliveryPath → List SearchAttempt → List DeliveryPath → Served
  walk [] attempts fallbacks =
      answer [] (make (no_results_response ctx policy s.now_ms attempts fallbacks))
  walk (path ∷ paths) attempts fallbacks =
      resume (λ attempts' fallbacks'. walk paths attempts' fallbacks')
        (visit path attempts fallbacks)

pub record SearchRequest : Type 0 where
  pub q : String
  pub policy_name : String
  pub caller : Option String
  pub requested_top_k : ℕ
  pub request_id : Option String
  pub confirm_public_egress : Bool

abbrev pub context_of : Services → SearchRequest → QueryContext
context_of s req =
    build_context s.tools req.q req.policy_name req.requested_top_k req.caller req.request_id
      s.now_ms

abbrev id_or_error : Option String → String
id_or_error none = "req_error"
id_or_error (some id) = if id == "" then "req_error" else id

unfoldable pub search_with : Services → SearchRequest → Option SearchPolicy → Served
unfolding walk
search_with s req none = answer [] (
    make (
      error_response (id_or_error req.request_id) none
        (str_append "unknown_policy:" req.policy_name) s.now_ms (some req.policy_name) "default"
        s.now_ms))
search_with s req (some policy) =
    let ctx = context_of s req in
    if req.q == "" || s.is_blank req.q
    then answer [] (
        make (
          error_response ctx.request_id (some ctx.query_hmac) "empty_query" ctx.created_ms none
            ctx.policy_name s.now_ms))
    else walk s ctx policy req.confirm_public_egress policy.route_order [] []

-- `web_search`, with the policies that the caller passes.
unfoldable pub web_search : Services → Dict SearchPolicy → SearchRequest → Served
unfolding search_with
web_search s policies req = search_with s req (Dict.lookup req.policy_name policies)
