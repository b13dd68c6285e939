-- ===== src/Search/Router/Serve.antt =====
-- The second half of src/swf/search/router.py: the envelopes, and the walk of `web_search`.
use searxng_wth_frnds.Prelude.{
  ℕ, String, false, Option, none, some, List, [], ◌∷◌, ◌++◌, ◌||◌, ◌==◌, string_eq, any, elem,
  if◌then◌else◌,
}
use searxng_wth_frnds.Search.Response.{
  DeliveryPath, lan_friend_direct_placeholder, lan_friend_dcnet, self_public_egress, no_result,
  path_eq, privacy_none, Status, no_results, confirmation_required, error, SearchAttempt, no_ticket,
  PolicyBlock, SearchResponse, Debug,
}
use searxng_wth_frnds.Search.Policy.{
  SearchPolicy, RoutingGoal, balanced, privacy_first, latency_first, dev, mode_eq,
}
use searxng_wth_frnds.Search.Query.{QueryContext}
use searxng_wth_frnds.Search.Sufficiency

unfoldable pub goal_value : RoutingGoal → String
goal_value balanced = "balanced"
goal_value privacy_first = "privacy_first"
goal_value latency_first = "latency_first"
goal_value dev = "dev"

-- `_policy_block`.
unfoldable pub policy_block : SearchPolicy → PolicyBlock
unfolding goal_value
policy_block p = record {
  requested = p.name;
  effective = p.name;
  routing_goal = goal_value p.routing_goal;
}

unfoldable pub reason_value : Sufficiency.Reason → String
reason_value Sufficiency.Reason.no_results = "no_results"
reason_value Sufficiency.Reason.freshness_not_met = "freshness_not_met"
reason_value Sufficiency.Reason.single_exact_hit = "single_exact_hit"
reason_value Sufficiency.Reason.too_few_results = "too_few_results"
reason_value Sufficiency.Reason.too_little_source_diversity = "too_little_source_diversity"
reason_value Sufficiency.Reason.top_score_too_low = "top_score_too_low"
reason_value Sufficiency.Reason.mean_score_too_low = "mean_score_too_low"
reason_value Sufficiency.Reason.thresholds_met = "thresholds_met"

-- `_not_implemented_attempt`.
unfoldable pub not_implemented_attempt : ℕ → DeliveryPath → SearchAttempt
not_implemented_attempt now_ms path = record {
  path = path;
  status = "route_not_implemented";
  started_ms = now_ms;
  completed_ms = now_ms;
  duration_ms = 0;
  reason = "handler_not_registered";
  results_count = 0;
  network_used = false;
  public_egress_used = false;
  suspicious_failure = false;
}

-- `_annotate`.
unfoldable pub annotate : SearchAttempt → String → SearchAttempt
annotate a reason = record a { reason = if reason == "" then a.reason else reason }

-- `_ATTEMPT_TO_ORIGIN.get(path)`.
unfoldable pub attempt_to_origin : DeliveryPath → Option DeliveryPath
attempt_to_origin self_public_egress = some self_public_egress
attempt_to_origin lan_friend_dcnet = some lan_friend_dcnet
attempt_to_origin lan_friend_direct_placeholder = some lan_friend_direct_placeholder
attempt_to_origin p = none

abbrev pub add_origin : Option DeliveryPath → List DeliveryPath → List DeliveryPath
add_origin none out = out
add_origin (some p) out = if elem p out then out else out ++ p ∷ []

-- The body of the loop of `_origins_from_attempts`.
abbrev pub add_attempt : List DeliveryPath → SearchAttempt → List DeliveryPath
add_attempt out a =
    if a.network_used || a.public_egress_used
    then add_origin (attempt_to_origin a.path) out
    else out

-- `_origins_from_attempts`, from the list `out` on.
unfoldable pub origins_from_attempts : List DeliveryPath → List SearchAttempt → List DeliveryPath
unfolding attempt_to_origin
origins_from_attempts out [] = out
origins_from_attempts out (a ∷ as') = origins_from_attempts (add_attempt out a) as'

-- The envelope of the two answers without results: every route failed, or egress is not confirmed.
unfoldable pub empty_envelope :
    Status
    → String
    → List String
    → Debug
    → QueryContext
    → SearchPolicy
    → ℕ
    → List SearchAttempt
    → List DeliveryPath
    → SearchResponse
unfolding origins_from_attempts policy_block
empty_envelope status fallback_reason warnings debug ctx policy now_ms attempts fallbacks = record {
  status = status;
  request_id = ctx.request_id;
  created_ms = ctx.created_ms;
  completed_ms = now_ms;
  delivery_path = no_result;
  origin_paths = origins_from_attempts (no_result ∷ []) attempts;
  dominant_origin_path = no_result;
  privacy_level = some privacy_none;
  network_used_this_request = any (λ a. a.network_used) attempts;
  public_egress_used_this_request = any (λ a. a.public_egress_used) attempts;
  friend_query_visible = false;
  policy = policy_block policy;
  anonymous_ticket = no_ticket;
  fallbacks_tried = fallbacks;
  fallback_reason = fallback_reason;
  warnings = warnings;
  attempts = attempts;
  results = [];
  debug = debug;
}

-- The `NO_RESULTS` response at the end of `web_search`.
unfoldable pub no_results_response :
    QueryContext → SearchPolicy → ℕ → List SearchAttempt → List DeliveryPath → SearchResponse
unfolding empty_envelope
no_results_response ctx =
    empty_envelope no_results "all_routes_exhausted" []
      (record {
        query_hmac = some ctx.query_hmac;
        sufficient = some false;
        reason = "no_route_succeeded";
        proposed_path = none;
      })
      ctx

-- `_confirmation_required`.
unfoldable pub confirmation_response :
    String
    → QueryContext
    → SearchPolicy
    → ℕ
    → List SearchAttempt
    → List DeliveryPath
    → SearchResponse
unfolding empty_envelope
confirmation_response reason ctx =
    empty_envelope confirmation_required reason
      ("Confirmation required before falling back to public egress. Retry with confirm_public_egress=true to proceed."
        ∷ [])
      (record {
        query_hmac = some ctx.query_hmac;
        sufficient = none;
        reason = reason;
        proposed_path = some self_public_egress;
      })
      ctx

-- `_error`.
unfoldable pub error_response :
    String → Option String → String → ℕ → Option String → String → ℕ → SearchResponse
error_response request_id query_hmac reason created_ms requested_name ctx_name now_ms = record {
  status = error;
  request_id = request_id;
  created_ms = created_ms;
  completed_ms = now_ms;
  delivery_path = no_result;
  origin_paths = no_result ∷ [];
  dominant_origin_path = no_result;
  privacy_level = some privacy_none;
  network_used_this_request = false;
  public_egress_used_this_request = false;
  friend_query_visible = false;
  policy = record {
    requested = name_or ctx_name requested_name;
    effective = "default";
    routing_goal = "balanced";
  };
  anonymous_ticket = no_ticket;
  fallbacks_tried = [];
  fallback_reason = "";
  warnings = [];
  attempts = [];
  results = [];
  debug = record {
    query_hmac = query_hmac;
    sufficient = none;
    reason = reason;
    proposed_path = none;
  };
}
  where
    name_or : String → Option String → String
    name_or n none = n
    name_or n (some r) = if r == "" then n else r
