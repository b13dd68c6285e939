-- ===== src/Search/Router.antt =====
-- src/swf/search/route.py and router.py: the walk over a policy's routes. What a route's own module
-- returns is a parameter (`Services`), with the reading of the clock; the router's part of it, the
-- adapters, the gates, the response and the cache write, is here. `run` returns the response with
-- the effects in their order: a cache write, and the audit of the response.
pub mod Serve
pub mod Visit
pub mod Labels
pub mod Ends
pub mod Turns
pub mod Walk
pub mod Egress
pub mod Caching
mod Tests
use searxng_wth_frnds.Prelude.{
  ℕ, String, Bool, true, false, Option, none, some, List, [], ◌∷◌, ◌++◌, ◌&&◌, ◌||◌, not, ◌==◌,
  string_eq, any, elem, is_empty, if◌then◌else◌,
}
use searxng_wth_frnds.Prelude.Dict
use searxng_wth_frnds.Prelude.Dict.{Dict}
use searxng_wth_frnds.Search.Response.{
  DeliveryPath, local_cache, local_indrex, lan_friend_direct_placeholder, lan_friend_dcnet,
  self_public_egress, no_result, mixed, path_eq, PrivacyLevel, local_only, local_replay,
  local_replay_of_public_result, privacy_none, Status, status_ok, no_results, confirmation_required,
  error, SearchAttempt, SearchResult, TicketBlock, no_ticket, PolicyBlock, SearchResponse, Made,
  made, raised, index_error, make, privacy_eq,
}
use searxng_wth_frnds.Search.Policy.{
  SearchPolicy, RoutingGoal, balanced, privacy_first, latency_first, dev, deny, mode_eq,
}
use searxng_wth_frnds.Search.Query.{QueryContext, QueryTools, build_context}
use searxng_wth_frnds.Search.Sufficiency
use searxng_wth_frnds.Search.Sufficiency.{Sufficiency, Reason, check}

-- route.py. `extras` only reach the debug block and are left out.
pub record RouteOutcome : Type 0 where
  pub attempt : SearchAttempt
  pub results : List SearchResult
  pub origin_paths : List DeliveryPath
  pub dominant_origin_path : Option DeliveryPath
  pub privacy_level : Option PrivacyLevel
  pub warnings : List String
  pub network_used : Bool
  pub public_egress_used : Bool
  pub friend_query_visible : Bool
  pub suspicious_failure : Bool
  pub anonymous_ticket : TicketBlock

pub record RouteHandler : Type 0 where
  pub is_enabled : SearchPolicy → Bool
  pub run : QueryContext → SearchPolicy → RouteOutcome

-- What `local_cache.lookup` and `local_indrex.search` return.
pub record CacheResultSet : Type 0 where
  pub attempt : SearchAttempt
  pub results : List SearchResult
  pub origin_paths : List DeliveryPath
  pub dominant_origin_path : Option DeliveryPath
  pub warnings : List String

pub record IndrexResultSet : Type 0 where
  pub attempt : SearchAttempt
  pub results : List SearchResult

-- The modules that the router calls.
pub record Services : Type 0 where
  pub cache_lookup : String → List DeliveryPath → CacheResultSet
  pub indrex_search : String → ℕ → IndrexResultSet
  pub dcnet_search : QueryContext → RouteOutcome
  pub dcnet_flag_enabled : Bool
  pub direct_search : QueryContext → RouteOutcome
  pub egress_search : QueryContext → RouteOutcome
  pub enrich_results : List SearchResult → List SearchResult
  pub hostname : String → Option (List ℕ)
  pub tools : QueryTools
  pub is_blank : String → Bool
  pub now_ms : ℕ

pub data Effect : Type 0 where
  stored : RouteOutcome → Effect
  audited : SearchResponse → Effect

pub record Served : Type 0 where
  pub response : Made SearchResponse
  pub effects : List Effect

-- `_privacy_for_cache_replay`.
unfoldable pub privacy_for_cache_replay : List DeliveryPath → PrivacyLevel
privacy_for_cache_replay origins =
    if elem self_public_egress origins then local_replay_of_public_result else local_replay

abbrev first_path : List DeliveryPath → Option DeliveryPath
first_path [] = none
first_path (p ∷ ps) = some p

-- `a or b`, for paths that may be `None` (no member is falsy).
abbrev pub path_or : Option DeliveryPath → Option DeliveryPath → Option DeliveryPath
path_or none other = other
path_or (some p) other = some p

-- `_cache_handler`: the set that the cache returned, labelled by its origins.
unfoldable pub cache_handler : CacheResultSet → RouteOutcome
unfolding privacy_for_cache_replay
cache_handler rs =
    let privacy = privacy_for_cache_replay rs.origin_paths in
    let hit = not (is_empty rs.results) in
    record {
      attempt = rs.attempt;
      results = rs.results;
      origin_paths = rs.origin_paths;
      dominant_origin_path = path_or rs.dominant_origin_path (first_path rs.origin_paths);
      privacy_level = if hit then some privacy else none;
      warnings =
          if hit && privacy == local_replay_of_public_result
          then rs.warnings
            ++ "Returned from local cache, but these results were originally obtained through self public egress."
              ∷ []
          else rs.warnings;
      network_used = false;
      public_egress_used = false;
      friend_query_visible = false;
      suspicious_failure = false;
      anonymous_ticket = no_ticket;
    }

-- `_indrex_handler`.
unfoldable pub indrex_handler : IndrexResultSet → RouteOutcome
indrex_handler rs =
    let hit = not (is_empty rs.results) in
    record {
      attempt = rs.attempt;
      results = rs.results;
      origin_paths = if hit then local_indrex ∷ [] else [];
      dominant_origin_path = if hit then some local_indrex else none;
      privacy_level = if hit then some local_only else none;
      warnings = [];
      network_used = false;
      public_egress_used = false;
      friend_query_visible = false;
      suspicious_failure = false;
      anonymous_ticket = no_ticket;
    }

-- `public_egress._is_enabled`.
unfoldable pub egress_enabled : SearchPolicy → Bool
egress_enabled p = p.allowed.self_public_egress_allowed && not (p.public_egress.mode == deny)

-- `_HANDLERS.get(path)`, with the handlers of the five routes.
unfoldable pub handlers : Services → DeliveryPath → Option RouteHandler
unfolding cache_handler indrex_handler egress_enabled
handlers s local_cache = some (record {
  is_enabled = λ p. p.allowed.local_cache_allowed;
  run = λ ctx p. cache_handler (s.cache_lookup ctx.normalized_query p.cache.allowed_origin_paths);
})
handlers s local_indrex = some (record {
  is_enabled = λ p. p.allowed.local_indrex_allowed;
  run = λ ctx p. indrex_handler (s.indrex_search ctx.raw_query ctx.requested_top_k);
})
handlers s lan_friend_dcnet = some (record {
  is_enabled = λ p. p.allowed.lan_friend_dcnet_allowed && s.dcnet_flag_enabled;
  run = λ ctx p. s.dcnet_search ctx;
})
handlers s lan_friend_direct_placeholder = some (record {
  is_enabled = λ p. p.allowed.lan_friend_direct_placeholder_allowed;
  run = λ ctx p. s.direct_search ctx;
})
handlers s self_public_egress =
    some (record { is_enabled = egress_enabled; run = λ ctx p. s.egress_search ctx })
handlers s no_result = none
handlers s mixed = none
