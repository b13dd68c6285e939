-- ===== src/Search/Query.antt =====
-- src/swf/search/query.py: the context of a query, and `build_context`. The normalisation, the
-- keyed hash and the inferences read Unicode tables, a secret and regular expressions: they are
-- the fields of `QueryTools`.
use searxng_wth_frnds.Prelude.{ℕ, String, Option, none, some, ◌==◌, string_eq, if◌then◌else◌}

pub data QueryIntent : Type 0 where
  navigational fact_lookup local_archive_lookup freshness_required deep_research : QueryIntent
  unknown_intent : QueryIntent

pub data QuerySensitivity : Type 0 where
  low medium high unknown_sensitivity : QuerySensitivity

pub data FreshnessRequirement : Type 0 where
  no_freshness prefer_fresh require_fresh : FreshnessRequirement

pub record QueryContext : Type 0 where
  pub request_id : String
  pub raw_query : String
  pub normalized_query : String
  pub query_hmac : String
  pub created_ms : ℕ
  pub caller : Option String
  pub policy_name : String
  pub requested_top_k : ℕ
  pub inferred_intent : QueryIntent
  pub sensitivity : QuerySensitivity
  pub freshness_requirement : FreshnessRequirement

pub record QueryTools : Type 0 where
  pub normalize_query : String → String
  pub hmac_query : String → String
  pub infer_intent : String → QueryIntent
  pub infer_sensitivity : String → QuerySensitivity
  pub infer_freshness : String → FreshnessRequirement
  pub make_request_id : String

-- `request_id or make_request_id()`.
abbrev id_or : String → Option String → String
id_or fresh none = fresh
id_or fresh (some id) = if id == "" then fresh else id

unfoldable pub build_context :
    QueryTools → String → String → ℕ → Option String → Option String → ℕ → QueryContext
build_context tools raw_query policy_name requested_top_k caller request_id now_ms =
    let normalized = tools.normalize_query raw_query in
    record {
      request_id = id_or tools.make_request_id request_id;
      raw_query = raw_query;
      normalized_query = normalized;
      query_hmac = tools.hmac_query normalized;
      created_ms = now_ms;
      caller = caller;
      policy_name = policy_name;
      requested_top_k = requested_top_k;
      inferred_intent = tools.infer_intent normalized;
      sensitivity = tools.infer_sensitivity normalized;
      freshness_requirement = tools.infer_freshness normalized;
    }
