-- ===== src/Search/Policy/BuiltIn.antt =====
-- The four built-in policies of src/swf/search/policy.py, as the documents that the module parses.
use searxng_wth_frnds.Prelude.{String, true, false, List, [], ◌∷◌}
use searxng_wth_frnds.Prelude.Json.{Json, Fields, bool, str, arr, obj, fields, items}
use searxng_wth_frnds.Search.Response.{
  local_cache, local_indrex, lan_friend_dcnet, self_public_egress,
}
use searxng_wth_frnds.Search.Policy.{SearchPolicy, allow, deny, balanced, privacy_first}

abbrev texts : List String → List Json
texts [] = []
texts (n ∷ ns) = str n ∷ texts ns

abbrev names : List String → Json
names ns = arr (items (texts ns))

abbrev pub default_doc : Fields
default_doc = fields (
    (
      "route_order",
      names ("LOCAL_CACHE" ∷ "LOCAL_INDREX" ∷ "LAN_FRIEND_DCNET" ∷ "SELF_PUBLIC_EGRESS" ∷ []),
    )
    ∷ (
      "allow",
      obj (
          fields (
            ("local_cache", bool true)
            ∷ ("local_indrex", bool true)
            ∷ ("lan_friend_dcnet", bool true)
            ∷ ("lan_friend_direct_placeholder", bool false)
            ∷ ("self_public_egress", bool true)
            ∷ [])),
    )
    ∷ (
      "public_egress",
      obj (
          fields (
            ("mode", str "allow")
            ∷ ("confirm_on_sensitive_query", bool true)
            ∷ ("confirm_after_suspicious_private_failure", bool true)
            ∷ [])),
    )
    ∷ (
      "cache",
      obj (
          fields (
            ("allow_result_cache", bool true)
            ∷ (
              "allowed_origin_paths",
              names ("LOCAL_INDREX" ∷ "LAN_FRIEND_DCNET" ∷ "SELF_PUBLIC_EGRESS" ∷ []),
            )
            ∷ ("disclose_origin_paths", bool true)
            ∷ [])),
    )
    ∷ ("friend_query_visibility", obj (fields (("allow_query_visible_to_friends", bool true) ∷ [])))
    ∷ ("anonymous_tickets", obj (fields (("require_for_lan_friend_search", bool true) ∷ [])))
    ∷ ("routing_goal", str "balanced")
    ∷ [])

abbrev pub private_circle_doc : Fields
private_circle_doc = fields (
    ("route_order", names ("LOCAL_CACHE" ∷ "LOCAL_INDREX" ∷ "LAN_FRIEND_DCNET" ∷ []))
    ∷ (
      "allow",
      obj (
          fields (
            ("local_cache", bool true)
            ∷ ("local_indrex", bool true)
            ∷ ("lan_friend_dcnet", bool true)
            ∷ ("lan_friend_direct_placeholder", bool false)
            ∷ ("self_public_egress", bool false)
            ∷ [])),
    )
    ∷ ("public_egress", obj (fields (("mode", str "deny") ∷ [])))
    ∷ (
      "cache",
      obj (
          fields (
            ("allow_result_cache", bool true)
            ∷ ("allowed_origin_paths", names ("LOCAL_INDREX" ∷ "LAN_FRIEND_DCNET" ∷ []))
            ∷ ("disclose_origin_paths", bool true)
            ∷ [])),
    )
    ∷ ("friend_query_visibility", obj (fields (("allow_query_visible_to_friends", bool true) ∷ [])))
    ∷ ("anonymous_tickets", obj (fields (("require_for_lan_friend_search", bool true) ∷ [])))
    ∷ ("routing_goal", str "privacy_first")
    ∷ [])

abbrev pub local_only_doc : Fields
local_only_doc = fields (
    ("route_order", names ("LOCAL_CACHE" ∷ "LOCAL_INDREX" ∷ []))
    ∷ (
      "allow",
      obj (
          fields (
            ("local_cache", bool true)
            ∷ ("local_indrex", bool true)
            ∷ ("lan_friend_dcnet", bool false)
            ∷ ("lan_friend_direct_placeholder", bool false)
            ∷ ("self_public_egress", bool false)
            ∷ [])),
    )
    ∷ ("public_egress", obj (fields (("mode", str "deny") ∷ [])))
    ∷ (
      "cache",
      obj (
          fields (
            ("allow_result_cache", bool true)
            ∷ ("allowed_origin_paths", names ("LOCAL_INDREX" ∷ []))
            ∷ ("disclose_origin_paths", bool true)
            ∷ [])),
    )
    ∷ (
      "friend_query_visibility",
      obj (fields (("allow_query_visible_to_friends", bool false) ∷ [])),
    )
    ∷ ("anonymous_tickets", obj (fields (("require_for_lan_friend_search", bool false) ∷ [])))
    ∷ ("routing_goal", str "privacy_first")
    ∷ [])

abbrev pub dev_placeholder_doc : Fields
dev_placeholder_doc = fields (
    (
      "route_order",
      names (
          "LOCAL_CACHE" ∷ "LOCAL_INDREX" ∷ "LAN_FRIEND_DIRECT_PLACEHOLDER" ∷ "SELF_PUBLIC_EGRESS"
          ∷ []),
    )
    ∷ (
      "allow",
      obj (
          fields (
            ("local_cache", bool true)
            ∷ ("local_indrex", bool true)
            ∷ ("lan_friend_dcnet", bool false)
            ∷ ("lan_friend_direct_placeholder", bool true)
            ∷ ("self_public_egress", bool true)
            ∷ [])),
    )
    ∷ ("public_egress", obj (fields (("mode", str "confirm") ∷ [])))
    ∷ (
      "cache",
      obj (
          fields (
            ("allow_result_cache", bool true)
            ∷ (
              "allowed_origin_paths",
              names ("LOCAL_INDREX" ∷ "LAN_FRIEND_DIRECT_PLACEHOLDER" ∷ []),
            )
            ∷ ("disclose_origin_paths", bool true)
            ∷ [])),
    )
    ∷ ("friend_query_visibility", obj (fields (("allow_query_visible_to_friends", bool true) ∷ [])))
    ∷ ("anonymous_tickets", obj (fields (("require_for_lan_friend_search", bool false) ∷ [])))
    ∷ ("routing_goal", str "dev")
    ∷ [])

-- The policies that the parser makes of the first and the third of these.
abbrev pub default_policy : SearchPolicy
default_policy = record {
  name = "default";
  route_order = local_cache ∷ local_indrex ∷ lan_friend_dcnet ∷ self_public_egress ∷ [];
  allowed = record {
    local_cache_allowed = true;
    local_indrex_allowed = true;
    lan_friend_dcnet_allowed = true;
    lan_friend_direct_placeholder_allowed = false;
    self_public_egress_allowed = true;
  };
  public_egress = record {
    mode = allow;
    confirm_on_sensitive_query = true;
    confirm_after_suspicious_private_failure = true;
  };
  cache = record {
    allow_result_cache = true;
    allowed_origin_paths = local_indrex ∷ lan_friend_dcnet ∷ self_public_egress ∷ [];
    disclose_origin_paths = true;
  };
  allow_query_visible_to_friends = true;
  require_for_lan_friend_search = true;
  routing_goal = balanced;
}

abbrev pub local_only_policy : SearchPolicy
local_only_policy = record {
  name = "local_only";
  route_order = local_cache ∷ local_indrex ∷ [];
  allowed = record {
    local_cache_allowed = true;
    local_indrex_allowed = true;
    lan_friend_dcnet_allowed = false;
    lan_friend_direct_placeholder_allowed = false;
    self_public_egress_allowed = false;
  };
  public_egress = record {
    mode = deny;
    confirm_on_sensitive_query = true;
    confirm_after_suspicious_private_failure = true;
  };
  cache = record {
    allow_result_cache = true;
    allowed_origin_paths = local_indrex ∷ [];
    disclose_origin_paths = true;
  };
  allow_query_visible_to_friends = false;
  require_for_lan_friend_search = false;
  routing_goal = privacy_first;
}
