-- ===== src/Search/Policy/Tests.antt =====
-- The built-in policies parse, bad ones are refused, and the theorems at them.
use searxng_wth_frnds.Prelude.{◌≡◌, refl, false, none, some, [], ◌∷◌}
use searxng_wth_frnds.Prelude.Dict
use searxng_wth_frnds.Prelude.Dict.{Dict}
use searxng_wth_frnds.Prelude.Json.{Fields, get?, truthy, obj, null, field, end}
use searxng_wth_frnds.Search.Policy.{
  check_consistency, route_allowed, to_set, egress_first, cacheable, placeholder_not_dev,
}
use searxng_wth_frnds.Search.Policy.Parse.{
  parsed, refused, crash, parse, parse_all, entries_of, parse_paths, mode_of, goal_of, flag,
  is_dev_name, accept, ◌>>=◌, parse_all-IsConsistent,
}
use searxng_wth_frnds.Search.Policy.Consistent.{IsConsistent, check_consistency-IsConsistent}
use searxng_wth_frnds.Search.Policy.BuiltIn.{
  default_doc, local_only_doc, dev_placeholder_doc, default_policy, local_only_policy,
}

default_parses : parse "default" default_doc ≡ parsed default_policy
unfolding parse ◌>>=◌ get? parse_paths mode_of goal_of flag truthy is_dev_name accept
    check_consistency to_set egress_first cacheable route_allowed
default_parses = refl

local_only_parses : parse "local_only" local_only_doc ≡ parsed local_only_policy
unfolding parse ◌>>=◌ get? parse_paths mode_of goal_of flag truthy is_dev_name accept
    check_consistency to_set egress_first cacheable route_allowed
local_only_parses = refl

-- The placeholder transport is refused under another name.
renamed_dev_refused : parse "developer" dev_placeholder_doc ≡ refused placeholder_not_dev
unfolding parse ◌>>=◌ get? parse_paths mode_of goal_of flag truthy is_dev_name accept
    check_consistency to_set egress_first cacheable route_allowed
renamed_dev_refused = refl

-- An explicit null for a block is no mapping.
null_block_crashes : parse "p" (field "allow" null end) ≡ crash
unfolding parse ◌>>=◌ get? parse_paths
null_block_crashes = refl

default_checks : check_consistency default_policy false ≡ none
unfolding check_consistency to_set egress_first cacheable route_allowed
default_checks = refl

abbrev document : Fields
document = field "search_policies" (obj (field "default" (obj default_doc) end)) end

document_parses : parse_all document ≡ parsed (("default", default_policy) ∷ [])
unfolding parse_all entries_of parse ◌>>=◌ get? parse_paths mode_of goal_of flag truthy is_dev_name
    accept check_consistency to_set egress_first cacheable route_allowed Dict.insert
document_parses = refl

default_found : Dict.lookup "default" (("default", default_policy) ∷ []) ≡ some default_policy
unfolding Dict.lookup
default_found = refl

check_consistency-IsConsistent_example : IsConsistent default_policy false
check_consistency-IsConsistent_example =
    check_consistency-IsConsistent default_policy false default_checks

parse_all-IsConsistent_example :
    IsConsistent default_policy (is_dev_name "default") × (default_policy.name ≡ "default")
parse_all-IsConsistent_example =
    parse_all-IsConsistent document (("default", default_policy) ∷ []) "default" default_policy
      document_parses default_found
