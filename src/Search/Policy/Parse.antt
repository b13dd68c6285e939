-- ===== src/Search/Policy/Parse.antt =====
-- `SearchPolicy.parse` and `parse_all` of src/swf/search/policy.py.
use text.Mathlib.Text.{starts_with}
use mathlib.Core.Path.{subst}
use searxng_wth_frnds.Prelude.{
  String, Bool, true, false, Option, none, some, List, [], ◌∷◌, ◌≡◌, refl, sym, ◌||◌, ◌==◌,
  string_eq, if◌then◌else◌, Bool-cases, inl, inr, ==→eq,
}
use searxng_wth_frnds.Prelude.Dict
use searxng_wth_frnds.Prelude.Dict.{Dict}
use searxng_wth_frnds.Prelude.Json
use searxng_wth_frnds.Prelude.Json.{
  Json, Items, Fields, null, bool, int, float, str, arr, obj, nil, cons, end, field, get?, or_else,
  truthy,
}
use searxng_wth_frnds.Search.Response.{
  DeliveryPath, local_cache, local_indrex, lan_friend_direct_placeholder, lan_friend_dcnet,
  self_public_egress, no_result, mixed,
}
use searxng_wth_frnds.Search.Policy.{
  PublicEgressMode, allow, confirm, deny, RoutingGoal, balanced, privacy_first, latency_first, dev,
  Allow, PublicEgress, SearchPolicy, PolicyError, unknown_route, bad_mode, unknown_cache_route,
  bad_routing_goal, expected_mapping, expected_body, check_consistency,
}
use searxng_wth_frnds.Search.Policy.Consistent.{IsConsistent, check_consistency-IsConsistent}

-- The outcome of the parser: a value, a `PolicyError`, or the exception of an operation on a value
-- of the wrong type.
pub data Parsed {ℓ} (A : Type ℓ) : Type ℓ where
  parsed : A → Parsed A
  refused : PolicyError → Parsed A
  crash : Parsed A

infixl 5 ◌>>=◌
unfoldable pub ◌>>=◌ {ℓ κ} : {A : Type ℓ} {B : Type κ} → Parsed A → (A → Parsed B) → Parsed B
parsed a >>= f = f a
refused e >>= f = refused e
crash >>= f = crash

-- `DeliveryPath(name)`, `PublicEgressMode(name)` and `RoutingGoal(name)`, by the members' values.
unfoldable pub delivery_path_of : String → Option DeliveryPath
delivery_path_of s =
    if s == "LOCAL_CACHE"
    then some local_cache
    else if s == "LOCAL_INDREX"
    then some local_indrex
    else if s == "LAN_FRIEND_DIRECT_PLACEHOLDER"
    then some lan_friend_direct_placeholder
    else if s == "LAN_FRIEND_DCNET"
    then some lan_friend_dcnet
    else if s == "SELF_PUBLIC_EGRESS"
    then some self_public_egress
    else if s == "NO_RESULT"
    then some no_result
    else if s == "MIXED"
    then some mixed
    else none

unfoldable pub mode_of : Json → Option PublicEgressMode
mode_of (str s) =
    if s == "allow"
    then some allow
    else if s == "confirm"
    then some confirm
    else if s == "deny"
    then some deny
    else none
mode_of v = none

unfoldable pub goal_of : Json → Option RoutingGoal
goal_of (str s) =
    if s == "balanced"
    then some balanced
    else if s == "privacy_first"
    then some privacy_first
    else if s == "latency_first"
    then some latency_first
    else if s == "dev"
    then some dev
    else none
goal_of v = none

-- `_parse_path`: a value that is no text is no member either.
unfoldable pub parse_path : PolicyError → Json → Parsed DeliveryPath
unfolding delivery_path_of
parse_path e (str s) = elim (delivery_path_of s) [ none ↦ refused e | some p ↦ parsed p ]
parse_path e v = refused e

unfoldable pub parse_items : PolicyError → Items → Parsed (List DeliveryPath)
unfolding parse_path
parse_items e nil = parsed []
parse_items e (cons v vs) = parse_path e v >>= λ p. parse_items e vs >>= λ ps. parsed (p ∷ ps)

-- `tuple(_parse_path(p) for p in raw)`: a text yields its characters, none of which is a route; a
-- mapping yields its keys; another value is not iterable.
unfoldable pub parse_paths : PolicyError → Json → Parsed (List DeliveryPath)
unfolding parse_items Json.keys
parse_paths e (arr vs) = parse_items e vs
parse_paths e (str s) = if s == "" then parsed [] else refused e
parse_paths e (obj d) = parse_items e (Json.keys d)
parse_paths e v = crash

-- `raw.get`, which only a mapping has.
abbrev pub mapping : Json → Parsed Fields
mapping (obj d) = parsed d
mapping v = crash

unfoldable pub flag : String → Bool → Fields → Bool
flag k d fields = truthy (or_else (bool d) (get? k fields))

abbrev pub or_refuse {ℓ} : {A : Type ℓ} → PolicyError → Option A → Parsed A
or_refuse e none = refused e
or_refuse e (some a) = parsed a

unfoldable pub accept : SearchPolicy → Option PolicyError → Parsed SearchPolicy
accept p none = parsed p
accept p (some e) = refused e

-- `name == "dev" or name.startswith("dev_")`.
unfoldable pub is_dev_name : String → Bool
is_dev_name name = name == "dev" || starts_with name "dev_"

unfoldable pub parse : String → Fields → Parsed SearchPolicy
parse name d = do
  route_order ← parse_paths unknown_route (or_else (arr nil) (get? "route_order" d))
  allow_raw ← mapping (or_else (obj end) (get? "allow" d))
  let allowed : Allow = record {
    local_cache_allowed = flag "local_cache" true allow_raw;
    local_indrex_allowed = flag "local_indrex" true allow_raw;
    lan_friend_dcnet_allowed = flag "lan_friend_dcnet" false allow_raw;
    lan_friend_direct_placeholder_allowed = flag "lan_friend_direct_placeholder" false allow_raw;
    self_public_egress_allowed = flag "self_public_egress" true allow_raw;
  }
  pe_raw ← mapping (or_else (obj end) (get? "public_egress" d))
  mode ← or_refuse bad_mode (mode_of (or_else (str "allow") (get? "mode" pe_raw)))
  let pe : PublicEgress = record {
    mode = mode;
    confirm_on_sensitive_query = flag "confirm_on_sensitive_query" true pe_raw;
    confirm_after_suspicious_private_failure =
        flag "confirm_after_suspicious_private_failure" true pe_raw;
  }
  cache_raw ← mapping (or_else (obj end) (get? "cache" d))
  origins ←
      parse_paths unknown_cache_route (or_else (arr nil) (get? "allowed_origin_paths" cache_raw))
  fqv_raw ← mapping (or_else (obj end) (get? "friend_query_visibility" d))
  at_raw ← mapping (or_else (obj end) (get? "anonymous_tickets" d))
  goal ← or_refuse bad_routing_goal (goal_of (or_else (str "balanced") (get? "routing_goal" d)))
  let policy : SearchPolicy = record {
    name = name;
    route_order = route_order;
    allowed = allowed;
    public_egress = pe;
    cache = record {
      allow_result_cache = flag "allow_result_cache" true cache_raw;
      allowed_origin_paths = origins;
      disclose_origin_paths = flag "disclose_origin_paths" true cache_raw;
    };
    allow_query_visible_to_friends = flag "allow_query_visible_to_friends" true fqv_raw;
    require_for_lan_friend_search = flag "require_for_lan_friend_search" true at_raw;
    routing_goal = goal;
  }
  accept policy (check_consistency policy (is_dev_name name))

-- The loop of `parse_all`.
unfoldable pub parse_entries : Dict SearchPolicy → Fields → Parsed (Dict SearchPolicy)
parse_entries out end = parsed out
parse_entries out (field name (obj body) d) =
    parse name body >>= λ p. parse_entries (Dict.insert name p out) d
parse_entries out (field name body d) = refused expected_body

unfoldable pub entries_of : Json → Parsed (Dict SearchPolicy)
unfolding parse_entries
entries_of (obj block) = parse_entries [] block
entries_of v = refused expected_mapping

unfoldable pub parse_all : Fields → Parsed (Dict SearchPolicy)
parse_all doc = entries_of (or_else (obj doc) (get? "search_policies" doc))

-- What holds of the value, if there is one.
record Ensures {ℓ κ} {A : Type ℓ} (P : A → Type κ) (r : Parsed A) : Type (ℓ ⊔ κ) where
  at : (a : A) → r ≡ parsed a → P a

Ensures-bind {ℓ κ μ} :
    {A : Type ℓ} {B : Type κ} {P : B → Type μ} (m : Parsed A) (f : A → Parsed B)
    → ((a : A) → Ensures P (f a))
    → Ensures P (m >>= f)
unfolding ◌>>=◌
Ensures-bind (parsed a) f h = h a
Ensures-bind (refused e) f h = record { at = λ b q. cc }
Ensures-bind crash f h = record { at = λ b q. cc }

-- The rest may use that the first step succeeded.
Ensures-bind_at {ℓ κ μ} :
    {A : Type ℓ} {B : Type κ} {P : B → Type μ} (m : Parsed A) (f : A → Parsed B)
    → ((a : A) → m ≡ parsed a → Ensures P (f a))
    → Ensures P (m >>= f)
unfolding ◌>>=◌
Ensures-bind_at (parsed a) f h = h a refl
Ensures-bind_at (refused e) f h = record { at = λ b q. cc }
Ensures-bind_at crash f h = record { at = λ b q. cc }

-- What the parser promises of a policy named `name`.
abbrev Accepted : String → SearchPolicy → Type 0
Accepted name p = IsConsistent p (is_dev_name name) × (p.name ≡ name)

accept-Accepted :
    (p : SearchPolicy) (o : Option PolicyError)
    → o ≡ check_consistency p (is_dev_name p.name)
    → Ensures (Accepted p.name) (accept p o)
unfolding accept
accept-Accepted p none e = record {
  at = λ q same.
      let moved : p ≡ q = cc in
      subst (Accepted p.name) moved
        (check_consistency-IsConsistent p (is_dev_name p.name) (sym e), refl);
}
accept-Accepted p (some err) e = record { at = λ q same. cc }

parse-Ensures : (name : String) (d : Fields) → Ensures (Accepted name) (parse name d)
unfolding parse
parse-Ensures name d = Ensures-bind _ _ λ route_order. Ensures-bind _ _ λ allow_raw.
    Ensures-bind _ _ λ pe_raw. Ensures-bind _ _ λ mode. Ensures-bind _ _ λ cache_raw.
      Ensures-bind _ _ λ origins.
        Ensures-bind _ _
          λ fqv_raw. Ensures-bind _ _ λ at_raw. Ensures-bind _ _ λ goal. accept-Accepted _ _ refl

parse-IsConsistent :
    (name : String) (d : Fields) (p : SearchPolicy)
    → parse name d ≡ parsed p
    → IsConsistent p (is_dev_name name) × (p.name ≡ name)
parse-IsConsistent name d p h = (parse-Ensures name d).at p h

-- Every entry of a dictionary of policies is what the parser promises under its name.
abbrev pub EachAccepted : Dict SearchPolicy → Type 0
EachAccepted out =
    (name : String) (p : SearchPolicy)
    → Dict.lookup name out ≡ some p
    → IsConsistent p (is_dev_name name) × (p.name ≡ name)

EachAccepted-insert :
    (name : String) (p : SearchPolicy) (out : Dict SearchPolicy)
    → Accepted name p
    → EachAccepted out
    → EachAccepted (Dict.insert name p out)
EachAccepted-insert name p out ok each j q h = elim (Bool-cases (name == j)) [
  | inl same ↦
      let found : some p ≡ some q = rw (Dict.lookup-insert name j p out, same) at h in
      let e : p ≡ q = cc in subst (Accepted j) e (subst (λ k. Accepted k p) (==→eq name j same) ok)
  | inr other ↦ each j q (rw (Dict.lookup-insert name j p out, other) at h)
]

parse_entries-Ensures :
    (out : Dict SearchPolicy) (d : Fields)
    → EachAccepted out
    → Ensures EachAccepted (parse_entries out d)
unfolding parse_entries
parse_entries-Ensures out end each = record { at = λ a e. subst EachAccepted (cc) each }
parse_entries-Ensures out (field name (obj body) d) each =
    Ensures-bind_at (parse name body) _ λ p h.
      parse_entries-Ensures (Dict.insert name p out) d
        (EachAccepted-insert name p out (parse-IsConsistent name body p h) each)
parse_entries-Ensures out (field name _ d) each = record { at = λ a e. cc }

entries_of-Ensures : (v : Json) → Ensures EachAccepted (entries_of v)
unfolding entries_of
entries_of-Ensures (obj block) =
    parse_entries-Ensures [] block (λ name p h. absurd (none_found name p h))
  where
    none_found : (name : String) (p : SearchPolicy) → Dict.lookup name [] ≡ some p → ⊥
    none_found name p h = cc (Dict.lookup-nil {V = SearchPolicy} name)
entries_of-Ensures _ = record { at = λ a e. cc }

parse_all-Ensures : (doc : Fields) → Ensures EachAccepted (parse_all doc)
unfolding parse_all
parse_all-Ensures doc = entries_of-Ensures (or_else (obj doc) (get? "search_policies" doc))

-- Every policy of a document that `parse_all` accepts is consistent and stands under its name.
pub parse_all-IsConsistent :
    (doc : Fields) (out : Dict SearchPolicy) (name : String) (p : SearchPolicy)
    → parse_all doc ≡ parsed out
    → Dict.lookup name out ≡ some p
    → IsConsistent p (is_dev_name name) × (p.name ≡ name)
parse_all-IsConsistent doc out name p h found = (parse_all-Ensures doc).at out h name p found
