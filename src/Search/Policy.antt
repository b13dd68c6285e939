-- ===== src/Search/Policy.antt =====
-- src/swf/search/policy.py: search policies, their parser and its consistency check.
-- An exception other than `PolicyError` (a document of the wrong shape) is `crash`.
pub mod Parse
pub mod Consistent
pub mod BuiltIn
mod Tests
use searxng_wth_frnds.Prelude.{
  ℕ, zero, suc, String, Bool, true, false, Option, none, some, List, [], ◌∷◌, ◌≡◌, refl, ◌↔◌, ◌&&◌,
  ◌||◌, not, Eq, ◌==◌, nat_eq, string_eq, nat_beq, length, elem, any, all, is_empty, if◌then◌else◌,
  ltb, arith,
}
use searxng_wth_frnds.Prelude.Checks.{raise_if}
use searxng_wth_frnds.Search.Response.{
  DeliveryPath, local_cache, local_indrex, lan_friend_direct_placeholder, lan_friend_dcnet,
  self_public_egress, no_result, mixed, path_eq,
}

pub data PublicEgressMode : Type 0 where
  allow confirm deny : PublicEgressMode

pub data RoutingGoal : Type 0 where
  balanced privacy_first latency_first dev : RoutingGoal

abbrev mode_index : PublicEgressMode → ℕ
mode_index allow = 0
mode_index confirm = 1
mode_index deny = 2

abbrev pub mode_beq : PublicEgressMode → PublicEgressMode → Bool
mode_beq a b = nat_beq (mode_index a) (mode_index b)

pub mode_beq_iff : (a b : PublicEgressMode) → (mode_beq a b ≡ true) ↔ (a ≡ b)
mode_beq_iff a b = ground arith

instance abbrev pub mode_eq : Eq PublicEgressMode
mode_eq = record { same = mode_beq; same_iff = mode_beq_iff }

-- `_Allow`.
pub record Allow : Type 0 where
  pub local_cache_allowed : Bool
  pub local_indrex_allowed : Bool
  pub lan_friend_dcnet_allowed : Bool
  pub lan_friend_direct_placeholder_allowed : Bool
  pub self_public_egress_allowed : Bool

-- `_PublicEgress`.
pub record PublicEgress : Type 0 where
  pub mode : PublicEgressMode
  pub confirm_on_sensitive_query : Bool
  pub confirm_after_suspicious_private_failure : Bool

-- `_Cache`.
pub record CachePolicy : Type 0 where
  pub allow_result_cache : Bool
  pub allowed_origin_paths : List DeliveryPath
  pub disclose_origin_paths : Bool

-- The one-field classes `_FriendQueryVisibility` and `_AnonymousTickets` are their fields.
pub record SearchPolicy : Type 0 where
  pub name : String
  pub route_order : List DeliveryPath
  pub allowed : Allow
  pub public_egress : PublicEgress
  pub cache : CachePolicy
  pub allow_query_visible_to_friends : Bool
  pub require_for_lan_friend_search : Bool
  pub routing_goal : RoutingGoal

-- One constructor for each `raise PolicyError`.
pub data PolicyError : Type 0 where
  unknown_route bad_mode unknown_cache_route bad_routing_goal : PolicyError
  expected_mapping expected_body : PolicyError
  route_order_too_long duplicate_route placeholder_not_dev egress_contradiction : PolicyError
  route_denied egress_before_private cached_cache cached_nothing cached_denied : PolicyError

abbrev pub max_route_order_length : ℕ
max_route_order_length = 8

-- `_route_allowed`: a path that is no route is not allowed.
unfoldable pub route_allowed : Allow → DeliveryPath → Bool
route_allowed a local_cache = a.local_cache_allowed
route_allowed a local_indrex = a.local_indrex_allowed
route_allowed a lan_friend_dcnet = a.lan_friend_dcnet_allowed
route_allowed a lan_friend_direct_placeholder = a.lan_friend_direct_placeholder_allowed
route_allowed a self_public_egress = a.self_public_egress_allowed
route_allowed a no_result = false
route_allowed a mixed = false

-- `set(route_order)`, by its elements.
unfoldable pub to_set : List DeliveryPath → List DeliveryPath
to_set [] = []
to_set (p ∷ ps) = let rest = to_set ps in if elem p ps then rest else p ∷ rest

unfoldable pub is_private_route : DeliveryPath → Bool
is_private_route p =
    elem p (local_cache ∷ local_indrex ∷ lan_friend_dcnet ∷ lan_friend_direct_placeholder ∷ [])

-- `next((i for i, r in enumerate(order) if test(r)), None)`: the first place that passes, which is
-- the least of all the places that pass.
unfoldable pub first_index : (DeliveryPath → Bool) → ℕ → List DeliveryPath → Option ℕ
first_index test i [] = none
first_index test i (p ∷ ps) = if test p then some i else first_index test (suc i) ps

abbrev pub precedes : Option ℕ → Option ℕ → Bool
precedes none other = false
precedes (some i) none = false
precedes (some i) (some j) = ltb i j

-- `SELF_PUBLIC_EGRESS` stands before every private route, and there is one.
unfoldable pub egress_first : List DeliveryPath → Bool
unfolding first_index is_private_route
egress_first order =
    precedes (first_index (λ r. r == self_public_egress) 0 order)
      (first_index is_private_route 0 order)

-- The loop over `route_order`; the branch of the source that only passes changes nothing.
unfoldable pub cacheable : DeliveryPath → Bool
cacheable op =
    elem op
      (local_indrex ∷ lan_friend_dcnet ∷ lan_friend_direct_placeholder ∷ self_public_egress ∷ [])

-- The first loop over `cache.allowed_origin_paths`.
unfoldable pub check_cache_origins : List DeliveryPath → Option PolicyError → Option PolicyError
check_cache_origins [] rest = rest
check_cache_origins (op ∷ ops) rest =
    raise_if (op == local_cache) cached_cache
      (raise_if (op == no_result || op == mixed) cached_nothing (check_cache_origins ops rest))

-- `_check_consistency`.
unfoldable pub check_consistency : SearchPolicy → Bool → Option PolicyError
unfolding check_cache_origins
check_consistency p dev_allowed =
    raise_if (ltb max_route_order_length (length p.route_order)) route_order_too_long (
      raise_if (not (length (to_set p.route_order) == length p.route_order)) duplicate_route (
        raise_if (p.allowed.lan_friend_direct_placeholder_allowed && not dev_allowed)
          placeholder_not_dev
          (raise_if (p.public_egress.mode == allow && not p.allowed.self_public_egress_allowed)
            egress_contradiction
            (raise_if (not (all (route_allowed p.allowed) p.route_order)) route_denied (
              raise_if (egress_first p.route_order) egress_before_private (
                check_cache_origins p.cache.allowed_origin_paths (
                  raise_if
                    (any (λ op. cacheable op && not (route_allowed p.allowed op))
                      p.cache.allowed_origin_paths)
                    cached_denied none)))))))
