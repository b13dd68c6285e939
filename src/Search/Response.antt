-- ===== src/Search/Response.antt =====
-- src/swf/search/response.py: the response envelope, and the checker that every envelope passes
-- before the router returns it. `InvariantError` is the error case of the result. A field that the
-- checker, the router and the cache do not read (display strings, freshness, receipts) is left out
-- of `SearchResult`; a score is a whole number of ten-thousandths.
pub mod Invariants
use searxng_wth_frnds.Prelude.Int.{ℤ}
use searxng_wth_frnds.Prelude.{
  ℕ, ◌≡◌, ◌↔◌, refl, ap, String, Bool, true, false, Option, none, some, List, [], ◌∷◌, ◌++◌, ◌&&◌,
  ◌||◌, not, map, arith, Eq, ◌==◌, nat_eq, nat_beq, nat_beq_iff, length, elem, any, all, is_empty,
  if◌then◌else◌,
}
use searxng_wth_frnds.Prelude.Checks.{raise_if}

-- `OriginPath` is the same type in the source.
pub data DeliveryPath : Type 0 where
  local_cache local_indrex lan_friend_direct_placeholder lan_friend_dcnet : DeliveryPath
  self_public_egress no_result mixed : DeliveryPath

pub data PrivacyLevel : Type 0 where
  local_only local_replay local_replay_of_public_result : PrivacyLevel
  anonymous_within_lan_circle_query_visible not_anonymous_placeholder : PrivacyLevel
  public_from_self public_from_self_tor privacy_none : PrivacyLevel

pub data Status : Type 0 where
  status_ok partial no_results no_acceptable_route confirmation_required error : Status

-- The members' places, by which they are compared.
abbrev path_index : DeliveryPath → ℕ
path_index local_cache = 0
path_index local_indrex = 1
path_index lan_friend_direct_placeholder = 2
path_index lan_friend_dcnet = 3
path_index self_public_egress = 4
path_index no_result = 5
path_index mixed = 6

abbrev pub path_beq : DeliveryPath → DeliveryPath → Bool
path_beq p q = nat_beq (path_index p) (path_index q)

pub path_beq_iff : (p q : DeliveryPath) → (path_beq p q ≡ true) ↔ (p ≡ q)
path_beq_iff p q = ground arith

abbrev privacy_index : PrivacyLevel → ℕ
privacy_index local_only = 0
privacy_index local_replay = 1
privacy_index local_replay_of_public_result = 2
privacy_index anonymous_within_lan_circle_query_visible = 3
privacy_index not_anonymous_placeholder = 4
privacy_index public_from_self = 5
privacy_index public_from_self_tor = 6
privacy_index privacy_none = 7

abbrev pub privacy_beq : PrivacyLevel → PrivacyLevel → Bool
privacy_beq p q = nat_beq (privacy_index p) (privacy_index q)

pub privacy_beq_iff : (p q : PrivacyLevel) → (privacy_beq p q ≡ true) ↔ (p ≡ q)
privacy_beq_iff p q = ground arith

instance abbrev pub path_eq : Eq DeliveryPath
path_eq = record { same = path_beq; same_iff = path_beq_iff }

instance abbrev pub privacy_eq : Eq PrivacyLevel
privacy_eq = record { same = privacy_beq; same_iff = privacy_beq_iff }

-- `level == expected`, where the level may be `None`.
abbrev pub labelled : PrivacyLevel → Option PrivacyLevel → Bool
labelled expected none = false
labelled expected (some level) = level == expected

pub record SearchAttempt : Type 0 where
  pub path : DeliveryPath
  pub status : String
  pub started_ms : ℕ
  pub completed_ms : ℕ
  pub duration_ms : ℕ
  pub reason : String
  pub results_count : ℕ
  pub network_used : Bool
  pub public_egress_used : Bool
  pub suspicious_failure : Bool

pub record Provider : Type 0 where
  pub provider_pubkey : Option String
  pub provider_label : Option String
  pub provider_score_local : Option ℕ

pub record SearchResult : Type 0 where
  pub result_id : String
  pub canonical_url : String
  pub score : Option ℤ
  pub rank : ℕ
  pub delivery_path : DeliveryPath
  pub origin_path : DeliveryPath
  pub provider : Provider

-- `anonymous_ticket`, by the two keys that are read; a missing key is false.
pub record TicketBlock : Type 0 where
  pub required : Bool
  pub accepted : Bool

abbrev pub no_ticket : TicketBlock
no_ticket = record { required = false; accepted = false }

pub record PolicyBlock : Type 0 where
  pub requested : String
  pub effective : String
  pub routing_goal : String

-- The keys that the router sets in `debug`.
pub record Debug : Type 0 where
  pub query_hmac : Option String
  pub sufficient : Option Bool
  pub reason : String
  pub proposed_path : Option DeliveryPath

pub record SearchResponse : Type 0 where
  pub status : Status
  pub request_id : String
  pub created_ms : ℕ
  pub completed_ms : ℕ
  pub delivery_path : DeliveryPath
  pub origin_paths : List DeliveryPath
  pub dominant_origin_path : DeliveryPath
  pub privacy_level : Option PrivacyLevel
  pub network_used_this_request : Bool
  pub public_egress_used_this_request : Bool
  pub friend_query_visible : Bool
  pub policy : PolicyBlock
  pub anonymous_ticket : TicketBlock
  pub fallbacks_tried : List DeliveryPath
  pub fallback_reason : String
  pub warnings : List String
  pub attempts : List SearchAttempt
  pub results : List SearchResult
  pub debug : Debug

-- One constructor for each `raise` of the checker, in its order.
pub data InvariantError : Type 0 where
  cache_without_origins egress_unflagged egress_unlisted network_unlisted : InvariantError
  placeholder_mislabelled dcnet_mislabelled ticket_not_accepted : InvariantError
  local_only_leaks local_only_egress local_only_network : InvariantError
  dominant_unlisted cache_used_network cached_public_mislabelled : InvariantError
  result_unlisted : InvariantError

unfoldable pub is_public_origin : DeliveryPath → Bool
is_public_origin p = elem p (self_public_egress ∷ [])

unfoldable pub is_non_local_origin : DeliveryPath → Bool
is_non_local_origin p =
    elem p (self_public_egress ∷ lan_friend_dcnet ∷ lan_friend_direct_placeholder ∷ [])

-- `none` is a checker that returns; `some e` is one that raises.
unfoldable pub validate_invariants : SearchResponse → Option InvariantError
unfolding is_public_origin is_non_local_origin
validate_invariants r =
    let dp = r.delivery_path in
    let ops = r.origin_paths in
    let is_local_only = labelled local_only r.privacy_level in
    raise_if (dp == local_cache && is_empty ops) cache_without_origins (
      raise_if (dp == self_public_egress && not r.public_egress_used_this_request) egress_unflagged
        (raise_if (r.public_egress_used_this_request && not (elem self_public_egress ops))
          egress_unlisted
          (raise_if (r.network_used_this_request && not (any is_non_local_origin ops))
            network_unlisted
            (raise_if
              (dp == lan_friend_direct_placeholder
                && not (labelled not_anonymous_placeholder r.privacy_level))
              placeholder_mislabelled
              (raise_if
                (dp == lan_friend_dcnet
                  && not (labelled anonymous_within_lan_circle_query_visible r.privacy_level))
                dcnet_mislabelled
                (raise_if
                  (dp == lan_friend_dcnet
                    && (r.anonymous_ticket.required && not r.anonymous_ticket.accepted))
                  ticket_not_accepted
                  (raise_if (is_local_only && any is_non_local_origin ops) local_only_leaks (
                    raise_if (is_local_only && r.public_egress_used_this_request) local_only_egress
                      (raise_if (is_local_only && r.network_used_this_request) local_only_network (
                        raise_if (not (elem r.dominant_origin_path ops)) dominant_unlisted (
                          raise_if (dp == local_cache && r.network_used_this_request)
                            cache_used_network
                            (raise_if
                              (dp == local_cache
                                && (any is_public_origin ops
                                    && not
                                        (labelled local_replay_of_public_result r.privacy_level)))
                              cached_public_mislabelled
                              (raise_if (not (all (λ res. elem res.origin_path ops) r.results))
                                result_unlisted none)))))))))))))

-- `SearchResponse.make`: the response, or the error that its invariants raise.
pub data Made (A : Type 0) : Type 0 where
  made : A → Made A
  raised : InvariantError → Made A
  index_error : Made A

abbrev checked : SearchResponse → Option InvariantError → Made SearchResponse
checked r none = made r
checked r (some e) = raised e

unfoldable pub make : SearchResponse → Made SearchResponse
unfolding validate_invariants
make r = checked r (validate_invariants r)

-- `origin_paths_from_results`: `seen` and `out` hold the same paths.
unfoldable pub collect_origins : List DeliveryPath → List SearchResult → List DeliveryPath
collect_origins out [] = out
collect_origins out (r ∷ rs) =
    collect_origins (if elem r.origin_path out then out else out ++ r.origin_path ∷ []) rs

unfoldable pub origin_paths_from_results : List SearchResult → List DeliveryPath
unfolding collect_origins
origin_paths_from_results results = collect_origins [] results
