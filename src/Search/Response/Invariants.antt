-- ===== src/Search/Response/Invariants.antt =====
-- What the checker of envelopes accepts.
use searxng_wth_frnds.Prelude.{
  ◌≡◌, ◌≢◌, ◌↔◌, ◌⊎◌, inl, inr, refl, ap, Bool, true, false, Option, none, some, List, [], ◌∷◌,
  arith, elem, any, all, is_empty, In, In-elem, elem-In, All, ==→eq, eq→==, ==_refl,
}
use searxng_wth_frnds.Prelude.Checks.{
  raise_if-none, none-raise_if, implied, excluded, clear, apart, both_ways, unnegate, negates,
  false_of_not,
}
use searxng_wth_frnds.Search.Response.{
  DeliveryPath, local_cache, lan_friend_direct_placeholder, lan_friend_dcnet, self_public_egress,
  PrivacyLevel, local_only, local_replay_of_public_result, not_anonymous_placeholder,
  anonymous_within_lan_circle_query_visible, SearchResponse, SearchResult, InvariantError, checked,
  make, made, validate_invariants, is_non_local_origin, is_public_origin, path_eq, privacy_eq,
  labelled,
}

-- Some path of the list leaves the device.
abbrev pub TouchesNetwork : List DeliveryPath → Type 0
TouchesNetwork ops =
    In self_public_egress ops ⊎ In lan_friend_dcnet ops ⊎ In lan_friend_direct_placeholder ops

-- What an honest envelope says of the request. Of a public origin it asks something only under a delivery
-- from the cache: under another one, it need not raise the egress flag.
pub record IsHonest (r : SearchResponse) : Type 0 where
  pub cache_origins : r.delivery_path ≡ local_cache → r.origin_paths ≢ []
  pub egress_flagged :
      r.delivery_path ≡ self_public_egress → r.public_egress_used_this_request ≡ true
  pub egress_listed :
      r.public_egress_used_this_request ≡ true → In self_public_egress r.origin_paths
  pub network_listed : r.network_used_this_request ≡ true → TouchesNetwork r.origin_paths
  pub placeholder_label :
      r.delivery_path ≡ lan_friend_direct_placeholder
      → r.privacy_level ≡ some not_anonymous_placeholder
  pub dcnet_label :
      r.delivery_path ≡ lan_friend_dcnet
      → r.privacy_level ≡ some anonymous_within_lan_circle_query_visible
  pub dcnet_ticket :
      r.delivery_path ≡ lan_friend_dcnet
      → r.anonymous_ticket.required ≡ true
      → r.anonymous_ticket.accepted ≡ true
  pub local_only_private : r.privacy_level ≡ some local_only → ¬ TouchesNetwork r.origin_paths
  pub local_only_offline :
      r.privacy_level ≡ some local_only
      → (r.public_egress_used_this_request ≡ false) × (r.network_used_this_request ≡ false)
  pub dominant_listed : In r.dominant_origin_path r.origin_paths
  pub cache_offline : r.delivery_path ≡ local_cache → r.network_used_this_request ≡ false
  pub cached_public_label :
      r.delivery_path ≡ local_cache
      → In self_public_egress r.origin_paths
      → r.privacy_level ≡ some local_replay_of_public_result
  pub results_listed : All (λ (res : SearchResult). In res.origin_path r.origin_paths) r.results

any-non_local : (ops : List DeliveryPath) → any is_non_local_origin ops ≡ true → TouchesNetwork ops
unfolding is_non_local_origin
any-non_local [] h = absurd (ground arith)
any-non_local (self_public_egress ∷ ops) h = inl (inl refl)
any-non_local (lan_friend_dcnet ∷ ops) h = inr (inl (inl refl))
any-non_local (lan_friend_direct_placeholder ∷ ops) h = inr (inr (inl refl))
any-non_local (p ∷ ops) h = elim (any-non_local ops h) [
  | inl m ↦ inl (inr m)
  | inr (inl m) ↦ inr (inl (inr m))
  | inr (inr m) ↦ inr (inr (inr m))
]

any_of_In :
    (test : DeliveryPath → Bool) (p : DeliveryPath) (ops : List DeliveryPath)
    → test p ≡ true
    → In p ops
    → any test ops ≡ true
any_of_In test p [] t m = absurd m
any_of_In test p (q ∷ ops) t (inl e) = rw (← e, t)
any_of_In test p (q ∷ ops) t (inr m) = ground (arith, any_of_In test p ops t m)

non_local-any : (ops : List DeliveryPath) → TouchesNetwork ops → any is_non_local_origin ops ≡ true
unfolding is_non_local_origin
non_local-any ops (inl m) = any_of_In is_non_local_origin self_public_egress ops refl m
non_local-any ops (inr (inl m)) = any_of_In is_non_local_origin lan_friend_dcnet ops refl m
non_local-any ops (inr (inr m)) =
    any_of_In is_non_local_origin lan_friend_direct_placeholder ops refl m

labelled_eq : (l : PrivacyLevel) (o : Option PrivacyLevel) → labelled l o ≡ true → o ≡ some l
labelled_eq l none h = absurd (ground arith)
labelled_eq l (some k) h = ap some (==→eq k l h)

labelled_self : (l : PrivacyLevel) (o : Option PrivacyLevel) → o ≡ some l → labelled l o ≡ true
labelled_self l o h = rw h (==_refl l)

all-listed :
    (ops : List DeliveryPath) (rs : List SearchResult)
    → all (λ res. elem res.origin_path ops) rs ≡ true
    → All (λ (res : SearchResult). In res.origin_path ops) rs
all-listed ops [] h = tt
all-listed ops (r ∷ rs) h =
    (elem-In r.origin_path ops (ground arith), all-listed ops rs (ground arith))

listed-all :
    (ops : List DeliveryPath) (rs : List SearchResult)
    → All (λ (res : SearchResult). In res.origin_path ops) rs
    → all (λ res. elem res.origin_path ops) rs ≡ true
listed-all ops [] h = refl
listed-all ops (r ∷ rs) h = ground (arith, In-elem r.origin_path ops h.0, listed-all ops rs h.1)

nonempty : (ops : List DeliveryPath) → is_empty ops ≡ false → ops ≢ []
nonempty [] h e = absurd (ground arith)
nonempty (p ∷ ops) h e = absurd (ground arith)

-- An envelope that passes the checker is honest.
validate-IsHonest : (r : SearchResponse) → validate_invariants r ≡ none → IsHonest r
unfolding validate_invariants
validate-IsHonest r h =
    let dp = r.delivery_path in
    let ops = r.origin_paths in
    let c1 = raise_if-none _ _ h in
    let c2 = raise_if-none _ _ c1.1 in
    let c3 = raise_if-none _ _ c2.1 in
    let c4 = raise_if-none _ _ c3.1 in
    let c5 = raise_if-none _ _ c4.1 in
    let c6 = raise_if-none _ _ c5.1 in
    let c7 = raise_if-none _ _ c6.1 in
    let c8 = raise_if-none _ _ c7.1 in
    let c9 = raise_if-none _ _ c8.1 in
    let c10 = raise_if-none _ _ c9.1 in
    let c11 = raise_if-none _ _ c10.1 in
    let c12 = raise_if-none _ _ c11.1 in
    let c13 = raise_if-none _ _ c12.1 in
    let c14 = raise_if-none _ _ c13.1 in
    record {
      cache_origins = λ e. nonempty ops (excluded c1.0 (eq→== dp _ e));
      egress_flagged = λ e. implied c2.0 (eq→== dp _ e);
      egress_listed = λ e. elem-In self_public_egress ops (implied c3.0 e);
      network_listed = λ e. any-non_local ops (implied c4.0 e);
      placeholder_label = λ e. labelled_eq _ r.privacy_level (implied c5.0 (eq→== dp _ e));
      dcnet_label = λ e. labelled_eq _ r.privacy_level (implied c6.0 (eq→== dp _ e));
      dcnet_ticket = λ e k. implied (excluded c7.0 (eq→== dp _ e)) k;
      local_only_private = λ e m.
          both_ways (excluded c8.0 (labelled_self _ r.privacy_level e)) (non_local-any ops m);
      local_only_offline = λ e. (
        excluded c9.0 (labelled_self _ r.privacy_level e),
        excluded c10.0 (labelled_self _ r.privacy_level e),
      );
      dominant_listed = elem-In r.dominant_origin_path ops (unnegate c11.0);
      cache_offline = λ e. excluded c12.0 (eq→== dp _ e);
      cached_public_label = λ e m. labelled_eq _ r.privacy_level (
          implied (excluded c13.0 (eq→== dp _ e))
            (any_of_In is_public_origin self_public_egress ops refl m));
      results_listed = all-listed ops r.results (unnegate c14.0);
    }

empty_of_is_empty : (ops : List DeliveryPath) → ops ≢ [] → is_empty ops ≡ false
empty_of_is_empty [] h = absurd (h refl)
empty_of_is_empty (p ∷ ops) h = refl

public_In : (ops : List DeliveryPath) → any is_public_origin ops ≡ true → In self_public_egress ops
unfolding is_public_origin
public_In [] h = absurd (ground arith)
public_In (self_public_egress ∷ ops) h = inl refl
public_In (p ∷ ops) h = inr (public_In ops h)

-- An honest envelope passes the checker.
IsHonest-validate : (r : SearchResponse) → IsHonest r → validate_invariants r ≡ none
unfolding validate_invariants
IsHonest-validate r h =
    let dp = r.delivery_path in
    let ops = r.origin_paths in
    none-raise_if _ _ (apart (λ t. empty_of_is_empty ops (h.cache_origins (==→eq dp _ t)))) (
      none-raise_if _ _ (clear (λ t. h.egress_flagged (==→eq dp _ t))) (
        none-raise_if _ _ (clear (λ t. In-elem _ ops (h.egress_listed t))) (
          none-raise_if _ _ (clear (λ t. non_local-any ops (h.network_listed t))) (
            none-raise_if _ _
              (clear (λ t. labelled_self _ r.privacy_level (h.placeholder_label (==→eq dp _ t))))
              (none-raise_if _ _
                (clear (λ t. labelled_self _ r.privacy_level (h.dcnet_label (==→eq dp _ t))))
                (none-raise_if _ _ (apart (λ t. clear (λ q. h.dcnet_ticket (==→eq dp _ t) q))) (
                  none-raise_if _ _
                    (apart (λ t. false_of_not _ (λ k.
                      h.local_only_private (labelled_eq _ r.privacy_level t)
                        (any-non_local ops k))))
                    (none-raise_if _ _
                      (apart (λ t. (h.local_only_offline (labelled_eq _ r.privacy_level t)).0))
                      (none-raise_if _ _
                        (apart (λ t. (h.local_only_offline (labelled_eq _ r.privacy_level t)).1))
                        (none-raise_if _ _
                          (negates (In-elem r.dominant_origin_path ops h.dominant_listed))
                          (none-raise_if _ _ (apart (λ t. h.cache_offline (==→eq dp _ t))) (
                            none-raise_if _ _
                              (apart (λ t. clear (λ q.
                                labelled_self _ r.privacy_level
                                  (h.cached_public_label (==→eq dp _ t) (public_In ops q)))))
                              (none-raise_if _ _
                                (negates (listed-all ops r.results h.results_listed))
                                refl)))))))))))))

-- The checker raises nothing exactly on honest envelopes: those whose flags, origins, labels,
-- ticket and results agree as `IsHonest` says, field by field. Among these fields is none that asks for
-- the egress flag, or a label, where a public origin comes by another delivery than the cache or public
-- egress itself.
pub validate_invariants-IsHonest :
    (r : SearchResponse) → (validate_invariants r ≡ none) ↔ IsHonest r
validate_invariants-IsHonest r = (validate-IsHonest r, IsHonest-validate r)

checked-made :
    (r : SearchResponse) {r' : SearchResponse} (o : Option InvariantError)
    → checked r o ≡ made r'
    → (o ≡ none) × (r ≡ r')
checked-made r none h = (refl, cc)
checked-made r (some e) h = cc

-- `make` gives out an envelope only if it is honest, and then the one it was given.
pub make-made :
    (r : SearchResponse) {r' : SearchResponse} → make r ≡ made r' → IsHonest r × (r ≡ r')
unfolding make
make-made r h = let m = checked-made r (validate_invariants r) h in (validate-IsHonest r m.0, m.1)

pub make_of_IsHonest : (r : SearchResponse) → IsHonest r → make r ≡ made r
unfolding make
make_of_IsHonest r h = rw (IsHonest-validate r h)
