-- ===== src/Search/Tickets/Issuers.antt =====
-- src/swf/search/tickets.py: the registry of pinned issuer keys, a table whose primary key is the triple
-- of key, circle and epoch. `can_open` says whether the database opens.
use searxng_wth_frnds.Prelude.{
  String, Bool, true, Option, none, some, List, [], ◌∷◌, ◌++◌, ◌≡◌, refl, inl, inr, ◌&&◌, not, ◌==◌,
  string_eq, Bool-cases, ==_refl, keep, if◌then◌else◌,
}
use searxng_wth_frnds.Search.Tickets.{IssuerKey}

abbrev pub is_key : String → String → String → IssuerKey → Bool
is_key issuer_key_id circle_id epoch_id k =
    k.issuer_key_id == issuer_key_id && k.circle_id == circle_id && k.epoch_id == epoch_id

abbrev same_key : IssuerKey → IssuerKey → Bool
same_key key k = is_key key.issuer_key_id key.circle_id key.epoch_id k

-- `INSERT OR REPLACE`; `none` is the `RuntimeError` of a database that does not open.
unfoldable pub trust_issuer_key : Bool → IssuerKey → List IssuerKey → Option (List IssuerKey)
trust_issuer_key can_open key keys =
    if can_open then some (keep (λ k. not (same_key key k)) keys ++ key ∷ []) else none

abbrev first_key : (IssuerKey → Bool) → List IssuerKey → Option IssuerKey
first_key test [] = none
first_key test (k ∷ ks) = if test k then some k else first_key test ks

unfoldable pub get_issuer_key : Bool → String → String → String → List IssuerKey → Option IssuerKey
get_issuer_key can_open issuer_key_id circle_id epoch_id keys =
    if can_open then first_key (is_key issuer_key_id circle_id epoch_id) keys else none

first_key-append :
    (test : IssuerKey → Bool) (ks : List IssuerKey) (k : IssuerKey)
    → first_key test ks ≡ none
    → first_key test (ks ++ k ∷ []) ≡ (if test k then some k else none)
first_key-append test [] k h = refl
first_key-append test (j ∷ ks) k h = elim (Bool-cases (test j)) [
  | inl y ↦ cc (rw y at h)
  | inr n ↦ rw n (first_key-append test ks k (rw n at h))
]

first_key-keep :
    (test : IssuerKey → Bool) (ks : List IssuerKey)
    → first_key test (keep (λ k. not (test k)) ks) ≡ none
first_key-keep test [] = refl
first_key-keep test (k ∷ ks) = elim (Bool-cases (test k)) [
  | inl y ↦ rw y (first_key-keep test ks)
  | inr n ↦ rw (n, n) (first_key-keep test ks)
]

same_key_refl : (key : IssuerKey) → same_key key key ≡ true
same_key_refl key = rw (==_refl key.issuer_key_id, ==_refl key.circle_id, ==_refl key.epoch_id) refl

-- A key that is pinned is the one that its triple gives, whatever was pinned under it before.
pub get_issuer_key-trust_issuer_key :
    (key : IssuerKey) (keys keys' : List IssuerKey)
    → trust_issuer_key true key keys ≡ some keys'
    → get_issuer_key true key.issuer_key_id key.circle_id key.epoch_id keys' ≡ some key
unfolding trust_issuer_key get_issuer_key
get_issuer_key-trust_issuer_key key keys keys' e =
    let pinned : keep (λ k. not (same_key key k)) keys ++ key ∷ [] ≡ keys' = cc in
    rw
      (
        ← pinned,
        first_key-append (same_key key) _ key (first_key-keep (same_key key) keys),
        same_key_refl key,
      )
      refl
