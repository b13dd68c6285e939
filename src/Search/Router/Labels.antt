-- ===== src/Search/Router/Labels.antt =====
-- The envelopes of the router pass the checker of `response.py`: what the walk needs of its attempts.
use mathlib.Core.Path.{subst}
use searxng_wth_frnds.Prelude.{
  ℕ, String, Bool, true, false, Option, none, some, List, [], ◌∷◌, ◌≡◌, refl, sym, inl, inr, ◌||◌,
  arith, Bool-cases, if◌then◌else◌, any, elem, In, All, elem-In, In-append_left, In-append_right,
}
use searxng_wth_frnds.Search.Response.{
  DeliveryPath, lan_friend_direct_placeholder, lan_friend_dcnet, self_public_egress, no_result,
  path_eq, SearchAttempt, is_non_local_origin, Status, Debug,
}
use searxng_wth_frnds.Search.Response.Invariants.{IsHonest, TouchesNetwork}
use searxng_wth_frnds.Search.Policy.{SearchPolicy}
use searxng_wth_frnds.Search.Query.{QueryContext}
use searxng_wth_frnds.Search.Router.Serve.{
  origins_from_attempts, attempt_to_origin, add_origin, add_attempt, empty_envelope, annotate,
  not_implemented_attempt,
}

-- A handler's attempt says which route used the network: public egress only the egress route, and
-- the network only a route that leaves the device.
pub record IsLabelled (a : SearchAttempt) : Type 0 where
  pub egress : a.public_egress_used ≡ true → a.path ≡ self_public_egress
  pub network : a.network_used ≡ true → is_non_local_origin a.path ≡ true

pub annotate-IsLabelled :
    (a : SearchAttempt) (reason : String) → IsLabelled a → IsLabelled (annotate a reason)
unfolding annotate
annotate-IsLabelled a reason h = record { egress = h.egress; network = h.network }

pub not_implemented-IsLabelled :
    (n : ℕ) (p : DeliveryPath) → IsLabelled (not_implemented_attempt n p)
unfolding not_implemented_attempt
not_implemented-IsLabelled n p = record { egress = λ e. cc; network = λ e. cc }

In-add_origin :
    (o : Option DeliveryPath) (p : DeliveryPath) (out : List DeliveryPath)
    → In p out
    → In p (add_origin o out)
In-add_origin none p out m = m
In-add_origin (some q) p out m = elim (Bool-cases (elem q out)) [
  | inl old ↦ rw old m
  | inr new ↦ rw new (In-append_left p out (q ∷ []) m)
]

add_origin-In : (q : DeliveryPath) (out : List DeliveryPath) → In q (add_origin (some q) out)
add_origin-In q out = elim (Bool-cases (elem q out)) [
  | inl old ↦ rw old (elem-In q out old)
  | inr new ↦ rw new (In-append_right q out (q ∷ []) (inl refl))
]

In-if :
    (b : Bool) (p : DeliveryPath) (xs ys : List DeliveryPath)
    → (b ≡ true → In p xs)
    → (b ≡ false → In p ys)
    → In p (if b then xs else ys)
In-if true p xs ys h k = h refl
In-if false p xs ys h k = k refl

-- What is in the list stays in it.
pub origins_from_attempts-seed :
    (p : DeliveryPath) (out : List DeliveryPath) (as' : List SearchAttempt)
    → In p out
    → In p (origins_from_attempts out as')
unfolding origins_from_attempts
origins_from_attempts-seed p out [] m = m
origins_from_attempts-seed p out (a ∷ as') m =
    origins_from_attempts-seed p (add_attempt out a) as'
      (In-if _ p _ out (λ _. In-add_origin (attempt_to_origin a.path) p out m) (λ _. m))

-- An attempt that used the network has its origin in the list.
pub origins_from_attempts-In :
    (a : SearchAttempt) (p : DeliveryPath) (out : List DeliveryPath) (as' : List SearchAttempt)
    → In a as'
    → (a.network_used || a.public_egress_used) ≡ true
    → attempt_to_origin a.path ≡ some p
    → In p (origins_from_attempts out as')
unfolding origins_from_attempts
origins_from_attempts-In a p out [] m used o = absurd m
origins_from_attempts-In a p out (b ∷ as') (inl e) used o =
    origins_from_attempts-seed p (add_attempt out b) as' (rw (← e, used, o) (add_origin-In p out))
origins_from_attempts-In a p out (b ∷ as') (inr m) used o =
    origins_from_attempts-In a p (add_attempt out b) as' m used o

any-attempt :
    (test : SearchAttempt → Bool) (as' : List SearchAttempt)
    → any test as' ≡ true
    → (a : SearchAttempt) × In a as' × (test a ≡ true)
any-attempt test [] h = absurd (ground arith)
any-attempt test (a ∷ as') h = elim (Bool-cases (test a)) [
  | inl y ↦ (a, inl refl, y)
  | inr n ↦ let (b, m, t) = any-attempt test as' (ground arith) in (b, inr m, t)
]

IsLabelled-In :
    (as' : List SearchAttempt) (a : SearchAttempt) → All IsLabelled as' → In a as' → IsLabelled a
IsLabelled-In [] a h m = absurd m
IsLabelled-In (b ∷ as') a h (inl e) = rw e h.0
IsLabelled-In (b ∷ as') a h (inr m) = IsLabelled-In as' a h.1 m

egress_origin :
    (a : SearchAttempt)
    → a.path ≡ self_public_egress
    → attempt_to_origin a.path ≡ some self_public_egress
unfolding attempt_to_origin
egress_origin a e = rw e

touching_origin : (p : DeliveryPath) → is_non_local_origin p ≡ true → attempt_to_origin p ≡ some p
unfolding attempt_to_origin is_non_local_origin
touching_origin p h = ground arith

touches :
    (p : DeliveryPath) (ops : List DeliveryPath)
    → is_non_local_origin p ≡ true
    → In p ops
    → TouchesNetwork ops
unfolding is_non_local_origin
touches self_public_egress ops h m = inl m
touches lan_friend_dcnet ops h m = inr (inl m)
touches lan_friend_direct_placeholder ops h m = inr (inr m)
touches _ ops h m = cc

-- An attempt that leaves the device has its route among the origins, if it used the network.
abbrev pub NamesRoutes : List SearchAttempt → List DeliveryPath → Type 0
NamesRoutes attempts origins =
    (a : SearchAttempt)
    → In a attempts
    → (a.network_used || a.public_egress_used) ≡ true
    → In a.path origins

left_device :
    (a : SearchAttempt)
    → IsLabelled a
    → (a.network_used || a.public_egress_used) ≡ true
    → attempt_to_origin a.path ≡ some a.path
left_device a h used = elim (Bool-cases a.network_used) [
  | inl y ↦ touching_origin a.path (h.network y)
  | inr n ↦
      let e = h.egress (ground arith) in
      subst (λ p. attempt_to_origin a.path ≡ some p) (sym e) (egress_origin a e)
]

-- An answer without results is an honest envelope, whatever was attempted, if the attempts are
-- labelled; and its origins have the route of every attempt that used the network or public egress.
pub empty_envelope-IsHonest :
    (outcome_status : Status) (reason : String) (warnings : List String) (debug : Debug)
    (ctx : QueryContext) (policy : SearchPolicy) (now_ms : ℕ) (attempts : List SearchAttempt)
    (fallbacks : List DeliveryPath)
    → All IsLabelled attempts
    → let answer =
        empty_envelope outcome_status reason warnings debug ctx policy now_ms attempts fallbacks in
      IsHonest answer × NamesRoutes attempts answer.origin_paths
unfolding empty_envelope
empty_envelope-IsHonest outcome_status reason warnings debug ctx policy now_ms attempts fallbacks
      labels =
    (
      record {
        cache_origins = λ e. cc;
        egress_flagged = λ e. cc;
        egress_listed = λ e.
            let (a, m, used) = any-attempt (λ b. b.public_egress_used) attempts e in
            origins_from_attempts-In a self_public_egress _ attempts m (ground (arith, used))
              (egress_origin a ((IsLabelled-In attempts a labels m).egress used));
        network_listed = λ e.
            let (a, m, used) = any-attempt (λ b. b.network_used) attempts e in
            let leaves = (IsLabelled-In attempts a labels m).network used in
            touches a.path _ leaves (
              origins_from_attempts-In a a.path _ attempts m (ground (arith, used))
                (touching_origin a.path leaves));
        placeholder_label = λ e. cc;
        dcnet_label = λ e. cc;
        dcnet_ticket = λ e. cc;
        local_only_private = λ e. cc;
        local_only_offline = λ e. cc;
        dominant_listed = origins_from_attempts-seed no_result (no_result ∷ []) attempts (inl refl);
        cache_offline = λ e. cc;
        cached_public_label = λ e. cc;
        results_listed = tt;
      },
      λ a m used.
          origins_from_attempts-In a a.path _ attempts m used
            (left_device a (IsLabelled-In attempts a labels m) used),
    )
