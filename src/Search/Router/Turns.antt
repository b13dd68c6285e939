-- ===== src/Search/Router/Turns.antt =====
-- Each turn of the walk passes its route or stops there, with labelled attempts.
use mathlib.Core.Path.{subst}
use searxng_wth_frnds.Prelude.{
  ℕ, String, Bool, true, false, Option, none, some, List, [], ◌∷◌, ◌++◌, ◌≡◌, refl, ◌⊎◌, inl, inr,
  ◌&&◌, not, ap, ◌==◌, string_eq, arith, if◌then◌else◌, All, All-append_one, is_empty,
}
use searxng_wth_frnds.Prelude.Checks.{unnegate}
use searxng_wth_frnds.Search.Response.{
  DeliveryPath, local_cache, local_indrex, lan_friend_direct_placeholder, lan_friend_dcnet,
  self_public_egress, no_result, mixed, SearchAttempt, SearchResponse, make, Status, no_results,
  confirmation_required, path_eq,
}
use searxng_wth_frnds.Search.Response.Invariants.{IsHonest, make_of_IsHonest}
use searxng_wth_frnds.Search.Policy.{SearchPolicy, deny, mode_eq}
use searxng_wth_frnds.Search.Query.{QueryContext}
use searxng_wth_frnds.Search.Sufficiency
use searxng_wth_frnds.Search.Router.{RouteHandler, Services, Served, handlers, egress_enabled}
use searxng_wth_frnds.Search.Router.Serve.{
  no_results_response, confirmation_response, annotate, empty_envelope,
}
use searxng_wth_frnds.Search.Router.Labels.{
  IsLabelled, annotate-IsLabelled, not_implemented-IsLabelled, empty_envelope-IsHonest,
}
use searxng_wth_frnds.Search.Router.Ends.{
  EmptyAnswer, NeedsNoAnswer, IsFruitless, IsPassed, IsAsked, StopsAt, Ends,
}
use searxng_wth_frnds.Search.Router.Visit.{
  Turn, next, stop, resume, visit, visit_handler, after_run, go_on, ask, succeed, answer,
  needs_confirmation, failed_suspiciously, walk,
}

-- Each route labels its attempts as `route.py` asks of a handler.
pub record HonestServices (s : Services) : Type 0 where
  pub cache : (q : String) (ps : List DeliveryPath) → IsLabelled (s.cache_lookup q ps).attempt
  pub indrex : (q : String) (k : ℕ) → IsLabelled (s.indrex_search q k).attempt
  pub dcnet : (ctx : QueryContext) → IsLabelled (s.dcnet_search ctx).attempt
  pub direct : (ctx : QueryContext) → IsLabelled (s.direct_search ctx).attempt
  pub egress : (ctx : QueryContext) → IsLabelled (s.egress_search ctx).attempt

abbrev HandlerLabelled : Option RouteHandler → Type 0
HandlerLabelled none = Unit
HandlerLabelled (some h) =
    (ctx : QueryContext) (p : SearchPolicy) → IsLabelled (h.run ctx p).attempt

handlers-labelled :
    (s : Services) (path : DeliveryPath) → HonestServices s → HandlerLabelled (handlers s path)
unfolding handlers
handlers-labelled s local_cache h = λ ctx p. h.cache _ _
handlers-labelled s local_indrex h = λ ctx p. h.indrex _ _
handlers-labelled s lan_friend_dcnet h = λ ctx p. h.dcnet ctx
handlers-labelled s lan_friend_direct_placeholder h = λ ctx p. h.direct ctx
handlers-labelled s self_public_egress h = λ ctx p. h.egress ctx
handlers-labelled s no_result h = tt
handlers-labelled s mixed h = tt

pub IsHonest-EmptyAnswer :
    (kind_of : Status) (r : SearchResponse)
    → r.status ≡ kind_of
    → r.results ≡ []
    → IsHonest r
    → EmptyAnswer kind_of (answer [] (make r))
unfolding answer
IsHonest-EmptyAnswer kind_of r st e h = rw (make_of_IsHonest r h) (r, refl, st, h, e, refl)

consent_if : (a b c : Bool) → a ≡ true → (a && not b && not c) ≡ false → (c ≡ true) ⊎ (b ≡ true)
consent_if a true c e h = inr refl
consent_if a false true e h = inl refl
consent_if a false false e h = absurd (ground arith)

module _ (s : Services) (ctx : QueryContext) (policy : SearchPolicy) (confirmed : Bool) where
  -- a turn goes on with labelled attempts, past its route, or stops there
  data TurnAnswers (path : DeliveryPath) : Turn → Type 0 where
    goes :
        {attempts : List SearchAttempt} {fallbacks : List DeliveryPath}
        → All IsLabelled attempts
        → IsPassed s ctx policy confirmed path
        → TurnAnswers path (next attempts fallbacks)
    stops :
        {served : Served}
        → StopsAt s ctx policy confirmed path served
        → TurnAnswers path (stop served)

  Turn-if :
      (path : DeliveryPath) (b : Bool) (t u : Turn)
      → (b ≡ true → TurnAnswers path t)
      → (b ≡ false → TurnAnswers path u)
      → TurnAnswers path (if b then t else u)
  Turn-if path true t u h k = h refl
  Turn-if path false t u h k = k refl

  needs_confirmation-consent :
      (path : DeliveryPath)
      → needs_confirmation s ctx policy confirmed path ≡ false
      → path ≡ self_public_egress
      → NeedsNoAnswer s ctx policy confirmed
  unfolding needs_confirmation
  needs_confirmation-consent path h e =
      consent_if (path == self_public_egress) (policy.public_egress.mode == deny) confirmed
        (rw e refl) h

  asks_if :
      {path : DeliveryPath} (h : RouteHandler)
      → handlers s path ≡ some h
      → h.is_enabled policy ≡ true
      → needs_confirmation s ctx policy confirmed path ≡ true
      → IsAsked s ctx policy confirmed path
  unfolding needs_confirmation
  asks_if h found enabled y = record {
    handler = h;
    found = found;
    enabled = enabled;
    unconfirmed = ground arith;
    permitted = ground arith;
    cause = inl (ground arith);
  }

  -- An enabled public egress route is not denied.
  egress_not_denied :
      (h : RouteHandler)
      → handlers s self_public_egress ≡ some h
      → h.is_enabled policy ≡ true
      → (policy.public_egress.mode == deny) ≡ false
  unfolding handlers egress_enabled
  egress_not_denied h found enabled =
      let is_enabled : egress_enabled policy ≡ h.is_enabled policy = cc in ground arith

  egress_permitted :
      (path : DeliveryPath) (h : RouteHandler)
      → handlers s path ≡ some h
      → h.is_enabled policy ≡ true
      → path ≡ self_public_egress
      → (policy.public_egress.mode == deny) ≡ false
  egress_permitted path h found enabled e =
      egress_not_denied h (subst (λ q. handlers s q ≡ some h) e found) enabled

  needs_no-consent :
      (path : DeliveryPath) (h : RouteHandler)
      → handlers s path ≡ some h
      → h.is_enabled policy ≡ true
      → needs_confirmation s ctx policy confirmed path ≡ false
      → path ≡ self_public_egress
      → confirmed ≡ true
  needs_no-consent path h found enabled n e = elim (needs_confirmation-consent path n e) [
    | inl yes_confirmed ↦ yes_confirmed
    | inr denied ↦ cc (egress_permitted path h found enabled e, denied)
  ]

  ask-answers :
      (path : DeliveryPath) (reason : String) (attempts : List SearchAttempt)
      (fallbacks : List DeliveryPath)
      → All IsLabelled attempts
      → IsAsked s ctx policy confirmed path
      → TurnAnswers path (ask s ctx policy confirmed reason attempts fallbacks)
  unfolding ask confirmation_response empty_envelope
  ask-answers path reason attempts fallbacks labels asked = stops (
      inl (
        asked,
        IsHonest-EmptyAnswer confirmation_required _ refl refl
            (empty_envelope-IsHonest _ _ _ _ ctx policy s.now_ms attempts fallbacks labels).0,
      ))

  -- an enabled handler, which the walk may ask without a question
  module _ (path : DeliveryPath) (h : RouteHandler) (found : handlers s path ≡ some h)
      (enabled : h.is_enabled policy ≡ true)
      (consent : path ≡ self_public_egress → confirmed ≡ true) where
    go_on-answers :
        (attempts : List SearchAttempt) (fallbacks : List DeliveryPath)
        → All IsLabelled attempts
        → IsFruitless s ctx policy confirmed (h.run ctx policy)
        → TurnAnswers path (go_on s ctx policy confirmed path (h.run ctx policy) attempts fallbacks)
    unfolding go_on failed_suspiciously
    go_on-answers attempts fallbacks labels fruitless =
        Turn-if path (failed_suspiciously s ctx policy confirmed path (h.run ctx policy)) _
          (next attempts (fallbacks ++ path ∷ []))
          (λ y. ask-answers path _ attempts fallbacks labels (record {
            handler = h;
            found = found;
            enabled = enabled;
            unconfirmed = ground arith;
            permitted = ground arith;
            cause = inr (fruitless, ground arith, ground arith);
          }))
          (λ n. goes labels (
            inr (
              h,
              found,
              inr (record {
                consent = consent;
                fruitless = fruitless;
                unsuspicious = λ sus wanted other.
                    consent_if
                      ((h.run ctx policy).suspicious_failure
                        && policy.public_egress.confirm_after_suspicious_private_failure
                        && not (path == self_public_egress))
                      (policy.public_egress.mode == deny) confirmed (rw (sus, wanted, other) refl)
                      (ground arith);
              }),
            )))

    after_run-answers :
        (attempts : List SearchAttempt) (fallbacks : List DeliveryPath)
        → All IsLabelled attempts
        → IsLabelled (h.run ctx policy).attempt
        → TurnAnswers path
            (after_run s ctx policy confirmed path (h.run ctx policy) attempts fallbacks)
    unfolding after_run succeed
    after_run-answers attempts fallbacks labels l =
        let o = h.run ctx policy in
        let suff = Sufficiency.check s.hostname o.results ctx in
        Turn-if path (is_empty o.results) _ _
          (λ y.
            go_on-answers (attempts ++ o.attempt ∷ []) fallbacks
              (All-append_one IsLabelled attempts o.attempt labels l) (inl y))
          (λ results.
            Turn-if path suff.sufficient _ _
              (λ sufficient. stops (
                inr (record {
                  handler = h;
                  found = found;
                  enabled = enabled;
                  consent = consent;
                  some_results = results;
                  sufficient = sufficient;
                  attempts = attempts;
                  fallbacks = fallbacks;
                  is_answer = refl;
                })))
              (λ insufficient.
                go_on-answers (attempts ++ annotate o.attempt _ ∷ []) fallbacks
                  (All-append_one IsLabelled attempts (annotate o.attempt _) labels
                    (annotate-IsLabelled o.attempt _ l))
                  (inr insufficient)))

  module _ (path : DeliveryPath) (attempts : List SearchAttempt) (fallbacks : List DeliveryPath)
      (labels : All IsLabelled attempts) where
    visit_handler-answers :
        (o : Option RouteHandler)
        → handlers s path ≡ o
        → HandlerLabelled o
        → TurnAnswers path (visit_handler s ctx policy confirmed path o attempts fallbacks)
    unfolding visit_handler
    visit_handler-answers none found hl =
        goes
          (All-append_one IsLabelled attempts _ labels (not_implemented-IsLabelled s.now_ms path))
          (inl found)
    visit_handler-answers (some h) found hl =
        Turn-if path (not (h.is_enabled policy)) (next attempts fallbacks) _
          (λ off. goes labels (inr (h, found, inl (ground arith))))
          (λ on.
            Turn-if path (needs_confirmation s ctx policy confirmed path) _ _
              (λ y. ask-answers path _ attempts fallbacks labels (asks_if h found (unnegate on) y))
              (λ n.
                after_run-answers path h found (unnegate on)
                  (needs_no-consent path h found (unnegate on) n) attempts fallbacks labels
                  (hl ctx policy)))

    visit-answers :
        HandlerLabelled (handlers s path)
        → TurnAnswers path (visit s ctx policy confirmed path attempts fallbacks)
    unfolding visit
    visit-answers hl = visit_handler-answers (handlers s path) refl hl

  resume-Ends :
      {path : DeliveryPath} {t : Turn} (paths : List DeliveryPath)
      (rest : List SearchAttempt → List DeliveryPath → Served)
      → TurnAnswers path t
      → ((a : List SearchAttempt) (f : List DeliveryPath)
          → All IsLabelled a
          → Ends s ctx policy confirmed paths (rest a f))
      → Ends s ctx policy confirmed (path ∷ paths) (resume rest t)
  resume-Ends {path} paths rest (goes {attempts = a} {fallbacks = f} labels passed) h =
      elim (h a f labels) [
        | inl (all, empty) ↦ inl ((passed, all), empty)
        | inr (before, p, after, e, all, stop_at) ↦
            inr (path ∷ before, p, after, ap (λ ps. path ∷ ps) e, (passed, all), stop_at)
      ]
  resume-Ends {path} paths rest (stops answered) h = inr ([], path, paths, refl, tt, answered)

  pub walk-Ends :
      (paths : List DeliveryPath) (attempts : List SearchAttempt) (fallbacks : List DeliveryPath)
      → HonestServices s
      → All IsLabelled attempts
      → Ends s ctx policy confirmed paths (walk s ctx policy confirmed paths attempts fallbacks)
  unfolding walk no_results_response empty_envelope
  walk-Ends [] attempts fallbacks honest labels = inl (
    tt,
    IsHonest-EmptyAnswer no_results _ refl refl
        (empty_envelope-IsHonest _ _ _ _ ctx policy s.now_ms attempts fallbacks labels).0,
  )
  walk-Ends (path ∷ paths) attempts fallbacks honest labels =
      resume-Ends paths _
        (visit-answers path attempts fallbacks labels (handlers-labelled s path honest))
        (λ a f l. walk-Ends paths a f honest l)
