-- ===== src/Search/Sufficiency.antt =====
-- src/swf/search/sufficiency.py: is a route's result set good enough? Scores are whole
-- ten-thousandths, as the routes round them, so the thresholds 0.50, 0.25 and 0.18 are 5000, 2500 and
-- 1800, and the mean is compared by multiplying out. A score may be negative, but not NaN or infinite,
-- where `check` assumes a score of 0 to 1. `urlparse(url).hostname` is a parameter, `none` where it
-- raises or has no host; texts are compared by their code points.
use searxng_wth_frnds.Prelude.{
  ℕ, ◌*◌, String, Bool, true, false, Option, none, some, List, [], ◌∷◌, ◌||◌, nat_eq, string_eq,
  length, drop, take, keep, is_empty, if◌then◌else◌, ltb, max,
}
use searxng_wth_frnds.Prelude.Int.{ℤ, pos, lt_nat, leb_int, ◌+ℤ◌}
use searxng_wth_frnds.Prelude.Text.{codes, codes_beq, ends_with}
use searxng_wth_frnds.Search.Response.{SearchResult}
use searxng_wth_frnds.Search.Query.{QueryContext, navigational, FreshnessRequirement, require_fresh}

abbrev pub default_min_results : ℕ
default_min_results = 3

abbrev pub default_min_unique_hosts : ℕ
default_min_unique_hosts = 2

abbrev pub default_min_top_score : ℕ
default_min_top_score = 2500

abbrev pub default_min_mean_score : ℕ
default_min_mean_score = 1800

pub data Reason : Type 0 where
  no_results freshness_not_met single_exact_hit too_few_results : Reason
  too_little_source_diversity top_score_too_low mean_score_too_low thresholds_met : Reason

pub record Sufficiency : Type 0 where
  pub sufficient : Bool
  pub reason : Reason

-- `h[4:] if h.startswith("www.") else h`.
unfoldable pub strip_www : List ℕ → List ℕ
strip_www h = if codes_beq (take 4 h) (codes "www.") then drop 4 h else h

-- A score is known: `r.score is not None`.
unfoldable pub is_scored : SearchResult → Bool
is_scored r = elim r.score [ none ↦ false | some s ↦ true ]

abbrev score_of : SearchResult → ℤ
score_of r = elim r.score [ none ↦ pos 0 | some s ↦ s ]

abbrev pub scores : List SearchResult → List ℤ
scores [] = []
scores (r ∷ rs) = score_of r ∷ scores rs

-- `max`, from a first element on; a list of scores is never empty.
abbrev maximum_from : ℤ → List ℤ → ℤ
maximum_from s [] = s
maximum_from s (t ∷ ts) = maximum_from (if leb_int t s then s else t) ts

unfoldable pub maximum : List ℤ → ℤ
maximum [] = pos 0
maximum (s ∷ ss) = maximum_from s ss

abbrev pub sum : List ℤ → ℤ
sum [] = pos 0
sum (s ∷ ss) = s +ℤ sum ss

-- `sorted(scores, reverse=True)`.
unfoldable pub insert_descending : ℤ → List ℤ → List ℤ
insert_descending s [] = s ∷ []
insert_descending s (t ∷ ts) = if leb_int t s then s ∷ t ∷ ts else t ∷ insert_descending s ts

unfoldable pub sort_descending : List ℤ → List ℤ
unfolding insert_descending
sort_descending [] = []
sort_descending (s ∷ ss) = insert_descending s (sort_descending ss)

module _ (hostname : String → Option (List ℕ)) where
  -- `_host`: the empty text stands for no host.
  unfoldable pub host : String → List ℕ
  unfolding strip_www
  host url = elim (hostname url) [ none ↦ [] | some h ↦ strip_www h ]

  host_member : List ℕ → List (List ℕ) → Bool
  host_member h [] = false
  host_member h (g ∷ gs) = codes_beq h g || host_member h gs

  -- `{_host(r.canonical_url) for r in scored if _host(r.canonical_url)}`.
  unfoldable pub host_set : List SearchResult → List (List ℕ)
  unfolding host host_member
  host_set [] = []
  host_set (r ∷ rs) =
      let rest = host_set rs in
      let h = host r.canonical_url in if is_empty h || host_member h rest then rest else h ∷ rest

  top_is_exact : List SearchResult → QueryContext → Bool
  unfolding host
  top_is_exact [] ctx = false
  top_is_exact (top ∷ rest) ctx =
      if lt_nat (score_of top) 5000
      then false
      else ends_with (host top.canonical_url) (codes ctx.normalized_query)

  unfoldable pub exact_navigational_hit : List SearchResult → QueryContext → Bool
  unfolding top_is_exact
  exact_navigational_hit results ctx = elim ctx.inferred_intent [
    | navigational ↦ top_is_exact results ctx
    | _ ↦ false
  ]

  abbrev enough : Reason → Sufficiency
  enough reason = record { sufficient = true; reason = reason }

  abbrev lacking : Reason → Sufficiency
  lacking reason = record { sufficient = false; reason = reason }

  abbrev wants_fresh : FreshnessRequirement → Bool
  wants_fresh require_fresh = true
  wants_fresh _ = false

  -- The part of `check` behind the early returns, on the results that have a score.
  unfoldable pub check_thresholds : List SearchResult → Sufficiency
  unfolding host_set maximum sort_descending
  check_thresholds scored =
      let top3 = take 3 (sort_descending (scores scored)) in
      if ltb (length scored) default_min_results
      then lacking too_few_results
      else if ltb (length (host_set scored)) default_min_unique_hosts
      then lacking too_little_source_diversity
      else if lt_nat (maximum (scores scored)) default_min_top_score
      then lacking top_score_too_low
      else if lt_nat (sum top3) (default_min_mean_score * max 1 (length top3))
      then lacking mean_score_too_low
      else enough thresholds_met

  -- `check`, with its default thresholds, which are the ones that the router uses.
  unfoldable pub check : List SearchResult → QueryContext → Sufficiency
  unfolding check_thresholds exact_navigational_hit is_scored
  check results ctx =
      let scored = keep is_scored results in
      if is_empty scored
      then lacking no_results
      else if wants_fresh ctx.freshness_requirement
      then lacking freshness_not_met
      else if exact_navigational_hit scored ctx
      then enough single_exact_hit
      else check_thresholds scored
