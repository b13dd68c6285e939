-- ===== src/Sync/Loop/Tests.antt =====
-- Two walks over the same peer, which is listed twice.
use searxng_wth_frnds.Prelude.{none, [], ◌∷◌, ◌≡◌, refl}
use searxng_wth_frnds.Sync.Samples.{setting, round_with}
use searxng_wth_frnds.Sync.Pull.{none_pulled}
use searxng_wth_frnds.Sync.Loop.{Discovered, Walk, visit_peers}
use searxng_wth_frnds.Sync.Loop.Visits.{visit_peers-visit_peers}
use searxng_wth_frnds.Prelude.Dict.{lookup, insert}

abbrev silent : Discovered
silent = record {
  url = "http://a";
  pubkey = none;
  peer = record { manifest = none; page = λ r s l. none };
}

abbrev walk : Walk
walk = record { attempts = []; round = round_with []; visited = 0; totals = none_pulled }

visits_once : (visit_peers setting 9000 (silent ∷ silent ∷ []) walk).visited ≡ 1
unfolding visit_peers lookup insert
visits_once = refl

visit_peers-visit_peers_example :
    visit_peers setting 9000
      (silent ∷ silent ∷ [])
      (visit_peers setting 9000 (silent ∷ silent ∷ []) walk)
    ≡ visit_peers setting 9000 (silent ∷ silent ∷ []) walk
visit_peers-visit_peers_example = visit_peers-visit_peers setting 9000 (silent ∷ silent ∷ []) walk
