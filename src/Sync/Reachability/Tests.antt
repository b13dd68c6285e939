-- ===== src/Sync/Reachability/Tests.antt =====
-- A peer that goes down, stays down, and comes back.
use searxng_wth_frnds.Prelude.{String, List, [], ◌∷◌, ◌++◌, ◌≡◌, refl}
use searxng_wth_frnds.Prelude.Dict
use searxng_wth_frnds.Sync.Reachability.{Status, reachable, unreachable, Board, record_peer_status}
use searxng_wth_frnds.Sync.Reachability.Edges.{
  Observation, observe, edges, statuses, changes, seen, edges-observe,
}

abbrev saw : String → Status → Observation
saw url status = record {
  peer_pubkey = "";
  peer_url = url;
  status = status;
  reason = "manifest_fetch_failed";
}

abbrev observations : List Observation
observations =
    saw "a" reachable
    ∷ saw "b" unreachable
    ∷ saw "a" unreachable
    ∷ saw "a" unreachable
    ∷ saw "a" reachable
    ∷ []

abbrev board : Board
board = record { peer_status = []; emitted = [] }

down_and_up : edges "a" (observe observations board).emitted ≡ unreachable ∷ reachable ∷ []
unfolding record_peer_status Dict.lookup Dict.insert
down_and_up = refl

edges-observe_example :
    edges "a" (observe observations board).emitted
    ≡ edges "a" board.emitted
      ++ changes (seen (Dict.lookup "a" board.peer_status)) (statuses "a" observations)
edges-observe_example = edges-observe "a" observations board
