-- ===== src/Sync/Reachability.antt =====
-- src/swf/sync/sync_loop.py: which peers could be reached, and the events that say that this changed.
pub mod Edges
mod Tests
use searxng_wth_frnds.Prelude.{
  ℕ, String, Bool, true, false, Option, none, some, List, [], ◌∷◌, ◌++◌, ◌==◌, string_eq,
  if◌then◌else◌,
}
use searxng_wth_frnds.Prelude.Dict
use searxng_wth_frnds.Prelude.Dict.{Dict}

pub data Status : Type 0 where
  reachable unreachable : Status

-- The events of the loop, with the fields of each.
pub data Event : Type 0 where
  manifest_fetched : String → String → ℕ → Event
  peer_reachable : String → String → Event
  peer_unreachable : String → String → String → Event
  pulled : String → String → String → ℕ → String → Event
  tick : ℕ → ℕ → ℕ → Event

-- `_peer_status`, and the events that are emitted, the first first.
pub record Board : Type 0 where
  pub peer_status : Dict Status
  pub emitted : List Event

abbrev pub emit : Event → Board → Board
emit e b = record b { emitted = b.emitted ++ e ∷ [] }

-- The event of a change.
abbrev pub edge_events : Option Status → Status → String → String → String → List Event
edge_events (some unreachable) reachable peer_pubkey peer_url reason =
    peer_reachable peer_pubkey peer_url ∷ []
edge_events (some reachable) reachable peer_pubkey peer_url reason = []
edge_events none reachable peer_pubkey peer_url reason = []
edge_events (some unreachable) unreachable peer_pubkey peer_url reason = []
edge_events (some reachable) unreachable peer_pubkey peer_url reason =
    peer_unreachable peer_pubkey peer_url reason ∷ []
edge_events none unreachable peer_pubkey peer_url reason =
    peer_unreachable peer_pubkey peer_url reason ∷ []

-- `_record_peer_status`.
unfoldable pub record_peer_status : String → Status → String → String → String → Board → Board
record_peer_status peer_key new_status peer_url peer_pubkey reason b = record {
  peer_status = Dict.insert peer_key new_status b.peer_status;
  emitted =
      b.emitted
      ++ edge_events (Dict.lookup peer_key b.peer_status) new_status peer_pubkey peer_url reason;
}
