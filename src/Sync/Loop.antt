-- ===== src/Sync/Loop.antt =====
-- src/swf/sync/sync_loop.py: one round over the peers, with the limit on how often each is contacted.
-- Times are in milliseconds. The threads, and the file of the database that does not open, are not here.
pub mod Visits
mod Tests
use searxng_wth_frnds.Prelude.{
  ℕ, suc, ◌+◌, ◌-◌, String, Bool, true, false, Option, none, some, List, [], ◌∷◌, ◌&&◌, not,
  is_empty, if◌then◌else◌, ltb,
}
use searxng_wth_frnds.Prelude.Dict
use searxng_wth_frnds.Prelude.Dict.{Dict}
use searxng_wth_frnds.Sync.Pull.{
  Peer, Round, Counts, none_pulled, Outcome, returned, raised, Setting, text_or, sync_with_peer,
}
use searxng_wth_frnds.Sync.Store.{commit, reopen}
use searxng_wth_frnds.Sync.Reachability.{unreachable, tick, emit, record_peer_status}

abbrev pub peer_rate_limit_ms : ℕ
peer_rate_limit_ms = 5000

abbrev pub default_record_limit : ℕ
default_record_limit = 100

-- A discovered peer: its URL, its key, and what it answers.
pub record Discovered : Type 0 where
  pub url : String
  pub pubkey : Option String
  pub peer : Peer

-- What the loop keeps: the times of the last attempts, the round's state, and the counts of the last tick.
pub record Loop : Type 0 where
  pub peer_attempt_ts : Dict ℕ
  pub round : Round
  pub last_tick_visited : ℕ
  pub last_tick : Counts

abbrev pub is_recent : Option ℕ → ℕ → Bool
is_recent none now = false
is_recent (some ts) now = ltb (now - ts) peer_rate_limit_ms

-- `_peer_in_rate_limit_window`.
unfoldable pub peer_in_rate_limit_window : String → ℕ → Dict ℕ → Bool
peer_in_rate_limit_window peer_key now attempts = is_recent (Dict.lookup peer_key attempts) now

-- `_mark_peer_attempt`.
abbrev pub mark_peer_attempt : String → ℕ → Dict ℕ → Dict ℕ
mark_peer_attempt peer_key now attempts = Dict.insert peer_key now attempts

-- A walk over the peers so far.
pub record Walk : Type 0 where
  pub attempts : Dict ℕ
  pub round : Round
  pub visited : ℕ
  pub totals : Counts

abbrev pub peer_key_of : Discovered → String
peer_key_of p = text_or p.pubkey p.url

abbrev crashed : Discovered → Round → Round
crashed p r = record r {
  board =
      record_peer_status (peer_key_of p) unreachable p.url (text_or p.pubkey "")
        "sync_with_peer_crashed" r.board;
}

abbrev add_counts : Counts → Counts → Counts
add_counts a b = record { pulled = a.pulled + b.pulled; applied = a.applied + b.applied }

-- The walk behind a call.
abbrev pub after_call : Discovered → Outcome → Walk → Walk
after_call p (returned c r) w = record w { round = r; totals = add_counts w.totals c }
after_call p (raised r) w = record w { round = crashed p r }

module _ (s : Setting) (now : ℕ) where
  -- `sync_with_peer` of a peer that is marked
  unfoldable pub contact : Discovered → Walk → Walk
  unfolding sync_with_peer
  contact p w =
      after_call p (sync_with_peer s p.peer p.url p.pubkey default_record_limit w.round) (record w {
        attempts = mark_peer_attempt (peer_key_of p) now w.attempts;
        visited = suc w.visited;
      })

  unfoldable pub visit_peer : Discovered → Walk → Walk
  unfolding contact peer_in_rate_limit_window
  visit_peer p w =
      if peer_in_rate_limit_window (peer_key_of p) now w.attempts then w else contact p w

  unfoldable pub visit_peers : List Discovered → Walk → Walk
  unfolding visit_peer
  visit_peers [] w = w
  visit_peers (p ∷ ps) w = visit_peers ps (visit_peer p w)

abbrev start_walk : Loop → Walk
start_walk l = record {
  attempts = l.peer_attempt_ts;
  round = record l.round { conn = commit (reopen l.round.conn) };
  visited = 0;
  totals = none_pulled;
}

abbrev end_walk : Walk → Loop
end_walk w = record {
  peer_attempt_ts = w.attempts;
  round = record w.round {
    board = emit (tick w.visited w.totals.pulled w.totals.applied) w.round.board;
  };
  last_tick_visited = w.visited;
  last_tick = w.totals;
}

-- `_tick`, which opens a connection and closes it at its end.
unfoldable pub tick_at : Setting → ℕ → List Discovered → Loop → Loop
unfolding visit_peers
tick_at s now peers l =
    if is_empty s.cohort_keys.members && not s.lan_trust
    then l
    else end_walk (visit_peers s now peers (start_walk l))
