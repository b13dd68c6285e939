-- ===== src/Sync/EventLog.antt =====
-- src/swf/sync/event_log.py: the ring of the most recent node events.
-- The lock makes each function one step on the ring and the counter; the clock's value is an
-- argument of `emit_node_event`. `V` is the type of payload values.
pub mod Ring
pub mod Polling
pub mod Filters
mod Tests
use searxng_wth_frnds.Prelude.{
  ℕ, ◌+◌, ◌-◌, String, Bool, true, false, Option, none, some, List, [], ◌∷◌, ◌++◌, ◌||◌, ◌==◌,
  string_eq, nat_eq, length, drop, keep, elem, is_empty, if◌then◌else◌, ltb, not,
}
use searxng_wth_frnds.Prelude.Int.{ℤ, pos, negsuc, lt_nat, at_least_zero}
use searxng_wth_frnds.Prelude.Dict
use searxng_wth_frnds.Prelude.Dict.{Dict}

abbrev pub ring_maxlen : ℕ
ring_maxlen = 200

-- An event: the reserved fields, and what the caller's payload adds.
pub record Event (V : Type 0) : Type 0 where
  pub seq : ℕ
  pub kind : String
  pub category : String
  pub ts_ms : ℕ
  pub extra : Dict V

-- The module's state.
pub record EventLog (V : Type 0) : Type 0 where
  pub ring : List (Event V)
  pub event_seq : ℕ

-- `deque(maxlen=n).append(x)`: the oldest elements go.
unfoldable pub push_bounded {ℓ} : {A : Type ℓ} → ℕ → List A → A → List A
push_bounded n xs x = drop (length (xs ++ x ∷ []) - n) (xs ++ x ∷ [])

unfoldable pub is_reserved : String → Bool
is_reserved k = k == "seq" || k == "kind" || k == "category" || k == "ts_ms"

module _ {V : Type 0} where
  -- the loop that copies the payload, less the reserved names
  unfoldable pub copy_payload : Dict V → Dict V → Dict V
  unfolding is_reserved
  copy_payload evt [] = evt
  copy_payload evt ((k, v) ∷ merged) =
      copy_payload (if is_reserved k then evt else Dict.insert k v evt) merged

  unfoldable pub emit_node_event : String → String → Dict V → Dict V → ℕ → EventLog V → EventLog V
  emit_node_event kind category payload kwargs ts_ms log =
      let seq = log.event_seq + 1 in
      let merged = Dict.update (Dict.update [] payload) kwargs in
      record {
        ring = push_bounded ring_maxlen log.ring (record {
          seq = seq;
          kind = kind;
          category = category;
          ts_ms = ts_ms;
          extra = copy_payload [] merged;
        });
        event_seq = seq;
      }

  unfoldable pub emit_sync_event : String → Dict V → ℕ → EventLog V → EventLog V
  emit_sync_event kind payload = emit_node_event kind "sync" [] payload

  -- the two cursors: `since_seq` wins
  unfoldable pub after_cursor : Option ℤ → Option ℤ → List (Event V) → List (Event V)
  after_cursor (some seq) since_ms events = keep (λ e. lt_nat seq e.seq) events
  after_cursor none (some ms) events = keep (λ e. lt_nat ms e.ts_ms) events
  after_cursor none none events = events

  unfoldable pub in_categories : List String → List (Event V) → List (Event V)
  in_categories categories events =
      if is_empty categories then events else keep (λ e. elem e.category categories) events

  -- `events[-limit:] if limit else []`, a negative limit being 0
  unfoldable pub newest : ℤ → List (Event V) → List (Event V)
  newest limit events =
      let n = at_least_zero limit in if n == 0 then [] else drop (length events - n) events

  -- `None` and the empty set of categories both mean all of them.
  unfoldable pub get_node_events :
      Option ℤ → Option ℤ → ℤ → List String → EventLog V → List (Event V)
  unfolding after_cursor in_categories newest
  get_node_events since_seq since_ms limit categories log =
      newest limit (in_categories categories (after_cursor since_seq since_ms log.ring))

  unfoldable pub get_sync_events : Option ℤ → Option ℤ → ℤ → EventLog V → List (Event V)
  unfolding get_node_events
  get_sync_events since_seq since_ms limit = get_node_events since_seq since_ms limit ("sync" ∷ [])

  -- the last element's number, 0 if there is none
  unfoldable pub last_seq : ℕ → List (Event V) → ℕ
  last_seq n [] = n
  last_seq n (e ∷ es) = last_seq e.seq es

  unfoldable pub tail_seq : EventLog V → ℕ
  unfolding last_seq
  tail_seq log = last_seq 0 log.ring

  unfoldable pub reset_event_log_for_tests : EventLog V → EventLog V
  reset_event_log_for_tests log = record { ring = []; event_seq = 0 }
