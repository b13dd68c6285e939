-- ===== src/Sync/EventLog/Tests.antt =====
-- Tests of the event log on concrete events, and the theorems at concrete logs.
use searxng_wth_frnds.Prelude.{
  String, ℕ, ◌≡◌, ◌≤◌, refl, none, some, [], ◌∷◌, length, In, map, All, is_empty, false, last_of,
  inl,
}
use searxng_wth_frnds.Prelude.Int.{pos}
use searxng_wth_frnds.Prelude.Dict
use searxng_wth_frnds.Sync.EventLog.{
  Event, EventLog, ring_maxlen, emit_node_event, push_bounded, get_node_events, tail_seq,
  get_sync_events,
}
use searxng_wth_frnds.Sync.EventLog.Ring.{IsValid, emit-IsValid, tail_seq-event_seq}
use searxng_wth_frnds.Sync.EventLog.Polling.{
  Emission, emit_all, events_of, poll-emit_all, emit_all-IsValid,
}
use searxng_wth_frnds.Sync.EventLog.Filters.{get_node_events-In, emit-reserved, IsPast}

abbrev fresh : EventLog ℕ
fresh = record { ring = []; event_seq = 0 }

abbrev fresh-IsValid : IsValid fresh
fresh-IsValid = record { filled = refl; numbered = tt }

abbrev pulled : Emission ℕ
pulled = record {
  kind = "pulled";
  category = "sync";
  payload = ("seq", 9) ∷ [];
  kwargs = ("n", 4) ∷ [];
  ts_ms = 70;
}

abbrev found : Emission ℕ
found = record { kind = "mdns_found"; category = "mdns"; payload = []; kwargs = []; ts_ms = 71 }

abbrev busy : EventLog ℕ
busy = emit_all (pulled ∷ found ∷ pulled ∷ []) fresh

busy-IsValid : IsValid busy
busy-IsValid = emit_all-IsValid (pulled ∷ found ∷ pulled ∷ []) fresh fresh-IsValid

sync_events : map (λ e. e.seq) (get_sync_events (some (pos 1)) none (pos 10) busy) ≡ 3 ∷ []
unfolding get_sync_events emit_all emit_node_event push_bounded
sync_events = refl

cursor : tail_seq busy ≡ 3
unfolding tail_seq emit_all emit_node_event push_bounded
cursor = refl

emit-IsValid_example : IsValid (emit_node_event "applied" "sync" [] [] 72 busy)
emit-IsValid_example = emit-IsValid "applied" "sync" [] [] 72 busy busy-IsValid

tail_seq-event_seq_example : tail_seq busy ≡ busy.event_seq
tail_seq-event_seq_example = tail_seq-event_seq busy busy-IsValid

poll-emit_all_example :
    get_node_events
      (some (pos (tail_seq busy)))
      none
      (pos ring_maxlen)
      []
      (emit_all (found ∷ pulled ∷ []) busy)
    ≡ last_of ring_maxlen (events_of busy.event_seq (found ∷ pulled ∷ []))
poll-emit_all_example = poll-emit_all busy (found ∷ pulled ∷ []) busy-IsValid

get_node_events-In_example :
    (length (get_node_events (some (pos 1)) none (pos 5) ("sync" ∷ []) busy) ≤ 5)
    × ((e : Event ℕ)
        → In e (get_node_events (some (pos 1)) none (pos 5) ("sync" ∷ []) busy)
        → In e busy.ring
          × IsPast (some (pos 1)) none e
          × (is_empty {A = String} ("sync" ∷ []) ≡ false → In e.category ("sync" ∷ [])))
get_node_events-In_example = get_node_events-In (some (pos 1)) none (pos 5) ("sync" ∷ []) busy

emit-reserved_example :
    All
      (λ e. Dict.lookup "seq" e.extra ≡ none)
      (emit_node_event "pulled" "sync" (("seq", 9) ∷ []) [] 72 fresh).ring
emit-reserved_example =
    emit-reserved "pulled" "sync" (("seq", 9) ∷ []) [] 72 fresh "seq" (inl refl) tt
