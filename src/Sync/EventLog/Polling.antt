-- ===== src/Sync/EventLog/Polling.antt =====
-- What a client reads that polls with the last number it has seen.
use searxng_wth_frnds.Prelude.{
  ℕ, zero, suc, ◌+◌, ◌-◌, ◌≤◌, ◌<◌, ◌≡◌, refl, sym, ◌∙◌, ap, String, none, some, List, [], ◌∷◌,
  ◌++◌, arith, length, drop, last_of, last_of-append_last_of, drop-drop, drop-append_length, keep,
  length-append, length-keep-le, ltb, false, lt→ltb, string_eq,
}
use native.Mathlib.Decide.{dec_lt}
use searxng_wth_frnds.Prelude.Int.{pos}
use searxng_wth_frnds.Prelude.Dict
use searxng_wth_frnds.Prelude.Dict.{Dict}
use searxng_wth_frnds.Sync.EventLog.{
  Event, EventLog, ring_maxlen, push_bounded, emit_node_event, get_node_events, tail_seq,
  copy_payload,
}
use mathlib.Core.List.{append-nil, append_assoc}
use searxng_wth_frnds.Sync.EventLog.Ring.{
  length-push_bounded, IsRun, IsValid, emit-IsValid, tail_seq-event_seq,
}

drop_nil {ℓ} : {A : Type ℓ} (k : ℕ) → drop {A = A} k [] ≡ []
drop_nil zero = refl
drop_nil (suc k) = refl

-- An emission as its caller writes it.
pub record Emission (V : Type 0) : Type 0 where
  pub kind : String
  pub category : String
  pub payload : Dict V
  pub kwargs : Dict V
  pub ts_ms : ℕ

module _ {V : Type 0} where
  -- In a run, the events after number `s` are a tail of the list.
  keep_after_all :
      (n s : ℕ) (es : List (Event V)) → s ≤ n → IsRun n es → keep (λ e. ltb s e.seq) es ≡ es
  keep_after_all n s [] h r = refl
  keep_after_all n s (e ∷ es) h r =
      let late : s < e.seq = omega (arith, r.0) in
      rw (lt→ltb s e.seq late) (ap (◌∷◌ e) (keep_after_all (suc n) s es (omega arith) r.1))

  keep-after :
      (n s : ℕ) (es : List (Event V)) → IsRun n es → keep (λ e. ltb s e.seq) es ≡ drop (s - n) es
  keep-after n s [] r = sym (drop_nil (s - n))
  keep-after n s (e ∷ es) r = elim (dec_lt n s) [
    | yes p ↦
        let early : ltb s e.seq ≡ false = ground (arith, r.0) in
        let shift : s - n ≡ suc (s - suc n) = omega arith in
        rw early (rw shift (keep-after (suc n) s es r.1))
    | no p ↦
        let none_dropped : s - n ≡ 0 = omega arith in
        rw none_dropped (keep_after_all n s (e ∷ es) (omega arith) r)
  ]

  drop_none : (k : ℕ) (es : List (Event V)) → k ≡ 0 → drop k es ≡ es
  drop_none k es h = rw h

  -- What a poll returns on a valid log, from a cursor `s`, with no category and the full limit:
  -- exactly the events of the ring numbered above `s`, oldest first, and nothing else is dropped.
  pub poll-drop :
      (log : EventLog V) (s : ℕ)
      → IsValid log
      → get_node_events (some (pos s)) none (pos ring_maxlen) [] log
        ≡ drop (s - (log.event_seq - length log.ring)) log.ring
  unfolding get_node_events
  poll-drop log s v =
      drop_none _ (keep (λ e. ltb s e.seq) log.ring)
        (omega (arith, length-keep-le {0} (λ e. ltb s e.seq) log.ring, v.filled))
      ∙ keep-after (log.event_seq - length log.ring) s log.ring v.numbered

  -- The events that a sequence of emissions makes, from a counter on.
  unfoldable pub event_of : ℕ → Emission V → Event V
  event_of n i = record {
    seq = n + 1;
    kind = i.kind;
    category = i.category;
    ts_ms = i.ts_ms;
    extra = copy_payload [] (Dict.update (Dict.update [] i.payload) i.kwargs);
  }

  abbrev pub events_of : ℕ → List (Emission V) → List (Event V)
  events_of n [] = []
  events_of n (i ∷ is) = event_of n i ∷ events_of (n + 1) is

  unfoldable pub emit_all : List (Emission V) → EventLog V → EventLog V
  emit_all [] log = log
  emit_all (i ∷ is) log =
      emit_all is (emit_node_event i.kind i.category i.payload i.kwargs i.ts_ms log)

  pub emit_all-IsValid :
      (is : List (Emission V)) (log : EventLog V) → IsValid log → IsValid (emit_all is log)
  unfolding emit_all
  emit_all-IsValid [] log v = v
  emit_all-IsValid (i ∷ is) log v =
      emit_all-IsValid is _ (emit-IsValid i.kind i.category i.payload i.kwargs i.ts_ms log v)

  event_seq-emit_all :
      (is : List (Emission V)) (log : EventLog V)
      → (emit_all is log).event_seq ≡ log.event_seq + length is
  unfolding emit_all emit_node_event
  event_seq-emit_all [] log = omega arith
  event_seq-emit_all (i ∷ is) log =
      event_seq-emit_all is (emit_node_event i.kind i.category i.payload i.kwargs i.ts_ms log)
      ∙ omega arith

  -- After any emissions the ring is the last 200 of all events.
  ring-emit_all :
      (is : List (Emission V)) (log : EventLog V)
      → length log.ring ≤ ring_maxlen
      → (emit_all is log).ring ≡ last_of ring_maxlen (log.ring ++ events_of log.event_seq is)
  unfolding emit_all emit_node_event event_of push_bounded
  ring-emit_all [] log h = sym (rw append-nil (drop_none _ log.ring (omega arith)))
  ring-emit_all (i ∷ is) log h =
      let log' = emit_node_event i.kind i.category i.payload i.kwargs i.ts_ms log in
      ring-emit_all is log'
        (omega (arith, length-push_bounded 200 log.ring (event_of log.event_seq i)))
      ∙ last_of-append_last_of 200 (log.ring ++ event_of log.event_seq i ∷ []) _
      ∙ ap (last_of 200) (append_assoc log.ring _ _)

  length-events_of : (n : ℕ) (is : List (Emission V)) → length (events_of n is) ≡ length is
  length-events_of n [] = refl
  length-events_of n (i ∷ is) = ap suc (length-events_of (n + 1) is)

  -- Polling is resumable: a client that took the cursor `tail_seq` and polls again after any further
  -- emissions reads exactly those emissions, in order, each as it was emitted, up to the last 200
  -- of them; so it reads every one of them if they are at most 200, and none twice.
  pub poll-emit_all :
      (log : EventLog V) (is : List (Emission V))
      → IsValid log
      → get_node_events (some (pos (tail_seq log))) none (pos ring_maxlen) [] (emit_all is log)
        ≡ last_of ring_maxlen (events_of log.event_seq is)
  poll-emit_all log is v =
      let es = events_of log.event_seq is in
      let log' = emit_all is log in
      let start = log'.event_seq - length log'.ring in
      let all_events = log.ring ++ es in
      let ring' : log'.ring ≡ last_of 200 all_events =
        ring-emit_all is log (omega (arith, v.filled)) in
      let counts : (length all_events - 200) + (log.event_seq - start)
          ≡ length log.ring + (length es - 200) =
        omega (
          arith,
          v.filled,
          event_seq-emit_all is log,
          (emit_all-IsValid is log v).filled,
          length-append log.ring es,
          length-events_of log.event_seq is,
        ) in
      rw (tail_seq-event_seq log v) (
        poll-drop log' log.event_seq (emit_all-IsValid is log v)
        ∙ ap (drop (log.event_seq - start)) ring'
        ∙ drop-drop _ _ all_events
        ∙ ap (λ k. drop k all_events) counts
        ∙ sym (drop-drop _ (length log.ring) all_events)
        ∙ ap (drop (length es - 200)) (drop-append_length log.ring es))
