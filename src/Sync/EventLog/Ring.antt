-- ===== src/Sync/EventLog/Ring.antt =====
-- The numbering of the ring: consecutive, ending in the counter, at most `ring_maxlen` events.
use searxng_wth_frnds.Prelude.{
  ℕ, zero, suc, ◌+◌, ◌-◌, ◌≤◌, ◌≡◌, refl, ◌∙◌, String, List, [], ◌∷◌, ◌++◌, arith, length, drop,
  length-append, length-drop, min,
}
use searxng_wth_frnds.Prelude.Dict.{Dict}
use searxng_wth_frnds.Sync.EventLog.{
  Event, EventLog, ring_maxlen, push_bounded, emit_node_event, last_seq, tail_seq,
}

module _ {V : Type 0} where
  -- The events are numbered n + 1, n + 2 and so on.
  abbrev pub IsRun : ℕ → List (Event V) → Type 0
  IsRun n [] = Unit
  IsRun n (e ∷ es) = (e.seq ≡ suc n) × IsRun (suc n) es

  -- The ring holds the last events emitted, as many as fit, in order and with no gap.
  pub record IsValid (log : EventLog V) : Type 0 where
    pub filled : length log.ring ≡ min log.event_seq ring_maxlen
    pub numbered : IsRun (log.event_seq - length log.ring) log.ring

  pub IsRun-append :
      (n : ℕ) (es : List (Event V)) (e : Event V)
      → IsRun n es
      → e.seq ≡ suc (n + length es)
      → IsRun n (es ++ e ∷ [])
  IsRun-append n [] e h p = (omega arith, tt)
  IsRun-append n (d ∷ es) e h p = (h.0, IsRun-append (suc n) es e h.1 (omega arith))

  pub IsRun-drop :
      (n k : ℕ) (es : List (Event V)) → k ≤ length es → IsRun n es → IsRun (n + k) (drop k es)
  IsRun-drop n zero es h r = let e : n + 0 ≡ n = omega arith in rw e r
  IsRun-drop n (suc k) [] h r = tt
  IsRun-drop n (suc k) (d ∷ es) h r =
      let e : n + suc k ≡ suc n + k = omega arith in
      rw e (IsRun-drop (suc n) k es (omega arith) r.1)

  pub IsRun-cast : {n m : ℕ} (es : List (Event V)) → n ≡ m → IsRun n es → IsRun m es
  IsRun-cast es e r = rw (← e) r

  pub length-push_bounded :
      (n : ℕ) (es : List (Event V)) (e : Event V)
      → length (push_bounded n es e) ≡ min (length es + 1) n
  unfolding push_bounded
  length-push_bounded n es e =
      omega
        (arith, length-drop (length (es ++ e ∷ []) - n) (es ++ e ∷ []), length-append es (e ∷ []))

  push_bounded-IsRun :
      (n k : ℕ) (es : List (Event V)) (e : Event V)
      → IsRun n es
      → e.seq ≡ suc (n + length es)
      → IsRun (n + (length es + 1 - k)) (push_bounded k es e)
  unfolding push_bounded
  push_bounded-IsRun n k es e r p =
      let len : length (es ++ e ∷ []) ≡ length es + 1 = omega (arith, length-append es (e ∷ [])) in
      rw len
        (IsRun-drop n (length es + 1 - k) (es ++ e ∷ []) (omega arith) (IsRun-append n es e r p))

  -- Emitting an event keeps the log valid: the numbering stays consecutive, and the ring holds the
  -- last `min(event_seq, 200)` events.
  pub emit-IsValid :
      (kind category : String) (payload kwargs : Dict V) (ts : ℕ) (log : EventLog V)
      → IsValid log
      → IsValid (emit_node_event kind category payload kwargs ts log)
  unfolding emit_node_event
  emit-IsValid kind category payload kwargs ts log v = record {
    filled = omega (arith, length-push_bounded 200 log.ring _, v.filled);
    numbered = IsRun-cast _ (omega (arith, length-push_bounded 200 log.ring _, v.filled)) (
        push_bounded-IsRun (log.event_seq - length log.ring) 200 log.ring _ v.numbered
          (omega (arith, v.filled)));
  }

  last_seq-IsRun : (n : ℕ) (es : List (Event V)) → IsRun n es → last_seq n es ≡ n + length es
  unfolding last_seq
  last_seq-IsRun n [] r = omega arith
  last_seq-IsRun n (e ∷ es) r = rw (r.0) (last_seq-IsRun (suc n) es r.1 ∙ omega arith)

  last_seq_from_zero :
      (n : ℕ) (es : List (Event V))
      → IsRun n es
      → (length es ≡ 0 → n ≡ 0)
      → last_seq 0 es ≡ n + length es
  unfolding last_seq
  last_seq_from_zero n [] r h = omega (arith, h refl)
  last_seq_from_zero n (e ∷ es) r h = rw (r.0) (last_seq-IsRun (suc n) es r.1 ∙ omega arith)

  -- On a valid log the resume cursor is the number of events emitted so far.
  pub tail_seq-event_seq : (log : EventLog V) → IsValid log → tail_seq log ≡ log.event_seq
  unfolding tail_seq
  tail_seq-event_seq log v =
      last_seq_from_zero (log.event_seq - length log.ring) log.ring v.numbered
        (λ e. omega (arith, v.filled))
      ∙ omega (arith, v.filled)
