-- ===== src/Sync/EventLog/Filters.antt =====
-- The filters of a poll, and the payload of an event.
use searxng_wth_frnds.Prelude.{
  ℕ, ◌-◌, ◌≤◌, ◌≡◌, inl, inr, String, true, false, Option, none, some, List, [], ◌∷◌, arith, length,
  elem, length-drop, In, keep-In, elem-In, is_empty, string_eq, nat_eq, drop-In, drop-All,
  All-append_one, refl, if◌then◌else◌, Bool-cases, All, eq_iff, ◌==◌,
}
use searxng_wth_frnds.Prelude.Int.{ℤ, lt_nat, at_least_zero}
use searxng_wth_frnds.Prelude.Dict
use searxng_wth_frnds.Prelude.Dict.{Dict}
use searxng_wth_frnds.Sync.EventLog.{
  Event, EventLog, push_bounded, emit_node_event, get_node_events, after_cursor, in_categories,
  newest, is_reserved, copy_payload,
}

-- The names of the fields that the log itself sets.
abbrev pub own_fields : List String
own_fields = "seq" ∷ "kind" ∷ "category" ∷ "ts_ms" ∷ []

own_fields-is_reserved : (k : String) → In k own_fields → is_reserved k ≡ true
unfolding is_reserved
own_fields-is_reserved k (inl e) = rw e refl
own_fields-is_reserved k (inr (inl e)) = rw e refl
own_fields-is_reserved k (inr (inr (inl e))) = rw e refl
own_fields-is_reserved k (inr (inr (inr (inl e)))) = rw e refl
own_fields-is_reserved k (inr (inr (inr (inr m)))) = absurd m

module _ {V : Type 0} where
  -- What a client asks of an event: past its cursor, where `since_seq` hides `since_ms`.
  abbrev pub IsPast : Option ℤ → Option ℤ → Event V → Type 0
  IsPast (some seq) since_ms e = lt_nat seq e.seq ≡ true
  IsPast none (some ms) e = lt_nat ms e.ts_ms ≡ true
  IsPast none none e = Unit

  after_cursor-In :
      (seq ms : Option ℤ) (e : Event V) (es : List (Event V))
      → In e (after_cursor seq ms es)
      → In e es × IsPast seq ms e
  unfolding after_cursor
  after_cursor-In (some seq) ms e es m = keep-In _ e es m
  after_cursor-In none (some ms) e es m = keep-In _ e es m
  after_cursor-In none none e es m = (m, tt)

  in_categories-In :
      (cats : List String) (e : Event V) (es : List (Event V))
      → In e (in_categories cats es)
      → In e es × (is_empty cats ≡ false → In e.category cats)
  unfolding in_categories
  in_categories-In [] e es m = (m, λ h. absurd (ground arith))
  in_categories-In (c ∷ cats) e es m =
      let found = keep-In (λ x. elem x.category (c ∷ cats)) e es m in
      (found.0, λ _. elem-In e.category (c ∷ cats) found.1)

  newest-In : (limit : ℤ) (e : Event V) (es : List (Event V)) → In e (newest limit es) → In e es
  unfolding newest
  newest-In limit e es m = elim (Bool-cases (at_least_zero limit == 0)) [
    | inl z ↦ absurd (rw z at m)
    | inr p ↦ drop-In _ e es (rw p at m)
  ]

  length-newest-le :
      (limit : ℤ) (es : List (Event V)) → length (newest limit es) ≤ at_least_zero limit
  unfolding newest
  length-newest-le limit es = ground (arith, length-drop (length es - at_least_zero limit) es)

  -- Every event that a poll returns is in the ring, past the cursor, and of a category asked for if
  -- any was; and there are at most `limit` of them, none if `limit` is negative.
  pub get_node_events-In :
      (since_seq since_ms : Option ℤ) (limit : ℤ) (categories : List String) (log : EventLog V)
      → (length (get_node_events since_seq since_ms limit categories log) ≤ at_least_zero limit)
        × ((e : Event V)
            → In e (get_node_events since_seq since_ms limit categories log)
            → In e log.ring
              × IsPast since_seq since_ms e
              × (is_empty categories ≡ false → In e.category categories))
  unfolding get_node_events
  get_node_events-In since_seq since_ms limit categories log = (
    length-newest-le limit _,
    λ e m.
        let c = in_categories-In categories e _ (newest-In limit e _ m) in
        let p = after_cursor-In since_seq since_ms e log.ring c.0 in (p.0, p.1, c.1),
  )

  lookup-copy_payload :
      (k : String) (evt d : Dict V)
      → is_reserved k ≡ true
      → Dict.lookup k evt ≡ none
      → Dict.lookup k (copy_payload evt d) ≡ none
  unfolding copy_payload
  lookup-copy_payload k evt [] r h = h
  lookup-copy_payload k evt ((j, v) ∷ d) r h =
      lookup-copy_payload k (if is_reserved j then evt else Dict.insert j v evt) d r
        (elim (Bool-cases (is_reserved j)) [
          | inl p ↦ rw p h
          | inr p ↦ rw p (ground (arith, Dict.lookup-insert j k v evt, eq_iff j k))
        ])

  -- A caller's payload never sets "seq", "kind", "category" or "ts_ms": if no event of the ring has
  -- that name `k` in its extra fields, then none has it after any emission.
  pub emit-reserved :
      (kind category : String) (payload kwargs : Dict V) (ts : ℕ) (log : EventLog V) (k : String)
      → In k own_fields
      → All (λ e. Dict.lookup k e.extra ≡ none) log.ring
      → All
          (λ e. Dict.lookup k e.extra ≡ none)
          (emit_node_event kind category payload kwargs ts log).ring
  unfolding emit_node_event push_bounded
  emit-reserved kind category payload kwargs ts log k r h = drop-All _ _ _ (
      All-append_one _ log.ring _ h
        (lookup-copy_payload k [] _ (own_fields-is_reserved k r) lookup-nil))
    where
      lookup-nil : Dict.lookup {V = V} k [] ≡ none
      lookup-nil = Dict.lookup-nil k
