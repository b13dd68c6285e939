-- ===== src/Sync/Store/Advance.antt =====
-- How an application moves the current view of a record.
use searxng_wth_frnds.Prelude.{
  ℕ, String, false, List, [], ◌∷◌, ◌++◌, ◌≡◌, refl, ap, ◌∙◌, inl, inr, string_eq, any, In,
  In-append_left, In-append_right, In-append_cases, Bool-cases,
}
use searxng_wth_frnds.Sync.Envelope.{Envelope}
use searxng_wth_frnds.Sync.Store.{
  Row, Conn, Node, applied, is_row, newer, insert_record, apply_envelope,
}
use searxng_wth_frnds.Sync.Store.Gates.{apply_envelope-cases, Accepted-insert_record}
use searxng_wth_frnds.Sync.Store.Latest.{IsNewest, newer_irrefl}

abbrev row_of : Envelope → ℕ → Row
row_of env now_ms = record { envelope = env; received_at_ms = now_ms }

-- An envelope that is not newer leaves the newest as it is.
insert_record-IsNewest :
    (env : Envelope) (now_ms : ℕ) (record_id : String) (rows : List Row) (m : Envelope)
    → IsNewest record_id rows m
    → newer env m ≡ false
    → IsNewest record_id (insert_record env now_ms rows) m
unfolding insert_record
insert_record-IsNewest env now_ms record_id rows m h old =
    elim (Bool-cases (any (is_row env) rows)) [
      | inl y ↦ rw y h
      | inr n ↦ rw n (record {
        stored =
            let (r, i, s) = h.stored in (r, In-append_left r rows (row_of env now_ms ∷ []) i, s);
        of_record = h.of_record;
        newest = newest_of;
      })
    ]
  where
    newest_of :
        (q : Row)
        → In q (rows ++ row_of env now_ms ∷ [])
        → q.envelope.record_id ≡ record_id
        → newer q.envelope m ≡ false
    newest_of q i e = elim (In-append_cases q rows (row_of env now_ms ∷ []) i) [
      | inl j ↦ h.newest q j e
      | inr (inl same) ↦ rw same old
      | inr (inr j) ↦ absurd j
    ]

-- A new envelope that no row is newer than becomes the newest.
insert_record-IsNewest' :
    (env : Envelope) (now_ms : ℕ) (record_id : String) (rows : List Row)
    → env.record_id ≡ record_id
    → any (is_row env) rows ≡ false
    → ((q : Row) → In q rows → q.envelope.record_id ≡ record_id → newer q.envelope env ≡ false)
    → IsNewest record_id (insert_record env now_ms rows) env
unfolding insert_record
insert_record-IsNewest' env now_ms record_id rows of_record fresh top = rw fresh (record {
  stored = (
    row_of env now_ms,
    In-append_right (row_of env now_ms) rows (row_of env now_ms ∷ []) (inl refl),
    refl,
  );
  of_record = of_record;
  newest = newest_of;
})
  where
    newest_of :
        (q : Row)
        → In q (rows ++ row_of env now_ms ∷ [])
        → q.envelope.record_id ≡ record_id
        → newer q.envelope env ≡ false
    newest_of q i e = elim (In-append_cases q rows (row_of env now_ms ∷ []) i) [
      | inl j ↦ top q j e
      | inr (inl same) ↦ rw same (newer_irrefl env)
      | inr (inr j) ↦ absurd j
    ]

module _ (node : Node) (env : Envelope) (c : Conn) where
  pub apply_envelope-IsNewest :
      (record_id : String) (m : Envelope)
      → IsNewest record_id c.work.records m
      → newer env m ≡ false
      → IsNewest record_id (apply_envelope node env c).1.work.records m
  apply_envelope-IsNewest record_id m h old = elim (apply_envelope-cases node env c) [
    | inl refused ↦ rw refused.records h
    | inr accepted ↦
        rw (Accepted-insert_record node env c _ accepted)
          (insert_record-IsNewest env node.now_ms record_id c.work.records m h old)
  ]

  pub apply_envelope-IsNewest' :
      (record_id : String) (m : Envelope)
      → env ≡ m
      → m.record_id ≡ record_id
      → (apply_envelope node env c).0.reason ≡ applied
      → any (is_row m) c.work.records ≡ false
      → ((q : Row)
          → In q c.work.records
          → q.envelope.record_id ≡ record_id
          → newer q.envelope m ≡ false)
      → IsNewest record_id (apply_envelope node env c).1.work.records m
  apply_envelope-IsNewest' record_id m e of_record ok fresh top =
      elim (apply_envelope-cases node env c) [
        | inl refused ↦ absurd (refused.refused ok)
        | inr accepted ↦
            let stored =
              insert_record-IsNewest' env node.now_ms record_id c.work.records
                (ap (λ x. x.record_id) e ∙ of_record) (rw e fresh) (λ q i f. rw e (top q i f)) in
            let moved : IsNewest record_id (insert_record env node.now_ms c.work.records) m =
              rw (← e) stored in
            rw (Accepted-insert_record node env c _ accepted) moved
      ]
