-- ===== src/Sync/Store/Gates.antt =====
-- What an application of an envelope does: it is refused and no record changes, or it has passed
-- every gate and is in the store.
use searxng_wth_frnds.Prelude.{
  ℕ, ◌+◌, ◌≤◌, ◌++◌, [], ◌∷◌, any, In, eq→==, Bool, true, false, Option, none, some, List, ◌≡◌, ◌≢◌,
  refl, ◌⊎◌, inl, inr, ◌&&◌, not, ◌==◌, string_eq, arith, Bool-cases, ==→eq, ltb,
}
use searxng_wth_frnds.Sync.Envelope.{Envelope, ShapeError}
use searxng_wth_frnds.Sync.Store.{
  AuthorRow, Tables, Conn, commit, Reason, shape, author_not_in_cohort,
  record_id_owned_by_other_author, signature_invalid, clock_too_far_ahead, applied, ApplyResult,
  Node, pinned_author_row, Row, is_row, insert_record, store_envelope, check_signed, check_pin,
  check_author, check_shape, apply_envelope,
}

-- The call is refused: no record changes. The disk may have caught up with the open transaction.
pub record Refused (c : Conn) (r : ApplyResult × Conn) : Type 0 where
  pub refused : r.0.reason ≢ applied
  pub records : r.1.work.records ≡ c.work.records
  pub durable : (r.1.durable ≡ c.durable) ⊎ (r.1.durable ≡ c.work)

-- A row has the key of the table: the record of the envelope, and its content hash.
abbrev pub HasKey : Envelope → Row → Type 0
HasKey env r = (r.envelope.record_id ≡ env.record_id) × (r.envelope.content_hash ≡ env.content_hash)

-- The rows before and after: a row of the envelope stands behind the old ones, if none of them had its
-- key; and if one had, the rows are the old ones. `was_new` says which.
abbrev pub AddsOnce : Envelope → ℕ → List Row → List Row → Bool → Type 0
AddsOnce env now_ms old rows was_new =
    ((was_new ≡ true)
      × ((r : Row) → In r old → ¬ (HasKey env r))
      × (rows ≡ old ++ record { envelope = env; received_at_ms = now_ms } ∷ []))
    ⊎ ((was_new ≡ false) × ((r : Row) × In r old × HasKey env r) × (rows ≡ old))

HasKey-any :
    (env : Envelope) (r : Row) (rows : List Row)
    → In r rows
    → HasKey env r
    → any (is_row env) rows ≡ true
HasKey-any env r [] m k = absurd m
HasKey-any env r (q ∷ rows) (inl e) k =
    let record_id = eq→== r.envelope.record_id env.record_id k.0 in
    let content_hash = eq→== r.envelope.content_hash env.content_hash k.1 in
    rw (← e, record_id, content_hash) refl
HasKey-any env r (q ∷ rows) (inr m) k = ground (arith, HasKey-any env r rows m k)

any-HasKey :
    (env : Envelope) (rows : List Row)
    → any (is_row env) rows ≡ true
    → (r : Row) × In r rows × HasKey env r
any-HasKey env [] h = cc
any-HasKey env (q ∷ rows) h = elim (Bool-cases (is_row env q)) [
  | inl y ↦ (
    q,
    inl refl,
    (
      ==→eq q.envelope.record_id env.record_id (ground arith),
      ==→eq q.envelope.content_hash env.content_hash (ground arith),
    ),
  )
  | inr n ↦ let (r, m, k) = any-HasKey env rows (ground arith) in (r, inr m, k)
]

insert_record-AddsOnce :
    (env : Envelope) (now_ms : ℕ) (rows : List Row)
    → AddsOnce env now_ms rows (insert_record env now_ms rows) (not (any (is_row env) rows))
unfolding insert_record
insert_record-AddsOnce env now_ms rows = elim (Bool-cases (any (is_row env) rows)) [
  | inl old ↦ inr (rw old refl, any-HasKey env rows old, rw old refl)
  | inr new ↦ inl (rw new refl, λ r m k. cc (HasKey-any env r rows m k, new), rw new refl)
]

pub AddsOnce-insert_record :
    (env : Envelope) (now_ms : ℕ) (old rows : List Row) (was_new : Bool)
    → AddsOnce env now_ms old rows was_new
    → rows ≡ insert_record env now_ms old
unfolding insert_record
AddsOnce-insert_record env now_ms old rows was_new (inl (flag, free, e)) =
    elim (Bool-cases (any (is_row env) old)) [
      | inl y ↦ let (r, m, k) = any-HasKey env old y in absurd (free r m k)
      | inr n ↦ rw n e
    ]
AddsOnce-insert_record env now_ms old rows was_new (inr (flag, (r, m, k), e)) =
    rw (HasKey-any env r old m k) e

-- The call is accepted: every gate is passed, the envelope is stored beside the old rows, and all of it
-- is on the disk.
pub record Accepted (node : Node) (env : Envelope) (c : Conn) (r : ApplyResult × Conn)
    : Type 0 where
  pub accepted : r.0.reason ≡ applied
  pub shaped : node.shape_error env ≡ none
  pub cohort : (node.lan_trust ≡ true) ⊎ (node.is_known_pubkey env.author_pubkey ≡ true)
  pub owner :
      (a : AuthorRow)
      → pinned_author_row env.record_id c.work.authors ≡ some a
      → (a.author_pubkey ≡ env.author_pubkey) ⊎ (node.lan_trust ≡ true)
  pub verified : node.verify_envelope_signature env ≡ true
  pub timely : env.wall_ts_ms ≤ node.now_ms + node.clock_skew_ms
  pub added : AddsOnce env node.now_ms c.work.records r.1.work.records r.0.was_new
  pub committed : r.1.durable ≡ r.1.work

pub Accepted-insert_record :
    (node : Node) (env : Envelope) (c : Conn) (r : ApplyResult × Conn)
    → Accepted node env c r
    → r.1.work.records ≡ insert_record env node.now_ms c.work.records
Accepted-insert_record node env c r a = AddsOnce-insert_record env node.now_ms _ _ _ a.added

module _ (node : Node) (env : Envelope) where
  -- From step 4 on, with the fork flag that was read.
  record Stored (c : Conn) (r : ApplyResult × Conn) : Type 0 where
    verified : node.verify_envelope_signature env ≡ true
    timely : env.wall_ts_ms ≤ node.now_ms + node.clock_skew_ms
    accepted : r.0.reason ≡ applied
    added : AddsOnce env node.now_ms c.work.records r.1.work.records r.0.was_new
    committed : r.1.durable ≡ r.1.work

  refuse :
      {c : Conn} (reason : Reason)
      → reason ≢ applied
      → Refused c (
        record { reason = reason; was_new = false; became_latest = false; fork_detected = false },
        c,
      )
  refuse reason n = record { refused = n; records = refl; durable = inl refl }

  check_signed-cases :
      (was_forked : Bool) (c : Conn)
      → Refused c (check_signed node env was_forked c)
        ⊎ Stored c (check_signed node env was_forked c)
  unfolding check_signed store_envelope
  check_signed-cases was_forked c = elim (Bool-cases (node.verify_envelope_signature env)) [
    | inr bad ↦ inl (rw bad (refuse signature_invalid (λ e. cc)))
    | inl good ↦ elim (Bool-cases (ltb (node.now_ms + node.clock_skew_ms) env.wall_ts_ms)) [
      | inl ahead ↦ inl (rw (good, ahead) (refuse clock_too_far_ahead (λ e. cc)))
      | inr timely ↦ inr (
          rw (good, timely)
            (record {
              verified = good;
              timely = ground arith;
              accepted = refl;
              added = insert_record-AddsOnce env node.now_ms c.work.records;
              committed = refl;
            }))
    ]
  ]

  -- From step 3 on, at a connection that has just committed.
  record Owned (pinned : Option AuthorRow) (c : Conn) (r : ApplyResult × Conn) : Type 0 where
    stored : Stored c r
    owner :
        (a : AuthorRow)
        → pinned ≡ some a
        → (a.author_pubkey ≡ env.author_pubkey) ⊎ (node.lan_trust ≡ true)

  -- What is refused after the pin is refused with the records that were there before it.
  unpinned-Refused :
      (c : Conn) (authors : List AuthorRow) (r : ApplyResult × Conn)
      → Refused (record c { work = record { records = c.work.records; authors = authors } }) r
      → (r.1.durable ≡ c.durable) ⊎ (r.1.durable ≡ c.work)
      → Refused c r
  unpinned-Refused c authors r h d = record {
    refused = h.refused;
    records = h.records;
    durable = d;
  }

  check_signed-durable :
      (was_forked : Bool) (c : Conn)
      → (check_signed node env was_forked c).0.reason ≢ applied
      → (check_signed node env was_forked c).1.durable ≡ c.durable
  unfolding check_signed store_envelope
  check_signed-durable was_forked c h = elim (Bool-cases (node.verify_envelope_signature env)) [
    | inr bad ↦ rw bad refl
    | inl good ↦ elim (Bool-cases (ltb (node.now_ms + node.clock_skew_ms) env.wall_ts_ms)) [
      | inl ahead ↦ rw (good, ahead) refl
      | inr timely ↦ absurd (rw (good, timely) at h refl)
    ]
  ]

  check_pin-cases :
      (pinned : Option AuthorRow) (c : Conn)
      → Refused c (check_pin node env pinned c) ⊎ Owned pinned c (check_pin node env pinned c)
  unfolding check_pin
  check_pin-cases none c = elim (check_signed-cases false _) [
    | inl r ↦ inl (unpinned-Refused c _ _ r (inl (check_signed-durable false _ r.refused)))
    | inr s ↦ inr (record {
      stored = record {
        verified = s.verified;
        timely = s.timely;
        accepted = s.accepted;
        added = s.added;
        committed = s.committed;
      };
      owner = λ a e. cc;
    })
  ]
  check_pin-cases (some p) c =
      elim (Bool-cases (not (p.author_pubkey == env.author_pubkey) && not node.lan_trust)) [
        | inl other ↦ inl (rw other (refuse record_id_owned_by_other_author (λ e. cc)))
        | inr same ↦ rw same (elim (check_signed-cases p.forked c) [
          | inl r ↦ inl r
          | inr s ↦ inr (record { stored = s; owner = λ a e. owner_of a e (own same) })
        ])
      ]
    where
      own :
          (not (p.author_pubkey == env.author_pubkey) && not node.lan_trust) ≡ false
          → (p.author_pubkey ≡ env.author_pubkey) ⊎ (node.lan_trust ≡ true)
      own h = elim (Bool-cases (p.author_pubkey == env.author_pubkey)) [
        | inl y ↦ inl (==→eq p.author_pubkey env.author_pubkey y)
        | inr n ↦ inr (ground arith)
      ]

      owner_of :
          (a : AuthorRow)
          → Option.some p ≡ some a
          → (p.author_pubkey ≡ env.author_pubkey) ⊎ (node.lan_trust ≡ true)
          → (a.author_pubkey ≡ env.author_pubkey) ⊎ (node.lan_trust ≡ true)
      owner_of a e o = let same : p ≡ a = cc in rw (← same) o

  check_author-cases :
      (c : Conn)
      → node.shape_error env ≡ none
      → Refused c (check_author node env c) ⊎ Accepted node env c (check_author node env c)
  unfolding check_author
  check_author-cases c shaped =
      elim (Bool-cases (not node.lan_trust && not (node.is_known_pubkey env.author_pubkey))) [
        | inl stranger ↦ inl (rw stranger (refuse author_not_in_cohort (λ e. cc)))
        | inr known ↦
            rw known
              (elim (check_pin-cases (pinned_author_row env.record_id c.work.authors) (commit c)) [
                | inl r ↦ inl (record {
                  refused = r.refused;
                  records = r.records;
                  durable = inr (kept r.durable);
                })
                | inr o ↦ inr (record {
                  accepted = o.stored.accepted;
                  shaped = shaped;
                  cohort = member known;
                  owner = o.owner;
                  verified = o.stored.verified;
                  timely = o.stored.timely;
                  added = o.stored.added;
                  committed = o.stored.committed;
                })
              ])
      ]
    where
      member :
          (not node.lan_trust && not (node.is_known_pubkey env.author_pubkey)) ≡ false
          → (node.lan_trust ≡ true) ⊎ (node.is_known_pubkey env.author_pubkey ≡ true)
      member h = ground arith

      kept : {d : Tables} → (d ≡ c.work) ⊎ (d ≡ c.work) → d ≡ c.work
      kept (inl e) = e
      kept (inr e) = e

-- An application has one of two ends. It is refused, and no record changes. Or it is accepted: the shape
-- is right, the author is of the cohort and is the record's pinned one if there is a pin (both unless the
-- node trusts its LAN), the signature verifies, the time is not past the tolerated skew; the rows are
-- the old ones, with a new row of the envelope exactly if none had its record and content hash, which
-- `was_new` reports; and they are committed.
pub apply_envelope-cases :
    (node : Node) (env : Envelope) (c : Conn)
    → Refused c (apply_envelope node env c) ⊎ Accepted node env c (apply_envelope node env c)
unfolding apply_envelope check_shape
apply_envelope-cases node env c = go (node.shape_error env) refl
  where
    go :
        (e : Option ShapeError)
        → node.shape_error env ≡ e
        → Refused c (apply_envelope node env c) ⊎ Accepted node env c (apply_envelope node env c)
    go none e = rw e (check_author-cases node env c e)
    go (some reason) e = inl (rw e (refuse node env (shape reason) (λ h. cc)))
