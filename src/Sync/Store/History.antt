-- ===== src/Sync/Store/History.antt =====
-- What holds of the store over any history of applications and reopened connections.
use searxng_wth_frnds.Prelude.{
  ℕ, ◌+◌, String, Bool, true, false, Option, none, some, List, [], ◌∷◌, ◌≡◌, refl, inl, inr, ◌&&◌,
  not, ◌==◌, string_eq, arith, Bool-cases, ==→eq, any, if◌then◌else◌, ltb,
}
use searxng_wth_frnds.Sync.Envelope.{Envelope, ShapeError}
use searxng_wth_frnds.Sync.Store.{
  AuthorRow, Conn, commit, reopen, ApplyResult, Node, pinned_author_row, is_row, is_fork_of,
  insert_record, update_fork, store_envelope, check_signed, check_pin, check_author, check_shape,
  apply_envelope,
}
use searxng_wth_frnds.Sync.Store.Author.{pin_of, pinned_author_row-pin_author}
use searxng_wth_frnds.Sync.Store.Pins.{
  OwnedBy, IsSound, IsSoundConn, All-imp, pinned-IsSound, update_fork-OwnedBy, insert_record-All,
}

module _ (node : Node) (env : Envelope) where
  -- A result whose connection is sound.
  record Keeps (r : ApplyResult × Conn) : Type 0 where
    kept : IsSoundConn node r.1

  Keeps-if :
      (b : Bool) (r r' : ApplyResult × Conn)
      → Keeps r
      → (b ≡ false → Keeps r')
      → Keeps (if b then r else r')
  Keeps-if true r r' h k = h
  Keeps-if false r r' h k = k refl

  store_envelope-Keeps :
      (was_forked : Bool) (c : Conn)
      → IsSoundConn node c
      → node.verify_envelope_signature env ≡ true
      → OwnedBy env.record_id env.author_pubkey c.work.authors
      → Keeps (store_envelope node env was_forked c)
  unfolding store_envelope
  store_envelope-Keeps was_forked c h good o = record {
    kept = record { work = after; durable = after };
  }
    where
      fork : Bool
      fork = not node.lan_trust && any (is_fork_of env) c.work.records

      was_new : Bool
      was_new = not (any (is_row env) c.work.records)

      moved :
          (record_id author : String)
          → OwnedBy record_id author c.work.authors
          → OwnedBy record_id author (update_fork node env fork was_new was_forked c.work.authors)
      moved record_id author p =
          update_fork-OwnedBy node env fork was_new was_forked record_id author c.work.authors p

      after : IsSound node (record {
        records = insert_record env node.now_ms c.work.records;
        authors = update_fork node env fork was_new was_forked c.work.authors;
      })
      after = record {
        verified = insert_record-All node env _ c.work.records h.work.verified good;
        single =
            insert_record-All node env _ c.work.records
              (All-imp _ _ c.work.records (λ r p. moved _ _ p) h.work.single) (moved _ _ o);
      }

  check_signed-Keeps :
      (was_forked : Bool) (c : Conn)
      → IsSoundConn node c
      → OwnedBy env.record_id env.author_pubkey c.work.authors
      → Keeps (check_signed node env was_forked c)
  unfolding check_signed
  check_signed-Keeps was_forked c h o = elim (Bool-cases (node.verify_envelope_signature env)) [
    | inr bad ↦ rw bad (record { kept = h })
    | inl good ↦ elim (Bool-cases (ltb (node.now_ms + node.clock_skew_ms) env.wall_ts_ms)) [
      | inl ahead ↦ rw (good, ahead) (record { kept = h })
      | inr timely ↦ rw (good, timely) (store_envelope-Keeps was_forked c h good o)
    ]
  ]

  check_pin-Keeps :
      (pinned : Option AuthorRow) (c : Conn)
      → node.lan_trust ≡ false
      → IsSoundConn node c
      → pinned_author_row env.record_id c.work.authors ≡ pinned
      → Keeps (check_pin node env pinned c)
  unfolding check_pin
  check_pin-Keeps none c strict h e =
      check_signed-Keeps false _
        (record { work = pinned-IsSound node env c.work h.work; durable = h.durable })
        (
          pin_of env node.now_ms,
          pinned_author_row-pin_author env node.now_ms c.work.authors e,
          refl,
        )
  check_pin-Keeps (some p) c strict h e =
      Keeps-if (not (p.author_pubkey == env.author_pubkey) && not node.lan_trust) _ _
        (record { kept = h })
        (λ same.
          check_signed-Keeps p.forked c h
            (p, e, ==→eq p.author_pubkey env.author_pubkey (ground arith)))

  check_author-Keeps :
      (c : Conn) → node.lan_trust ≡ false → IsSoundConn node c → Keeps (check_author node env c)
  unfolding check_author
  check_author-Keeps c strict h =
      elim (Bool-cases (not node.lan_trust && not (node.is_known_pubkey env.author_pubkey))) [
        | inl stranger ↦ rw stranger (record { kept = h })
        | inr known ↦ rw known (
            check_pin-Keeps (pinned_author_row env.record_id c.work.authors) (commit c) strict
              (record { work = h.work; durable = h.work }) refl)
      ]

  apply_envelope-IsSoundConn :
      (c : Conn)
      → node.lan_trust ≡ false
      → IsSoundConn node c
      → IsSoundConn node (apply_envelope node env c).1
  unfolding apply_envelope check_shape
  apply_envelope-IsSoundConn c strict h = (go (node.shape_error env)).kept
    where
      go : (e : Option ShapeError) → Keeps (check_shape node env e c)
      go none = check_author-Keeps c strict h
      go (some reason) = record { kept = h }

-- A step of a node's life: an envelope arrives at a time, or the connection closes without a commit
-- (the process stops, or an error unwinds) and opens again.
pub data Step : Type 0 where
  arrives : ℕ → Envelope → Step
  reopens : Step

abbrev pub step : Node → Step → Conn → Conn
step node (arrives now_ms env) c = (apply_envelope (record node { now_ms = now_ms }) env c).1
step node reopens c = reopen c

abbrev pub steps : Node → List Step → Conn → Conn
steps node [] c = c
steps node (s ∷ ss) c = steps node ss (step node s c)

retimed :
    (node : Node) (now_ms : ℕ) (c : Conn)
    → IsSoundConn node c
    → IsSoundConn (record node { now_ms = now_ms }) c
retimed node now_ms c h = record {
  work = record { verified = h.work.verified; single = h.work.single };
  durable = record { verified = h.durable.verified; single = h.durable.single };
}

untimed :
    (node : Node) (now_ms : ℕ) (c : Conn)
    → IsSoundConn (record node { now_ms = now_ms }) c
    → IsSoundConn node c
untimed node now_ms c h = record {
  work = record { verified = h.work.verified; single = h.work.single };
  durable = record { verified = h.durable.verified; single = h.durable.single };
}

-- On a node that does not trust its LAN, over any arrivals of envelopes, good or bad, at any times, and
-- any connections closed in between: if at first every stored record, in the open transaction and on
-- the disk, has a verified signature and the author that the record's pin names, then so it is at the
-- end.
pub steps-IsSoundConn :
    (node : Node) (ss : List Step) (c : Conn)
    → node.lan_trust ≡ false
    → IsSoundConn node c
    → IsSoundConn node (steps node ss c)
steps-IsSoundConn node [] c strict h = h
steps-IsSoundConn node (arrives now_ms env ∷ ss) c strict h =
    steps-IsSoundConn node ss (step node (arrives now_ms env) c) strict (
      untimed node now_ms _ (
        apply_envelope-IsSoundConn (record node { now_ms = now_ms }) env c strict
          (retimed node now_ms c h)))
steps-IsSoundConn node (reopens ∷ ss) c strict h =
    steps-IsSoundConn node ss (step node reopens c) strict
      (record { work = h.durable; durable = h.durable })
