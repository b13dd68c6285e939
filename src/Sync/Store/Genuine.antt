-- ===== src/Sync/Store/Genuine.antt =====
-- The store of a node that checks envelopes with `envelope.py`: only what passed the checks is in it.
use searxng_wth_frnds.Prelude.{ℕ, Bool, true, none, some, List, [], ◌∷◌, ◌≡◌, inl, inr, All}
use searxng_wth_frnds.Prelude.Json.{Fields}
use searxng_wth_frnds.Sync.CohortKeys.{CohortKeys}
use searxng_wth_frnds.Sync.Envelope.{Codec, Envelope, read, verify_envelope_signature}
use searxng_wth_frnds.Sync.Envelope.Shape.{IsWellFormed, validate_shape-IsWellFormed}
use searxng_wth_frnds.Sync.Store.{Row, Conn, Node, apply_envelope, node_of}
use searxng_wth_frnds.Sync.Store.Gates.{apply_envelope-cases, Accepted-insert_record}
use searxng_wth_frnds.Sync.Store.Pins.{insert_record-All}
use searxng_wth_frnds.Sync.Store.History.{Step, arrives, reopens, step, steps}

-- Every record, in the open transaction and on the disk, has a property.
pub record Stores (P : Row → Type 0) (c : Conn) : Type 0 where
  pub work : All P c.work.records
  pub durable : All P c.durable.records

-- What an application keeps: the records with a property that an accepted envelope has.
apply_envelope-Stores :
    (P : Row → Type 0) (node : Node) (env : Envelope) (c : Conn)
    → (node.shape_error env ≡ none
        → node.verify_envelope_signature env ≡ true
        → P (record { envelope = env; received_at_ms = node.now_ms }))
    → Stores P c
    → Stores P (apply_envelope node env c).1
apply_envelope-Stores P node env c p h = elim (apply_envelope-cases node env c) [
  | inl refused ↦ record {
    work = rw refused.records h.work;
    durable = elim refused.durable [ inl e ↦ rw e h.durable | inr e ↦ rw e h.work ];
  }
  | inr accepted ↦
      let stored : All P (apply_envelope node env c).1.work.records =
        rw (Accepted-insert_record node env c _ accepted) (
          insert_record-All node env P c.work.records h.work
            (p accepted.shaped accepted.verified)) in
      record { work = stored; durable = rw accepted.committed stored }
]

-- An envelope with everything that the checks look for.
pub record IsGenuine (codec : Codec) (e : Envelope) : Type 0 where
  pub formed : IsWellFormed codec e
  pub verified : verify_envelope_signature codec (some e.author_pubkey) e.wire ≡ true

-- An arrival of a document, and a connection closed and opened again.
pub data Event : Type 0 where
  delivers : ℕ → Fields → Event
  restarts : Event

abbrev pub step_of : Event → Step
step_of (delivers now_ms wire) = arrives now_ms (read wire)
step_of restarts = reopens

abbrev pub steps_of : List Event → List Step
steps_of [] = []
steps_of (e ∷ es) = step_of e ∷ steps_of es

module _ (codec : Codec) (cohort_keys : CohortKeys) (lan_trust : Bool)
    (now_ms clock_skew_ms : ℕ) where
  abbrev checking : Node
  checking = node_of codec cohort_keys lan_trust now_ms clock_skew_ms

  pub step-Stores :
      (e : Event) (c : Conn)
      → Stores (λ r. IsGenuine codec r.envelope) c
      → Stores (λ r. IsGenuine codec r.envelope) (step checking (step_of e) c)
  unfolding read
  step-Stores restarts c h = record { work = h.durable; durable = h.durable }
  step-Stores (delivers at wire) c h =
      apply_envelope-Stores (λ r. IsGenuine codec r.envelope) (record checking { now_ms = at })
        (read wire) c
        (λ shaped verified. record {
          formed = validate_shape-IsWellFormed codec wire shaped;
          verified = verified;
        })
        h

  -- With or without trust in the LAN, whatever documents arrive at whatever times, and wherever the
  -- connection closes in between: if at first every stored envelope is genuine, then so it is at the
  -- end. A genuine envelope has the record's patterns and bounds, carries the hash of its content, and
  -- its author's signature.
  pub steps-Stores :
      (es : List Event) (c : Conn)
      → Stores (λ r. IsGenuine codec r.envelope) c
      → Stores (λ r. IsGenuine codec r.envelope) (steps checking (steps_of es) c)
  steps-Stores [] c h = h
  steps-Stores (e ∷ es) c h = steps-Stores es (step checking (step_of e) c) (step-Stores e c h)
