-- ===== src/Search/Tickets/Redemption/OnceOnly.antt =====
-- A token is redeemed once within the retention of its nullifier, over any sequence of redemptions.
use searxng_wth_frnds.Prelude.{
  ℕ, ◌+◌, ◌<◌, String, Bool, true, false, Option, none, some, List, [], ◌∷◌, ◌≡◌, inl, inr, not,
  Bool-cases, if◌then◌else◌, All,
}
use mathlib.Core.Path.{subst, sym, ◌∙◌}
use searxng_wth_frnds.Prelude.Checks.{false_of_not}
use searxng_wth_frnds.Search.Tickets.{
  TicketEnvelope, IssuerKey, TicketRejection, SignatureCheck, verifies, fails, not_implemented,
  crypto_error, default_nullifier_retention_ms, time_or,
}
use searxng_wth_frnds.Search.Tickets.Nullifiers.{
  spend_accepted, spend_registry, try_spend_nullifier,
}
use searxng_wth_frnds.Search.Tickets.Nullifiers.Once.{Guarded, Guarded-spend, time_or-time_or}
use searxng_wth_frnds.Search.Tickets.Redemption.{
  Crypto, nullifier_for, RedemptionVerdict, Redemption, TicketDb, spend_of, claim_nullifier,
  after_signature, after_issuer, issuer_of, after_envelope, shape_of, redeem_envelope,
  verify_query_ticket,
}
use searxng_wth_frnds.Search.Tickets.Redemption.Redeemed.{verify_query_ticket-IsRedeemed}

-- A sequence of redemptions, with their verdicts.
unfoldable pub redeem_all :
    Crypto → List Redemption → TicketDb → List (Redemption × RedemptionVerdict)
unfolding verify_query_ticket
redeem_all c [] db = []
redeem_all c (q ∷ qs) db =
    (q, (verify_query_ticket c q db).0) ∷ redeem_all c qs (verify_query_ticket c q db).1

abbrev pub redeem_time : Redemption → ℕ
redeem_time q = time_or q.clock q.now_ms

-- The token of a redemption has the nullifier `n`.
abbrev pub Presents : Crypto → String → Redemption → Type 0
Presents c n q = (env : TicketEnvelope) × (q.envelope ≡ some env) × (nullifier_for c env ≡ n)

-- A row that outlasts a redemption is there after it.
module _ (c : Crypto) (q : Redemption) (db : TicketDb) {n : String} {limit : ℕ}
    (early : redeem_time q < limit) (g : Guarded n limit db.registry.rows) where
  record Keeps (r : RedemptionVerdict × TicketDb) : Type 0 where
    kept : Guarded n limit r.1.registry.rows

  Keeps-if :
      (b : Bool) (r r' : RedemptionVerdict × TicketDb)
      → Keeps r
      → Keeps r'
      → Keeps (if b then r else r')
  Keeps-if true r r' h k = h
  Keeps-if false r r' h k = k

  claim_nullifier-Keeps : (env : TicketEnvelope) → Keeps (claim_nullifier c q env db)
  unfolding claim_nullifier try_spend_nullifier
  claim_nullifier-Keeps env =
      let after : Guarded n limit (spend_registry (spend_of c q env) db.registry).rows =
        Guarded-spend (spend_of c q env) db.registry (rw (time_or-time_or q.clock q.now_ms) early)
          g in
      elim (Bool-cases (spend_accepted (spend_of c q env) db.registry)) [
        | inl fresh ↦ rw fresh (record { kept = after })
        | inr used ↦ rw used (record { kept = after })
      ]

  after_signature-Keeps :
      (env : TicketEnvelope) (check : SignatureCheck) → Keeps (after_signature c q env check db)
  unfolding after_signature
  after_signature-Keeps env verifies = claim_nullifier-Keeps env
  after_signature-Keeps env fails = record { kept = g }
  after_signature-Keeps env not_implemented = record { kept = g }
  after_signature-Keeps env crypto_error = record { kept = g }

  after_issuer-Keeps :
      (env : TicketEnvelope) (k : Option IssuerKey) → Keeps (after_issuer c q env k db)
  unfolding after_issuer
  after_issuer-Keeps env none = record { kept = g }
  after_issuer-Keeps env (some k) = after_signature-Keeps env (c.verify env k)

  after_envelope-Keeps :
      (env : TicketEnvelope) (shape : Option TicketRejection)
      → Keeps (after_envelope c q env shape db)
  unfolding after_envelope
  after_envelope-Keeps env (some rejection) = record { kept = g }
  after_envelope-Keeps env none = after_issuer-Keeps env (issuer_of c q q.keys_open_again env db)

  redeem_envelope-Keeps : (o : Option TicketEnvelope) → Keeps (redeem_envelope c q o db)
  unfolding redeem_envelope
  redeem_envelope-Keeps none = record { kept = g }
  redeem_envelope-Keeps (some env) = after_envelope-Keeps env (shape_of c q env db)

  verify_query_ticket-Keeps : Keeps (verify_query_ticket c q db)
  unfolding verify_query_ticket
  verify_query_ticket-Keeps =
      Keeps-if (not q.flag_enabled) _ _ (record { kept = g }) (redeem_envelope-Keeps q.envelope)

  guarded_refused : Presents c n q → (verify_query_ticket c q db).0.accepted ≡ false
  guarded_refused (env, presented, named) = false_of_not _ (λ accepted.
      let (env', shown) = verify_query_ticket-IsRedeemed c q db accepted in
      let same : env' ≡ env = cc (presented, shown.presented) in
      shown.free g.row g.listed (g.named ∙ sym (rw same named)))

Guarded-redeem_all :
    (c : Crypto) (later : List Redemption) (db : TicketDb) {n : String} {limit : ℕ}
    → All (λ q. redeem_time q < limit) later
    → Guarded n limit db.registry.rows
    → All (λ v. Presents c n v.0 → v.1.accepted ≡ false) (redeem_all c later db)
unfolding redeem_all
Guarded-redeem_all c [] db early g = tt
Guarded-redeem_all c (q ∷ later) db (lt, early) g = (
  guarded_refused c q db lt g,
  Guarded-redeem_all c later (verify_query_ticket c q db).1 early
      (verify_query_ticket-Keeps c q db lt g).kept,
)

-- After a token is accepted, every redemption of it in any later sequence is refused, if the sequence
-- (with other tokens and sweeps) comes before the nullifier's seven days are over.
pub redeem_all-once :
    (c : Crypto) (q : Redemption) (later : List Redemption) (db : TicketDb) (env : TicketEnvelope)
    → q.envelope ≡ some env
    → (verify_query_ticket c q db).0.accepted ≡ true
    → All (λ q'. redeem_time q' < redeem_time q + default_nullifier_retention_ms) later
    → All
        (λ v. Presents c (nullifier_for c env) v.0 → v.1.accepted ≡ false)
        (redeem_all c later (verify_query_ticket c q db).1)
redeem_all-once c q later db env presented accepted early =
    let (env', shown) = verify_query_ticket-IsRedeemed c q db accepted in
    let same : env' ≡ env = cc (presented, shown.presented) in
    let limit = redeem_time q + default_nullifier_retention_ms in
    Guarded-redeem_all c later (verify_query_ticket c q db).1 early (
      subst (λ e. Guarded (nullifier_for c e) limit (verify_query_ticket c q db).1.registry.rows)
        same shown.claimed)
