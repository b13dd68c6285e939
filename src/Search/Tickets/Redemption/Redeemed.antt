-- ===== src/Search/Tickets/Redemption/Redeemed.antt =====
-- What a redeemed ticket has shown, and that it is redeemed once.
use searxng_wth_frnds.Prelude.{
  ℕ, ◌+◌, String, true, false, Option, none, some, List, [], ◌∷◌, ◌≡◌, ◌≢◌, refl, ◌⊎◌, inl, inr,
  ◌==◌, string_eq, Bool-cases, ==→eq, ◌≤◌, length, is_empty, In, arith,
}
use searxng_wth_frnds.Prelude.Text.{codes}
use searxng_wth_frnds.Prelude.Checks.{raise_if-none, unnegate}
use searxng_wth_frnds.Search.Tickets.{
  TicketEnvelope, IssuerKey, TicketRejection, SignatureCheck, verifies, fails, not_implemented,
  crypto_error, Expected, validate_envelope, epoch_acceptable, other_scope, short_nonce,
  names_epoch, verify_signature, time_or, default_nullifier_retention_ms,
}
use searxng_wth_frnds.Search.Tickets.Nullifiers.{
  NullifierRow, spend_accepted, spend_registry, try_spend_nullifier,
}
use searxng_wth_frnds.Search.Tickets.Nullifiers.Once.{
  Guarded, Guarded-refused, accepted-Guarded, time_or-time_or,
}
use searxng_wth_frnds.Search.Tickets.Redemption.{
  Crypto, shipped, nullifier_for, RedemptionVerdict, Redemption, TicketDb, expectation, spend_of,
  claim_nullifier, after_signature, after_issuer, issuer_of, after_envelope, shape_of,
  redeem_envelope, verify_query_ticket,
}

-- What an accepted ticket has shown: the steps of the flow, in their order.
pub record IsRedeemed (c : Crypto) (q : Redemption) (db : TicketDb) (env : TicketEnvelope)
    : Type 0 where
  pub enabled : q.flag_enabled ≡ true
  pub presented : q.envelope ≡ some env
  pub circle : env.circle_id ≡ q.expected_circle_id
  pub scope : env.token_body.scope ≡ q.expected_scope
  pub epoch : (env.epoch_id ≡ q.current_epoch_id) ⊎ (q.previous_epoch_id ≡ some env.epoch_id)
  pub signed : env.issuer_signature ≢ []
  pub nonce : 22 ≤ length (codes env.token_body.nonce)
  pub issuer : IssuerKey
  pub pinned : issuer_of c q q.keys_open_again env db ≡ some issuer
  pub verified : c.verify env issuer ≡ verifies
  pub free : (row : NullifierRow) → In row db.registry.rows → row.nullifier ≢ nullifier_for c env
  pub claimed :
      Guarded
        (nullifier_for c env)
        (time_or q.clock q.now_ms + default_nullifier_retention_ms)
        (verify_query_ticket c q db).1.registry.rows
  pub reported : (verify_query_ticket c q db).0.nullifier ≡ nullifier_for c env

-- The checks of an envelope that hold when it is not rejected.
record IsShaped (env : TicketEnvelope) (want : Expected) : Type 0 where
  circle : env.circle_id ≡ want.circle_id
  scope : other_scope env.token_body.scope want.scope ≡ false
  signed : is_empty env.issuer_signature ≡ false
  nonce : short_nonce env.token_body.nonce ≡ false
  epoch :
      epoch_acceptable env.epoch_id want.current_epoch_id want.previous_epoch_id want.grace_ms
        want.epoch_started_ms want.now_ms want.clock
      ≡ true

validate_envelope-IsShaped :
    (env : TicketEnvelope) (want : Expected) (issuer : Option IssuerKey)
    → validate_envelope env want issuer ≡ none
    → IsShaped env want
unfolding validate_envelope
validate_envelope-IsShaped env want issuer e =
    let (circle, e1) = raise_if-none _ _ e in
    let (scope, e2) = raise_if-none _ _ e1 in
    let (signed, e3) = raise_if-none _ _ e2 in
    let (nonce, e4) = raise_if-none _ _ e3 in
    let (epoch, e5) = raise_if-none _ _ e4 in
    record {
      circle = ==→eq env.circle_id want.circle_id (unnegate circle);
      scope = scope;
      signed = signed;
      nonce = nonce;
      epoch = unnegate epoch;
    }

names_epoch-eq :
    (epoch_id : String) (previous : Option String)
    → names_epoch epoch_id previous ≡ true
    → previous ≡ some epoch_id
names_epoch-eq epoch_id none h = cc
names_epoch-eq epoch_id (some p) h = rw (==→eq epoch_id p h)

-- Without a start of the epoch there is no limit on the previous one.
epoch_acceptable-cases :
    (epoch_id current : String) (previous : Option String) (grace : ℕ) (now_ms : Option ℕ)
    (clock : ℕ)
    → epoch_acceptable epoch_id current previous grace none now_ms clock ≡ true
    → (epoch_id ≡ current) ⊎ (previous ≡ some epoch_id)
unfolding epoch_acceptable
epoch_acceptable-cases epoch_id current previous grace now_ms clock h =
    elim (Bool-cases (epoch_id == current)) [
      | inl same ↦ inl (==→eq epoch_id current same)
      | inr other ↦ elim (Bool-cases (names_epoch epoch_id previous)) [
        | inl named ↦ inr (names_epoch-eq epoch_id previous named)
        | inr unnamed ↦ cc (rw (other, unnamed) at h)
      ]
    ]

not_empty : (bs : List ℕ) → is_empty bs ≡ false → bs ≢ []
not_empty [] h = cc
not_empty (b ∷ bs) h = λ e. cc

long_enough : (nonce : String) → short_nonce nonce ≡ false → 22 ≤ length (codes nonce)
long_enough nonce h = ground arith

abbrev Accepted : RedemptionVerdict × TicketDb → Type 0
Accepted r = r.0.accepted ≡ true

module _ (c : Crypto) (q : Redemption) (env : TicketEnvelope) (db : TicketDb) where
  -- The last step found no row of the nullifier, and left one that no sweep drops before its expiry.
  abbrev Claims : RedemptionVerdict × TicketDb → Type 0
  Claims r =
      ((row : NullifierRow) → In row db.registry.rows → row.nullifier ≢ nullifier_for c env)
      × Guarded (nullifier_for c env) (time_or q.clock q.now_ms + default_nullifier_retention_ms)
          r.1.registry.rows
      × (r.0.nullifier ≡ nullifier_for c env)

  accepted_free :
      spend_accepted (spend_of c q env) db.registry ≡ true
      → (row : NullifierRow) → In row db.registry.rows
      → row.nullifier ≢ nullifier_for c env
  accepted_free fresh row m e =
      let held : Guarded (nullifier_for c env) 0 db.registry.rows = record {
        row = row;
        listed = m;
        named = e;
        lasting = omega arith;
      } in
      cc (Guarded-refused (spend_of c q env) db.registry held refl, fresh)

  accepted_claimed :
      spend_accepted (spend_of c q env) db.registry ≡ true
      → Guarded
          (nullifier_for c env)
          (time_or q.clock q.now_ms + default_nullifier_retention_ms)
          (spend_registry (spend_of c q env) db.registry).rows
  accepted_claimed fresh =
      let kept = accepted-Guarded (spend_of c q env) db.registry fresh (omega arith) in
      rw time_or-time_or at kept

  claim_nullifier-Claims :
      Accepted (claim_nullifier c q env db) → Claims (claim_nullifier c q env db)
  unfolding claim_nullifier try_spend_nullifier
  claim_nullifier-Claims h = elim (Bool-cases (spend_accepted (spend_of c q env) db.registry)) [
    | inl fresh ↦ (accepted_free fresh, rw fresh (accepted_claimed fresh), rw fresh refl)
    | inr used ↦ cc (rw used at h)
  ]

  after_signature-Claims :
      (check : SignatureCheck)
      → Accepted (after_signature c q env check db)
      → (check ≡ verifies) × Claims (after_signature c q env check db)
  unfolding after_signature
  after_signature-Claims verifies h = (refl, claim_nullifier-Claims h)
  after_signature-Claims fails h = cc
  after_signature-Claims not_implemented h = cc
  after_signature-Claims crypto_error h = cc

  after_issuer-Claims :
      (found : Option IssuerKey)
      → Accepted (after_issuer c q env found db)
      → (k : IssuerKey) × (found ≡ some k)
        × (c.verify env k ≡ verifies)
        × Claims (after_issuer c q env found db)
  unfolding after_issuer
  after_issuer-Claims none h = cc
  after_issuer-Claims (some k) h =
      let (verified, claims) = after_signature-Claims (c.verify env k) h in
      (k, refl, verified, claims)

  after_envelope-Claims :
      (shape : Option TicketRejection)
      → Accepted (after_envelope c q env shape db)
      → (shape ≡ none)
        × ((k : IssuerKey) × (issuer_of c q q.keys_open_again env db ≡ some k)
            × (c.verify env k ≡ verifies)
            × Claims (after_envelope c q env shape db))
  unfolding after_envelope
  after_envelope-Claims (some rejection) h = cc
  after_envelope-Claims none h =
      (refl, after_issuer-Claims (issuer_of c q q.keys_open_again env db) h)

-- An accepted ticket has passed every step of the flow, whatever library checks the signature: the
-- feature is on; the envelope is for the circle, the scope and the current or the previous epoch, and
-- has a signature and a nonce of 22 characters or more; its issuer is pinned for that circle and epoch; the library verified
-- the signature; no row of the registry held the nullifier; and now one does, which expires at the
-- default retention after the time of the call, or later.
pub verify_query_ticket-IsRedeemed :
    (c : Crypto) (q : Redemption) (db : TicketDb)
    → (verify_query_ticket c q db).0.accepted ≡ true
    → (env : TicketEnvelope) × IsRedeemed c q db env
unfolding verify_query_ticket redeem_envelope
verify_query_ticket-IsRedeemed c q db h = elim (Bool-cases q.flag_enabled) [
  | inr off ↦ cc (rw off at h)
  | inl on ↦ go on q.envelope refl (rw on at h)
]
  where
    go :
        q.flag_enabled ≡ true
        → (o : Option TicketEnvelope) → q.envelope ≡ o
        → Accepted (redeem_envelope c q o db)
        → (env : TicketEnvelope) × IsRedeemed c q db env
    go on none e acc = cc
    go on (some env) e acc =
        let (shape, walked) = after_envelope-Claims c q env db (shape_of c q env db) acc in
        let (k, pinned, verified, claims) = walked in
        let (free, claimed, reported) = claims in
        let shaped = validate_envelope-IsShaped env (expectation q) _ shape in
        (
          env,
          record {
            enabled = on;
            presented = e;
            circle = shaped.circle;
            scope = ==→eq env.token_body.scope q.expected_scope (unnegate shaped.scope);
            epoch = epoch_acceptable-cases _ _ _ _ _ _ shaped.epoch;
            signed = not_empty env.issuer_signature shaped.signed;
            nonce = long_enough _ shaped.nonce;
            issuer = k;
            pinned = pinned;
            verified = verified;
            free = free;
            claimed = rw (on, e) claimed;
            reported = rw (on, e) reported;
          },
        )

-- The module as it is shipped accepts no ticket, and changes no table.
pub verify_query_ticket-shipped :
    (hex : List ℕ → String) (utf8 : String → List ℕ) (q : Redemption) (db : TicketDb)
    → ((verify_query_ticket (shipped hex utf8) q db).0.accepted ≡ false)
      × ((verify_query_ticket (shipped hex utf8) q db).1 ≡ db)
unfolding verify_query_ticket redeem_envelope after_envelope after_issuer after_signature
    verify_signature
verify_query_ticket-shipped hex utf8 q db = elim (Bool-cases q.flag_enabled) [
  | inr off ↦ rw off (refl, refl)
  | inl on ↦ rw on (of_envelope q.envelope)
]
  where
    c : Crypto
    c = shipped hex utf8

    Refused : RedemptionVerdict × TicketDb → Type 0
    Refused r = (r.0.accepted ≡ false) × (r.1 ≡ db)

    of_issuer : (env : TicketEnvelope) (k : Option IssuerKey) → Refused (after_issuer c q env k db)
    of_issuer env none = (refl, refl)
    of_issuer env (some k) = (refl, refl)

    of_shape :
        (env : TicketEnvelope) (shape : Option TicketRejection)
        → Refused (after_envelope c q env shape db)
    of_shape env (some rejection) = (refl, refl)
    of_shape env none = of_issuer env _

    of_envelope : (o : Option TicketEnvelope) → Refused (redeem_envelope c q o db)
    of_envelope none = (refl, refl)
    of_envelope (some env) = of_shape env _
