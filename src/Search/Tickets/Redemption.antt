-- ===== src/Search/Tickets/Redemption.antt =====
-- src/swf/search/ticket_flow.py: `verify_query_ticket`, the verifier's flow. The library that checks a
-- signature, the hash and the encoding are parameters; `detail` is a display text and is left out.
pub mod Redeemed
pub mod OnceOnly
use Prim.Native.String.{◌++◌ as str_append}
use searxng_wth_frnds.Prelude.{
  ℕ, String, Bool, true, false, Option, none, some, List, [], ◌∷◌, ◌++◌, not, if◌then◌else◌,
}
use searxng_wth_frnds.Prelude.Text.{codes}
use searxng_wth_frnds.Search.Tickets.{
  TicketEnvelope, IssuerKey, TicketRejection, missing, invalid, double_spent, untrusted_issuer,
  signature_not_verified, SignatureCheck, verifies, fails, not_implemented, crypto_error, Expected,
  time_or, validate_envelope, default_accept_previous_epoch_ms, default_nullifier_retention_ms,
  verify_signature,
}
use searxng_wth_frnds.Search.Tickets.Nullifiers.{
  Registry, Spend, spend_accepted, spend_registry, try_spend_nullifier,
}
use searxng_wth_frnds.Search.Tickets.Issuers.{get_issuer_key}

-- `hex` is the SHA-256 of the bytes in hexadecimal, `utf8` the encoding of a text.
pub record Crypto : Type 0 where
  pub hex : List ℕ → String
  pub utf8 : String → List ℕ
  pub verify : TicketEnvelope → IssuerKey → SignatureCheck

-- The modules as they are shipped.
abbrev pub shipped : (List ℕ → String) → (String → List ℕ) → Crypto
shipped hex utf8 = record { hex = hex; utf8 = utf8; verify = verify_signature }

unfoldable pub nullifier_for : Crypto → TicketEnvelope → String
nullifier_for c env = str_append "sha256:" (
    c.hex (
      codes "swf.query_ticket.nullifier.v1"
      ++ env.issuer_signature
      ++ c.utf8 env.token_body.nonce
      ++ c.utf8 env.token_body.scope))

pub record RedemptionVerdict : Type 0 where
  pub accepted : Bool
  pub nullifier : String
  pub rejection : Option TicketRejection

-- The arguments, with what the environment adds: the flag, the clock, and whether each of the four
-- connections that the flow makes opens.
pub record Redemption : Type 0 where
  pub flag_enabled : Bool
  pub envelope : Option TicketEnvelope
  pub expected_circle_id : String
  pub current_epoch_id : String
  pub expected_scope : String
  pub previous_epoch_id : Option String
  pub now_ms : Option ℕ
  pub clock : ℕ
  pub keys_open : Bool
  pub keys_open_again : Bool
  pub can_spend : Bool
  pub can_sweep : Bool

pub record TicketDb : Type 0 where
  pub keys : List IssuerKey
  pub registry : Registry

abbrev pub refuse : TicketRejection → RedemptionVerdict
refuse rejection = record { accepted = false; nullifier = ""; rejection = some rejection }

-- What the flow asks of `validate_envelope`: no start of the epoch, and the default grace.
abbrev pub expectation : Redemption → Expected
expectation q = record {
  circle_id = q.expected_circle_id;
  current_epoch_id = q.current_epoch_id;
  previous_epoch_id = q.previous_epoch_id;
  scope = some q.expected_scope;
  grace_ms = default_accept_previous_epoch_ms;
  epoch_started_ms = none;
  now_ms = q.now_ms;
  clock = q.clock;
}

module _ (c : Crypto) (q : Redemption) where
  abbrev pub spend_of : TicketEnvelope → Spend
  spend_of env = record {
    nullifier = nullifier_for c env;
    family = env.family;
    circle_id = env.circle_id;
    epoch_id = env.epoch_id;
    spent_at_ms = some (time_or q.clock q.now_ms);
    retention_ms = default_nullifier_retention_ms;
    clock = q.clock;
    can_open = q.can_spend;
    can_sweep = q.can_sweep;
  }

  -- step 4
  unfoldable pub claim_nullifier : TicketEnvelope → TicketDb → RedemptionVerdict × TicketDb
  unfolding try_spend_nullifier
  claim_nullifier env db =
      let (fresh, registry) = try_spend_nullifier (spend_of env) db.registry in
      if not fresh
      then (
        record { accepted = false; nullifier = nullifier_for c env; rejection = some double_spent },
        record db { registry = registry },
      )
      else (
        record { accepted = true; nullifier = nullifier_for c env; rejection = none },
        record db { registry = registry },
      )

  -- step 3
  unfoldable pub after_signature :
      TicketEnvelope → SignatureCheck → TicketDb → RedemptionVerdict × TicketDb
  unfolding claim_nullifier
  after_signature env not_implemented db = (refuse signature_not_verified, db)
  after_signature env crypto_error db = (refuse signature_not_verified, db)
  after_signature env fails db = (refuse invalid, db)
  after_signature env verifies db = claim_nullifier env db

  unfoldable pub after_issuer :
      TicketEnvelope → Option IssuerKey → TicketDb → RedemptionVerdict × TicketDb
  unfolding after_signature
  after_issuer env none db = (refuse untrusted_issuer, db)
  after_issuer env (some issuer) db = after_signature env (c.verify env issuer) db

  abbrev pub issuer_of : Bool → TicketEnvelope → TicketDb → Option IssuerKey
  issuer_of can_open env db =
      get_issuer_key can_open env.issuer_key_id q.expected_circle_id env.epoch_id db.keys

  -- step 2
  unfoldable pub after_envelope :
      TicketEnvelope → Option TicketRejection → TicketDb → RedemptionVerdict × TicketDb
  unfolding after_issuer
  after_envelope env (some rejection) db = (refuse rejection, db)
  after_envelope env none db = after_issuer env (issuer_of q.keys_open_again env db) db

  abbrev shape_of : TicketEnvelope → TicketDb → Option TicketRejection
  shape_of env db = validate_envelope env (expectation q) (issuer_of q.keys_open env db)

  unfoldable pub redeem_envelope : Option TicketEnvelope → TicketDb → RedemptionVerdict × TicketDb
  unfolding after_envelope
  redeem_envelope none db = (refuse missing, db)
  redeem_envelope (some env) db = after_envelope env (shape_of env db) db

  unfoldable pub verify_query_ticket : TicketDb → RedemptionVerdict × TicketDb
  unfolding redeem_envelope
  verify_query_ticket db =
      if not q.flag_enabled then (refuse missing, db) else redeem_envelope q.envelope db
