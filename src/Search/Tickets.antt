-- ===== src/Search/Tickets.antt =====
-- src/swf/search/tickets.py: the data of anonymous tickets, and the checks of an envelope that need no
-- cryptography. Bytes are lists of numbers. The tables are in the child modules.
pub mod Nullifiers
pub mod Issuers
pub mod Wallet
pub mod Redemption
pub mod Issuance
mod Tests
use searxng_wth_frnds.Prelude.{
  ℕ, ◌+◌, String, Bool, true, false, Option, none, some, List, [], ◌∷◌, ◌&&◌, ◌||◌, not, ◌==◌,
  nat_eq, string_eq, length, is_empty, if◌then◌else◌, ltb, leb,
}
use searxng_wth_frnds.Prelude.Checks.{raise_if}
use searxng_wth_frnds.Prelude.Text.{codes}

pub data TicketFamily : Type 0 where
  query_ticket_v1 receipt_ticket_v1 : TicketFamily

pub data TicketStatus : Type 0 where
  available spent expired revoked : TicketStatus

abbrev pub default_accept_previous_epoch_ms : ℕ
default_accept_previous_epoch_ms = 600000

abbrev pub default_nullifier_retention_ms : ℕ
default_nullifier_retention_ms = 604800000

pub record TokenBody : Type 0 where
  pub nonce : String
  pub scope : String
  pub cost_class : String

pub record TicketEnvelope : Type 0 where
  pub family : TicketFamily
  pub circle_id : String
  pub epoch_id : String
  pub issuer_key_id : String
  pub token_body : TokenBody
  pub issuer_signature : List ℕ

pub record IssuerKey : Type 0 where
  pub issuer_key_id : String
  pub circle_id : String
  pub epoch_id : String
  pub pubkey_bytes : List ℕ
  pub valid_from_ms : ℕ
  pub valid_until_ms : ℕ

pub data TicketRejection : Type 0 where
  missing invalid double_spent wrong_epoch untrusted_issuer signature_not_verified : TicketRejection

-- `given or int(time.time() * 1000)`: a time of 0 counts as none.
unfoldable pub time_or : ℕ → Option ℕ → ℕ
time_or clock none = clock
time_or clock (some t) = if t == 0 then clock else t

-- The part of `epoch_acceptable` behind the check of the previous epoch: `(now - started) <= grace`.
unfoldable pub within_grace : ℕ → Option ℕ → Option ℕ → ℕ → Bool
unfolding time_or
within_grace grace_ms none now_ms clock = true
within_grace grace_ms (some started) now_ms clock = leb (time_or clock now_ms) (started + grace_ms)

abbrev pub names_epoch : String → Option String → Bool
names_epoch epoch_id none = false
names_epoch epoch_id (some previous) = epoch_id == previous

unfoldable pub epoch_acceptable :
    String → String → Option String → ℕ → Option ℕ → Option ℕ → ℕ → Bool
unfolding within_grace
epoch_acceptable epoch_id current_epoch_id previous_epoch_id grace_ms epoch_started_ms now_ms
      clock =
    if epoch_id == current_epoch_id
    then true
    else if not (names_epoch epoch_id previous_epoch_id)
    then false
    else within_grace grace_ms epoch_started_ms now_ms clock

-- What a verifier expects, and the clock that it reads.
pub record Expected : Type 0 where
  pub circle_id : String
  pub current_epoch_id : String
  pub previous_epoch_id : Option String
  pub scope : Option String
  pub grace_ms : ℕ
  pub epoch_started_ms : Option ℕ
  pub now_ms : Option ℕ
  pub clock : ℕ

abbrev pub other_scope : String → Option String → Bool
other_scope scope none = false
other_scope scope (some wanted) = not (scope == wanted)

abbrev pub short_nonce : String → Bool
short_nonce nonce = nonce == "" || ltb (length (codes nonce)) 22

-- `validate_envelope`, given what `get_issuer_key` returns for the envelope.
unfoldable pub validate_envelope :
    TicketEnvelope → Expected → Option IssuerKey → Option TicketRejection
validate_envelope env want issuer = raise_if (not (env.circle_id == want.circle_id)) invalid (
    raise_if (other_scope env.token_body.scope want.scope) invalid (
      raise_if (is_empty env.issuer_signature) invalid (
        raise_if (short_nonce env.token_body.nonce) invalid (
          raise_if
            (not (
              epoch_acceptable env.epoch_id want.current_epoch_id want.previous_epoch_id
                want.grace_ms want.epoch_started_ms want.now_ms want.clock))
            wrong_epoch (elim issuer [ none ↦ some untrusted_issuer | some key ↦ none ])))))

-- `verify_signature` returns a Boolean or raises; the module ships a stub that always raises
-- `NotImplementedError`, and asks that a vetted library take its place.
pub data SignatureCheck : Type 0 where
  verifies fails not_implemented crypto_error : SignatureCheck

unfoldable pub verify_signature : TicketEnvelope → IssuerKey → SignatureCheck
verify_signature envelope issuer = not_implemented
