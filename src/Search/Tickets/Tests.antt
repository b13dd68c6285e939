-- ===== src/Search/Tickets/Tests.antt =====
-- Tickets on concrete tables, and the theorems there. The library of the tests accepts a signature of one
-- byte, and its hash is constant.
use searxng_wth_frnds.Prelude.{
  ℕ, String, true, false, Option, none, some, [], ◌∷◌, ◌≡◌, ◌≢◌, refl, All, arith, if◌then◌else◌,
  length, ◌==◌, nat_eq,
}
use searxng_wth_frnds.Search.Tickets.{
  TicketEnvelope, IssuerKey, TicketFamily, available, query_ticket_v1, verifies, fails,
  validate_envelope, epoch_acceptable, within_grace, time_or,
}
use searxng_wth_frnds.Search.Tickets.Nullifiers.{
  Registry, Spend, try_spend_nullifier, spend_accepted, spend_registry, claim, count_spend,
  holds_nullifier, vacuum_expired_nullifiers,
}
use searxng_wth_frnds.Search.Tickets.Nullifiers.Once.{verdicts, verdicts-once}
use searxng_wth_frnds.Search.Tickets.Wallet.{
  TicketRow, NewTicket, store_ticket, list_available, mark_spent, store_ticket-store_ticket,
  mark_spent-once,
}
use searxng_wth_frnds.Search.Tickets.Issuers.{
  trust_issuer_key, get_issuer_key, get_issuer_key-trust_issuer_key,
}
use searxng_wth_frnds.Search.Tickets.Redemption.{
  Crypto, shipped, Redemption, TicketDb, verify_query_ticket, nullifier_for, redeem_envelope,
  after_envelope, after_issuer, after_signature, claim_nullifier,
}
use searxng_wth_frnds.Search.Tickets.Redemption.Redeemed.{
  IsRedeemed, verify_query_ticket-IsRedeemed, verify_query_ticket-shipped,
}
use searxng_wth_frnds.Search.Tickets.Redemption.OnceOnly.{redeem_all, Presents, redeem_all-once}

abbrev spend : String → ℕ → Spend
spend nullifier t = record {
  nullifier = nullifier;
  family = query_ticket_v1;
  circle_id = "c";
  epoch_id = "e1";
  spent_at_ms = some t;
  retention_ms = 100;
  clock = 5;
  can_open = true;
  can_sweep = true;
}

-- The next spend but one sweeps.
abbrev registry : Registry
registry = record { rows = []; spend_count = 1022 }

first_accepted : (try_spend_nullifier (spend "a" 10) registry).0 ≡ true
unfolding try_spend_nullifier spend_accepted
first_accepted = refl

-- After its expiry a sweep may let a nullifier in again.
reuse_after_sweep :
    verdicts (spend "a" 10 ∷ spend "b" 110 ∷ spend "a" 111 ∷ []) registry
    ≡ (spend "a" 10, true) ∷ (spend "b" 110, true) ∷ (spend "a" 111, true) ∷ []
unfolding verdicts try_spend_nullifier spend_accepted spend_registry claim count_spend
    vacuum_expired_nullifiers time_or holds_nullifier
reuse_after_sweep = refl

verdicts-once_example :
    All
      (λ v. (v.0).nullifier ≡ "a" → v.1 ≡ false)
      (verdicts (spend "b" 20 ∷ spend "a" 109 ∷ []) (try_spend_nullifier (spend "a" 10) registry).1)
unfolding time_or
verdicts-once_example =
    verdicts-once (spend "a" 10) (spend "b" 20 ∷ spend "a" 109 ∷ []) registry first_accepted
      (omega arith) (omega arith, (omega arith, tt))

abbrev key : ℕ → IssuerKey
key byte = record {
  issuer_key_id = "sha256:k";
  circle_id = "c";
  epoch_id = "e1";
  pubkey_bytes = byte ∷ [];
  valid_from_ms = 0;
  valid_until_ms = 1;
}

replaces : trust_issuer_key true (key 2) (key 1 ∷ []) ≡ some (key 2 ∷ [])
unfolding trust_issuer_key
replaces = refl

get_issuer_key-trust_issuer_key_example :
    get_issuer_key true "sha256:k" "c" "e1" (key 2 ∷ []) ≡ some (key 2)
get_issuer_key-trust_issuer_key_example =
    get_issuer_key-trust_issuer_key (key 2) (key 1 ∷ []) (key 2 ∷ []) replaces

abbrev test_crypto : Crypto
test_crypto = record {
  hex = λ bytes. "0a";
  utf8 = λ t. [];
  verify = λ env k. if length env.issuer_signature == 1 then verifies else fails;
}

abbrev ticket : TicketEnvelope
ticket = record {
  family = query_ticket_v1;
  circle_id = "c";
  epoch_id = "e1";
  issuer_key_id = "sha256:k";
  token_body = record {
    nonce = "0123456789abcdefghijkl";
    scope = "LAN_FRIEND_DCNET";
    cost_class = "standard_query";
  };
  issuer_signature = 7 ∷ [];
}

abbrev redemption : ℕ → Redemption
redemption t = record {
  flag_enabled = true;
  envelope = some ticket;
  expected_circle_id = "c";
  current_epoch_id = "e2";
  expected_scope = "LAN_FRIEND_DCNET";
  previous_epoch_id = some "e1";
  now_ms = some t;
  clock = 5;
  keys_open = true;
  keys_open_again = true;
  can_spend = true;
  can_sweep = true;
}

abbrev db : TicketDb
db = record { keys = key 1 ∷ []; registry = registry }

redeems : (verify_query_ticket test_crypto (redemption 1000) db).0.accepted ≡ true
unfolding verify_query_ticket redeem_envelope validate_envelope epoch_acceptable get_issuer_key
    after_envelope after_issuer after_signature claim_nullifier try_spend_nullifier spend_accepted
    holds_nullifier within_grace nullifier_for
redeems = refl

verify_query_ticket-IsRedeemed_example :
    (env : TicketEnvelope) × IsRedeemed test_crypto (redemption 1000) db env
verify_query_ticket-IsRedeemed_example =
    verify_query_ticket-IsRedeemed test_crypto (redemption 1000) db redeems

verify_query_ticket-shipped_example :
    ((verify_query_ticket (shipped (λ bytes. "h") (λ t. [])) (redemption 1000) db).0.accepted
      ≡ false)
    × ((verify_query_ticket (shipped (λ bytes. "h") (λ t. [])) (redemption 1000) db).1 ≡ db)
verify_query_ticket-shipped_example =
    verify_query_ticket-shipped (λ bytes. "h") (λ t. []) (redemption 1000) db

redeem_all-once_example :
    All
      (λ v. Presents test_crypto (nullifier_for test_crypto ticket) v.0 → v.1.accepted ≡ false)
      (redeem_all test_crypto
        (redemption 604800999 ∷ [])
        (verify_query_ticket test_crypto (redemption 1000) db).1)
unfolding time_or
redeem_all-once_example =
    redeem_all-once test_crypto (redemption 1000) (redemption 604800999 ∷ []) db ticket refl redeems
      (omega arith, tt)

abbrev new_ticket : Option ℕ → NewTicket
new_ticket at = record {
  family = query_ticket_v1;
  circle_id = "c";
  epoch_id = "e1";
  issuer_key_id = "sha256:k";
  token_bytes = 4 ∷ [];
  issued_at_ms = at;
  clock = 5;
}

abbrev stored_row : TicketRow
stored_row = record {
  id = 1;
  family = query_ticket_v1;
  circle_id = "c";
  epoch_id = "e1";
  issuer_key_id = "sha256:k";
  token_ciphertext = 4 ∷ [];
  token_hash = "h";
  status = available;
  issued_at_ms = 5;
  spent_at_ms = none;
  spend_context = none;
}

stores : store_ticket (λ bytes. "h") true (new_ticket none) [] ≡ some (1, stored_row ∷ [])
unfolding store_ticket time_or
stores = refl

store_ticket-store_ticket_example :
    store_ticket (λ bytes. "h") true (new_ticket (some 9)) (stored_row ∷ [])
    ≡ some (1, stored_row ∷ [])
store_ticket-store_ticket_example =
    store_ticket-store_ticket (λ bytes. "h") (new_ticket none) (new_ticket (some 9)) []
      (stored_row ∷ []) 1 stores refl

spends_once : (mark_spent true 1 "q" none 6 (stored_row ∷ [])).0 ≡ true
unfolding mark_spent
spends_once = refl

mark_spent-once_example :
    let rows' = (mark_spent true 1 "q" none 6 (stored_row ∷ [])).1 in
    ((family : TicketFamily) (circle_id epoch_id : String) (limit : ℕ)
      → All (λ r. r.id ≢ 1) (list_available true family circle_id epoch_id limit rows'))
    × ((context' : String) (at' : Option ℕ) (clock' : ℕ)
        → mark_spent true 1 context' at' clock' rows' ≡ (false, rows'))
mark_spent-once_example = mark_spent-once 1 "q" none 6 (stored_row ∷ [])
