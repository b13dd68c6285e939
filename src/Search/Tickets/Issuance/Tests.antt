-- ===== src/Search/Tickets/Issuance/Tests.antt =====
-- An issuer that signs a token twice, and the null issuer.
use searxng_wth_frnds.Prelude.{ℕ, length, true, false, some, ◌==◌, nat_eq, [], ◌∷◌, ◌≡◌, refl}
use searxng_wth_frnds.Search.Tickets.Issuance.{
  Issued, raised, store_all, Issuer, set_issuer, reset_issuer, Purse, returned, no_crypto, Issuance,
  answers, issue_query_tickets,
}
use searxng_wth_frnds.Search.Tickets.Wallet.{store_ticket, insert_ticket, id_of_hash}
use searxng_wth_frnds.Search.Tickets.Issuers.{trust_issuer_key}
use searxng_wth_frnds.Search.Tickets.Issuance.Pinned.{IsSettled, issue_query_tickets-IsSettled}

abbrev issuance : Issuance
issuance = record {
  peer_pubkey_b64 = "p";
  circle_id = "c";
  epoch_id = "e";
  count = 2;
  cost_class = "standard_query";
  flag_enabled = true;
  can_pin = true;
  can_store = λ i. i == 0;
  random = λ n. n ∷ [];
  hash = λ token. "h";
  now_ms = 5;
}

abbrev signer : Issuer
signer = record {
  issuer_key = λ circle_id epoch_id. some (record {
    issuer_key_id = "k";
    circle_id = circle_id;
    epoch_id = epoch_id;
    pubkey_bytes = 1 ∷ [];
    valid_from_ms = 0;
    valid_until_ms = 9;
  });
  issue = λ req. answers (record {
    issuer_key_id = "k";
    signed_blinds = (7 ∷ []) ∷ (7 ∷ []) ∷ [];
    refused_reason = "";
  });
}

abbrev empty : Purse
empty = record { tickets = []; keys = [] }

-- The null issuer gives no ticket.
null_gives_none : issue_query_tickets issuance reset_issuer empty ≡ returned 0 no_crypto empty
unfolding issue_query_tickets
null_gives_none = refl

-- The count of the call, and the number of rows.
abbrev counts : Issued → ℕ × ℕ
counts (returned n status p) = (n, length p.tickets)
counts (raised p) = (0, length p.tickets)

-- A token that the issuer signs twice is counted twice, and has one row.
counted_twice :
    counts (
      issue_query_tickets
        (record issuance { can_store = λ i. true })
        (set_issuer false signer)
        empty)
    ≡ (2, 1)
unfolding issue_query_tickets store_all store_ticket insert_ticket id_of_hash trust_issuer_key
counted_twice = refl

issue_query_tickets-IsSettled_example :
    IsSettled issuance
      (set_issuer false signer)
      empty
      (issue_query_tickets issuance (set_issuer false signer) empty)
issue_query_tickets-IsSettled_example =
    issue_query_tickets-IsSettled issuance (set_issuer false signer) empty
