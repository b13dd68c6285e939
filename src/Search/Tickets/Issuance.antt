-- ===== src/Search/Tickets/Issuance.antt =====
-- src/swf/search/ticket_flow.py: the issuance of query tickets. The issuer is a parameter, and so are the
-- random bytes that are blinded; `real` says whether an issuer other than the null issuer is registered.
pub mod Added
pub mod Pinned
mod Tests
use searxng_wth_frnds.Prelude.{
  ℕ, zero, suc, String, Bool, true, false, Option, none, some, List, [], ◌∷◌, ◌==◌, nat_eq,
  string_eq, not, is_empty, if◌then◌else◌,
}
use searxng_wth_frnds.Search.Tickets.{TicketFamily, query_ticket_v1, IssuerKey}
use searxng_wth_frnds.Search.Tickets.Wallet.{TicketRow, NewTicket, store_ticket}
use searxng_wth_frnds.Search.Tickets.Issuers.{trust_issuer_key}

pub record IssueRequest : Type 0 where
  pub peer_pubkey_b64 : String
  pub circle_id : String
  pub epoch_id : String
  pub family : TicketFamily
  pub blinded_tokens : List (List ℕ)
  pub cost_class : String

pub record IssueResponse : Type 0 where
  pub issuer_key_id : String
  pub signed_blinds : List (List ℕ)
  pub refused_reason : String

-- What a call of the issuer does: it answers, or raises an error of a type.
pub data IssueAnswer : Type 0 where
  answers : IssueResponse → IssueAnswer
  errors : String → IssueAnswer

-- `issuer_key` is `none` if the call raises.
pub record Issuer : Type 0 where
  pub issuer_key : String → String → Option IssuerKey
  pub issue : IssueRequest → IssueAnswer

-- `_NullIssuer`.
abbrev pub null_issuer : Issuer
null_issuer = record {
  issuer_key = λ circle_id epoch_id. some (record {
    issuer_key_id = "sha256:null";
    circle_id = circle_id;
    epoch_id = epoch_id;
    pubkey_bytes = [];
    valid_from_ms = 0;
    valid_until_ms = 100000000000000;
  });
  issue = λ req. answers (record {
    issuer_key_id = "sha256:null";
    signed_blinds = [];
    refused_reason = "null_issuer: tickets feature flag is off or no real issuer registered";
  });
}

-- `_active_issuer` and `_real_issuer_registered`; `set_issuer` of any issuer but a null issuer.
pub record Registered : Type 0 where
  pub active_issuer : Issuer
  pub real : Bool

abbrev pub set_issuer : Bool → Issuer → Registered
set_issuer is_null i = record { active_issuer = i; real = not is_null }

abbrev pub reset_issuer : Registered
reset_issuer = record { active_issuer = null_issuer; real = false }

pub data IssueStatus : Type 0 where
  ok disabled no_crypto : IssueStatus
  refused : String → IssueStatus
  issuer_error : String → IssueStatus

-- The two tables.
pub record Purse : Type 0 where
  pub tickets : List TicketRow
  pub keys : List IssuerKey

-- The count and the status; or an error, of `trust_issuer_key` or of the issuer's `issuer_key`.
pub data Issued : Type 0 where
  returned : ℕ → IssueStatus → Purse → Issued
  raised : Purse → Issued

-- The arguments of `issue_query_tickets`, the flag, and what it reads from outside. `can_pin` says
-- whether the connection opens that pins the key, and `can_store` whether that of each token does.
pub record Issuance : Type 0 where
  pub peer_pubkey_b64 : String
  pub circle_id : String
  pub epoch_id : String
  pub count : ℕ
  pub cost_class : String
  pub flag_enabled : Bool
  pub can_pin : Bool
  pub can_store : ℕ → Bool
  pub random : ℕ → List ℕ
  pub hash : List ℕ → String
  pub now_ms : ℕ

unfoldable pub pre_blinds : (ℕ → List ℕ) → ℕ → List (List ℕ)
pre_blinds random zero = []
pre_blinds random (suc n) = random n ∷ pre_blinds random n

module _ (a : Issuance) where
  abbrev pub request : IssueRequest
  request = record {
    peer_pubkey_b64 = a.peer_pubkey_b64;
    circle_id = a.circle_id;
    epoch_id = a.epoch_id;
    family = query_ticket_v1;
    blinded_tokens = pre_blinds a.random a.count;
    cost_class = a.cost_class;
  }

  abbrev pub new_ticket : String → List ℕ → NewTicket
  new_ticket issuer_key_id token_bytes = record {
    family = query_ticket_v1;
    circle_id = a.circle_id;
    epoch_id = a.epoch_id;
    issuer_key_id = issuer_key_id;
    token_bytes = token_bytes;
    issued_at_ms = some a.now_ms;
    clock = a.now_ms;
  }

  abbrev pub keep_stored : Option (ℕ × List TicketRow) → ℕ × List TicketRow → ℕ × List TicketRow
  keep_stored none (stored, rows) = (stored, rows)
  keep_stored (some (id, rows')) (stored, rows) = (suc stored, rows')

  -- the loop over the signed tokens from the one at index `i` on, with the count so far
  unfoldable pub store_all : String → ℕ → List (List ℕ) → ℕ × List TicketRow → ℕ × List TicketRow
  unfolding store_ticket
  store_all issuer_key_id i [] s = s
  store_all issuer_key_id i (token ∷ tokens) s =
      let stored = store_ticket a.hash (a.can_store i) (new_ticket issuer_key_id token) s.1 in
      store_all issuer_key_id (suc i) tokens (keep_stored stored s)

  -- `tickets.trust_issuer_key(issuer.issuer_key(...))`
  abbrev pub pin_key : Option IssuerKey → List IssuerKey → Option (List IssuerKey)
  pin_key none keys = none
  pin_key (some key) keys = trust_issuer_key a.can_pin key keys

  abbrev pub store_answer : IssueResponse → Purse → Option (List IssuerKey) → Issued
  store_answer resp p none = raised p
  store_answer resp p (some keys) =
      let s = store_all resp.issuer_key_id 0 resp.signed_blinds (0, p.tickets) in
      returned s.0 ok (record { tickets = s.1; keys = keys })

  abbrev reason_of : String → String
  reason_of r = if r == "" then "unknown" else r

  abbrev pub on_answer : Issuer → Purse → IssueAnswer → Issued
  on_answer issuer p (errors name) = returned 0 (issuer_error name) p
  on_answer issuer p (answers resp) =
      if is_empty resp.signed_blinds
      then returned 0 (refused (reason_of resp.refused_reason)) p
      else store_answer resp p (pin_key (issuer.issuer_key a.circle_id a.epoch_id) p.keys)

  unfoldable pub issue_query_tickets : Registered → Purse → Issued
  unfolding store_all trust_issuer_key pre_blinds
  issue_query_tickets g p =
      if not a.flag_enabled
      then returned 0 disabled p
      else if a.count == 0
      then returned 0 ok p
      else if not g.real
      then returned 0 no_crypto p
      else on_answer g.active_issuer p (g.active_issuer.issue request)
