-- ===== src/Search/Tickets/Wallet.antt =====
-- src/swf/search/tickets.py: the node's own tickets. The table is the list of its rows in the order of
-- their ids, which SQLite gives out as one more than the largest. `can_open` says whether the database
-- opens; `hash` is the hash of a token.
use searxng_wth_frnds.Prelude.{
  ℕ, zero, suc, String, Bool, true, false, Option, none, some, List, [], ◌∷◌, ◌++◌, ◌≡◌, ◌≢◌, refl,
  inl, inr, ◌&&◌, ◌==◌, nat_eq, string_eq, arith, Bool-cases, eq→==, any, keep, take, map, max,
  if◌then◌else◌, All,
}
use searxng_wth_frnds.Search.Tickets.{
  TicketFamily, query_ticket_v1, receipt_ticket_v1, TicketStatus, available, spent, expired,
  revoked, time_or,
}

pub record TicketRow : Type 0 where
  pub id : ℕ
  pub family : TicketFamily
  pub circle_id : String
  pub epoch_id : String
  pub issuer_key_id : String
  pub token_ciphertext : List ℕ
  pub token_hash : String
  pub status : TicketStatus
  pub issued_at_ms : ℕ
  pub spent_at_ms : Option ℕ
  pub spend_context : Option String

-- The arguments of `store_ticket`.
pub record NewTicket : Type 0 where
  pub family : TicketFamily
  pub circle_id : String
  pub epoch_id : String
  pub issuer_key_id : String
  pub token_bytes : List ℕ
  pub issued_at_ms : Option ℕ
  pub clock : ℕ

abbrev is_available : TicketStatus → Bool
is_available available = true
is_available spent = false
is_available expired = false
is_available revoked = false

abbrev same_family : TicketFamily → TicketFamily → Bool
same_family query_ticket_v1 query_ticket_v1 = true
same_family receipt_ticket_v1 receipt_ticket_v1 = true
same_family query_ticket_v1 receipt_ticket_v1 = false
same_family receipt_ticket_v1 query_ticket_v1 = false

unfoldable pub largest_id : List TicketRow → ℕ
largest_id [] = 0
largest_id (r ∷ rs) = max r.id (largest_id rs)

unfoldable pub id_of_hash : String → List TicketRow → Option ℕ
id_of_hash h [] = none
id_of_hash h (r ∷ rs) = let rest = id_of_hash h rs in if r.token_hash == h then some r.id else rest

module _ (hash : List ℕ → String) where
  abbrev new_row : NewTicket → ℕ → TicketRow
  new_row t id = record {
    id = id;
    family = t.family;
    circle_id = t.circle_id;
    epoch_id = t.epoch_id;
    issuer_key_id = t.issuer_key_id;
    token_ciphertext = t.token_bytes;
    token_hash = hash t.token_bytes;
    status = available;
    issued_at_ms = time_or t.clock t.issued_at_ms;
    spent_at_ms = none;
    spend_context = none;
  }

  -- The `INSERT OR IGNORE`, given what the table has under the hash of the token.
  unfoldable pub insert_ticket : NewTicket → Option ℕ → List TicketRow → ℕ × List TicketRow
  unfolding largest_id
  insert_ticket t (some id) rows = (id, rows)
  insert_ticket t none rows = let id = suc (largest_id rows) in (id, rows ++ new_row t id ∷ [])

  -- `none` is the `RuntimeError` of a database that does not open.
  unfoldable pub store_ticket : Bool → NewTicket → List TicketRow → Option (ℕ × List TicketRow)
  unfolding insert_ticket id_of_hash
  store_ticket can_open t rows =
      if can_open then some (insert_ticket t (id_of_hash (hash t.token_bytes) rows) rows) else none

abbrev is_listed : TicketFamily → String → String → TicketRow → Bool
is_listed family circle_id epoch_id r =
    same_family r.family family
    && r.circle_id == circle_id
    && r.epoch_id == epoch_id
    && is_available r.status

unfoldable pub list_available :
    Bool → TicketFamily → String → String → ℕ → List TicketRow → List TicketRow
list_available can_open family circle_id epoch_id limit rows =
    if can_open then take limit (keep (is_listed family circle_id epoch_id) rows) else []

abbrev is_spendable : ℕ → TicketRow → Bool
is_spendable ticket_id r = r.id == ticket_id && is_available r.status

abbrev spend_row : ℕ → String → ℕ → TicketRow → TicketRow
spend_row ticket_id context at r =
    if is_spendable ticket_id r
    then record r { status = spent; spent_at_ms = some at; spend_context = some context }
    else r

-- `UPDATE ... WHERE id=? AND status='available'`, and whether it changed a row; ids are unique.
unfoldable pub mark_spent :
    Bool → ℕ → String → Option ℕ → ℕ → List TicketRow → Bool × List TicketRow
mark_spent can_open ticket_id context spent_at_ms clock rows =
    if can_open
    then (
      any (is_spendable ticket_id) rows,
      map (spend_row ticket_id context (time_or clock spent_at_ms)) rows,
    )
    else (false, rows)

id_of_hash-append :
    (h : String) (rows : List TicketRow) (r : TicketRow)
    → id_of_hash h rows ≡ none
    → r.token_hash ≡ h
    → id_of_hash h (rows ++ r ∷ []) ≡ some r.id
unfolding id_of_hash
id_of_hash-append h [] r n e = rw (eq→== r.token_hash h e) refl
id_of_hash-append h (q ∷ rows) r n e = elim (Bool-cases (q.token_hash == h)) [
  | inl y ↦ cc (rw y at n)
  | inr m ↦ rw m (id_of_hash-append h rows r (rw m at n) e)
]

-- A token is stored once: storing it again, with whatever else, gives the id of the first time and
-- changes nothing.
pub store_ticket-store_ticket :
    (hash : List ℕ → String) (t t' : NewTicket) (rows rows' : List TicketRow) (id : ℕ)
    → store_ticket hash true t rows ≡ some (id, rows')
    → t'.token_bytes ≡ t.token_bytes
    → store_ticket hash true t' rows' ≡ some (id, rows')
unfolding store_ticket insert_ticket
store_ticket-store_ticket hash t t' rows rows' id e same =
    go (id_of_hash (hash t.token_bytes) rows) refl e
  where
    go :
        (found : Option ℕ)
        → id_of_hash (hash t.token_bytes) rows ≡ found
        → Option.some (insert_ticket hash t found rows) ≡ some (id, rows')
        → store_ticket hash true t' rows' ≡ some (id, rows')
    go (some old) p q =
        let i : old ≡ id = cc in let r : rows ≡ rows' = cc in rw (same, ← r, p, i) refl
    go none p q =
        let i : suc (largest_id rows) ≡ id = cc in
        let r : rows ++ new_row hash t (suc (largest_id rows)) ∷ [] ≡ rows' = cc in
        rw
          (
            same,
            ← r,
            ← i,
            id_of_hash-append (hash t.token_bytes) rows (new_row hash t (suc (largest_id rows))) p
                refl,
          )
          refl

-- No row of the ticket can be spent.
abbrev Unspendable : ℕ → List TicketRow → Type 0
Unspendable ticket_id rows = All (λ r. is_spendable ticket_id r ≡ false) rows

spend_row-spent :
    (ticket_id : ℕ) (context : String) (at : ℕ) (r : TicketRow)
    → is_spendable ticket_id (spend_row ticket_id context at r) ≡ false
spend_row-spent ticket_id context at r = elim (Bool-cases (is_spendable ticket_id r)) [
  | inl y ↦ rw y (ground arith)
  | inr n ↦ rw n n
]

spend_row-Unspendable :
    (ticket_id : ℕ) (context : String) (at : ℕ) (rows : List TicketRow)
    → Unspendable ticket_id (map (spend_row ticket_id context at) rows)
spend_row-Unspendable ticket_id context at [] = tt
spend_row-Unspendable ticket_id context at (r ∷ rows) =
    (spend_row-spent ticket_id context at r, spend_row-Unspendable ticket_id context at rows)

Unspendable-any :
    (ticket_id : ℕ) (rows : List TicketRow)
    → Unspendable ticket_id rows
    → any (is_spendable ticket_id) rows ≡ false
Unspendable-any ticket_id [] h = refl
Unspendable-any ticket_id (r ∷ rows) h = rw (h.0) (Unspendable-any ticket_id rows h.1)

Unspendable-map :
    (ticket_id : ℕ) (context : String) (at : ℕ) (rows : List TicketRow)
    → Unspendable ticket_id rows
    → map (spend_row ticket_id context at) rows ≡ rows
Unspendable-map ticket_id context at [] h = refl
Unspendable-map ticket_id context at (r ∷ rows) h =
    rw (h.0, Unspendable-map ticket_id context at rows h.1) refl

last_of_four : (a b c : Bool) {d : Bool} → (a && b && c && d) ≡ true → d ≡ true
last_of_four a b c h = ground arith

clash : {a b : Bool} → a ≡ true → b ≡ true → (a && b) ≡ false → ⊥
clash h k n = ground arith

-- A ticket that is marked spent is spent for good: it is in no list of available tickets, and marking it
-- again reports nothing to spend and changes nothing.
pub mark_spent-once :
    (ticket_id : ℕ) (context : String) (spent_at_ms : Option ℕ) (clock : ℕ) (rows : List TicketRow)
    → let rows' = (mark_spent true ticket_id context spent_at_ms clock rows).1 in
      ((family : TicketFamily) (circle_id epoch_id : String) (limit : ℕ)
        → All (λ r. r.id ≢ ticket_id) (list_available true family circle_id epoch_id limit rows'))
      × ((context' : String) (at' : Option ℕ) (clock' : ℕ)
          → mark_spent true ticket_id context' at' clock' rows' ≡ (false, rows'))
unfolding mark_spent list_available
mark_spent-once ticket_id context spent_at_ms clock rows = (
  λ family circle_id epoch_id limit. take-All _ limit _ (listed family circle_id epoch_id _ gone),
  λ context' at' clock'.
      rw (Unspendable-any ticket_id _ gone, Unspendable-map ticket_id context' _ _ gone) refl,
)
  where
    gone :
        Unspendable ticket_id (map (spend_row ticket_id context (time_or clock spent_at_ms)) rows)
    gone = spend_row-Unspendable ticket_id context _ rows

    apart :
        (family : TicketFamily) (circle_id epoch_id : String) (r : TicketRow)
        → is_listed family circle_id epoch_id r ≡ true
        → is_spendable ticket_id r ≡ false
        → r.id ≢ ticket_id
    apart family circle_id epoch_id r l n = λ e.
        clash (eq→== r.id ticket_id e)
          (last_of_four (same_family r.family family) (r.circle_id == circle_id)
            (r.epoch_id == epoch_id) l)
          n

    listed :
        (family : TicketFamily) (circle_id epoch_id : String) (rs : List TicketRow)
        → Unspendable ticket_id rs
        → All (λ r. r.id ≢ ticket_id) (keep (is_listed family circle_id epoch_id) rs)
    listed family circle_id epoch_id [] h = tt
    listed family circle_id epoch_id (r ∷ rs) h =
        elim (Bool-cases (is_listed family circle_id epoch_id r)) [
          | inl l ↦
              rw l
                (apart family circle_id epoch_id r l h.0, listed family circle_id epoch_id rs h.1)
          | inr n ↦ rw n (listed family circle_id epoch_id rs h.1)
        ]

    take-All : (P : TicketRow → Type 0) (n : ℕ) (rs : List TicketRow) → All P rs → All P (take n rs)
    take-All P zero rs h = tt
    take-All P (suc n) [] h = tt
    take-All P (suc n) (r ∷ rs) h = (h.0, take-All P n rs h.1)
