-- ===== src/Search/Tickets/Issuance/Added.antt =====
-- The tickets that the loop over the signed tokens adds to the table.
use searxng_wth_frnds.Prelude.{
  ℕ, suc, ◌+◌, String, Bool, true, false, Option, none, some, List, [], ◌∷◌, ◌≡◌, refl, ◌==◌,
  nat_eq, string_eq, length, All, In, In-append_left, In-append_right, In-append_cases, Bool-cases,
  inl, inr, ==→eq, if◌then◌else◌, arith, ◌⊎◌,
}
use searxng_wth_frnds.Search.Tickets.{available}
use searxng_wth_frnds.Search.Tickets.Wallet.{
  TicketRow, NewTicket, insert_ticket, id_of_hash, store_ticket,
}
use searxng_wth_frnds.Search.Tickets.Issuance.{Issuance, new_ticket, keep_stored, store_all}

-- A ticket of a token is in the table.
abbrev pub IsHeld : (List ℕ → String) → List TicketRow → List ℕ → Type 0
IsHeld hash rows token = (r : TicketRow) × In r rows × (r.token_hash ≡ hash token)

id_of_hash-In :
    (h : String) (rows : List TicketRow) (id : ℕ)
    → id_of_hash h rows ≡ some id
    → (r : TicketRow) × In r rows × (r.token_hash ≡ h)
unfolding id_of_hash
id_of_hash-In h [] id e = cc
id_of_hash-In h (r ∷ rows) id e = elim (Bool-cases (r.token_hash == h)) [
  | inl y ↦ (r, inl refl, ==→eq r.token_hash h y)
  | inr n ↦ let (q, m, same) = id_of_hash-In h rows id (rw n at e) in (q, inr m, same)
]

-- Between two states of the table, the tickets of some tokens were added: they are held, the old rows
-- stay, and every other row is an available ticket of one of the tokens.
pub record Adds (hash : List ℕ → String) (tokens : List (List ℕ)) (rows rows' : List TicketRow)
    : Type 0 where
  pub held : All (IsHeld hash rows') tokens
  pub kept : (r : TicketRow) → In r rows → In r rows'
  pub added :
      (r : TicketRow)
      → In r rows'
      → In r rows
        ⊎ ((r.status ≡ available)
            × ((token : List ℕ) × In token tokens × (r.token_hash ≡ hash token)))

insert_ticket-Adds :
    (hash : List ℕ → String) (t : NewTicket) (found : Option ℕ) (rows : List TicketRow)
    → id_of_hash (hash t.token_bytes) rows ≡ found
    → Adds hash (t.token_bytes ∷ []) rows (insert_ticket hash t found rows).1
unfolding insert_ticket
insert_ticket-Adds hash t (some id) rows e = record {
  held = (id_of_hash-In _ rows id e, tt);
  kept = λ r m. m;
  added = λ r m. inl m;
}
insert_ticket-Adds hash t none rows e = record {
  held = ((_, In-append_right _ rows _ (inl refl), refl), tt);
  kept = λ r m. In-append_left r rows _ m;
  added = λ r m. elim (In-append_cases r rows _ m) [
    | inl old ↦ inl old
    | inr (inl new) ↦ inr (rw new (refl, (t.token_bytes, inl refl, refl)))
    | inr (inr none_left) ↦ absurd none_left
  ];
}

IsHeld-kept :
    (hash : List ℕ → String) (rows rows' : List TicketRow) (tokens : List (List ℕ))
    → ((r : TicketRow) → In r rows → In r rows')
    → All (IsHeld hash rows) tokens
    → All (IsHeld hash rows') tokens
IsHeld-kept hash rows rows' [] kept h = tt
IsHeld-kept hash rows rows' (token ∷ tokens) kept ((r, m, e), h) =
    ((r, kept r m, e), IsHeld-kept hash rows rows' tokens kept h)

Adds-cons :
    (hash : List ℕ → String) (token : List ℕ) (tokens : List (List ℕ))
    (rows rows' rows'' : List TicketRow)
    → Adds hash (token ∷ []) rows rows'
    → Adds hash tokens rows' rows''
    → Adds hash (token ∷ tokens) rows rows''
Adds-cons hash token tokens rows rows' rows'' one rest = record {
  held = ((IsHeld-kept hash rows' rows'' (token ∷ []) rest.kept one.held).0, rest.held);
  kept = λ r m. rest.kept r (one.kept r m);
  added = λ r m. elim (rest.added r m) [
    | inr (status, (t, i, e)) ↦ inr (status, (t, inr i, e))
    | inl earlier ↦ elim (one.added r earlier) [
      | inl old ↦ inl old
      | inr (status, (t, inl i, e)) ↦ inr (status, (t, inl i, e))
      | inr (status, (t, inr i, e)) ↦ absurd i
    ]
  ];
}

-- The tokens, from the one at index `i` on, whose connection opens.
abbrev pub opened : (ℕ → Bool) → ℕ → List (List ℕ) → List (List ℕ)
opened can_store i [] = []
opened can_store i (token ∷ tokens) =
    let rest = opened can_store (suc i) tokens in if can_store i then token ∷ rest else rest

module _ (a : Issuance) where
  -- All tokens: those whose connection opens are counted and held.
  pub record StoresAll (tokens : List (List ℕ)) (before after : ℕ × List TicketRow) : Type 0 where
    pub counted : after.0 ≡ before.0 + length tokens
    pub adds : Adds a.hash tokens before.1 after.1

  StoresAll-one :
      (issuer_key_id : String) (i : ℕ) (token : List ℕ) (tokens rest : List (List ℕ)) (n : ℕ)
      (rows : List TicketRow) (can_open : Bool)
      → ((m : ℕ) (rows' : List TicketRow)
          → StoresAll rest (m, rows') (store_all a issuer_key_id (suc i) tokens (m, rows')))
      → StoresAll
          (if can_open then token ∷ rest else rest)
          (n, rows)
          (store_all a issuer_key_id (suc i) tokens (
            keep_stored a
              (store_ticket a.hash can_open (new_ticket a issuer_key_id token) rows)
              (n, rows)))
  unfolding store_ticket
  StoresAll-one issuer_key_id i token tokens rest n rows false go = go n rows
  StoresAll-one issuer_key_id i token tokens rest n rows true go =
      let t = new_ticket a issuer_key_id token in
      let found = id_of_hash (a.hash token) rows in
      let later = go (suc n) (insert_ticket a.hash t found rows).1 in
      record {
        counted = let c = later.counted in omega arith;
        adds =
            Adds-cons a.hash token rest rows _ _ (insert_ticket-Adds a.hash t found rows refl)
              later.adds;
      }

  pub store_all-StoresAll :
      (issuer_key_id : String) (i : ℕ) (tokens : List (List ℕ)) (n : ℕ) (rows : List TicketRow)
      → StoresAll
          (opened a.can_store i tokens)
          (n, rows)
          (store_all a issuer_key_id i tokens (n, rows))
  unfolding store_all
  store_all-StoresAll issuer_key_id i [] n rows = record {
    counted = omega arith;
    adds = record { held = tt; kept = λ r m. m; added = λ r m. inl m };
  }
  store_all-StoresAll issuer_key_id i (token ∷ tokens) n rows =
      StoresAll-one issuer_key_id i token tokens (opened a.can_store (suc i) tokens) n rows
        (a.can_store i) (store_all-StoresAll issuer_key_id (suc i) tokens)
