-- ===== src/Search/Tickets/Issuance/Pinned.antt =====
-- What an issuance leaves.
use searxng_wth_frnds.Prelude.{
  ap, sym, ◌∙◌, ℕ, Bool, true, false, Option, none, some, List, [], ◌∷◌, ◌≡◌, ◌≢◌, refl, ◌==◌,
  nat_eq, string_eq, not, is_empty, length, inl, inr, ==→eq, eq→==, if◌then◌else◌, arith, ◌⊎◌,
}
use searxng_wth_frnds.Prelude.Checks.{unnegate}
use searxng_wth_frnds.Search.Tickets.{IssuerKey}
use searxng_wth_frnds.Search.Tickets.Issuers.{
  trust_issuer_key, get_issuer_key, get_issuer_key-trust_issuer_key,
}
use searxng_wth_frnds.Search.Tickets.Issuance.Added.{Adds, opened, store_all-StoresAll}
use searxng_wth_frnds.Search.Tickets.Issuance.{
  Registered, Purse, Issued, returned, raised, Issuance, IssueAnswer, IssueResponse, IssueStatus,
  ok, disabled, no_crypto, refused, issuer_error, answers, errors, request, pin_key, store_answer,
  on_answer, issue_query_tickets,
}

-- An issuance that stores tickets: the feature is on, a real issuer signed some tokens, its key is pinned
-- for the circle and the epoch; and the tokens whose connection opened are counted and added.
pub record IsStored (a : Issuance) (g : Registered) (p : Purse) (n : ℕ) (q : Purse) : Type 0 where
  pub enabled : a.flag_enabled ≡ true
  pub asked : a.count ≢ 0
  pub real : g.real ≡ true
  pub response : IssueResponse
  pub answered : g.active_issuer.issue (request a) ≡ answers response
  pub signed : response.signed_blinds ≢ []
  pub key : IssuerKey
  pub known : g.active_issuer.issuer_key a.circle_id a.epoch_id ≡ some key
  pub pinned : get_issuer_key true key.issuer_key_id key.circle_id key.epoch_id q.keys ≡ some key
  pub counted : n ≡ length (opened a.can_store 0 response.signed_blinds)
  pub adds : Adds a.hash (opened a.can_store 0 response.signed_blinds) p.tickets q.tickets

-- Why nothing was stored, by the status.
abbrev pub Unserved : Issuance → Registered → IssueStatus → Type 0
Unserved a g disabled = a.flag_enabled ≡ false
Unserved a g ok = (a.flag_enabled ≡ true) × (a.count ≡ 0)
Unserved a g no_crypto = (a.flag_enabled ≡ true) × (g.real ≡ false)
Unserved a g (issuer_error name) =
    (g.real ≡ true) × (g.active_issuer.issue (request a) ≡ errors name)
Unserved a g (refused why) =
    (g.real ≡ true)
    × ((resp : IssueResponse) × (g.active_issuer.issue (request a) ≡ answers resp)
        × (resp.signed_blinds ≡ []))

-- The tables are as they were, and no ticket is counted, for the reason of the status; or the issuance
-- has stored tickets; or it raised.
abbrev pub IsSettled : Issuance → Registered → Purse → Issued → Type 0
IsSettled a g p (returned n status q) =
    ((n ≡ 0) × (q ≡ p) × Unserved a g status) ⊎ ((status ≡ ok) × IsStored a g p n q)
IsSettled a g p (raised q) =
    (q ≡ p) × ((a.can_pin ≡ false) ⊎ (g.active_issuer.issuer_key a.circle_id a.epoch_id ≡ none))

IsSettled-if :
    (a : Issuance) (g : Registered) (p : Purse) (b : Bool) (x y : Issued)
    → (b ≡ true → IsSettled a g p x)
    → (b ≡ false → IsSettled a g p y)
    → IsSettled a g p (if b then x else y)
IsSettled-if a g p true x y h k = h refl
IsSettled-if a g p false x y h k = k refl

trust_issuer_key-none :
    (b : Bool) (key : IssuerKey) (keys : List IssuerKey)
    → trust_issuer_key b key keys ≡ none
    → b ≡ false
unfolding trust_issuer_key
trust_issuer_key-none true key keys h = cc
trust_issuer_key-none false key keys h = refl

trust_issuer_key-some :
    (b : Bool) (key : IssuerKey) (keys keys' : List IssuerKey)
    → trust_issuer_key b key keys ≡ some keys'
    → b ≡ true
unfolding trust_issuer_key
trust_issuer_key-some true key keys keys' h = refl
trust_issuer_key-some false key keys keys' h = cc

pin_key-none :
    (a : Issuance) (found : Option IssuerKey) (keys : List IssuerKey)
    → pin_key a found keys ≡ none
    → (a.can_pin ≡ false) ⊎ (found ≡ none)
pin_key-none a none keys h = inr refl
pin_key-none a (some key) keys h = inl (trust_issuer_key-none a.can_pin key keys h)

pin_key-some :
    (a : Issuance) (found : Option IssuerKey) (keys keys' : List IssuerKey)
    → pin_key a found keys ≡ some keys'
    → (key : IssuerKey) × (found ≡ some key)
      × (get_issuer_key true key.issuer_key_id key.circle_id key.epoch_id keys' ≡ some key)
pin_key-some a none keys keys' h = cc
pin_key-some a (some key) keys keys' h =
    let opens = trust_issuer_key-some a.can_pin key keys keys' h in
    let trusted = ap (λ b. trust_issuer_key b key keys) (sym opens) ∙ h in
    (key, refl, get_issuer_key-trust_issuer_key key keys keys' trusted)

is_empty-eq : (xs : List (List ℕ)) → is_empty xs ≡ true → xs ≡ []
is_empty-eq [] h = refl
is_empty-eq (x ∷ xs) h = cc

not_empty : (xs : List (List ℕ)) → is_empty xs ≡ false → xs ≢ []
not_empty [] h = cc
not_empty (x ∷ xs) h = λ e. cc

module _ (a : Issuance) (g : Registered) (p : Purse) (enabled : a.flag_enabled ≡ true)
    (asked : a.count ≢ 0) (real : g.real ≡ true) where
  store_answer-IsSettled :
      (resp : IssueResponse) (keys : Option (List IssuerKey))
      → g.active_issuer.issue (request a) ≡ answers resp
      → resp.signed_blinds ≢ []
      → pin_key a (g.active_issuer.issuer_key a.circle_id a.epoch_id) p.keys ≡ keys
      → IsSettled a g p (store_answer a resp p keys)
  store_answer-IsSettled resp none e signed t = (refl, pin_key-none a _ p.keys t)
  store_answer-IsSettled resp (some keys) e signed t =
      let (key, known, pinned) = pin_key-some a _ p.keys keys t in
      let all = store_all-StoresAll a resp.issuer_key_id 0 resp.signed_blinds 0 p.tickets in
      inr (
        refl,
        record {
          enabled = enabled;
          asked = asked;
          real = real;
          response = resp;
          answered = e;
          signed = signed;
          key = key;
          known = known;
          pinned = pinned;
          counted = let c = all.counted in omega arith;
          adds = all.adds;
        },
      )

  on_answer-IsSettled :
      (answer : IssueAnswer)
      → g.active_issuer.issue (request a) ≡ answer
      → IsSettled a g p (on_answer a g.active_issuer p answer)
  on_answer-IsSettled (errors name) e = inl (refl, refl, (real, e))
  on_answer-IsSettled (answers resp) e =
      IsSettled-if a g p (is_empty resp.signed_blinds) _ _
        (λ y. inl (refl, refl, (real, (resp, e, is_empty-eq _ y))))
        (λ n. store_answer-IsSettled resp _ e (not_empty _ n) refl)

-- An issuance has one of three ends. No ticket is counted and the tables are as they were: the feature is
-- off, no ticket was asked for, no real issuer is registered, or the issuer raised or signed nothing,
-- as the status says. Or the key that the issuer gives is found under its circle and epoch, the count
-- is that of the signed tokens whose connection opened, each of these has a ticket in the table, the
-- old tickets are there, and no others but available ones of these tokens. Or the call raises, since
-- the connection to pin the key does not open or the issuer gives no key; then nothing is changed.
pub issue_query_tickets-IsSettled :
    (a : Issuance) (g : Registered) (p : Purse) → IsSettled a g p (issue_query_tickets a g p)
unfolding issue_query_tickets
issue_query_tickets-IsSettled a g p =
    IsSettled-if a g p (not a.flag_enabled) _ _ (λ off. inl (refl, refl, ground arith))
      (λ on.
        IsSettled-if a g p (a.count == 0) _ _
          (λ nothing. inl (refl, refl, (unnegate on, ==→eq a.count 0 nothing)))
          (λ asked.
            IsSettled-if a g p (not g.real) _ _
              (λ null. inl (refl, refl, (unnegate on, ground arith)))
              (λ real.
                on_answer-IsSettled a g p (unnegate on) (some_asked asked) (unnegate real)
                  (g.active_issuer.issue (request a)) refl)))
  where
    some_asked : (a.count == 0) ≡ false → a.count ≢ 0
    some_asked h = λ e. cc (eq→== a.count 0 e, h)
