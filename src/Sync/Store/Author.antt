-- ===== src/Sync/Store/Author.antt =====
-- The pin of a record's author: who sets it, and whom it keeps out.
use searxng_wth_frnds.Prelude.{
  ℕ, String, true, false, none, some, List, [], ◌∷◌, ◌++◌, ◌≡◌, ◌≢◌, refl, inl, inr, ◌==◌,
  string_eq, Bool-cases, ==→eq, eq→==, any,
}
use searxng_wth_frnds.Prelude.Checks.{false_of_not}
use searxng_wth_frnds.Sync.Envelope.{Envelope}
use searxng_wth_frnds.Sync.Store.{
  AuthorRow, Conn, reopen, record_id_owned_by_other_author, signature_invalid, Node,
  pinned_author_row, pin_author, check_signed, check_pin, check_author, check_shape, apply_envelope,
}

abbrev pub pin_of : Envelope → ℕ → AuthorRow
pin_of env now_ms = record {
  record_id = env.record_id;
  author_pubkey = env.author_pubkey;
  pinned_at_ms = now_ms;
  forked = false;
}

any-unpinned :
    (record_id : String) (as' : List AuthorRow)
    → pinned_author_row record_id as' ≡ none
    → any (λ a. a.record_id == record_id) as' ≡ false
unfolding pinned_author_row
any-unpinned record_id [] h = refl
any-unpinned record_id (a ∷ as') h = elim (Bool-cases (a.record_id == record_id)) [
  | inl y ↦ cc (rw y at h)
  | inr n ↦ rw n (any-unpinned record_id as' (rw n at h))
]

pinned_author_row-append :
    (record_id : String) (as' : List AuthorRow) (a : AuthorRow)
    → pinned_author_row record_id as' ≡ none
    → a.record_id ≡ record_id
    → pinned_author_row record_id (as' ++ a ∷ []) ≡ some a
unfolding pinned_author_row
pinned_author_row-append record_id [] a h e = rw (eq→== a.record_id record_id e) refl
pinned_author_row-append record_id (b ∷ as') a h e = elim (Bool-cases (b.record_id == record_id)) [
  | inl y ↦ cc (rw y at h)
  | inr n ↦ rw n (pinned_author_row-append record_id as' a (rw n at h) e)
]

pub pinned_author_row-pin_author :
    (env : Envelope) (now_ms : ℕ) (as' : List AuthorRow)
    → pinned_author_row env.record_id as' ≡ none
    → pinned_author_row env.record_id (pin_author env now_ms as') ≡ some (pin_of env now_ms)
unfolding pin_author
pinned_author_row-pin_author env now_ms as' h =
    rw (any-unpinned env.record_id as' h)
      (pinned_author_row-append env.record_id as' (pin_of env now_ms) h refl)

-- An envelope with a bad signature, of an author of the cohort, for a record without a pin.
pub record Forgery (node : Node) (env : Envelope) (c : Conn) : Type 0 where
  pub shaped : node.shape_error env ≡ none
  pub known : node.is_known_pubkey env.author_pubkey ≡ true
  pub unpinned : pinned_author_row env.record_id c.work.authors ≡ none
  pub unverified : node.verify_envelope_signature env ≡ false

-- The refused forgery leaves its pin in the open transaction.
Forgery-pinned_author_row :
    (node : Node) (env : Envelope) (c : Conn)
    → node.lan_trust ≡ false
    → Forgery node env c
    → pinned_author_row env.record_id (apply_envelope node env c).1.work.authors
      ≡ some (pin_of env node.now_ms)
unfolding apply_envelope check_shape check_author check_pin check_signed
Forgery-pinned_author_row node env c strict f =
    rw (f.shaped, strict, f.known, f.unpinned, f.unverified)
      (pinned_author_row-pin_author env node.now_ms c.work.authors f.unpinned)

Forgery-signature_invalid :
    (node : Node) (env : Envelope) (c : Conn)
    → node.lan_trust ≡ false
    → Forgery node env c
    → (apply_envelope node env c).0.reason ≡ signature_invalid
unfolding apply_envelope check_shape check_author check_pin check_signed
Forgery-signature_invalid node env c strict f =
    rw (f.shaped, strict, f.known, f.unpinned, f.unverified) refl

-- Whoever is pinned keeps another author out, and the check writes the open transaction to the disk.
pinned-refuses :
    (node : Node) (env : Envelope) (c : Conn) (a : AuthorRow)
    → node.lan_trust ≡ false
    → node.shape_error env ≡ none
    → node.is_known_pubkey env.author_pubkey ≡ true
    → pinned_author_row env.record_id c.work.authors ≡ some a
    → a.author_pubkey ≢ env.author_pubkey
    → ((apply_envelope node env c).0.reason ≡ record_id_owned_by_other_author)
      × ((apply_envelope node env c).1.durable ≡ c.work)
unfolding apply_envelope check_shape check_author check_pin
pinned-refuses node env c a strict shaped known pinned other =
    let differ : (a.author_pubkey == env.author_pubkey) ≡ false =
      false_of_not _ (λ y. other (==→eq a.author_pubkey env.author_pubkey y)) in
    rw (shaped, strict, known, pinned, differ) (refl, refl)

-- The pin is written before the signature is checked. On a node that does not trust its LAN, let an
-- envelope of a cohort author with a bad signature come for a record that has no pin: it is refused, but
-- the next envelope of the record, if it is by another author of the cohort, is refused as owned by
-- the first author, whatever its signature; and after that the forged pin is on the disk.
pub Forgery-apply_envelope :
    (node : Node) (env env' : Envelope) (c : Conn)
    → node.lan_trust ≡ false
    → Forgery node env c
    → node.shape_error env' ≡ none
    → node.is_known_pubkey env'.author_pubkey ≡ true
    → env'.record_id ≡ env.record_id
    → env.author_pubkey ≢ env'.author_pubkey
    → let c' = (apply_envelope node env c).1 in
      ((apply_envelope node env c).0.reason ≡ signature_invalid)
      × ((apply_envelope node env' c').0.reason ≡ record_id_owned_by_other_author)
      × (pinned_author_row env.record_id (reopen (apply_envelope node env' c').1).work.authors
          ≡ some (pin_of env node.now_ms))
Forgery-apply_envelope node env env' c strict f shaped known same other =
    let pinned = Forgery-pinned_author_row node env c strict f in
    let (refused, written) =
      pinned-refuses node env' _ (pin_of env node.now_ms) strict shaped known (rw same pinned)
        other in
    (Forgery-signature_invalid node env c strict f, refused, rw (written, pinned) refl)
