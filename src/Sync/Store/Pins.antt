-- ===== src/Sync/Store/Pins.antt =====
-- No statement of `apply_envelope` moves a pin, and the tables stay sound under each of them.
use searxng_wth_frnds.Prelude.{
  ℕ, String, Bool, true, false, Option, some, List, [], ◌∷◌, ◌++◌, ◌≡◌, refl, inl, inr, ◌&&◌, ◌==◌,
  string_eq, Bool-cases, any, All, All-append_one,
}
use searxng_wth_frnds.Sync.Envelope.{Envelope}
use searxng_wth_frnds.Sync.Store.{
  Row, AuthorRow, Tables, Conn, Node, pinned_author_row, pin_author, set_forked, is_row,
  insert_record, update_fork,
}

-- The pinned author of a record.
abbrev pub OwnedBy : String → String → List AuthorRow → Type 0
OwnedBy record_id author as' =
    (a : AuthorRow) × (pinned_author_row record_id as' ≡ some a) × (a.author_pubkey ≡ author)

-- Every record that is stored is verified, and of the one author that its pin names.
pub record IsSound (node : Node) (t : Tables) : Type 0 where
  pub verified : All (λ r. node.verify_envelope_signature r.envelope ≡ true) t.records
  pub single : All (λ r. OwnedBy r.envelope.record_id r.envelope.author_pubkey t.authors) t.records

pub record IsSoundConn (node : Node) (c : Conn) : Type 0 where
  pub work : IsSound node c.work
  pub durable : IsSound node c.durable

-- No step moves a pin.
set_forked-OwnedBy :
    (flag : Bool) (rid record_id author : String) (as' : List AuthorRow)
    → OwnedBy record_id author as'
    → OwnedBy record_id author (set_forked flag rid as')
unfolding set_forked pinned_author_row
set_forked-OwnedBy flag rid record_id author [] (a, p, e) = cc
set_forked-OwnedBy flag rid record_id author (b ∷ as') (a, p, e) =
    elim (Bool-cases (b.record_id == record_id)) [
      | inl y ↦ elim (Bool-cases (b.record_id == rid)) [
        | inl z ↦ rw (z, y) (record b { forked = flag }, refl, author_of (rw y at p))
        | inr n ↦ rw (n, y) (b, refl, author_of (rw y at p))
      ]
      | inr n ↦
          let (a', p', e') = set_forked-OwnedBy flag rid record_id author as' (a, rw n at p, e) in
          elim (Bool-cases (b.record_id == rid)) [
            | inl z ↦ rw (z, n) (a', p', e')
            | inr m ↦ rw (m, n) (a', p', e')
          ]
    ]
  where
    author_of : Option.some b ≡ some a → b.author_pubkey ≡ author
    author_of h = let same : b ≡ a = cc in rw same e

append-OwnedBy :
    (record_id author : String) (as' : List AuthorRow) (b : AuthorRow)
    → OwnedBy record_id author as'
    → OwnedBy record_id author (as' ++ b ∷ [])
unfolding pinned_author_row
append-OwnedBy record_id author [] b (a, p, e) = cc
append-OwnedBy record_id author (d ∷ as') b (a, p, e) =
    elim (Bool-cases (d.record_id == record_id)) [
      | inl y ↦ rw y (a, rw y at p, e)
      | inr n ↦
          let (a', p', e') = append-OwnedBy record_id author as' b (a, rw n at p, e) in
          rw n (a', p', e')
    ]

pub pin_author-OwnedBy :
    (env : Envelope) (now_ms : ℕ) (record_id author : String) (as' : List AuthorRow)
    → OwnedBy record_id author as'
    → OwnedBy record_id author (pin_author env now_ms as')
unfolding pin_author
pin_author-OwnedBy env now_ms record_id author as' o =
    elim (Bool-cases (any (λ a. a.record_id == env.record_id) as')) [
      | inl old ↦ rw old o
      | inr new ↦ rw new (append-OwnedBy record_id author as' _ o)
    ]

pub All-imp :
    {A : Type 0} (P Q : A → Type 0) (xs : List A) → ((a : A) → P a → Q a) → All P xs → All Q xs
All-imp P Q [] f h = tt
All-imp P Q (x ∷ xs) f h = (f x h.0, All-imp P Q xs f h.1)

module _ (node : Node) (env : Envelope) where
  pub pinned-IsSound :
      (t : Tables)
      → IsSound node t
      → IsSound node
          (record { records = t.records; authors = pin_author env node.now_ms t.authors })
  pinned-IsSound t h = record {
    verified = h.verified;
    single =
        All-imp _ _ t.records (λ r o. pin_author-OwnedBy env node.now_ms _ _ t.authors o) h.single;
  }

  pub update_fork-OwnedBy :
      (fork was_new was_forked : Bool) (record_id author : String) (as' : List AuthorRow)
      → OwnedBy record_id author as'
      → OwnedBy record_id author (update_fork node env fork was_new was_forked as')
  unfolding update_fork
  update_fork-OwnedBy true was_new was_forked record_id author as' o =
      set_forked-OwnedBy true _ _ _ as' o
  update_fork-OwnedBy false was_new was_forked record_id author as' o =
      elim (Bool-cases (was_new && was_forked)) [
        | inl clear ↦ rw clear (set_forked-OwnedBy false _ _ _ as' o)
        | inr keep ↦ rw keep o
      ]

  pub insert_record-All :
      (P : Row → Type 0) (rows : List Row)
      → All P rows
      → P (record { envelope = env; received_at_ms = node.now_ms })
      → All P (insert_record env node.now_ms rows)
  unfolding insert_record
  insert_record-All P rows h p = elim (Bool-cases (any (is_row env) rows)) [
    | inl old ↦ rw old h
    | inr new ↦ rw new (All-append_one P rows _ h p)
  ]
