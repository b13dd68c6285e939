-- ===== src/Search/Tickets/Nullifiers/Once.antt =====
-- A nullifier is accepted once: no spend before its expiry is accepted again, over any sequence of spends.
use Prim.Native.Nat.{◌%◌}
use searxng_wth_frnds.Prelude.{
  ℕ, suc, ◌+◌, ◌<◌, ◌≤◌, String, Bool, true, false, Option, none, some, List, [], ◌∷◌, ◌≡◌, refl,
  inl, inr, ◌==◌, nat_eq, string_eq, arith, Bool-cases, eq→==, any, In, All, In-append_left,
  In-append_right, In-keep,
}
use searxng_wth_frnds.Search.Tickets.{time_or}
use searxng_wth_frnds.Search.Tickets.Nullifiers.{
  NullifierRow, Registry, Spend, holds_nullifier, vacuum_expired_nullifiers, spend_time, row_of,
  claim, count_spend, spend_accepted, spend_registry, try_spend_nullifier, vacuum_every,
}

-- The verdicts of a sequence of spends, in its order.
unfoldable pub verdicts : List Spend → Registry → List (Spend × Bool)
unfolding try_spend_nullifier
verdicts [] r = []
verdicts (s ∷ later) r =
    (s, (try_spend_nullifier s r).0) ∷ verdicts later (try_spend_nullifier s r).1

-- A row of the nullifier that no sweep before `limit` drops.
pub record Guarded (nullifier : String) (limit : ℕ) (rows : List NullifierRow) : Type 0 where
  pub row : NullifierRow
  pub listed : In row rows
  pub named : row.nullifier ≡ nullifier
  pub lasting : limit ≤ row.expires_at_ms

move :
    {n : String} {limit : ℕ} {rows rows' : List NullifierRow} (g : Guarded n limit rows)
    → In g.row rows'
    → Guarded n limit rows'
move g m = record { row = g.row; listed = m; named = g.named; lasting = g.lasting }

any_row :
    (test : NullifierRow → Bool) (row : NullifierRow) (rows : List NullifierRow)
    → In row rows
    → test row ≡ true
    → any test rows ≡ true
any_row test row [] m t = absurd m
any_row test row (r ∷ rows) (inl e) t = rw (← e, t)
any_row test row (r ∷ rows) (inr m) t = ground (arith, any_row test row rows m t)

Guarded-holds :
    {n : String} {limit : ℕ} {rows : List NullifierRow}
    → Guarded n limit rows
    → holds_nullifier n rows ≡ true
unfolding holds_nullifier
Guarded-holds {n} {limit} {rows} g = any_row _ g.row rows g.listed (eq→== g.row.nullifier n g.named)

-- The sweep reads the time of the spend.
clock_again : (clock : ℕ) → time_or clock (some clock) ≡ clock
unfolding time_or
clock_again clock = elim (Bool-cases (clock == 0)) [ inl z ↦ rw z | inr p ↦ rw p ]

pub time_or-time_or :
    (clock : ℕ) (given : Option ℕ)
    → time_or clock (some (time_or clock given)) ≡ time_or clock given
unfolding time_or
time_or-time_or clock none = clock_again clock
time_or-time_or clock (some t) = elim (Bool-cases (t == 0)) [
  | inl z ↦ rw z (clock_again clock)
  | inr p ↦ rw (p, p)
]

sweep_time : (s : Spend) → time_or s.clock (some (spend_time s)) ≡ spend_time s
sweep_time s = time_or-time_or s.clock s.spent_at_ms

Guarded-claim :
    (s : Spend) {n : String} {limit : ℕ} {rows : List NullifierRow}
    → Guarded n limit rows
    → Guarded n limit (claim s rows)
unfolding claim
Guarded-claim s {rows = rows} g = elim (Bool-cases (holds_nullifier s.nullifier rows)) [
  | inl old ↦ rw old g
  | inr new ↦ rw new (move g (In-append_left g.row rows _ g.listed))
]

Guarded-vacuum :
    (can_open : Bool) (now_ms : Option ℕ) (clock : ℕ) {n : String} {limit : ℕ}
    {rows : List NullifierRow}
    → time_or clock now_ms < limit
    → Guarded n limit rows
    → Guarded n limit (vacuum_expired_nullifiers can_open now_ms clock rows)
unfolding vacuum_expired_nullifiers
Guarded-vacuum true now_ms clock {rows = rows} lt g =
    move g (In-keep _ g.row rows g.listed (ground (arith, g.lasting)))
Guarded-vacuum false now_ms clock lt g = g

Guarded-count :
    (s : Spend) (count : ℕ) {n : String} {limit : ℕ} {rows : List NullifierRow}
    → spend_time s < limit
    → Guarded n limit rows
    → Guarded n limit (count_spend s rows count).rows
unfolding count_spend
Guarded-count s count lt g = elim (Bool-cases (count % vacuum_every == 0)) [
  | inl due ↦ rw due (Guarded-vacuum s.can_sweep _ s.clock (rw (sweep_time s) lt) g)
  | inr not_due ↦ rw not_due g
]

pub Guarded-spend :
    (s : Spend) (r : Registry) {n : String} {limit : ℕ}
    → spend_time s < limit
    → Guarded n limit r.rows
    → Guarded n limit (spend_registry s r).rows
unfolding spend_registry
Guarded-spend s r lt g = elim (Bool-cases (s.nullifier == "")) [
  | inl empty ↦ rw empty g
  | inr named ↦ elim (Bool-cases s.can_open) [
    | inr closed ↦ rw (named, closed) g
    | inl opened ↦ rw (named, opened) (Guarded-count s (suc r.spend_count) lt (Guarded-claim s g))
  ]
]

-- An accepted spend leaves its row.
pub accepted-Guarded :
    (s : Spend) (r : Registry)
    → spend_accepted s r ≡ true
    → 0 < s.retention_ms
    → Guarded s.nullifier (spend_time s + s.retention_ms) (spend_registry s r).rows
unfolding spend_accepted spend_registry claim
accepted-Guarded s r accepted kept = elim (Bool-cases (s.nullifier == "")) [
  | inl empty ↦ cc (rw empty at accepted)
  | inr named ↦ elim (Bool-cases s.can_open) [
    | inr closed ↦ cc (rw (named, closed) at accepted)
    | inl opened ↦ elim (Bool-cases (holds_nullifier s.nullifier r.rows)) [
      | inl old ↦ cc (rw (named, opened, old) at accepted)
      | inr new ↦
          rw (named, opened, new)
            (Guarded-count s (suc r.spend_count) (omega (arith, kept)) (record {
              row = row_of s;
              listed = In-append_right (row_of s) r.rows _ (inl refl);
              named = refl;
              lasting = omega arith;
            }))
    ]
  ]
]

pub Guarded-refused :
    (s : Spend) (r : Registry) {n : String} {limit : ℕ}
    → Guarded n limit r.rows
    → s.nullifier ≡ n
    → spend_accepted s r ≡ false
unfolding spend_accepted
Guarded-refused s r {n} g e = rw (e, Guarded-holds g) (ground arith)

Guarded-verdicts :
    (later : List Spend) (r : Registry) {n : String} {limit : ℕ}
    → All (λ s. spend_time s < limit) later
    → Guarded n limit r.rows
    → All (λ v. (v.0).nullifier ≡ n → v.1 ≡ false) (verdicts later r)
unfolding verdicts try_spend_nullifier
Guarded-verdicts [] r early g = tt
Guarded-verdicts (s ∷ later) r (lt, early) g = (
  λ e. Guarded-refused s r g e,
  Guarded-verdicts later (spend_registry s r) early (Guarded-spend s r lt g),
)

-- Once a nullifier is accepted with a positive retention, every spend of it in any later sequence is
-- refused, if the spends of the sequence (of any nullifier, sweeping or not) come before its expiry.
pub verdicts-once :
    (s : Spend) (later : List Spend) (r : Registry)
    → (try_spend_nullifier s r).0 ≡ true
    → 0 < s.retention_ms
    → All (λ s'. spend_time s' < spend_time s + s.retention_ms) later
    → All
        (λ v. (v.0).nullifier ≡ s.nullifier → v.1 ≡ false)
        (verdicts later (try_spend_nullifier s r).1)
unfolding try_spend_nullifier
verdicts-once s later r accepted kept early =
    Guarded-verdicts later (spend_registry s r) early (accepted-Guarded s r accepted kept)
