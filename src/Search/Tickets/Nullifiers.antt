-- ===== src/Search/Tickets/Nullifiers.antt =====
-- src/swf/search/tickets.py: the registry of spent nullifiers, with the sweep that every 1024th spend
-- of the process makes. `can_open` and `can_sweep` say whether the database opens: the source answers
-- for one that does not. The table's primary key makes a second insert of a nullifier do nothing.
pub mod Once
use Prim.Native.Nat.{◌%◌}
use searxng_wth_frnds.Prelude.{
  ℕ, zero, suc, ◌+◌, ◌<◌, ◌≤◌, String, Bool, true, false, Option, none, some, List, [], ◌∷◌, ◌++◌,
  ◌≡◌, refl, ap, ◌⊎◌, inl, inr, ◌&&◌, not, ◌==◌, nat_eq, string_eq, arith, Bool-cases, ==→eq, eq→==,
  ==_refl, length, keep, any, map, if◌then◌else◌, ltb, leb, In, All, Distinct,
}
use searxng_wth_frnds.Search.Tickets.{TicketFamily, time_or}

pub record NullifierRow : Type 0 where
  pub nullifier : String
  pub family : TicketFamily
  pub circle_id : String
  pub epoch_id : String
  pub spent_at_ms : ℕ
  pub expires_at_ms : ℕ

-- The table, and the counter of the process.
pub record Registry : Type 0 where
  pub rows : List NullifierRow
  pub spend_count : ℕ

-- The arguments of `try_spend_nullifier`, and what the environment adds to them.
pub record Spend : Type 0 where
  pub nullifier : String
  pub family : TicketFamily
  pub circle_id : String
  pub epoch_id : String
  pub spent_at_ms : Option ℕ
  pub retention_ms : ℕ
  pub clock : ℕ
  pub can_open : Bool
  pub can_sweep : Bool

abbrev pub vacuum_every : ℕ
vacuum_every = 1024

unfoldable pub holds_nullifier : String → List NullifierRow → Bool
holds_nullifier nullifier rows = any (λ row. row.nullifier == nullifier) rows

unfoldable pub is_spent : Bool → String → List NullifierRow → Bool
unfolding holds_nullifier
is_spent can_open nullifier rows =
    if nullifier == ""
    then false
    else if not can_open
    then false
    else holds_nullifier nullifier rows

abbrev pub unexpired : ℕ → NullifierRow → Bool
unexpired now_ms row = not (leb row.expires_at_ms now_ms)

-- `DELETE ... WHERE expires_at_ms <= ?`.
unfoldable pub vacuum_expired_nullifiers :
    Bool → Option ℕ → ℕ → List NullifierRow → List NullifierRow
vacuum_expired_nullifiers can_open now_ms clock rows =
    if can_open then keep (unexpired (time_or clock now_ms)) rows else rows

abbrev pub spend_time : Spend → ℕ
spend_time s = time_or s.clock s.spent_at_ms

abbrev pub row_of : Spend → NullifierRow
row_of s = record {
  nullifier = s.nullifier;
  family = s.family;
  circle_id = s.circle_id;
  epoch_id = s.epoch_id;
  spent_at_ms = spend_time s;
  expires_at_ms = spend_time s + s.retention_ms;
}

-- The insert, which does nothing when the nullifier is there.
unfoldable pub claim : Spend → List NullifierRow → List NullifierRow
unfolding holds_nullifier
claim s rows = if holds_nullifier s.nullifier rows then rows else rows ++ row_of s ∷ []

-- The count and the sweep behind the insert.
unfoldable pub count_spend : Spend → List NullifierRow → ℕ → Registry
unfolding vacuum_expired_nullifiers
count_spend s rows n = record {
  rows =
      if n % vacuum_every == 0
      then vacuum_expired_nullifiers s.can_sweep (some (spend_time s)) s.clock rows
      else rows;
  spend_count = n;
}

unfoldable pub spend_accepted : Spend → Registry → Bool
unfolding holds_nullifier
spend_accepted s r =
    if s.nullifier == ""
    then false
    else if not s.can_open
    then false
    else not (holds_nullifier s.nullifier r.rows)

unfoldable pub spend_registry : Spend → Registry → Registry
unfolding claim count_spend
spend_registry s r =
    if s.nullifier == ""
    then r
    else if not s.can_open
    then r
    else count_spend s (claim s r.rows) (suc r.spend_count)

-- `try_spend_nullifier`: whether the nullifier is claimed, with the registry after it.
unfoldable pub try_spend_nullifier : Spend → Registry → Bool × Registry
try_spend_nullifier s r = (spend_accepted s r, spend_registry s r)
