-- ===== src/Sync/Compare/Newer.antt =====
-- The comparison of two nodes' manifests is the order of the store.
use searxng_wth_frnds.Prelude.{
  ℕ, suc, ◌-◌, ◌≤◌, false, some, ◌≡◌, refl, ◌&&◌, not, ◌==◌, nat_eq, string_eq, ==_refl,
  if◌then◌else◌, ltb, min, arith, Bool-cases, inl, inr, ap, ◌∙◌, zero,
}
use searxng_wth_frnds.Prelude.Int.{pos}
use searxng_wth_frnds.Prelude.Json.{int, get?, truthy}
use searxng_wth_frnds.Sync.Envelope.{Envelope}
use searxng_wth_frnds.Sync.Store.{newer}
use searxng_wth_frnds.Sync.Manifest.{meta_of, meta_fields}
use searxng_wth_frnds.Sync.Compare.{
  Builtins, to_int, or_zero, skip, pull, converted, by_time, decide,
}

to_int-or_zero :
    (b : Builtins) (n : ℕ) → to_int b (or_zero (some (int (pos n)))) ≡ converted (pos n)
unfolding truthy
to_int-or_zero b zero = refl
to_int-or_zero b (suc n) = let positive : (suc n == 0) ≡ false = ground arith in rw positive refl

min_left : (m n : ℕ) → m ≤ n → min m n ≡ m
min_left m n h = omega arith

min_right : (m n : ℕ) → n ≤ m → min m n ≡ n
min_right m n h = omega arith

by_time-newer :
    (own other : Envelope)
    → by_time other.content_hash own.wall_ts_ms own.content_hash (converted (pos other.wall_ts_ms))
      ≡ (if newer other own then pull (min own.wall_ts_ms (other.wall_ts_ms - 1)) else skip)
by_time-newer own other = elim (Bool-cases (ltb own.wall_ts_ms other.wall_ts_ms)) [
  | inl later ↦
      let low : min own.wall_ts_ms (other.wall_ts_ms - 1) ≡ own.wall_ts_ms =
        min_left _ _ (ground arith) in
      rw (later, low) refl
  | inr not_later ↦ elim (Bool-cases (ltb other.wall_ts_ms own.wall_ts_ms)) [
    | inl earlier ↦
        let apart : (other.wall_ts_ms == own.wall_ts_ms) ≡ false = ground arith in
        rw (not_later, earlier, apart) refl
    | inr not_earlier ↦
        let same : other.wall_ts_ms ≡ own.wall_ts_ms = ground arith in
        let low : min own.wall_ts_ms (own.wall_ts_ms - 1) ≡ own.wall_ts_ms - 1 =
          min_right _ _ (omega arith) in
        rw (not_later, not_earlier, same, low, ==_refl own.wall_ts_ms) refl
  ]
]

-- Of two nodes with a record, the one pulls from the other exactly if the contents differ and the other's
-- current envelope is newer; it then asks for what comes after its own time, and at the latest after the
-- millisecond before the other's.
pub decide-newer :
    (b : Builtins) (own other : Envelope)
    → decide b (some (meta_of own)) (meta_fields (meta_of other)) ≡ (
        if not (other.content_hash == own.content_hash) && newer other own
        then pull (min own.wall_ts_ms (other.wall_ts_ms - 1))
        else skip)
unfolding decide get?
decide-newer b own other = elim (Bool-cases (other.content_hash == own.content_hash)) [
  | inl y ↦ rw y refl
  | inr n ↦ rw n (
      ap (by_time other.content_hash own.wall_ts_ms own.content_hash)
        (to_int-or_zero b other.wall_ts_ms)
      ∙ by_time-newer own other)
]
