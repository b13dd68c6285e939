-- ===== src/Prelude/Checks.antt =====
-- Chains of `if violated: raise error`, and the Boolean facts that read one check.
use mathlib.Core.Path.{◌≡◌, refl}
use mathlib.Core.Bool.{Bool, true, false, ◌&&◌, not}
use mathlib.Core.Option.{Option, none, some}
use mathlib.Core.List.{List, [], ◌∷◌}
use native.Mathlib.Omega.{arith}
use searxng_wth_frnds.Prelude.Lists.{All}

-- `none` is a chain that raises nothing.
abbrev pub raise_if {ℓ} : {E : Type ℓ} → Bool → E → Option E → Option E
raise_if true e rest = some e
raise_if false e rest = rest

-- A chain raises nothing exactly when no check of it fires.
pub raise_if-none {ℓ} :
    {E : Type ℓ} (b : Bool) (e : E) {rest : Option E}
    → raise_if b e rest ≡ none
    → (b ≡ false) × (rest ≡ none)
raise_if-none true e h = absurd (ground arith)
raise_if-none false e h = (refl, h)

pub none-raise_if {ℓ} :
    {E : Type ℓ} (b : Bool) (e : E) {rest : Option E}
    → b ≡ false
    → rest ≡ none
    → raise_if b e rest ≡ none
none-raise_if b e h k = rw h k

pub implied : {b c : Bool} → (b && not c) ≡ false → b ≡ true → c ≡ true
implied h k = ground arith

pub excluded : {b c : Bool} → (b && c) ≡ false → b ≡ true → c ≡ false
excluded h k = ground arith

pub clear : {b c : Bool} → (b ≡ true → c ≡ true) → (b && not c) ≡ false
clear {b = false} h = refl
clear {b = true} h = not_true (h refl)
  where
    not_true : {c : Bool} → c ≡ true → not c ≡ false
    not_true k = ground arith

pub apart : {b c : Bool} → (b ≡ true → c ≡ false) → (b && c) ≡ false
apart {b = false} h = refl
apart {b = true} h = h refl

pub both_ways : {b : Bool} → b ≡ false → b ≡ true → ⊥
both_ways h k = cc

pub unnegate : {b : Bool} → not b ≡ false → b ≡ true
unnegate h = ground arith

pub negates : {b : Bool} → b ≡ true → not b ≡ false
negates h = ground arith

pub false_of_not : (b : Bool) → ¬ (b ≡ true) → b ≡ false
false_of_not true h = absurd (h refl)
false_of_not false h = refl

-- The same chain as a list of its checks: the error of the first that fires.
unfoldable pub first_raised {ℓ} : {E : Type ℓ} → List (Bool × E) → Option E
first_raised [] = none
first_raised (c ∷ cs) = raise_if c.0 c.1 (first_raised cs)

pub first_raised-none {ℓ} :
    {E : Type ℓ} (cs : List (Bool × E)) → first_raised cs ≡ none → All (λ c. c.0 ≡ false) cs
unfolding first_raised
first_raised-none [] h = tt
first_raised-none (c ∷ cs) h =
    let (clear_head, h') = raise_if-none c.0 c.1 h in (clear_head, first_raised-none cs h')

pub none-first_raised {ℓ} :
    {E : Type ℓ} (cs : List (Bool × E)) → All (λ c. c.0 ≡ false) cs → first_raised cs ≡ none
unfolding first_raised
none-first_raised [] h = refl
none-first_raised (c ∷ cs) (p, ps) = none-raise_if c.0 c.1 p (none-first_raised cs ps)
