-- ===== src/Prelude/Text.antt =====
-- Texts by their code points, and the patterns that the program matches with `re`.
use Prim.Native.Char.{code}
use searxng_wth_frnds.Prelude.{
  ℕ, ◌-◌, String, Bool, true, false, List, [], ◌∷◌, ◌++◌, ◌&&◌, ◌||◌, ◌==◌, nat_eq, length, drop,
  take, all, if◌then◌else◌, leb, ◌≡◌, refl, arith,
}

-- The code points of a text. `String` has its own `[]` and `∷`.
abbrev pub codes : String → List ℕ
codes String.[] = []
codes (String.◌∷◌ c s) = code c ∷ codes s

abbrev pub codes_beq : List ℕ → List ℕ → Bool
codes_beq [] [] = true
codes_beq [] (b ∷ bs) = false
codes_beq (a ∷ as') [] = false
codes_beq (a ∷ as') (b ∷ bs) = a == b && codes_beq as' bs

-- `text.endswith(suffix)`.
abbrev pub ends_with : List ℕ → List ℕ → Bool
ends_with text suffix =
    leb (length suffix) (length text) && codes_beq (drop (length text - length suffix) text) suffix

-- `text.startswith(prefix)`.
abbrev pub begins_with : List ℕ → List ℕ → Bool
begins_with text prefix = codes_beq (take (length prefix) text) prefix

abbrev pub newline : ℕ
newline = 10

-- What `$` lets follow a match: nothing, or one newline at the end.
unfoldable pub before_newline : List ℕ → List ℕ
before_newline [] = []
before_newline (a ∷ []) = if a == newline then [] else a ∷ []
before_newline (a ∷ b ∷ bs) = a ∷ before_newline (b ∷ bs)

-- `re.match(r"^[class]{low,high}$", text)`, for a class without the newline.
unfoldable pub matches_class : (ℕ → Bool) → ℕ → ℕ → List ℕ → Bool
unfolding before_newline
matches_class test low high text =
    let body = before_newline text in
    all test body && leb low (length body) && leb (length body) high

-- `re.match(r"^prefix[class]{n}$", text)`.
unfoldable pub matches_prefixed : String → (ℕ → Bool) → ℕ → List ℕ → Bool
unfolding matches_class
matches_prefixed prefix test n text =
    begins_with text (codes prefix) && matches_class test n n (drop (length (codes prefix)) text)

abbrev pub between : ℕ → ℕ → ℕ → Bool
between low high c = leb low c && leb c high

-- `[0-9a-f]`.
unfoldable pub is_hex : ℕ → Bool
is_hex c = between 48 57 c || between 97 102 c

-- `[a-z0-9._-]`.
unfoldable pub is_record_char : ℕ → Bool
is_record_char c = between 97 122 c || between 48 57 c || c == 46 || c == 95 || c == 45

before_newline-append : (text : List ℕ) → before_newline (text ++ newline ∷ []) ≡ text
unfolding before_newline
before_newline-append [] = refl
before_newline-append (a ∷ []) = refl
before_newline-append (a ∷ b ∷ bs) = rw (before_newline-append (b ∷ bs)) refl

-- The pattern lets one newline follow what it describes.
pub matches_class-newline :
    (test : ℕ → Bool) (low high : ℕ) (text : List ℕ)
    → all test text ≡ true
    → (leb low (length text) && leb (length text) high) ≡ true
    → matches_class test low high (text ++ newline ∷ []) ≡ true
unfolding matches_class
matches_class-newline test low high text h k =
    rw (before_newline-append text) (ground (arith, h, k))
