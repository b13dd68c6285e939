-- ===== src/Prelude/Json.antt =====
-- Values of JSON and YAML documents, as `json.loads` and `yaml.safe_load` return them. A float
-- is kept by its `repr`; the keys of a mapping are texts.
use searxng_wth_frnds.Prelude.{
  String, Bool, true, false, Option, none, some, List, [], ◌∷◌, ◌==◌, ◌||◌, not, string_eq, nat_eq,
  if◌then◌else◌, ◌≡◌, refl, ==_refl, ==→eq, Bool-cases, inl, inr,
}
use searxng_wth_frnds.Prelude.Int.{ℤ, pos, negsuc}

mutual
  pub data Json : Type 0 where
    null : Json
    bool : Bool → Json
    int : ℤ → Json
    float : String → Json
    str : String → Json
    arr : Items → Json
    obj : Fields → Json

  pub data Items : Type 0 where
    nil : Items
    cons : Json → Items → Items

  pub data Fields : Type 0 where
    end : Fields
    field : String → Json → Fields → Fields

-- `d.get(k)`; `none` if the key is missing.
unfoldable pub get? : String → Fields → Option Json
get? k end = none
get? k (field j v d) = if j == k then some v else get? k d

-- `d.get(k, default)`.
abbrev pub or_else : Json → Option Json → Json
or_else d none = d
or_else d (some v) = v

-- The keys of a mapping, as an iteration over it yields them.
unfoldable pub keys : Fields → Items
keys end = nil
keys (field k v d) = cons (str k) (keys d)

abbrev int_is_zero : ℤ → Bool
int_is_zero (pos n) = n == 0
int_is_zero (negsuc n) = false

-- `bool(v)`.
unfoldable pub truthy : Json → Bool
truthy null = false
truthy (bool b) = b
truthy (int a) = not (int_is_zero a)
truthy (float r) = not (r == "0.0" || r == "-0.0")
truthy (str s) = not (s == "")
truthy (arr nil) = false
truthy (arr (cons v vs)) = true
truthy (obj end) = false
truthy (obj (field k v d)) = true

-- Literals: `[a, b]` and `{k: v}`.
abbrev pub items : List Json → Items
items [] = nil
items (v ∷ vs) = cons v (items vs)

abbrev pub fields : List (String × Json) → Fields
fields [] = end
fields ((k, v) ∷ d) = field k v (fields d)

-- `d[k] = v`: a known key keeps its place.
unfoldable pub set : String → Json → Fields → Fields
set k v end = field k v end
set k v (field j w d) = if j == k then field j v d else field j w (set k v d)

-- `{j: w for j, w in d.items() if j != k}`.
unfoldable pub drop_key : String → Fields → Fields
drop_key k end = end
drop_key k (field j w d) = let rest = drop_key k d in if j == k then rest else field j w rest

unfoldable pub has_key : String → Fields → Bool
has_key k end = false
has_key k (field j w d) = j == k || has_key k d

pub get?-set_self : (k : String) (v : Json) (d : Fields) → get? k (set k v d) ≡ some v
unfolding get? set
get?-set_self k v end = rw (==_refl k) refl
get?-set_self k v (field j w d) = elim (Bool-cases (j == k)) [
  | inl y ↦ rw (y, y) refl
  | inr n ↦ rw (n, n) (get?-set_self k v d)
]

pub get?-set_other :
    (j k : String) (v : Json) (d : Fields) → (k == j) ≡ false → get? j (set k v d) ≡ get? j d
unfolding get? set
get?-set_other j k v end n = rw n refl
get?-set_other j k v (field i w d) n = elim (Bool-cases (i == k)) [
  | inl y ↦ let other : (i == j) ≡ false = rw (==→eq i k y) n in rw (y, other) refl
  | inr m ↦ elim (Bool-cases (i == j)) [
    | inl z ↦ rw (m, z) refl
    | inr o ↦ rw (m, o) (get?-set_other j k v d n)
  ]
]

-- Setting a key does not show in what is left without the key.
pub drop_key-set : (k : String) (v : Json) (d : Fields) → drop_key k (set k v d) ≡ drop_key k d
unfolding drop_key set
drop_key-set k v end = rw (==_refl k) refl
drop_key-set k v (field j w d) = elim (Bool-cases (j == k)) [
  | inl y ↦ rw (y, y) refl
  | inr n ↦ rw (n, n, drop_key-set k v d) refl
]
