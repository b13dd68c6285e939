-- ===== src/Bundles/Puller.antt =====
-- src/swf/bundles/puller.py: `pull_from_peer`, which reads a peer's pages up to a number of them. What the
-- peer answers to a cursor is a parameter: any JSON, or an exception that `_http_get_json` lets pass. The
-- counts of a failing peer are left out, and so are errors of SQLite itself.
pub mod Progress
pub mod Returns
mod Tests
use searxng_wth_frnds.Prelude.{
  ℕ, suc, zero, ◌+◌, ◌*◌, String, Bool, true, false, Option, none, some, List, [], ◌∷◌, ◌||◌, ◌==◌,
  string_eq, if◌then◌else◌, ltb, leb, max,
}
use searxng_wth_frnds.Prelude.Dict
use searxng_wth_frnds.Prelude.Dict.{Dict}
use searxng_wth_frnds.Prelude.Int.{ℤ, pos, negsuc}
use searxng_wth_frnds.Prelude.Json.{
  Json, Items, Fields, null, bool, int, float, str, arr, obj, nil, cons, get?, truthy,
}
use searxng_wth_frnds.Sync.Compare.{Builtins, Converted, converted, refused, overflowed, to_int}
use searxng_wth_frnds.Bundles.Envelope.{Tools}
use searxng_wth_frnds.Bundles.Store.{Bundle, integer_end}
use searxng_wth_frnds.Bundles.Verify.{Rosters, accept}

-- What a pull has: the rows, the high water of each peer, and the count of the rows that are new.
pub record Pulling : Type 0 where
  pub rows : List Bundle
  pub high_water : Dict ℕ
  pub stored : ℕ

abbrev pub or_zero : Option ℕ → ℕ
or_zero none = 0
or_zero (some n) = n

-- `_get_high_water`; a peer without a key has none.
unfoldable pub get_high_water : String → Dict ℕ → ℕ
get_high_water peer d = if peer == "" then 0 else or_zero (Dict.lookup peer d)

-- `CAST(... AS INTEGER)`, which stops at the largest integer.
abbrev pub as_integer : ℕ → ℕ
as_integer n = if ltb n integer_end then n else 9223372036854775807

abbrev pub larger_water : ℕ → Option ℕ → ℕ
larger_water rowid none = rowid
larger_water rowid (some old) = if ltb (as_integer old) (as_integer rowid) then rowid else old

-- `_set_high_water`: never to less than it was.
unfoldable pub set_high_water : String → ℕ → Dict ℕ → Dict ℕ
set_high_water peer rowid d =
    if peer == "" then d else Dict.insert peer (larger_water rowid (Dict.lookup peer d)) d

abbrev add_stored : Bool → ℕ → ℕ
add_stored true n = suc n
add_stored false n = n

-- The next cursor of a page, the end of the walk, or an infinite number, on which `int` raises.
pub data Cursor : Type 0 where
  goes_on : ℕ → Cursor
  stops raises : Cursor

abbrev pub cursor_after : ℕ → Converted → Cursor
cursor_after high_water refused = stops
cursor_after high_water overflowed = raises
cursor_after high_water (converted (negsuc n)) = stops
cursor_after high_water (converted (pos next)) = if leb next high_water then stops else goes_on next

-- `next_received_since`.
abbrev pub cursor_of : Builtins → ℕ → Option Json → Cursor
cursor_of b high_water none = stops
cursor_of b high_water (some null) = stops
cursor_of b high_water (some v) = cursor_after high_water (to_int b v)

-- `doc.get("bundles") or []`, if it is a list.
abbrev pub bundles_of : Option Json → Option Items
bundles_of none = some nil
bundles_of (some (arr vs)) = some vs
bundles_of (some v) = if truthy v then none else some nil

unfoldable pub count_items : Items → ℕ
count_items nil = 0
count_items (cons v vs) = suc (count_items vs)

-- What a request does: it gives a document, or none if it fails; or it raises what `_http_get_json` does
-- not catch, as a `ValueError` on an integer of too many digits, or a `RecursionError`.
pub data Fetched : Type 0 where
  answers : Option Json → Fetched
  breaks : Fetched

-- What a page does to the walk over the pages.
pub data Turn : Type 0 where
  done : Pulling → Turn
  continues : ℕ → Pulling → Turn
  fails : Turn

-- A pull that raises loses what it has not committed, and has no result.
pub data Outcome : Type 0 where
  returned : Pulling → Outcome
  raised : Outcome

abbrev pub and_on : Turn → (ℕ → Pulling → Outcome) → Outcome
and_on (done p) next = returned p
and_on (continues cursor p) next = next cursor p
and_on fails next = raised

module _ (t : Tools) (rosters : Rosters) (b : Builtins) (peer : String) (page_limit : ℕ)
    (page : ℕ → Fetched) where
  -- the loop over a page
  unfoldable pub accept_all : Items → Pulling → Pulling
  unfolding accept
  accept_all nil p = p
  accept_all (cons v vs) p =
      let result = accept t rosters v p.rows in
      accept_all vs (record p { rows = result.1; stored = add_stored result.0 p.stored })

  -- with the bundles of a page accepted
  abbrev pub after_cursor : ℕ → Cursor → Pulling → Turn
  after_cursor size stops p = done p
  after_cursor size raises p = fails
  after_cursor size (goes_on next) p =
      let advanced = record p { high_water = set_high_water peer next p.high_water } in
      if ltb size page_limit then done advanced else continues next advanced

  abbrev pub on_bundles : ℕ → Fields → Option Items → Pulling → Turn
  on_bundles high_water doc none p = done p
  on_bundles high_water doc (some vs) p =
      after_cursor (count_items vs) (cursor_of b high_water (get? "next_received_since" doc))
        (accept_all vs p)

  unfoldable pub turn : ℕ → Option Json → Pulling → Turn
  unfolding accept_all count_items
  turn high_water (some (obj doc)) p = on_bundles high_water doc (bundles_of (get? "bundles" doc)) p
  turn high_water v p = done p

  unfoldable pub on_fetched : ℕ → Fetched → Pulling → Turn
  unfolding turn
  on_fetched high_water (answers v) p = turn high_water v p
  on_fetched high_water breaks p = fails

  -- the loop over the pages, of which so many are left
  unfoldable pub pull_pages : ℕ → ℕ → Pulling → Outcome
  unfolding on_fetched
  pull_pages zero high_water p = returned p
  pull_pages (suc left) high_water p =
      and_on (on_fetched high_water (page high_water) p) (λ next q. pull_pages left next q)

  unfoldable pub pull_from_peer : ℕ → Pulling → Outcome
  unfolding pull_pages get_high_water
  pull_from_peer max_pages p =
      if peer == "" then returned p else pull_pages max_pages (get_high_water peer p.high_water) p
