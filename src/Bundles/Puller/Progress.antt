-- ===== src/Bundles/Puller/Progress.antt =====
-- What a pull from a peer leaves.
use searxng_wth_frnds.Prelude.{
  ℕ, zero, suc, ◌+◌, ◌≤◌, String, Option, none, some, List, ◌≡◌, refl, ◌==◌, string_eq, length,
  length-append, ltb, leb, ◌⊎◌, arith, Bool-cases, inl, inr, ==_refl,
}
use searxng_wth_frnds.Prelude.Int.{pos, negsuc}
use searxng_wth_frnds.Prelude.Dict
use searxng_wth_frnds.Prelude.Dict.{Dict, lookup-insert}
use searxng_wth_frnds.Prelude.Json.{
  Json, Items, Fields, null, bool, int, float, str, arr, obj, nil, cons, get?,
}
use searxng_wth_frnds.Sync.Compare.{Builtins, Converted, converted, refused, overflowed, to_int}
use searxng_wth_frnds.Bundles.Envelope.{Tools, cid_for}
use searxng_wth_frnds.Bundles.Store.{Bundle, has_cid, insert_row, can_bind_row, insert}
use searxng_wth_frnds.Bundles.Verify.{
  Rosters, VerifyReason, verify_bundle, or_skipped, insert_if, accept,
}
use searxng_wth_frnds.Bundles.Verify.Log.{IsLog, accept-IsLog}
use searxng_wth_frnds.Bundles.Puller.{
  Pulling, or_zero, larger_water, get_high_water, set_high_water, add_stored, Cursor, Fetched,
  answers, breaks, on_fetched, cursor_after, goes_on, stops, raises, bundles_of, cursor_of,
  count_items, Turn, done, continues, fails, Outcome, returned, raised, and_on, accept_all,
  after_cursor, on_bundles, turn, pull_pages, pull_from_peer,
}

-- A high water only rises.
set_high_water_le :
    (peer : String) (rowid : ℕ) (d : Dict ℕ)
    → get_high_water peer d ≤ get_high_water peer (set_high_water peer rowid d)
unfolding get_high_water set_high_water
set_high_water_le peer rowid d = elim (Bool-cases (peer == "")) [
  | inl y ↦ rw y (omega arith)
  | inr n ↦
      rw (n, lookup-insert peer peer (larger_water rowid (Dict.lookup peer d)) d, ==_refl peer)
        (larger (Dict.lookup peer d))
]
  where
    larger : (old : Option ℕ) → or_zero old ≤ larger_water rowid old
    larger none = omega arith
    larger (some old) = ground arith

module _ (t : Tools) (rosters : Rosters) (peer : String) where
  -- From one state of a pull to a later one: a log stays a log, the peer's high water does not fall, and the
  -- count grows by the number of rows that are new.
  pub record Grows (p q : Pulling) : Type 0 where
    pub log : IsLog t rosters p.rows → IsLog t rosters q.rows
    pub water : get_high_water peer p.high_water ≤ get_high_water peer q.high_water
    pub counted : p.stored + length q.rows ≡ q.stored + length p.rows

  Grows-refl : (p : Pulling) → Grows p p
  Grows-refl p = record { log = λ l. l; water = omega arith; counted = refl }

  Grows-trans : (p q r : Pulling) → Grows p q → Grows q r → Grows p r
  Grows-trans p q r g h = record {
    log = λ l. h.log (g.log l);
    water = let a = g.water in let b = h.water in omega arith;
    counted = let a = g.counted in let b = h.counted in omega arith;
  }

  -- the count of one document
  insert_row-counted :
      (env : Fields) (bs : List Bundle) (n : ℕ)
      → n + length (insert_row t env bs).1 ≡ add_stored (insert_row t env bs).0 n + length bs
  unfolding insert_row
  insert_row-counted env bs n = elim (Bool-cases (has_cid (cid_for t env) bs)) [
    | inl y ↦ rw y refl
    | inr m ↦ rw m (omega (arith, length-append bs _))
  ]

  or_skipped-counted :
      (env : Fields) (bs : List Bundle) (n : ℕ)
      → n + length (or_skipped bs (insert t env bs)).1
        ≡ add_stored (or_skipped bs (insert t env bs)).0 n + length bs
  unfolding insert
  or_skipped-counted env bs n = elim (Bool-cases (can_bind_row env)) [
    | inl y ↦ rw y (insert_row-counted env bs n)
    | inr m ↦ rw m refl
  ]

  insert_if-counted :
      (o : Option VerifyReason) (env : Fields) (bs : List Bundle) (n : ℕ)
      → n + length (insert_if o t env bs).1 ≡ add_stored (insert_if o t env bs).0 n + length bs
  insert_if-counted none env bs n = or_skipped-counted env bs n
  insert_if-counted (some reason) env bs n = refl

  accept-counted :
      (v : Json) (bs : List Bundle) (n : ℕ)
      → n + length (accept t rosters v bs).1 ≡ add_stored (accept t rosters v bs).0 n + length bs
  unfolding accept
  accept-counted (obj env) bs n = insert_if-counted (verify_bundle t rosters bs (obj env)) env bs n
  accept-counted v bs n = refl

  module _ (b : Builtins) (page_limit : ℕ) (page : ℕ → Fetched) where
    accept_all-Grows :
        (vs : Items) (p : Pulling) → Grows p (accept_all t rosters b peer page_limit page vs p)
    unfolding accept_all
    accept_all-Grows nil p = Grows-refl p
    accept_all-Grows (cons v vs) p =
        Grows-trans p _ _
          (record {
            log = accept-IsLog t rosters v p.rows;
            water = omega arith;
            counted = accept-counted v p.rows p.stored;
          })
          (accept_all-Grows vs _)

    -- An infinite number as the next cursor of the page after `since`.
    pub record IsInfinite (since : ℕ) : Type 0 where
      pub doc : Fields
      pub cursor : Json
      pub sent : page since ≡ answers (some (obj doc))
      pub read : get? "next_received_since" doc ≡ some cursor
      pub infinite : to_int b cursor ≡ overflowed

    -- What can make a pull raise: a request that raises, or an infinite cursor.
    abbrev pub Breaks : Type 0
    Breaks = (since : ℕ) × ((page since ≡ breaks) ⊎ IsInfinite since)

    cursor_after-raises :
        (high_water : ℕ) (c : Converted) → cursor_after high_water c ≡ raises → c ≡ overflowed
    cursor_after-raises high_water refused h = cc
    cursor_after-raises high_water overflowed h = refl
    cursor_after-raises high_water (converted (negsuc n)) h = cc
    cursor_after-raises high_water (converted (pos next)) h =
        elim (Bool-cases (leb next high_water)) [ inl y ↦ cc (rw y at h) | inr n ↦ cc (rw n at h) ]

    cursor_of-raises :
        (high_water : ℕ) (v : Option Json)
        → cursor_of b high_water v ≡ raises
        → (w : Json) × (v ≡ some w) × (to_int b w ≡ overflowed)
    cursor_of-raises high_water none h = cc
    cursor_of-raises high_water (some null) h = cc
    cursor_of-raises high_water (some (bool x)) h = (bool x, refl, cursor_after-raises _ _ h)
    cursor_of-raises high_water (some (int z)) h = (int z, refl, cursor_after-raises _ _ h)
    cursor_of-raises high_water (some (float r)) h = (float r, refl, cursor_after-raises _ _ h)
    cursor_of-raises high_water (some (str s)) h = (str s, refl, cursor_after-raises _ _ h)
    cursor_of-raises high_water (some (arr vs)) h = cc
    cursor_of-raises high_water (some (obj d)) h = cc

    abbrev TurnGrows : Pulling → Turn → Type 0
    TurnGrows p (done q) = Grows p q
    TurnGrows p (continues next q) = Grows p q
    TurnGrows p fails = Breaks

    abbrev pub OutcomeGrows : Pulling → Outcome → Type 0
    OutcomeGrows p (returned q) = Grows p q
    OutcomeGrows p raised = Breaks

    advanced-Grows :
        (p q : Pulling) (next : ℕ)
        → Grows p q
        → Grows p (record q { high_water = set_high_water peer next q.high_water })
    advanced-Grows p q next g =
        Grows-trans p q _ g (record {
          log = λ l. l;
          water = set_high_water_le peer next q.high_water;
          counted = refl;
        })

    after_cursor-TurnGrows :
        (size : ℕ) (c : Cursor) (p q : Pulling)
        → Grows p q
        → (c ≡ raises → Breaks)
        → TurnGrows p (after_cursor t rosters b peer page_limit page size c q)
    after_cursor-TurnGrows size stops p q g h = g
    after_cursor-TurnGrows size raises p q g h = h refl
    after_cursor-TurnGrows size (goes_on next) p q g h = elim (Bool-cases (ltb size page_limit)) [
      | inl y ↦ rw y (advanced-Grows p q next g)
      | inr n ↦ rw n (advanced-Grows p q next g)
    ]

    on_bundles-TurnGrows :
        (high_water : ℕ) (doc : Fields) (vs : Option Items) (p : Pulling)
        → page high_water ≡ answers (some (obj doc))
        → TurnGrows p (on_bundles t rosters b peer page_limit page high_water doc vs p)
    on_bundles-TurnGrows high_water doc none p sent = Grows-refl p
    on_bundles-TurnGrows high_water doc (some vs) p sent =
        let next = get? "next_received_since" doc in
        after_cursor-TurnGrows (count_items vs) (cursor_of b high_water next) p _
          (accept_all-Grows vs p)
          (λ h.
            let (w, read, infinite) = cursor_of-raises high_water next h in
            (
              high_water,
              inr (record { doc = doc; cursor = w; sent = sent; read = read; infinite = infinite }),
            ))

    on_fetched-TurnGrows :
        (high_water : ℕ) (f : Fetched) (p : Pulling)
        → page high_water ≡ f
        → TurnGrows p (on_fetched t rosters b peer page_limit page high_water f p)
    unfolding on_fetched turn
    on_fetched-TurnGrows high_water breaks p sent = (high_water, inl sent)
    on_fetched-TurnGrows high_water (answers (some (obj doc))) p sent =
        on_bundles-TurnGrows high_water doc (bundles_of (get? "bundles" doc)) p sent
    on_fetched-TurnGrows high_water (answers v) p sent = Grows-refl p

    and_on-OutcomeGrows :
        (p : Pulling) (o : Turn) (next : ℕ → Pulling → Outcome)
        → TurnGrows p o
        → ((cursor : ℕ) (q : Pulling) → OutcomeGrows q (next cursor q))
        → OutcomeGrows p (and_on o next)
    and_on-OutcomeGrows p (done q) next g h = g
    and_on-OutcomeGrows p (continues cursor q) next g h = chained (next cursor q) (h cursor q)
      where
        chained : (o : Outcome) → OutcomeGrows q o → OutcomeGrows p o
        chained (returned r) k = Grows-trans p q r g k
        chained raised k = k
    and_on-OutcomeGrows p fails next g h = g

    pull_pages-OutcomeGrows :
        (left high_water : ℕ) (p : Pulling)
        → OutcomeGrows p (pull_pages t rosters b peer page_limit page left high_water p)
    unfolding pull_pages
    pull_pages-OutcomeGrows zero high_water p = Grows-refl p
    pull_pages-OutcomeGrows (suc left) high_water p =
        and_on-OutcomeGrows p
          (on_fetched t rosters b peer page_limit page high_water (page high_water) p)
          (λ next q. pull_pages t rosters b peer page_limit page left next q)
          (on_fetched-TurnGrows high_water (page high_water) p refl)
          (λ next q. pull_pages-OutcomeGrows left next q)

    pub pull_from_peer-OutcomeGrows :
        (max_pages : ℕ) (p : Pulling)
        → OutcomeGrows p (pull_from_peer t rosters b peer page_limit page max_pages p)
    unfolding pull_from_peer
    pull_from_peer-OutcomeGrows max_pages p = elim (Bool-cases (peer == "")) [
      | inl y ↦ rw y (Grows-refl p)
      | inr n ↦ rw n (pull_pages-OutcomeGrows max_pages (or_zero (Dict.lookup peer p.high_water)) p)
    ]
