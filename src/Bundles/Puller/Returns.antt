-- ===== src/Bundles/Puller/Returns.antt =====
-- A pull from a peer returns, unless a request raises or a cursor is infinite.
use searxng_wth_frnds.Prelude.{ℕ, String, ◌≡◌, refl, ◌⊎◌, inl, inr}
use searxng_wth_frnds.Sync.Compare.{Builtins}
use searxng_wth_frnds.Bundles.Envelope.{Tools}
use searxng_wth_frnds.Bundles.Verify.{Rosters}
use searxng_wth_frnds.Bundles.Puller.{Pulling, Fetched, Outcome, returned, raised, pull_from_peer}
use searxng_wth_frnds.Bundles.Puller.Progress.{
  Grows, Breaks, OutcomeGrows, pull_from_peer-OutcomeGrows,
}

module _ (t : Tools) (rosters : Rosters) (b : Builtins) (peer : String) (page_limit : ℕ)
    (page : ℕ → Fetched) where
  result_of :
      (p : Pulling) (o : Outcome)
      → OutcomeGrows t rosters peer b page_limit page p o
      → ((q : Pulling) × (o ≡ returned q) × Grows t rosters peer p q)
        ⊎ ((o ≡ raised) × Breaks t rosters peer b page_limit page)
  result_of p (returned q) g = inl (q, refl, g)
  result_of p raised g = inr (refl, g)

  -- However a peer answers and its cursors run, a pull from it returns, or it raises: then some request to
  -- the peer raises, or the document of some page has a next cursor that is infinite. If it returns, the
  -- table is still a log, if it was one: row ids and, of each record, versions grow, and every row has
  -- its content id, a signature that verifies, and an author of the roster unless it is a search result.
  -- The peer's high water has not fallen, and the count is the number of the new rows.
  pub pull_from_peer-Grows :
      (max_pages : ℕ) (p : Pulling)
      → ((q : Pulling) × (pull_from_peer t rosters b peer page_limit page max_pages p ≡ returned q)
          × Grows t rosters peer p q)
        ⊎ ((pull_from_peer t rosters b peer page_limit page max_pages p ≡ raised)
            × Breaks t rosters peer b page_limit page)
  pull_from_peer-Grows max_pages p =
      result_of p _ (pull_from_peer-OutcomeGrows t rosters peer b page_limit page max_pages p)
