-- ===== src/Sync/Loop/Visits.antt =====
-- No peer is contacted twice within the limit.
use searxng_wth_frnds.Prelude.{
  ℕ, String, true, some, List, [], ◌∷◌, ◌≡◌, refl, ap, ◌∙◌, sym, ◌⊎◌, inl, inr, ◌==◌, string_eq,
  arith, Bool-cases, All, ==_refl, ==→eq,
}
use searxng_wth_frnds.Prelude.Checks.{both_ways}
use searxng_wth_frnds.Prelude.Dict
use searxng_wth_frnds.Prelude.Dict.{Dict, lookup-insert}
use searxng_wth_frnds.Sync.Pull.{Outcome, returned, raised, Setting, sync_with_peer}
use searxng_wth_frnds.Sync.Loop.{
  Discovered, Walk, after_call, is_recent, peer_in_rate_limit_window, peer_key_of,
  default_record_limit, contact, visit_peer, visit_peers,
}

after_call-attempts :
    (p : Discovered) (o : Outcome) (w : Walk) → (after_call p o w).attempts ≡ w.attempts
after_call-attempts p (returned c r) w = refl
after_call-attempts p (raised r) w = refl

after_call-visited :
    (p : Discovered) (o : Outcome) (w : Walk) → (after_call p o w).visited ≡ w.visited
after_call-visited p (returned c r) w = refl
after_call-visited p (raised r) w = refl

just_now : (now : ℕ) → is_recent (some now) now ≡ true
just_now now = ground arith

module _ (s : Setting) (now : ℕ) where
  -- A peer of which an attempt is in the window.
  abbrev IsInWindow : Dict ℕ → String → Type 0
  IsInWindow attempts key = peer_in_rate_limit_window key now attempts ≡ true

  contact-attempts :
      (p : Discovered) (w : Walk)
      → (contact s now p w).attempts ≡ Dict.insert (peer_key_of p) now w.attempts
  unfolding contact
  contact-attempts p w =
      after_call-attempts p (sync_with_peer s p.peer p.url p.pubkey default_record_limit w.round) _

  insert-IsInWindow :
      (key k : String) (attempts : Dict ℕ)
      → (IsInWindow attempts key) ⊎ ((k == key) ≡ true)
      → IsInWindow (Dict.insert k now attempts) key
  unfolding peer_in_rate_limit_window
  insert-IsInWindow key k attempts h = elim (Bool-cases (k == key)) [
    | inl y ↦ rw (lookup-insert k key now attempts, y) (just_now now)
    | inr n ↦ elim h [
      | inl old ↦ rw (lookup-insert k key now attempts, n) old
      | inr y ↦ absurd (both_ways n y)
    ]
  ]

  -- A visit leaves the peer in the window, and all that were there.
  visit_peer-IsInWindow :
      (p : Discovered) (w : Walk) (key : String)
      → (IsInWindow w.attempts key) ⊎ ((peer_key_of p == key) ≡ true)
      → IsInWindow (visit_peer s now p w).attempts key
  unfolding visit_peer
  visit_peer-IsInWindow p w key h =
      elim (Bool-cases (peer_in_rate_limit_window (peer_key_of p) now w.attempts)) [
        | inl y ↦ rw y (elim h [
          | inl old ↦ old
          | inr same ↦
              ap (λ k. peer_in_rate_limit_window k now w.attempts)
                (sym (==→eq (peer_key_of p) key same))
              ∙ y
        ])
        | inr n ↦ rw (n, contact-attempts p w) (insert-IsInWindow key (peer_key_of p) w.attempts h)
      ]

  visit_peers-IsInWindow :
      (ps : List Discovered) (w : Walk) (key : String)
      → IsInWindow w.attempts key
      → IsInWindow (visit_peers s now ps w).attempts key
  unfolding visit_peers
  visit_peers-IsInWindow [] w key h = h
  visit_peers-IsInWindow (p ∷ ps) w key h =
      visit_peers-IsInWindow ps (visit_peer s now p w) key (visit_peer-IsInWindow p w key (inl h))

  visit_peers-All :
      (ps : List Discovered) (w : Walk)
      → All (λ p. IsInWindow (visit_peers s now ps w).attempts (peer_key_of p)) ps
  unfolding visit_peers
  visit_peers-All [] w = tt
  visit_peers-All (p ∷ ps) w = (
    visit_peers-IsInWindow ps (visit_peer s now p w) (peer_key_of p)
        (visit_peer-IsInWindow p w (peer_key_of p) (inr (==_refl (peer_key_of p)))),
    visit_peers-All ps (visit_peer s now p w),
  )

  -- Peers in the window are left alone.
  visit_peers_nothing :
      (ps : List Discovered) (w : Walk)
      → All (λ p. IsInWindow w.attempts (peer_key_of p)) ps
      → visit_peers s now ps w ≡ w
  unfolding visit_peers visit_peer
  visit_peers_nothing [] w h = refl
  visit_peers_nothing (p ∷ ps) w (h, hs) = rw h (visit_peers_nothing ps w hs)

  -- A second walk over the same peers at the same time contacts no peer and changes nothing, whatever the
  -- peers answered in the first, and whether they are listed once or more often.
  pub visit_peers-visit_peers :
      (ps : List Discovered) (w : Walk)
      → visit_peers s now ps (visit_peers s now ps w) ≡ visit_peers s now ps w
  visit_peers-visit_peers ps w =
      visit_peers_nothing ps (visit_peers s now ps w) (visit_peers-All ps w)
