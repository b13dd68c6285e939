-- ===== src/Sync/Reachability/Edges.antt =====
-- The feed of a peer's changes.
use searxng_wth_frnds.Prelude.{
  String, true, false, Option, none, some, List, [], ◌∷◌, ◌++◌, ◌==◌, string_eq, if◌then◌else◌, ◌≡◌,
  refl, ap, ◌∙◌, sym, Bool-cases, inl, inr, ==→eq,
}
use mathlib.Core.List.{append-nil, append_assoc}
use searxng_wth_frnds.Prelude.Dict
use searxng_wth_frnds.Prelude.Dict.{Dict, lookup-insert, lookup-nil}
use searxng_wth_frnds.Sync.Reachability.{
  Status, reachable, unreachable, Event, manifest_fetched, peer_reachable, peer_unreachable, pulled,
  tick, Board, edge_events, record_peer_status,
}

-- A peer is named by its key, and by its URL if it has none.
abbrev pub key_of : String → String → String
key_of peer_pubkey peer_url = if peer_pubkey == "" then peer_url else peer_pubkey

-- What the node saw of a peer.
pub record Observation : Type 0 where
  pub peer_pubkey : String
  pub peer_url : String
  pub status : Status
  pub reason : String

abbrev pub observe : List Observation → Board → Board
observe [] b = b
observe (o ∷ os) b = observe os (
    record_peer_status (key_of o.peer_pubkey o.peer_url) o.status o.peer_url o.peer_pubkey o.reason
      b)

-- The changes of one peer that the events tell.
abbrev pub edges : String → List Event → List Status
edges key [] = []
edges key (peer_reachable pk url ∷ es) =
    let rest = edges key es in if key_of pk url == key then reachable ∷ rest else rest
edges key (peer_unreachable pk url reason ∷ es) =
    let rest = edges key es in if key_of pk url == key then unreachable ∷ rest else rest
edges key (manifest_fetched pk url n ∷ es) = edges key es
edges key (pulled pk url rid ts hash ∷ es) = edges key es
edges key (tick v p a ∷ es) = edges key es

-- What was seen of one peer.
abbrev pub statuses : String → List Observation → List Status
statuses key [] = []
statuses key (o ∷ os) =
    let rest = statuses key os in
    if key_of o.peer_pubkey o.peer_url == key then o.status ∷ rest else rest

-- The changes in a sequence of what was seen: each that differs from the one before; who was never
-- seen counts as reachable.
abbrev pub changes : Status → List Status → List Status
changes last [] = []
changes reachable (reachable ∷ ss) = changes reachable ss
changes reachable (unreachable ∷ ss) = unreachable ∷ changes unreachable ss
changes unreachable (reachable ∷ ss) = reachable ∷ changes reachable ss
changes unreachable (unreachable ∷ ss) = changes unreachable ss

abbrev pub seen : Option Status → Status
seen none = reachable
seen (some s) = s

edges-append :
    (key : String) (es fs : List Event) → edges key (es ++ fs) ≡ edges key es ++ edges key fs
edges-append key [] fs = refl
edges-append key (peer_reachable pk url ∷ es) fs = elim (Bool-cases (key_of pk url == key)) [
  | inl y ↦ rw (y, edges-append key es fs) refl
  | inr n ↦ rw (n, edges-append key es fs) refl
]
edges-append key (peer_unreachable pk url reason ∷ es) fs =
    elim (Bool-cases (key_of pk url == key)) [
      | inl y ↦ rw (y, edges-append key es fs) refl
      | inr n ↦ rw (n, edges-append key es fs) refl
    ]
edges-append key (manifest_fetched pk url n ∷ es) fs = edges-append key es fs
edges-append key (pulled pk url rid ts hash ∷ es) fs = edges-append key es fs
edges-append key (tick v p a ∷ es) fs = edges-append key es fs

-- The event of one observation, of the peer itself and of another.
edges_of_own :
    (key pk url reason : String) (before : Option Status) (s : Status) (ss : List Status)
    → (key_of pk url == key) ≡ true
    → edges key (edge_events before s pk url reason) ++ changes s ss
      ≡ changes (seen before) (s ∷ ss)
edges_of_own key pk url reason (some unreachable) reachable ss y = rw y refl
edges_of_own key pk url reason (some reachable) reachable ss y = refl
edges_of_own key pk url reason none reachable ss y = refl
edges_of_own key pk url reason (some unreachable) unreachable ss y = refl
edges_of_own key pk url reason (some reachable) unreachable ss y = rw y refl
edges_of_own key pk url reason none unreachable ss y = rw y refl

edges_of_other :
    (key pk url reason : String) (before : Option Status) (s : Status)
    → (key_of pk url == key) ≡ false
    → edges key (edge_events before s pk url reason) ≡ []
edges_of_other key pk url reason (some unreachable) reachable n = rw n refl
edges_of_other key pk url reason (some reachable) reachable n = refl
edges_of_other key pk url reason none reachable n = refl
edges_of_other key pk url reason (some unreachable) unreachable n = refl
edges_of_other key pk url reason (some reachable) unreachable n = rw n refl
edges_of_other key pk url reason none unreachable n = rw n refl

-- The first observation, with the rest of the changes behind it.
first_observed :
    (key : String) (o : Observation) (os : List Observation) (b : Board)
    → let this =
        record_peer_status
          (key_of o.peer_pubkey o.peer_url)
          o.status
          o.peer_url
          o.peer_pubkey
          o.reason
          b in
      edges key this.emitted ++ changes (seen (Dict.lookup key this.peer_status)) (statuses key os)
      ≡ edges key b.emitted
        ++ changes (seen (Dict.lookup key b.peer_status)) (statuses key (o ∷ os))
unfolding record_peer_status
first_observed key o os b = elim (Bool-cases (key_of o.peer_pubkey o.peer_url == key)) [
  | inl y ↦
      let same = ==→eq (key_of o.peer_pubkey o.peer_url) key y in
      let before = Dict.lookup (key_of o.peer_pubkey o.peer_url) b.peer_status in
      rw
        (
          lookup-insert (key_of o.peer_pubkey o.peer_url) key o.status b.peer_status,
          y,
          edges-append key b.emitted
              (edge_events before o.status o.peer_pubkey o.peer_url o.reason),
        )
        (append_assoc (edges key b.emitted) _ _
          ∙ ap (λ ss. edges key b.emitted ++ ss)
              (edges_of_own key o.peer_pubkey o.peer_url o.reason before o.status (statuses key os)
                  y
                ∙ ap
                    (λ k. changes (seen (Dict.lookup k b.peer_status)) (o.status ∷ statuses key os))
                    same))
  | inr n ↦
      let before = Dict.lookup (key_of o.peer_pubkey o.peer_url) b.peer_status in
      rw
        (
          lookup-insert (key_of o.peer_pubkey o.peer_url) key o.status b.peer_status,
          n,
          edges-append key b.emitted
              (edge_events before o.status o.peer_pubkey o.peer_url o.reason),
          edges_of_other key o.peer_pubkey o.peer_url o.reason before o.status n,
        )
        (ap (λ ss. ss ++ changes (seen (Dict.lookup key b.peer_status)) (statuses key os))
          (append-nil (edges key b.emitted)))
]

-- The events tell of each peer exactly the changes in what was seen of it, from what the board had: of a
-- peer that was never seen first that it is down, then in turn that it is up and down again; a peer
-- that stays as it is leaves no event.
pub edges-observe :
    (key : String) (os : List Observation) (b : Board)
    → edges key (observe os b).emitted
      ≡ edges key b.emitted ++ changes (seen (Dict.lookup key b.peer_status)) (statuses key os)
unfolding record_peer_status
edges-observe key [] b = sym (append-nil (edges key b.emitted))
edges-observe key (o ∷ os) b =
    let this =
      record_peer_status (key_of o.peer_pubkey o.peer_url) o.status o.peer_url o.peer_pubkey
        o.reason b in
    edges-observe key os this ∙ first_observed key o os b
