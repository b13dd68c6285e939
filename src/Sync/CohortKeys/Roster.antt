-- ===== src/Sync/CohortKeys/Roster.antt =====
-- The roster that the loader makes: every key is well formed, and handles and keys belong together.
use searxng_wth_frnds.Prelude.{
  ℕ, String, true, false, Option, none, some, List, [], ◌∷◌, ◌++◌, ◌≡◌, refl, ap, ◌∙◌, inl, inr,
  ◌==◌, string_eq, arith, Bool-cases, ==→eq, eq→==, elem, All, All-append_one, if◌then◌else◌, sym,
  In-elem,
}
use searxng_wth_frnds.Prelude.Checks.{both_ways, false_of_not}
use searxng_wth_frnds.Prelude.Dict
use searxng_wth_frnds.Prelude.Dict.{Dict}
use searxng_wth_frnds.Prelude.Json.{Json, Items, str, arr, obj, nil, cons, get?}
use searxng_wth_frnds.Sync.Envelope.{is_pubkey}
use searxng_wth_frnds.Sync.CohortKeys.{
  Files, Loading, nothing_loaded, pubkey_for_handle, find_handle, handle_for_pubkey, is_member,
  is_accepted, add_member, add_values, add_entry, add_entries, members_of, keys_of,
  load_cohort_keys,
}

-- Each handle's key leads back to the handle, and each key has the form of a key.
pub record IsRoster (members : Dict String) : Type 0 where
  pub formed : All (λ m. is_pubkey m.1 ≡ true) members
  pub inverse : (h pk : String) → Dict.lookup h members ≡ some pk → find_handle pk members ≡ some h

record IsLoading (l : Loading) : Type 0 where
  roster : IsRoster l.members
  unseen : (pk : String) → elem pk l.seen_pubkeys ≡ false → find_handle pk l.members ≡ none

insert-new :
    (h pk : String) (d : Dict String)
    → is_member h d ≡ false
    → Dict.insert h pk d ≡ d ++ (h, pk) ∷ []
unfolding Dict.insert
insert-new h pk [] n = refl
insert-new h pk ((j, v) ∷ d) n = elim (Bool-cases (j == h)) [
  | inl y ↦ cc (rw y at n)
  | inr m ↦ rw (m, insert-new h pk d (rw m at n)) refl
]

-- Looking up behind what is there.
lookup-append_one :
    (j h pk : String) (d : Dict String)
    → Dict.lookup j (d ++ (h, pk) ∷ [])
      ≡ elim (Dict.lookup j d) [ none ↦ if h == j then some pk else none | some v ↦ some v ]
unfolding Dict.lookup
lookup-append_one j h pk [] = refl
lookup-append_one j h pk ((i, v) ∷ d) = elim (Bool-cases (i == j)) [
  | inl y ↦ rw y refl
  | inr n ↦ rw (n, lookup-append_one j h pk d) refl
]

find_handle-append_some :
    (pk h0 pk0 h : String) (d : Dict String)
    → find_handle pk d ≡ some h
    → find_handle pk (d ++ (h0, pk0) ∷ []) ≡ some h
unfolding find_handle
find_handle-append_some pk h0 pk0 h [] e = cc
find_handle-append_some pk h0 pk0 h ((i, v) ∷ d) e = elim (Bool-cases (v == pk)) [
  | inl y ↦ rw y (rw y at e)
  | inr n ↦ rw n (find_handle-append_some pk h0 pk0 h d (rw n at e))
]

find_handle-append_none :
    (pk h0 pk0 : String) (d : Dict String)
    → find_handle pk d ≡ none
    → find_handle pk (d ++ (h0, pk0) ∷ []) ≡ (if pk0 == pk then some h0 else none)
unfolding find_handle
find_handle-append_none pk h0 pk0 [] e = refl
find_handle-append_none pk h0 pk0 ((i, v) ∷ d) e = elim (Bool-cases (v == pk)) [
  | inl y ↦ cc (rw y at e)
  | inr n ↦ rw n (find_handle-append_none pk h0 pk0 d (rw n at e))
]

inverse-append :
    (h0 pk0 : String) (d : Dict String)
    → ((h pk : String) → Dict.lookup h d ≡ some pk → find_handle pk d ≡ some h)
    → find_handle pk0 d ≡ none
    → (h pk : String) → Dict.lookup h (d ++ (h0, pk0) ∷ []) ≡ some pk
    → find_handle pk (d ++ (h0, pk0) ∷ []) ≡ some h
inverse-append h0 pk0 d inv fresh h pk e = go (Dict.lookup h d) refl
  where
    go :
        (found : Option String)
        → Dict.lookup h d ≡ found
        → find_handle pk (d ++ (h0, pk0) ∷ []) ≡ some h
    go (some v) p =
        let same : v ≡ pk = cc (rw p at (lookup-append_one h h0 pk0 d)) in
        find_handle-append_some pk h0 pk0 h d (inv h pk (rw same at p))
    go none p = elim (Bool-cases (h0 == h)) [
      | inr n ↦ cc (rw (p, n) at (lookup-append_one h h0 pk0 d))
      | inl y ↦
          let key : pk0 ≡ pk = cc (rw (p, y) at (lookup-append_one h h0 pk0 d)) in
          let back = find_handle-append_none pk h0 pk0 d (rw key at fresh) in
          let this : (if pk0 == pk then some h0 else none) ≡ some h =
            rw (eq→== pk0 pk key) (ap some (==→eq h0 h y)) in
          back ∙ this
    ]

-- The checks of an accepted entry.
accepted-parts :
    (l : Loading) (handle pubkey : String)
    → is_accepted l handle pubkey ≡ true
    → (is_pubkey pubkey ≡ true)
      × (is_member handle l.members ≡ false)
      × (elem pubkey l.seen_pubkeys ≡ false)
unfolding is_accepted
accepted-parts l handle pubkey h = ground arith

unseen-cons :
    (l : Loading) (h0 pk0 : String)
    → IsLoading l
    → (pk : String) → elem pk (pk0 ∷ l.seen_pubkeys) ≡ false
    → find_handle pk (l.members ++ (h0, pk0) ∷ []) ≡ none
unseen-cons l h0 pk0 i pk e =
    let old : elem pk l.seen_pubkeys ≡ false = ground arith in
    let other =
      false_of_not (pk0 == pk)
        (λ y. both_ways e (In-elem pk (pk0 ∷ l.seen_pubkeys) (inl (sym (==→eq pk0 pk y))))) in
    find_handle-append_none pk h0 pk0 l.members (i.unseen pk old) ∙ rw other refl

add_member-IsLoading :
    (l : Loading) (handle pubkey : String) → IsLoading l → IsLoading (add_member l handle pubkey)
unfolding add_member
add_member-IsLoading l handle pubkey i = elim (Bool-cases (is_accepted l handle pubkey)) [
  | inr refused ↦ rw refused i
  | inl accepted ↦
      let (formed, is_new, unseen) = accepted-parts l handle pubkey accepted in
      rw (accepted, insert-new handle pubkey l.members is_new)
        (record {
          roster = record {
            formed = All-append_one _ l.members (handle, pubkey) i.roster.formed formed;
            inverse =
                inverse-append handle pubkey l.members i.roster.inverse (i.unseen pubkey unseen);
          };
          unseen = unseen-cons l handle pubkey i;
        })
]

add_values-IsLoading :
    (l : Loading) (handle pubkey : Option Json)
    → IsLoading l
    → IsLoading (add_values l handle pubkey)
add_values-IsLoading l (some (str h)) (some (str pk)) i = add_member-IsLoading l h pk i
add_values-IsLoading l (some (str h)) _ i = i
add_values-IsLoading l _ _ i = i

add_entry-IsLoading : (l : Loading) (v : Json) → IsLoading l → IsLoading (add_entry l v)
unfolding add_entry
add_entry-IsLoading l (obj entry) i =
    add_values-IsLoading l (get? "handle" entry) (get? "pubkey" entry) i
add_entry-IsLoading l _ i = i

add_entries-IsLoading : (l : Loading) (vs : Items) → IsLoading l → IsLoading (add_entries l vs)
unfolding add_entries
add_entries-IsLoading l nil i = i
add_entries-IsLoading l (cons v vs) i =
    add_entries-IsLoading (add_entry l v) vs (add_entry-IsLoading l v i)

empty-IsRoster : IsRoster []
unfolding Dict.lookup
empty-IsRoster = record { formed = tt; inverse = λ h pk e. cc }

nothing-IsLoading : IsLoading nothing_loaded
unfolding find_handle
nothing-IsLoading = record { roster = empty-IsRoster; unseen = λ pk e. refl }

members_of-IsRoster : (v : Option Json) → IsRoster (members_of v)
unfolding members_of
members_of-IsRoster (some (arr entries)) =
    (add_entries-IsLoading nothing_loaded entries nothing-IsLoading).roster
members_of-IsRoster _ = empty-IsRoster

keys_of-IsRoster :
    (path : String) (t : ℕ) (doc : Option Json) → IsRoster (keys_of path t doc).members
unfolding keys_of
keys_of-IsRoster path t (some (obj raw)) = members_of-IsRoster (get? "members" raw)
keys_of-IsRoster path t _ = empty-IsRoster

pub load_cohort_keys-IsRoster :
    (f : Files) (ps : List String) → IsRoster (load_cohort_keys f ps).members
unfolding load_cohort_keys
load_cohort_keys-IsRoster f [] = empty-IsRoster
load_cohort_keys-IsRoster f (p ∷ ps) = elim (Bool-cases (f.is_file p)) [
  | inl y ↦ rw y (keys_of-IsRoster p _ (f.parse p))
  | inr n ↦ rw n (load_cohort_keys-IsRoster f ps)
]

lookup-is_pubkey :
    (handle pubkey : String) (d : Dict String)
    → All (λ m. is_pubkey m.1 ≡ true) d
    → Dict.lookup handle d ≡ some pubkey
    → is_pubkey pubkey ≡ true
unfolding Dict.lookup
lookup-is_pubkey handle pubkey [] a e = cc
lookup-is_pubkey handle pubkey ((h, pk) ∷ d) (p, ps) e = elim (Bool-cases (h == handle)) [
  | inl y ↦ let same : pk ≡ pubkey = cc (rw y at e) in rw (← same) p
  | inr n ↦ lookup-is_pubkey handle pubkey d ps (rw n at e)
]

-- Whatever the files hold, a handle's key, looked up in what the loader returns, has the form of a key,
-- and leads back to that handle: no two members share a key.
pub handle_for_pubkey-pubkey_for_handle :
    (f : Files) (ps : List String) (handle pubkey : String)
    → pubkey_for_handle (load_cohort_keys f ps) handle ≡ some pubkey
    → (handle_for_pubkey (load_cohort_keys f ps) pubkey ≡ some handle) × (is_pubkey pubkey ≡ true)
unfolding pubkey_for_handle handle_for_pubkey
handle_for_pubkey-pubkey_for_handle f ps handle pubkey e =
    let roster = load_cohort_keys-IsRoster f ps in
    (roster.inverse handle pubkey e, lookup-is_pubkey handle pubkey _ roster.formed e)
