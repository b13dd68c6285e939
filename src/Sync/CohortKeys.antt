-- ===== src/Sync/CohortKeys.antt =====
-- src/swf/sync/cohort_keys.py: the file of the cohort's keys, its loader, and the cache over it. The files
-- are a parameter: what is a file, its time, and what `json.loads` makes of it.
pub mod Roster
pub mod Reload
mod Tests
use searxng_wth_frnds.Prelude.{
  ℕ, String, Bool, true, false, Option, none, some, List, [], ◌∷◌, ◌&&◌, ◌||◌, not, ◌==◌, nat_eq,
  string_eq, elem, any, is_empty, if◌then◌else◌,
}
use searxng_wth_frnds.Prelude.Dict
use searxng_wth_frnds.Prelude.Dict.{Dict}
use searxng_wth_frnds.Prelude.Json.{
  Json, Items, Fields, null, bool, int, float, str, arr, obj, nil, cons, get?,
}
use searxng_wth_frnds.Sync.Envelope.{is_pubkey}

pub record CohortKeys : Type 0 where
  pub members : Dict String
  pub cohort_id : String
  pub path : Option String
  pub mtime_ns : ℕ

abbrev pub no_keys : CohortKeys
no_keys = record { members = []; cohort_id = ""; path = none; mtime_ns = 0 }

-- `pubkey in self.pubkeys`.
unfoldable pub is_known_pubkey : CohortKeys → String → Bool
is_known_pubkey k pubkey = any (λ m. m.1 == pubkey) k.members

unfoldable pub pubkey_for_handle : CohortKeys → String → Option String
pubkey_for_handle k handle = Dict.lookup handle k.members

-- `handle_for_pubkey`, over the entries in their order.
unfoldable pub find_handle : String → Dict String → Option String
find_handle pubkey [] = none
find_handle pubkey ((h, pk) ∷ d) = if pk == pubkey then some h else find_handle pubkey d

unfoldable pub handle_for_pubkey : CohortKeys → String → Option String
unfolding find_handle
handle_for_pubkey k pubkey = find_handle pubkey k.members

-- What the loop over the entries has: the members, and the keys that it has seen.
pub record Loading : Type 0 where
  pub members : Dict String
  pub seen_pubkeys : List String

abbrev is_member : String → Dict String → Bool
is_member handle members = any (λ m. m.0 == handle) members

-- The checks of an entry with two texts.
unfoldable pub is_accepted : Loading → String → String → Bool
is_accepted l handle pubkey =
    not (handle == "")
    && is_pubkey pubkey
    && not (is_member handle l.members)
    && not (elem pubkey l.seen_pubkeys)

unfoldable pub add_member : Loading → String → String → Loading
unfolding is_accepted
add_member l handle pubkey =
    if is_accepted l handle pubkey
    then record {
      members = Dict.insert handle pubkey l.members;
      seen_pubkeys = pubkey ∷ l.seen_pubkeys;
    }
    else l

abbrev pub add_values : Loading → Option Json → Option Json → Loading
add_values l (some (str handle)) (some (str pubkey)) = add_member l handle pubkey
add_values l _ _ = l

unfoldable pub add_entry : Loading → Json → Loading
unfolding add_member
add_entry l (obj entry) = add_values l (get? "handle" entry) (get? "pubkey" entry)
add_entry l _ = l

unfoldable pub add_entries : Loading → Items → Loading
unfolding add_entry
add_entries l nil = l
add_entries l (cons v vs) = add_entries (add_entry l v) vs

abbrev pub nothing_loaded : Loading
nothing_loaded = record { members = []; seen_pubkeys = [] }

abbrev cohort_id_of : Option Json → String
cohort_id_of (some (str id)) = id
cohort_id_of _ = ""

-- The `members` of a document, none if they are no list.
unfoldable pub members_of : Option Json → Dict String
unfolding add_entries
members_of (some (arr entries)) = (add_entries nothing_loaded entries).members
members_of _ = []

-- What is made of the document of a file.
unfoldable pub keys_of : String → ℕ → Option Json → CohortKeys
unfolding members_of
keys_of path mtime_ns (some (obj raw)) = record {
  members = members_of (get? "members" raw);
  cohort_id = cohort_id_of (get? "cohort_id" raw);
  path = some path;
  mtime_ns = mtime_ns;
}
keys_of path mtime_ns _ = record {
  members = [];
  cohort_id = "";
  path = some path;
  mtime_ns = mtime_ns;
}

pub record Files : Type 0 where
  pub is_file : String → Bool
  pub mtime_ns : String → Option ℕ
  pub parse : String → Option Json

abbrev time_or_zero : Option ℕ → ℕ
time_or_zero none = 0
time_or_zero (some t) = t

-- `load_cohort_keys`, over the candidate paths in their order.
unfoldable pub load_cohort_keys : Files → List String → CohortKeys
unfolding keys_of
load_cohort_keys f [] = no_keys
load_cohort_keys f (p ∷ ps) =
    let rest = load_cohort_keys f ps in
    if f.is_file p then keys_of p (time_or_zero (f.mtime_ns p)) (f.parse p) else rest

abbrev differs : Option ℕ → ℕ → Bool
differs none t = false
differs (some new_mtime) t = not (new_mtime == t)

-- Whether the loaded keys are out of date: no file was found and one is there now, or the file's time
-- is another; a file that is gone leaves the keys as they are.
unfoldable pub is_stale : Files → List String → CohortKeys → Bool
is_stale f candidates cached = elim cached.path [
  | none ↦ any f.is_file candidates
  | some p ↦ differs (f.mtime_ns p) cached.mtime_ns
]

-- `load_cohort_keys_cached`: the cache after the call, which is also what it returns.
unfoldable pub load_cohort_keys_cached : Files → List String → Option CohortKeys → CohortKeys
unfolding load_cohort_keys is_stale
load_cohort_keys_cached f candidates none = load_cohort_keys f candidates
load_cohort_keys_cached f candidates (some cached) =
    if is_stale f candidates cached then load_cohort_keys f candidates else cached
