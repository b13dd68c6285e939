-- ===== src/Sync/CohortKeys/Tests.antt =====
-- The loader on a concrete file: two members, one of them twice and one without a handle.
use searxng_wth_frnds.Prelude.{
  ℕ, String, true, none, some, List, [], ◌∷◌, ◌≡◌, refl, ◌==◌, string_eq,
}
use searxng_wth_frnds.Prelude.Json.{Json, null, str, arr, obj, items, fields, get?}
use searxng_wth_frnds.Sync.Envelope.{is_pubkey}
use searxng_wth_frnds.Sync.CohortKeys.{
  Files, pubkey_for_handle, handle_for_pubkey, load_cohort_keys, load_cohort_keys_cached,
}
use searxng_wth_frnds.Sync.CohortKeys.Roster.{IsRoster, handle_for_pubkey-pubkey_for_handle}
use searxng_wth_frnds.Sync.CohortKeys.Reload.{IsServed, IsLoaded, after_calls-IsServed}
use searxng_wth_frnds.Prelude.Dict.{lookup, insert}
use searxng_wth_frnds.Prelude.Text.{matches_prefixed, is_hex}

abbrev ada_key : String
ada_key = "ed25519:0123456789abcdef0123456789abcdef0123456789abcdef0123456789abcdef"

abbrev bob_key : String
bob_key = "ed25519:ffffffffffffffffffffffffffffffffffffffffffffffffffffffffffffffff"

abbrev member : String → String → Json
member handle pubkey = obj (fields (("handle", str handle) ∷ ("pubkey", str pubkey) ∷ []))

abbrev document : Json
document = obj (
    fields (
      ("cohort_id", str "c")
      ∷ (
        "members",
        arr (
            items (
              member "ada" ada_key
              ∷ member "ada" bob_key
              ∷ null
              ∷ member "" bob_key
              ∷ member "bob" bob_key
              ∷ [])),
      )
      ∷ []))

-- The file is there, at a time.
abbrev files_at : ℕ → Files
files_at t = record { is_file = λ p. p == "b"; mtime_ns = λ p. some t; parse = λ p. some document }

abbrev candidates : List String
candidates = "a" ∷ "b" ∷ []

bob_is_found : pubkey_for_handle (load_cohort_keys (files_at 1) candidates) "bob" ≡ some bob_key
unfolding pubkey_for_handle load_cohort_keys lookup get? is_pubkey matches_prefixed is_hex insert
bob_is_found = refl

handle_for_pubkey-pubkey_for_handle_example :
    (handle_for_pubkey (load_cohort_keys (files_at 1) candidates) bob_key ≡ some "bob")
    × (is_pubkey bob_key ≡ true)
handle_for_pubkey-pubkey_for_handle_example =
    handle_for_pubkey-pubkey_for_handle (files_at 1) candidates "bob" bob_key bob_is_found

after_calls-IsServed_example :
    let k =
      load_cohort_keys_cached
        (files_at 2)
        candidates
        (some (load_cohort_keys_cached (files_at 1) candidates none)) in
    IsServed candidates (files_at 2) (files_at 1 ∷ []) k
    × IsLoaded candidates (files_at 2 ∷ files_at 1 ∷ []) k
    × IsRoster k.members
after_calls-IsServed_example =
    after_calls-IsServed candidates (files_at 2) (files_at 1 ∷ [])
      (load_cohort_keys_cached (files_at 2) candidates
        (some (load_cohort_keys_cached (files_at 1) candidates none)))
      refl
