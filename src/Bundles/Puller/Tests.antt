-- ===== src/Bundles/Puller/Tests.antt =====
-- A pull of a page with a bundle, a copy of it, and something that is no bundle.
use searxng_wth_frnds.Prelude.{
  ℕ, true, none, some, [], ◌∷◌, ◌≡◌, refl, ◌⊎◌, ◌==◌, string_eq, if◌then◌else◌,
}
use searxng_wth_frnds.Prelude.Int.{pos}
use searxng_wth_frnds.Prelude.Json.{
  Json, null, int, float, str, arr, obj, items, fields, get?, has_key,
}
use searxng_wth_frnds.Sync.Samples.{codec, key, signature}
use searxng_wth_frnds.Sync.Compare.{Builtins, refused, overflowed}
use searxng_wth_frnds.Bundles.Envelope.{
  Tools, bundle_magic, validate_shape, verify_bundle_signature,
}
use searxng_wth_frnds.Bundles.Verify.{Rosters}
use searxng_wth_frnds.Bundles.Puller.{
  Pulling, Fetched, answers, Outcome, returned, raised, pull_from_peer,
}
use searxng_wth_frnds.Bundles.Puller.Progress.{Grows, Breaks}
use searxng_wth_frnds.Bundles.Puller.Returns.{pull_from_peer-Grows}
use searxng_wth_frnds.Prelude.Dict.{lookup}
use searxng_wth_frnds.Prelude.Checks.{first_raised}
use searxng_wth_frnds.Sync.Envelope.{is_pubkey, is_signature}
use searxng_wth_frnds.Prelude.Text.{matches_prefixed, is_hex}
use searxng_wth_frnds.Bundles.Store.{latest_version, integer_end}

abbrev tools : Tools
tools = record { codec = codec; decodes = λ s. true }

abbrev rosters : Rosters
rosters = record { alchemists = key ∷ []; reservoir = none }

abbrev bundle_at : ℕ → Json
bundle_at version = obj (
    fields (
      ("magic", str bundle_magic)
      ∷ ("kind", str "cohort.surface")
      ∷ ("record_id", str "ada")
      ∷ ("version", int (pos version))
      ∷ ("author", obj (fields (("pubkey", str key) ∷ ("signed_at", str "2026-01-01") ∷ [])))
      ∷ ("encryption", null)
      ∷ ("payload", str "")
      ∷ ("signature", str signature)
      ∷ []))

abbrev bundle : Json
bundle = bundle_at 3

-- A version that SQLite cannot store.
abbrev too_late : Json
too_late = bundle_at integer_end

abbrev page : ℕ → Fetched
page since = answers (
    some (
      obj (
        fields (
          ("bundles", arr (items (bundle ∷ bundle ∷ too_late ∷ null ∷ [])))
          ∷ ("next_received_since", int (pos 7))
          ∷ []))))

-- The next cursor of every page is infinite.
abbrev endless : ℕ → Fetched
endless since = answers (
    some
      (obj (fields (("bundles", arr (items [])) ∷ ("next_received_since", float "Infinity") ∷ []))))

abbrev builtins : Builtins
builtins = record {
  int_of_text = λ s. none;
  int_of_float = λ s. if s == "Infinity" then overflowed else refused;
  repr = λ v. "";
}

abbrev empty : Pulling
empty = record { rows = []; high_water = []; stored = 0 }

abbrev stored_of : Outcome → ℕ
stored_of (returned q) = q.stored
stored_of raised = 0

one_is_stored : stored_of (pull_from_peer tools rosters builtins "p" 100 page 3 empty) ≡ 1
unfolding pull_from_peer get? lookup validate_shape first_raised has_key is_pubkey matches_prefixed
    is_hex is_signature verify_bundle_signature latest_version
one_is_stored = refl

infinite_raises : pull_from_peer tools rosters builtins "p" 100 endless 3 empty ≡ raised
unfolding pull_from_peer get? lookup
infinite_raises = refl

pull_from_peer-Grows_example :
    ((q : Pulling) × (pull_from_peer tools rosters builtins "p" 100 page 3 empty ≡ returned q)
      × Grows tools rosters "p" empty q)
    ⊎ ((pull_from_peer tools rosters builtins "p" 100 page 3 empty ≡ raised)
        × Breaks tools rosters "p" builtins 100 page)
pull_from_peer-Grows_example = pull_from_peer-Grows tools rosters builtins "p" 100 page 3 empty
