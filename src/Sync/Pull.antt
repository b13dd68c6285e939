-- ===== src/Sync/Pull.antt =====
-- src/swf/sync/sync_loop.py: `sync_with_peer`, the comparison of two manifests and the pull of what a
-- peer has newer. What a peer answers is a parameter, and any JSON.
pub mod Safe
pub mod Leads
pub mod CatchUp
mod Tests
use Prim.Native.Char.{code}
use searxng_wth_frnds.Prelude.{
  ℕ, suc, ◌+◌, ◌-◌, String, Bool, true, false, Option, none, some, List, [], ◌∷◌, ◌&&◌, ◌||◌, not,
  ◌==◌, nat_eq, string_eq, is_empty, if◌then◌else◌, ltb,
}
use searxng_wth_frnds.Prelude.Dict
use searxng_wth_frnds.Prelude.Dict.{Dict}
use searxng_wth_frnds.Prelude.Int.{ℤ, pos, negsuc}
use searxng_wth_frnds.Prelude.Json.{
  Json, Items, Fields, null, bool, int, float, str, arr, obj, nil, cons, end, field, get?, truthy,
}
use searxng_wth_frnds.Sync.CohortKeys.{CohortKeys}
use searxng_wth_frnds.Sync.Envelope.{Codec, Envelope, read}
use searxng_wth_frnds.Sync.Store.{
  Conn, ApplyResult, Reason, applied, text_ltb, apply_envelope, node_of, commit,
}
use searxng_wth_frnds.Sync.Manifest.{Meta, build_manifest, manifest_hash}
use searxng_wth_frnds.Sync.Compare.{Builtins, is_text, Decision, skip, pull, crash, decide}
use searxng_wth_frnds.Sync.Reachability.{
  Status, reachable, unreachable, Event, manifest_fetched, pulled, Board, emit, record_peer_status,
}

-- What a peer answers, none for a failed fetch: its manifest, and a record's page for `since` and `limit`.
pub record Peer : Type 0 where
  pub manifest : Option Json
  pub page : String → ℕ → ℕ → Option Json

-- What a round has: the connection, the board of the peers, and how often the clock was read.
pub record Round : Type 0 where
  pub conn : Conn
  pub board : Board
  pub readings : ℕ

-- The counts of a call: records pulled and envelopes applied.
pub record Counts : Type 0 where
  pub pulled : ℕ
  pub applied : ℕ

pub data Outcome : Type 0 where
  returned : Counts → Round → Outcome
  raised : Round → Outcome

abbrev pub and_then : Outcome → (Counts → Round → Outcome) → Outcome
and_then (returned c r) next = next c r
and_then (raised r) next = raised r

-- What does not change in a round. `clock` gives the time of each reading, in milliseconds.
pub record Setting : Type 0 where
  pub codec : Codec
  pub builtins : Builtins
  pub cohort_keys : CohortKeys
  pub lan_trust : Bool
  pub clock_skew_ms : ℕ
  pub clock : ℕ → ℕ

-- `apply_envelope` of a document, at the time of the clock.
abbrev pub apply_at : Setting → Fields → Round → ApplyResult × Conn
apply_at s wire r =
    apply_envelope (node_of s.codec s.cohort_keys s.lan_trust (s.clock r.readings) s.clock_skew_ms)
      (read wire) r.conn

abbrev pub is_applied : Reason → Bool
is_applied applied = true
is_applied _ = false

-- The event of an envelope that is new; it passed the checks, so its fields are what `read` reads.
abbrev pulled_event : String → String → String → Envelope → Event
pulled_event peer_label base record_id e =
    pulled peer_label base record_id e.wall_ts_ms e.content_hash

module _ (s : Setting) (peer : Peer) (base peer_label : String) (record_limit : ℕ) where
  -- one envelope of a page, with the count so far
  unfoldable pub pull_envelope : String → Json → Counts → Round → Counts × Round
  pull_envelope record_id (obj wire) c r =
      let result = apply_at s wire r in
      let after = record r { conn = result.1; readings = suc r.readings } in
      if is_applied result.0.reason && result.0.was_new
      then (
        record c { applied = suc c.applied },
        record after { board = emit (pulled_event peer_label base record_id (read wire)) r.board },
      )
      else (c, after)
  pull_envelope record_id v c r = (c, r)

  unfoldable pub pull_envelopes : String → Items → Counts → Round → Counts × Round
  unfolding pull_envelope
  pull_envelopes record_id nil c r = (c, r)
  pull_envelopes record_id (cons v vs) c r =
      let here = pull_envelope record_id v c r in pull_envelopes record_id vs here.0 here.1

  abbrev pub pull_values : String → Option Json → Counts → Round → Counts × Round
  pull_values record_id (some (arr vs)) c r =
      pull_envelopes record_id vs (record c { pulled = suc c.pulled }) r
  pull_values record_id v c r = (c, r)

  unfoldable pub pull_page : String → Option Json → Counts → Round → Counts × Round
  unfolding pull_envelopes
  pull_page record_id (some (obj page)) c r = pull_values record_id (get? "envelopes" page) c r
  pull_page record_id v c r = (c, r)

  unfoldable pub pull_decided : String → Decision → Counts → Round → Outcome
  unfolding pull_page
  pull_decided record_id skip c r = returned c r
  pull_decided record_id crash c r = raised r
  pull_decided record_id (pull since_ms) c r =
      let here = pull_page record_id (peer.page record_id since_ms record_limit) c r in
      returned here.0 here.1

  -- the loop over the peer's records, with the local manifest as it was before
  unfoldable pub pull_records : Dict Meta → Fields → Counts → Round → Outcome
  unfolding pull_decided decide
  pull_records local_records end c r = returned c r
  pull_records local_records (field record_id (obj remote_meta) d) c r =
      and_then
        (pull_decided record_id
          (decide s.builtins (Dict.lookup record_id local_records) remote_meta) c r)
        (λ c' r'. pull_records local_records d c' r')
  pull_records local_records (field record_id v d) c r = pull_records local_records d c r

-- `len(d)`.
unfoldable pub count : Fields → ℕ
count end = 0
count (field k v d) = suc (count d)

-- `url.rstrip("/")`.
abbrev pub strip_slashes : String → String
strip_slashes String.[] = ""
strip_slashes (String.◌∷◌ c s) =
    let rest = strip_slashes s in if code c == 47 && rest == "" then "" else String.◌∷◌ c rest

-- `text or other`.
abbrev pub text_or : Option String → String → String
text_or none other = other
text_or (some t) other = if t == "" then other else t

abbrev pub none_pulled : Counts
none_pulled = record { pulled = 0; applied = 0 }

-- `remote.get("manifest_hash") and remote["manifest_hash"] == ...`.
abbrev pub has_hash : Option Json → String → Bool
has_hash none t = false
has_hash (some v) t = truthy v && is_text (some v) t

module _ (s : Setting) (peer : Peer) (base peer_key peer_label : String) (record_limit : ℕ) where
  abbrev fails : String → Round → Outcome
  fails reason r =
      returned none_pulled (record r {
        board = record_peer_status peer_key unreachable base peer_label reason r.board;
      })

  -- the events of a fetched manifest, and `ensure_schema`, which commits
  abbrev pub hear : Fields → Round → Round
  hear remote_records r =
      let fetched = emit (manifest_fetched peer_label base (count remote_records)) r.board in
      record r {
        conn = commit r.conn;
        board = record_peer_status peer_key reachable base peer_label "unreachable" fetched;
      }

  -- the diff of the manifests, unless their hashes agree
  unfoldable pub pull_diff : Fields → Fields → Round → Outcome
  unfolding build_manifest pull_records
  pull_diff remote remote_records r =
      let local_records = build_manifest r.conn.work in
      if has_hash (get? "manifest_hash" remote) (manifest_hash s.codec local_records)
      then returned none_pulled r
      else pull_records s peer base peer_label record_limit local_records remote_records none_pulled
          r

  abbrev pub with_records : Fields → Option Json → Round → Outcome
  with_records remote (some (obj remote_records)) r =
      pull_diff remote remote_records (hear remote_records r)
  with_records remote v r = fails "malformed_manifest" r

  unfoldable pub with_manifest : Option Json → Round → Outcome
  unfolding pull_diff
  with_manifest (some (obj remote)) r = with_records remote (get? "records" remote) r
  with_manifest v r = fails "manifest_fetch_failed" r

-- `sync_with_peer`, with the cohort that its caller gives it.
unfoldable pub sync_with_peer : Setting → Peer → String → Option String → ℕ → Round → Outcome
unfolding with_manifest
sync_with_peer s peer peer_url peer_pubkey record_limit r =
    let base = strip_slashes peer_url in
    if is_empty s.cohort_keys.members && not s.lan_trust
    then returned none_pulled r
    else with_manifest s peer base (text_or peer_pubkey base) (text_or peer_pubkey "") record_limit
        peer.manifest r
