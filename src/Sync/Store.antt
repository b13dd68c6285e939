-- ===== src/Sync/Store.antt =====
-- src/swf/sync/store.py: `apply_envelope` over the two tables, with the connection's open transaction.
-- A connection has the tables as its own statements see them, and the tables as they are on the disk:
-- a commit makes the second the first, and closing without one forgets the first. `ensure_schema`
-- commits. The shape check, the signature check and the
-- cohort are fields of `Node`; `node_of` fills them with those of `envelope.py` and `cohort_keys.py`.
pub mod Author
pub mod Gates
pub mod Pins
pub mod History
pub mod Latest
pub mod Genuine
pub mod Advance
mod Tests
use Prim.Native.Char.{code}
use searxng_wth_frnds.Prelude.{
  ℕ, ◌+◌, String, Bool, true, false, Option, none, some, List, [], ◌∷◌, ◌++◌, ◌&&◌, ◌||◌, not, ◌==◌,
  nat_eq, string_eq, option_eq, any, keep, map, is_empty, if◌then◌else◌, ltb,
}
use searxng_wth_frnds.Sync.Envelope.{
  Codec, Envelope, ShapeError, validate_shape, verify_envelope_signature,
}
use searxng_wth_frnds.Sync.CohortKeys.{CohortKeys, is_known_pubkey}
use searxng_wth_frnds.Prelude.Json.{obj}

-- A row of `sync_records`; the envelope stands for its columns and its JSON.
pub record Row : Type 0 where
  pub envelope : Envelope
  pub received_at_ms : ℕ

-- A row of `sync_record_authors`.
pub record AuthorRow : Type 0 where
  pub record_id : String
  pub author_pubkey : String
  pub pinned_at_ms : ℕ
  pub forked : Bool

pub record Tables : Type 0 where
  pub records : List Row
  pub authors : List AuthorRow

pub record Conn : Type 0 where
  pub work : Tables
  pub durable : Tables

abbrev pub commit : Conn → Conn
commit c = record { work = c.work; durable = c.work }

-- A connection that is closed, and opened again.
abbrev pub reopen : Conn → Conn
reopen c = record { work = c.durable; durable = c.durable }

pub data Reason : Type 0 where
  shape : ShapeError → Reason
  author_not_in_cohort record_id_owned_by_other_author signature_invalid : Reason
  clock_too_far_ahead applied : Reason

pub record ApplyResult : Type 0 where
  pub reason : Reason
  pub was_new : Bool
  pub became_latest : Bool
  pub fork_detected : Bool

abbrev rejected : Reason → ApplyResult
rejected reason = record {
  reason = reason;
  was_new = false;
  became_latest = false;
  fork_detected = false;
}

-- What a node brings to a call. `shape_error` is the reason of `validate_shape`, none if the shape is right.
pub record Node : Type 0 where
  pub shape_error : Envelope → Option ShapeError
  pub verify_envelope_signature : Envelope → Bool
  pub is_known_pubkey : String → Bool
  pub lan_trust : Bool
  pub now_ms : ℕ
  pub clock_skew_ms : ℕ

-- The node that runs the checks of `envelope.py` with a codec, and knows a cohort.
abbrev pub node_of : Codec → CohortKeys → Bool → ℕ → ℕ → Node
node_of c cohort_keys lan_trust now_ms clock_skew_ms = record {
  shape_error = λ env. validate_shape c (obj env.wire);
  verify_envelope_signature = λ env. verify_envelope_signature c (some env.author_pubkey) env.wire;
  is_known_pubkey = λ pubkey. is_known_pubkey cohort_keys pubkey;
  lan_trust = lan_trust;
  now_ms = now_ms;
  clock_skew_ms = clock_skew_ms;
}

unfoldable pub pinned_author_row : String → List AuthorRow → Option AuthorRow
pinned_author_row record_id [] = none
pinned_author_row record_id (a ∷ as') =
    let rest = pinned_author_row record_id as' in if a.record_id == record_id then some a else rest

-- `_pin_author`, an `INSERT OR IGNORE`.
unfoldable pub pin_author : Envelope → ℕ → List AuthorRow → List AuthorRow
pin_author env now_ms as' =
    if any (λ a. a.record_id == env.record_id) as'
    then as'
    else as'
      ++ (record {
        record_id = env.record_id;
        author_pubkey = env.author_pubkey;
        pinned_at_ms = now_ms;
        forked = false;
      })
        ∷ []

-- `_mark_forked` and `_clear_fork`.
unfoldable pub set_forked : Bool → String → List AuthorRow → List AuthorRow
set_forked flag record_id as' =
    map (λ a. if a.record_id == record_id then record a { forked = flag } else a) as'

-- The order of texts by their code points.
abbrev pub text_ltb : String → String → Bool
text_ltb String.[] String.[] = false
text_ltb String.[] (String.◌∷◌ d t) = true
text_ltb (String.◌∷◌ c s) String.[] = false
text_ltb (String.◌∷◌ c s) (String.◌∷◌ d t) =
    ltb (code c) (code d) || (code c == code d && text_ltb s t)

-- Whether a row comes before another by `wall_ts_ms DESC, content_hash DESC`.
abbrev pub newer : Envelope → Envelope → Bool
newer a b =
    ltb b.wall_ts_ms a.wall_ts_ms
    || (a.wall_ts_ms == b.wall_ts_ms && text_ltb b.content_hash a.content_hash)

abbrev pub keep_newer : Envelope → Option Envelope → Option Envelope
keep_newer e none = some e
keep_newer e (some best) = if newer best e then some best else some e

-- The first row of a record in that order.
unfoldable pub latest_envelope : String → List Row → Option Envelope
latest_envelope record_id [] = none
latest_envelope record_id (r ∷ rs) =
    let rest = latest_envelope record_id rs in
    if r.envelope.record_id == record_id then keep_newer r.envelope rest else rest

abbrev pub is_row : Envelope → Row → Bool
is_row env r = r.envelope.record_id == env.record_id && r.envelope.content_hash == env.content_hash

-- `INSERT OR IGNORE INTO sync_records`.
unfoldable pub insert_record : Envelope → ℕ → List Row → List Row
insert_record env now_ms rows =
    if any (is_row env) rows
    then rows
    else rows ++ record { envelope = env; received_at_ms = now_ms } ∷ []

-- A row with the same record, author and predecessor, and another content.
abbrev pub is_fork_of : Envelope → Row → Bool
is_fork_of env r =
    r.envelope.record_id == env.record_id
    && r.envelope.author_pubkey == env.author_pubkey
    && r.envelope.prev_hash == env.prev_hash
    && not (r.envelope.content_hash == env.content_hash)

abbrev is_latest : Envelope → Option Envelope → Bool
is_latest env none = false
is_latest env (some top) = top.content_hash == env.content_hash && top.wall_ts_ms == env.wall_ts_ms

module _ (node : Node) (env : Envelope) where
  -- the fork flag after the insert
  unfoldable pub update_fork : Bool → Bool → Bool → List AuthorRow → List AuthorRow
  unfolding set_forked
  update_fork fork_detected was_new was_forked as' =
      if fork_detected
      then set_forked true env.record_id as'
      else if was_new && was_forked
      then set_forked false env.record_id as'
      else as'

  -- steps 7 to 9
  unfoldable pub store_envelope : Bool → Conn → ApplyResult × Conn
  unfolding update_fork insert_record latest_envelope
  store_envelope was_forked c =
      let fork = not node.lan_trust && any (is_fork_of env) c.work.records in
      let was_new = not (any (is_row env) c.work.records) in
      let records = insert_record env node.now_ms c.work.records in
      (
        record {
          reason = applied;
          was_new = was_new;
          became_latest = was_new && is_latest env (latest_envelope env.record_id records);
          fork_detected = fork;
        },
        commit (record c {
          work = record {
            records = records;
            authors = update_fork fork was_new was_forked c.work.authors;
          };
        }),
      )

  -- steps 4 to 6
  unfoldable pub check_signed : Bool → Conn → ApplyResult × Conn
  unfolding store_envelope
  check_signed was_forked c =
      if not (node.verify_envelope_signature env)
      then (rejected signature_invalid, c)
      else if ltb (node.now_ms + node.clock_skew_ms) env.wall_ts_ms
      then (rejected clock_too_far_ahead, c)
      else store_envelope was_forked c

  -- step 3
  unfoldable pub check_pin : Option AuthorRow → Conn → ApplyResult × Conn
  unfolding check_signed pin_author
  check_pin none c = check_signed false (record c {
    work = record { records = c.work.records; authors = pin_author env node.now_ms c.work.authors };
  })
  check_pin (some pinned) c =
      if not (pinned.author_pubkey == env.author_pubkey) && not node.lan_trust
      then (rejected record_id_owned_by_other_author, c)
      else check_signed pinned.forked c

  unfoldable pub check_author : Conn → ApplyResult × Conn
  unfolding check_pin
  check_author c =
      if not node.lan_trust && not (node.is_known_pubkey env.author_pubkey)
      then (rejected author_not_in_cohort, c)
      else check_pin (pinned_author_row env.record_id c.work.authors) (commit c)

  -- step 1
  unfoldable pub check_shape : Option ShapeError → Conn → ApplyResult × Conn
  unfolding check_author
  check_shape (some reason) c = (rejected (shape reason), c)
  check_shape none c = check_author c

  unfoldable pub apply_envelope : Conn → ApplyResult × Conn
  unfolding check_shape
  apply_envelope c = check_shape (node.shape_error env) c
