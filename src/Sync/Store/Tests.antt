-- ===== src/Sync/Store/Tests.antt =====
-- The record store on concrete envelopes, and its theorems there. The node of the tests knows the
-- authors a and b, and a signature is right if it names its author.
use searxng_wth_frnds.Prelude.{
  String, true, false, none, some, List, [], ◌∷◌, ◌≡◌, ◌≢◌, refl, ◌⊎◌, ◌||◌, ◌==◌, string_eq, eq→==,
}
use searxng_wth_frnds.Sync.Envelope.{Envelope, text_or_empty}
use searxng_wth_frnds.Prelude.Json.{str, fields, get?}
use searxng_wth_frnds.Sync.Store.{
  Row, Conn, reopen, record_id_owned_by_other_author, signature_invalid, Node, pinned_author_row,
  apply_envelope, latest_envelope,
}
use searxng_wth_frnds.Sync.Store.Gates.{Refused, Accepted, apply_envelope-cases}
use searxng_wth_frnds.Sync.Store.Author.{pin_of, Forgery, Forgery-apply_envelope}
use searxng_wth_frnds.Sync.Store.Latest.{IsLatest, latest_envelope-IsLatest}
use searxng_wth_frnds.Sync.Store.Pins.{IsSoundConn}
use searxng_wth_frnds.Sync.Store.History.{arrives, reopens, steps, steps-IsSoundConn}

abbrev node : Node
node = record {
  shape_error = λ env. none;
  verify_envelope_signature = λ env. text_or_empty (get? "signature" env.wire) == env.author_pubkey;
  is_known_pubkey = λ author. author == "a" || author == "b";
  lan_trust = false;
  now_ms = 100;
  clock_skew_ms = 10;
}

abbrev envelope : String → String → String → Envelope
envelope author hash signature = record {
  record_id = "r";
  author_pubkey = author;
  wall_ts_ms = 100;
  content_hash = hash;
  kind = "note";
  prev_hash = none;
  wire = fields (("signature", str signature) ∷ []);
}

abbrev fresh : Conn
fresh = record {
  work = record { records = []; authors = [] };
  durable = record { records = []; authors = [] };
}

fresh-IsSoundConn : IsSoundConn node fresh
fresh-IsSoundConn = record {
  work = record { verified = tt; single = tt };
  durable = record { verified = tt; single = tt };
}

abbrev after_one : Conn
after_one = (apply_envelope node (envelope "a" "h1" "a") fresh).1

-- A second application of the first envelope after a later one of the same chain position is a fork again.
abbrev sibling_applied : Conn
sibling_applied = (apply_envelope node (envelope "a" "h2" "a") after_one).1

replay_forks : (apply_envelope node (envelope "a" "h1" "a") sibling_applied).0.fork_detected ≡ true
unfolding apply_envelope pinned_author_row get?
replay_forks = refl

forgery : Forgery node (envelope "b" "h1" "forged") fresh
unfolding pinned_author_row get?
forgery = record { shaped = refl; known = refl; unpinned = refl; unverified = refl }

apply_envelope-cases_example :
    Refused after_one (apply_envelope node (envelope "b" "h2" "b") after_one)
    ⊎ Accepted node
        (envelope "b" "h2" "b")
        after_one
        (apply_envelope node (envelope "b" "h2" "b") after_one)
apply_envelope-cases_example = apply_envelope-cases node (envelope "b" "h2" "b") after_one

Forgery-apply_envelope_example :
    ((apply_envelope node (envelope "b" "h1" "forged") fresh).0.reason ≡ signature_invalid)
    × ((apply_envelope node
          (envelope "a" "h2" "a")
          (apply_envelope node (envelope "b" "h1" "forged") fresh).1).0.reason
        ≡ record_id_owned_by_other_author)
    × (pinned_author_row "r"
          (reopen
            (apply_envelope node
              (envelope "a" "h2" "a")
              (apply_envelope node (envelope "b" "h1" "forged") fresh).1).1).work.authors
        ≡ some (pin_of (envelope "b" "h1" "forged") 100))
Forgery-apply_envelope_example =
    Forgery-apply_envelope node (envelope "b" "h1" "forged") (envelope "a" "h2" "a") fresh refl
      forgery refl refl refl b_not_a
  where
    b_not_a : (envelope "b" "h1" "forged").author_pubkey ≢ (envelope "a" "h2" "a").author_pubkey
    b_not_a e = cc (eq→== "b" "a" e)

steps-IsSoundConn_example : IsSoundConn node (
    steps node
      (arrives 100 (envelope "b" "h1" "forged")
        ∷ reopens
        ∷ arrives 101 (envelope "a" "h2" "a")
        ∷ arrives 102 (envelope "b" "h3" "b")
        ∷ [])
      fresh)
steps-IsSoundConn_example =
    steps-IsSoundConn node
      (arrives 100 (envelope "b" "h1" "forged")
        ∷ reopens
        ∷ arrives 101 (envelope "a" "h2" "a")
        ∷ arrives 102 (envelope "b" "h3" "b")
        ∷ [])
      fresh refl fresh-IsSoundConn

abbrev rows : List Row
rows =
    record { envelope = envelope "a" "h2" "a"; received_at_ms = 5 }
    ∷ record { envelope = envelope "a" "h1" "a"; received_at_ms = 9 }
    ∷ []

larger_hash_wins : latest_envelope "r" rows ≡ some (envelope "a" "h2" "a")
unfolding latest_envelope
larger_hash_wins = refl

latest_envelope-IsLatest_example : IsLatest "r" rows (latest_envelope "r" rows)
latest_envelope-IsLatest_example = latest_envelope-IsLatest "r" rows
