-- ===== src/Sync/Samples.antt =====
-- Documents for the tests, with a codec whose hash and signature are constant texts.
use searxng_wth_frnds.Prelude.{String, true, none, List, [], ◌∷◌}
use searxng_wth_frnds.Prelude.Int.{pos}
use searxng_wth_frnds.Prelude.Json.{null, int, str, obj, end, Fields, fields}
use searxng_wth_frnds.Sync.Envelope.{Codec, Envelope, sync_magic, sync_record_kind}
use searxng_wth_frnds.Sync.Store.{Tables, Conn}
use searxng_wth_frnds.Sync.CohortKeys.{no_keys}
use searxng_wth_frnds.Sync.Compare.{refused}
use searxng_wth_frnds.Sync.Pull.{Setting, Round}

abbrev pub digest : String
digest = "0123456789abcdef0123456789abcdef0123456789abcdef0123456789abcdef"

abbrev pub hash : String
hash = "sha256:0123456789abcdef0123456789abcdef0123456789abcdef0123456789abcdef"

abbrev pub key : String
key = "ed25519:0123456789abcdef0123456789abcdef0123456789abcdef0123456789abcdef"

abbrev pub signature : String
signature =
    "0123456789abcdef0123456789abcdef0123456789abcdef0123456789abcdef0123456789abcdef0123456789abcdef0123456789abcdef0123456789abcdef"

abbrev pub codec : Codec
codec = record {
  dumps = λ v. 123 ∷ [];
  sha256_hex = λ bytes. digest;
  ed25519 = λ pub_str sig_hex bytes. true;
  sign = λ bytes. signature;
}

abbrev pub unsigned : Fields
unsigned = fields (
    ("magic", str sync_magic)
    ∷ ("kind", str sync_record_kind)
    ∷ ("record_id", str "ada")
    ∷ ("author_pubkey", str key)
    ∷ ("wall_ts_ms", int (pos 5))
    ∷ ("prev_hash", null)
    ∷ ("content", obj end)
    ∷ ("content_hash", str hash)
    ∷ [])

abbrev pub wire : Fields
wire = fields (
    ("magic", str sync_magic)
    ∷ ("kind", str sync_record_kind)
    ∷ ("record_id", str "ada")
    ∷ ("author_pubkey", str key)
    ∷ ("wall_ts_ms", int (pos 5))
    ∷ ("prev_hash", null)
    ∷ ("content", obj end)
    ∷ ("content_hash", str hash)
    ∷ ("signature", str signature)
    ∷ [])

-- What `wire` reads as, and an older envelope of the record.
abbrev pub envelope : Envelope
envelope = record {
  record_id = "ada";
  author_pubkey = key;
  wall_ts_ms = 5;
  content_hash = hash;
  kind = "person";
  prev_hash = none;
  wire = wire;
}

abbrev pub older : Envelope
older = record {
  record_id = "ada";
  author_pubkey = key;
  wall_ts_ms = 3;
  content_hash = "sha256:f";
  kind = "person";
  prev_hash = none;
  wire = end;
}

abbrev pub tables_of : List Envelope → Tables
tables_of [] = record { records = []; authors = [] }
tables_of (e ∷ es) = record {
  records = record { envelope = e; received_at_ms = 9 } ∷ (tables_of es).records;
  authors = [];
}

abbrev pub conn_of : List Envelope → Conn
conn_of es = record { work = tables_of es; durable = tables_of es }

-- A node that trusts its LAN.
abbrev pub setting : Setting
setting = record {
  codec = codec;
  builtins = record { int_of_text = λ s. none; int_of_float = λ s. refused; repr = λ v. "" };
  cohort_keys = no_keys;
  lan_trust = true;
  clock_skew_ms = 10;
  clock = λ reading. 100;
}

abbrev pub round_with : List Envelope → Round
round_with es = record {
  conn = conn_of es;
  board = record { peer_status = []; emitted = [] };
  readings = 0;
}
