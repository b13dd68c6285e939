-- ===== src/Sync/Envelope/Shape.antt =====
-- What `validate_shape` accepts.
use searxng_wth_frnds.Prelude.{
  ℕ, ◌≤◌, String, Bool, true, false, Option, none, some, ◌≡◌, string_eq, arith, length, ltb, ==→eq,
}
use searxng_wth_frnds.Prelude.Json.{Json, Fields, str, obj, get?}
use searxng_wth_frnds.Prelude.Checks.{first_raised-none, unnegate}
use searxng_wth_frnds.Sync.Envelope.{
  Codec, Envelope, read, canonicalize, content_hash, content_depth, is_record_id, is_pubkey,
  is_sha256, text_that, null_or_text, value_or_null, validate_fields, validate_shape, text_or_empty,
  sync_record_kind, text_or_none,
}

-- The predecessor is none, or a hash.
abbrev pub HasPredecessor : Option String → Type 0
HasPredecessor none = Unit
HasPredecessor (some h) = is_sha256 h ≡ true

-- What the store may rely on of an envelope that it has read.
pub record IsWellFormed (c : Codec) (e : Envelope) : Type 0 where
  pub kind : e.kind ≡ sync_record_kind
  pub record_id : is_record_id e.record_id ≡ true
  pub author : is_pubkey e.author_pubkey ≡ true
  pub predecessor : HasPredecessor e.prev_hash
  pub hash : is_sha256 e.content_hash ≡ true
  pub hashed : e.content_hash ≡ content_hash c (value_or_null (get? "content" e.wire))
  pub shallow : content_depth 0 (value_or_null (get? "content" e.wire)) ≤ 8
  pub small : length (canonicalize c true e.wire) ≤ 65536

text_that-text :
    (test : String → Bool) (v : Option Json)
    → text_that test v ≡ true
    → test (text_or_empty v) ≡ true
text_that-text test (some (str s)) h = h
text_that-text test _ h = cc

null_or_text-HasPredecessor :
    (v : Option Json) → null_or_text is_sha256 v ≡ true → HasPredecessor (text_or_none v)
null_or_text-HasPredecessor (some (str s)) h = h
null_or_text-HasPredecessor _ h = tt

at_most : (m n : ℕ) → ltb m n ≡ false → n ≤ m
at_most m n h = ground arith

-- An envelope of the right shape is read as a well-formed one: the one kind, texts of the record's, the
-- author's and the hashes' patterns, the hash that its content has, at most eight levels deep, and at most
-- 64 KiB of signed bytes.
pub validate_shape-IsWellFormed :
    (c : Codec) (wire : Fields) → validate_shape c (obj wire) ≡ none → IsWellFormed c (read wire)
unfolding validate_shape validate_fields read
validate_shape-IsWellFormed c wire h =
    let r0 = first_raised-none _ h in
    let (keys, r1) = r0 in
    let (magic, r2) = r1 in
    let (kind_text, r3) = r2 in
    let (kind, r4) = r3 in
    let (record_id, r5) = r4 in
    let (author, r6) = r5 in
    let (time, r7) = r6 in
    let (prev, r8) = r7 in
    let (container, r9) = r8 in
    let (depth, r10) = r9 in
    let (hash, r11) = r10 in
    let (signature, r12) = r11 in
    let (size, r13) = r12 in
    let (hashed, r14) = r13 in
    record {
      kind = ==→eq _ _ (text_that-text _ (get? "kind" wire) (unnegate kind));
      record_id = text_that-text _ (get? "record_id" wire) (unnegate record_id);
      author = text_that-text _ (get? "author_pubkey" wire) (unnegate author);
      predecessor = null_or_text-HasPredecessor (get? "prev_hash" wire) (unnegate prev);
      hash = text_that-text _ (get? "content_hash" wire) (unnegate hash);
      hashed = ==→eq _ _ (text_that-text _ (get? "content_hash" wire) (unnegate hashed));
      shallow = at_most _ _ depth;
      small = at_most _ _ size;
    }
