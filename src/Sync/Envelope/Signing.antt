-- ===== src/Sync/Envelope/Signing.antt =====
-- Signing and verifying agree.
use searxng_wth_frnds.Prelude.{
  ℕ, String, true, false, none, some, List, ◌≡◌, refl, ap, ◌∙◌, ◌==◌, string_eq, ==_refl,
}
use searxng_wth_frnds.Prelude.Json.{
  Json, Fields, str, obj, get?, set, get?-set_self, get?-set_other, drop_key-set,
}
use searxng_wth_frnds.Sync.Envelope.{
  Codec, canonicalize, is_signature, is_pubkey, verify_texts, verify_envelope_signature,
  sign_envelope,
}

-- What Ed25519 promises of the key pair of an author: a signature is 64 bytes, and verifies.
pub record IsKeyPair (c : Codec) (pubkey : String) : Type 0 where
  pub formed : (m : List ℕ) → is_signature (c.sign m) ≡ true
  pub verifies : (m : List ℕ) → c.ed25519 pubkey (c.sign m) m ≡ true

-- The signed bytes do not depend on the signature that is put in.
pub canonicalize-set :
    (c : Codec) (v : Json) (env : Fields)
    → canonicalize c true (set "signature" v env) ≡ canonicalize c true env
unfolding canonicalize
canonicalize-set c v env = ap (λ d. c.dumps (obj d)) (drop_key-set "signature" v env)

other_key : (◌==◌ {A = String} "signature" "author_pubkey") ≡ false
other_key = refl

-- An envelope that its author signs and puts the signature into verifies, with and without the pin of its
-- author's key.
pub verify_envelope_signature-sign_envelope :
    (c : Codec) (pubkey : String) (env : Fields)
    → IsKeyPair c pubkey
    → is_pubkey pubkey ≡ true
    → get? "author_pubkey" env ≡ some (str pubkey)
    → let signed = set "signature" (str (sign_envelope c env)) env in
      (verify_envelope_signature c none signed ≡ true)
      × (verify_envelope_signature c (some pubkey) signed ≡ true)
unfolding verify_envelope_signature verify_texts sign_envelope
verify_envelope_signature-sign_envelope c pubkey env pair formed authored =
    let m = canonicalize c true env in
    let sig : Json = str (c.sign m) in
    let author = get?-set_other "author_pubkey" "signature" sig env other_key ∙ authored in
    (
      rw
          (
            get?-set_self "signature" sig env,
            author,
            canonicalize-set c sig env,
            pair.formed m,
            formed,
            pair.verifies m,
          )
          refl,
      rw
          (
            get?-set_self "signature" sig env,
            author,
            canonicalize-set c sig env,
            pair.formed m,
            formed,
            pair.verifies m,
            ==_refl pubkey,
          )
          refl,
    )
