-- ===== src/Proto/Auth.antt =====
-- crates/krot-proto/src/auth.rs: the challenge and its signature. The operations of the ed25519 crate
-- are parameters: the key that bytes make, if they make one, signing, and the check of a signature.
use krot.Base.{Option, none, some, ◌∷◌, [], ◌++◌, Bytes, Bool, false, text, to_le_bytes}
use krot.Proto.Frames.{Nonce, PubKey, Signature}

abbrev pub auth_domain_separator : Bytes
auth_domain_separator = text "krot-auth-v1" ++ (0 ∷ [])

-- The nonce's 32 bytes behind the separator.
unfoldable pub signing_payload : Nonce → Bytes
signing_payload nonce = auth_domain_separator ++ to_le_bytes 32 nonce

pub record Ed25519 : Type 1 where
  pub SigningKey : Type 0
  pub VerifyingKey : Type 0
  pub sign : SigningKey → Bytes → Signature
  pub from_bytes : PubKey → Option VerifyingKey
  pub verify : VerifyingKey → Bytes → Signature → Bool

module _ (e : Ed25519) where
  unfoldable pub sign_challenge : e.SigningKey → Nonce → Signature
  unfolding signing_payload
  sign_challenge key nonce = e.sign key (signing_payload nonce)

  unfoldable pub verify_challenge : PubKey → Nonce → Signature → Bool
  unfolding signing_payload
  verify_challenge pubkey nonce signature = elim (e.from_bytes pubkey) [
    | none ↦ false
    | some vk ↦ e.verify vk (signing_payload nonce) signature
  ]
