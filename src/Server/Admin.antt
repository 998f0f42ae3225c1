-- ===== src/Server/Admin.antt =====
-- crates/krot-server/src/admin.rs: the one-time tokens. The hash of the blake3 crate and the encoding
-- of the base32 crate are parameters; the random bytes, the clock and the disk are arguments.
pub mod SingleUse
mod Tests
use Prim.Native.Nat.{bit_xor}
use krot.Base.{
  ℕ, ◌+◌, ◌==◌, leb, not, bit_or, if◌then◌else◌, Bool, true, false, Option, none, some, List, [],
  ◌∷◌, Bytes, text, length, Result, ok, err,
}
use krot.Proto.Consts.{admin_token_ttl}
use krot.Server.Error.{ServerError, admin_token, io}

pub record TokenState : Type 0 where
  pub hash : Bytes
  pub expires_at : ℕ

-- `hash_file` is what stands in the file of the hash.
pub record AdminTokenStore : Type 0 where
  pub state : Option TokenState
  pub hash_file : Option Bytes

unfoldable pub new : AdminTokenStore
new = record { state = none; hash_file = none }

-- The loop over the pairs of bytes.
unfoldable pub differences : ℕ → Bytes → Bytes → ℕ
differences acc [] b = acc
differences acc (x ∷ a) [] = acc
differences acc (x ∷ a) (y ∷ b) = differences (bit_or acc (bit_xor x y)) a b

unfoldable pub constant_time_eq : Bytes → Bytes → Bool
unfolding differences
constant_time_eq a b = if not (length a == length b) then false else differences 0 a b == 0

-- The store without its token. Removing the file is taken to succeed.
abbrev pub cleared : AdminTokenStore
cleared = record { state = none; hash_file = none }

module _ (hash : Bytes → Bytes) where
  -- The token, and the store that has it. The hash is written before the state.
  unfoldable pub issue :
      (encode : Bytes → Bytes) (disk : Bool) (raw : Bytes) (now : ℕ)
      → AdminTokenStore
      → Result ServerError (Bytes × AdminTokenStore)
  issue encode disk raw now store =
      let token = encode raw in
      if disk
      then ok (
        token,
        record {
          state = some (record { hash = hash token; expires_at = now + admin_token_ttl });
          hash_file = some (hash token);
        },
      )
      else err io

  -- The clock is read at `now`.
  unfoldable pub consume :
      (presented : Bytes) (now : ℕ)
      → AdminTokenStore
      → Result ServerError (Unit {0}) × AdminTokenStore
  unfolding constant_time_eq
  consume presented now store = elim store.state [
    | none ↦ (err (admin_token (text "no admin token issued")), store)
    | some state ↦
        if leb state.expires_at now
        then (err (admin_token (text "admin token expired")), cleared)
        else if not (constant_time_eq (hash presented) state.hash)
        then (err (admin_token (text "admin token mismatch")), store)
        else (ok tt, cleared)
  ]

abbrev pub is_active : AdminTokenStore → Bool
is_active store = elim store.state [ none ↦ false | some state ↦ true ]
