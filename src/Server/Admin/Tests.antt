-- ===== src/Server/Admin/Tests.antt =====
-- Runs of the token store. The hash of a text is the text.
use krot.Base.{
  ℕ, ◌<◌, ◌≡◌, ◌⊎◌, refl, true, some, [], ◌∷◌, Bytes, All, IsByte, ok, err, arith, text,
}
use krot.Server.Error.{admin_token}
use krot.Server.Admin.{
  TokenState, AdminTokenStore, new, issue, consume, constant_time_eq, differences,
}
use krot.Server.Admin.SingleUse.{used, used_once}

abbrev byte_hash : Bytes → Bytes
byte_hash [] = 7 ∷ []
byte_hash (c ∷ s) = 9 ∷ []

abbrev token : TokenState
token = record { hash = 9 ∷ []; expires_at = 600000 }

abbrev store : AdminTokenStore
store = record { state = some token; hash_file = some (9 ∷ []) }

issues : issue byte_hash (λ raw. raw) true (1 ∷ []) 0 new ≡ ok (1 ∷ [], store)
unfolding issue new
issues = refl

refuses_other :
    consume byte_hash [] 5 store ≡ (err (admin_token (text "admin token mismatch")), store)
unfolding consume constant_time_eq differences
refuses_other = refl

hash-IsByte : (s : Bytes) → All IsByte (byte_hash s)
hash-IsByte [] = (omega arith, tt)
hash-IsByte (c ∷ s) = (omega arith, tt)

used_once_example :
    (used byte_hash (([], 4) ∷ (1 ∷ [], 5) ∷ (1 ∷ [], 6) ∷ []) store ≡ [])
    ⊎ ((presented : Bytes) × (now : ℕ) × (used byte_hash
            (([], 4) ∷ (1 ∷ [], 5) ∷ (1 ∷ [], 6) ∷ [])
            store
          ≡ (presented, now) ∷ [])
        × (byte_hash presented ≡ token.hash)
        × (now < token.expires_at))
used_once_example =
    used_once byte_hash (([], 4) ∷ (1 ∷ [], 5) ∷ (1 ∷ [], 6) ∷ []) store token hash-IsByte
      (omega arith, tt) refl

second_only : used byte_hash (([], 4) ∷ (1 ∷ [], 5) ∷ (1 ∷ [], 6) ∷ []) store ≡ (1 ∷ [], 5) ∷ []
unfolding used consume constant_time_eq differences
second_only = refl
