-- ===== src/Server/Admin/SingleUse.antt =====
-- A token is good once, and only the one that was issued.
use Prim.Native.Nat.{bit_xor}
use krot.Base.{
  ℕ, ◌<◌, ◌⊎◌, ◌≡◌, ◌↔◌, refl, ap, inl, inr, ◌==◌, ==_iff, leb, bit_or, true, false, Bool-cases,
  none, some, List, [], ◌∷◌, Bytes, length, All, IsByte, ok, err, arith,
}
use krot.Base.Xor.{xor_bytes, or_bytes}
use krot.Server.Admin.{TokenState, AdminTokenStore, differences, constant_time_eq, consume, cleared}

differences_iff :
    (acc : ℕ) (a b : Bytes)
    → IsByte acc
    → All IsByte a
    → All IsByte b
    → length a ≡ length b
    → (differences acc a b ≡ 0) ↔ ((acc ≡ 0) × (a ≡ b))
unfolding differences
differences_iff acc [] [] h ha hb e = (λ z. (z, refl), λ z. z.0)
differences_iff acc [] (y ∷ b) h ha hb e = absurd (omega (arith, e))
differences_iff acc (x ∷ a) [] h ha hb e = absurd (omega (arith, e))
differences_iff acc (x ∷ a) (y ∷ b) h ha hb e =
    let (xor, small) = xor_bytes x y ha.0 hb.0 in
    let (both, small') = or_bytes acc (bit_xor x y) h small in
    let rest = differences_iff (bit_or acc (bit_xor x y)) a b small' ha.1 hb.1 (omega (arith, e)) in
    (
      λ z.
          let (none_yet, same) = rest.0 z in
          let (start, here) = both.0 none_yet in (start, ground (arith, xor.0 here, same)),
      λ z. rest.1 (both.1 (z.0, xor.1 (ground (arith, z))), ground (arith, z)),
    )

-- The comparison without early exit decides equality.
pub constant_time_eq_iff :
    (a b : Bytes) → All IsByte a → All IsByte b → (constant_time_eq a b ≡ true) ↔ (a ≡ b)
unfolding constant_time_eq
constant_time_eq_iff a b ha hb = elim (Bool-cases (length a == length b)) [
  | inr other ↦ (λ h. absurd (ground (arith, h, other)), λ h. absurd (unequal other h))
  | inl same ↦
      let (to, from) =
        differences_iff 0 a b (omega arith) ha hb ((==_iff (length a) (length b)).0 same) in
      (λ h. (to (ground (arith, h, same))).1, λ h. ground (arith, same, from (refl, h)))
]
  where
    unequal : (length a == length b) ≡ false → a ≡ b → ⊥
    unequal other h = ground (arith, ap length h, other)

-- The attempts, each a token and its time, that succeed one after the other.
unfoldable pub used : (hash : Bytes → Bytes) → List (Bytes × ℕ) → AdminTokenStore → List (Bytes × ℕ)
unfolding consume
used hash [] store = []
used hash ((presented, now) ∷ attempts) store =
    let (result, store') = consume hash presented now store in
    let rest = used hash attempts store' in
    elim result [ ok _ ↦ (presented, now) ∷ rest | err _ ↦ rest ]

used-none :
    (hash : Bytes → Bytes) (attempts : List (Bytes × ℕ)) (store : AdminTokenStore)
    → store.state ≡ none
    → used hash attempts store ≡ []
unfolding used consume
used-none hash [] store h = refl
used-none hash ((presented, now) ∷ attempts) store h =
    ground (arith, h, used-none hash attempts store h)

-- Of all attempts on a store, in whatever order, at most one succeeds: one before the token's end,
-- that presents a text of the token's hash.
pub used_once :
    (hash : Bytes → Bytes) (attempts : List (Bytes × ℕ)) (store : AdminTokenStore)
    (token : TokenState)
    → ((text : Bytes) → All IsByte (hash text))
    → All IsByte token.hash
    → store.state ≡ some token
    → (used hash attempts store ≡ [])
      ⊎ ((presented : Bytes) × (now : ℕ) × (used hash attempts store ≡ (presented, now) ∷ [])
          × (hash presented ≡ token.hash)
          × (now < token.expires_at))
unfolding used consume
used_once hash [] store token bytes token_bytes h = inl refl
used_once hash ((presented, now) ∷ attempts) store token bytes token_bytes h =
    let gone = used-none hash attempts cleared refl in
    elim (Bool-cases (leb token.expires_at now)) [
      | inl late ↦ inl (ground (arith, h, late, gone))
      | inr early ↦ elim (Bool-cases (constant_time_eq (hash presented) token.hash)) [
        | inl equal ↦ inr (
          presented,
          now,
          ground (arith, h, early, equal, gone),
          (constant_time_eq_iff (hash presented) token.hash (bytes presented) token_bytes).0 equal,
          ground (arith, early),
        )
        | inr other ↦ elim (used_once hash attempts store token bytes token_bytes h) [
          | inl none_used ↦ inl (ground (arith, h, early, other, none_used))
          | inr (p, t, one, same, in_time) ↦
              inr (p, t, ground (arith, h, early, other, one), same, in_time)
        ]
      ]
    ]
