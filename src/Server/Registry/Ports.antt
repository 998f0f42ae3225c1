-- ===== src/Server/Registry/Ports.antt =====
-- The search for a port of the pool.
use krot.Base.{
  nat_eq, ℕ, zero, suc, ◌+◌, ◌-◌, ◌≤◌, ◌<◌, ◌≡◌, ◌↔◌, true, false, Option, none, some, List,
  Option-cases, Bool-cases, inl, inr, arith,
}
use krot.Base.HashSet.{HashSet}
use krot.Server.Registry.{is_free_port, find_port, pick_free_port}

-- A port is the first free one of those from `from` to `to`.
pub record IsFirstFree (from to : ℕ) (used : HashSet ℕ) (allowlist : Option (List ℕ)) (port : ℕ)
    : Type 0 where
  pub above : from ≤ port
  pub below : port ≤ to
  pub free : is_free_port used allowlist port ≡ true
  pub first : (q : ℕ) → from ≤ q → q < port → is_free_port used allowlist q ≡ false

module _ (used : HashSet ℕ) (allowlist : Option (List ℕ)) where
  find_port-finds :
      (n p : ℕ) (port : ℕ)
      → find_port n p used allowlist ≡ some port
      → (p ≤ port)
        × (port < p + n)
        × (is_free_port used allowlist port ≡ true)
        × ((q : ℕ) → p ≤ q → q < port → is_free_port used allowlist q ≡ false)
  unfolding find_port
  find_port-finds zero p port e = cc
  find_port-finds (suc n) p port e = elim (Bool-cases (is_free_port used allowlist p)) [
    | inl f ↦ (ground arith, ground arith, ground arith, λ q l h. absurd (ground arith))
    | inr f ↦
        let (l, h, free, first) = find_port-finds n (p + 1) port (ground arith) in
        (omega arith, omega arith, free, λ q l' h'. ground (arith, first q))
  ]

  find_port-fails :
      (n p q : ℕ)
      → find_port n p used allowlist ≡ none
      → p ≤ q
      → q < p + n
      → is_free_port used allowlist q ≡ false
  unfolding find_port
  find_port-fails zero p q e l h = absurd (omega arith)
  find_port-fails (suc n) p q e l h = ground (arith, find_port-fails n (p + 1) q)

-- `pick_free_port` answers with a port exactly when it is the first of the pool that is not in use
-- and, if there is an allowlist, on it; it answers with none exactly when no port of the pool is
-- so.
pub pick_free_port_exact :
    (pool_start pool_end : ℕ) (used : HashSet ℕ) (allowlist : Option (List ℕ))
    → ((port : ℕ)
        → (pick_free_port pool_start pool_end used allowlist ≡ some port)
          ↔ IsFirstFree pool_start pool_end used allowlist port)
      × ((pick_free_port pool_start pool_end used allowlist ≡ none)
          ↔ ((q : ℕ) → pool_start ≤ q → q ≤ pool_end → is_free_port used allowlist q ≡ false))
unfolding pick_free_port
pick_free_port_exact pool_start pool_end used allowlist =
    (λ port. (found port, answers port), (λ e q l h. fails e q l h, none_free))
  where
    found :
        (port : ℕ)
        → find_port (pool_end + 1 - pool_start) pool_start used allowlist ≡ some port
        → IsFirstFree pool_start pool_end used allowlist port
    found port e =
        let (l, h, free, first) = find_port-finds used allowlist _ pool_start port e in
        record { above = l; below = omega arith; free = free; first = first }

    fails :
        find_port (pool_end + 1 - pool_start) pool_start used allowlist ≡ none
        → (q : ℕ) → pool_start ≤ q
        → q ≤ pool_end
        → is_free_port used allowlist q ≡ false
    fails e q l h = find_port-fails used allowlist _ pool_start q e l (omega arith)

    answers :
        (port : ℕ)
        → IsFirstFree pool_start pool_end used allowlist port
        → find_port (pool_end + 1 - pool_start) pool_start used allowlist ≡ some port
    answers port f =
        elim (Option-cases (find_port (pool_end + 1 - pool_start) pool_start used allowlist)) [
          | inl e ↦ absurd (cc (fails e port f.above f.below, f.free))
          | inr (q, e) ↦ ground (arith, found q e, (found q e).first port, f.first q)
        ]

    none_free :
        ((q : ℕ) → pool_start ≤ q → q ≤ pool_end → is_free_port used allowlist q ≡ false)
        → find_port (pool_end + 1 - pool_start) pool_start used allowlist ≡ none
    none_free h =
        elim (Option-cases (find_port (pool_end + 1 - pool_start) pool_start used allowlist)) [
          | inl e ↦ e
          | inr (q, e) ↦ let f = found q e in absurd (cc (h q f.above f.below, f.free))
        ]
