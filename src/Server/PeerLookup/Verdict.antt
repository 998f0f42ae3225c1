-- ===== src/Server/PeerLookup/Verdict.antt =====
-- The walk over the peers against what it looks for.
use krot.Base.{
  ◌==◌, ◌≡◌, refl, sym, ap, ◌∙◌, not, if◌then◌else◌, Bool, false, Bool-cases, inl, inr, Option,
  none, some, List, [], ◌∷◌, ◌++◌, append-nil, append_assoc, Bytes,
}
use krot.Proto.Frames.{PubKey}
use krot.Server.PeerLookup.{
  PeerLookupOutcome, not_found, found, unavailable, CollisionCheck, clear, conflict, Lookup,
  collision_loop, check_collision,
}

-- The first element that passes a test, and all that do.
unfoldable pub first_where : (Bytes → Bool) → List Bytes → Option Bytes
first_where p [] = none
first_where p (x ∷ xs) = let rest = first_where p xs in if p x then some x else rest

unfoldable pub all_where : (Bytes → Bool) → List Bytes → List Bytes
all_where p [] = []
all_where p (x ∷ xs) = let rest = all_where p xs in if p x then x ∷ rest else rest

-- Does a peer say that another identity, or this one, has the label?
abbrev pub held_by_other : PubKey → PeerLookupOutcome → Bool
held_by_other self not_found = false
held_by_other self unavailable = false
held_by_other self (found owner) = not (owner == self)

abbrev pub held_by_self : PubKey → PeerLookupOutcome → Bool
held_by_self self not_found = false
held_by_self self unavailable = false
held_by_self self (found owner) = owner == self

abbrev pub verdict : Option Bytes → List Bytes → CollisionCheck
verdict none matched = clear matched
verdict (some peer) matched = conflict peer

module _ (lookup : Lookup) (label : Bytes) (self_pubkey : PubKey) where
  abbrev pub others : List Bytes → Option Bytes
  others peers = first_where (λ peer. held_by_other self_pubkey (lookup peer label)) peers

  abbrev pub own : List Bytes → List Bytes
  own peers = all_where (λ peer. held_by_self self_pubkey (lookup peer label)) peers

  collision_loop_lem :
      (peers matched : List Bytes)
      → collision_loop lookup label self_pubkey peers matched
        ≡ verdict (others peers) (matched ++ own peers)
  unfolding collision_loop first_where all_where
  collision_loop_lem [] matched = ap clear (sym (append-nil matched))
  collision_loop_lem (peer ∷ peers) matched =
      go (lookup peer label) (λ m. collision_loop_lem peers m)
    where
      go :
          (outcome : PeerLookupOutcome)
          → ((m : List Bytes)
              → collision_loop lookup label self_pubkey peers m
                ≡ verdict (others peers) (m ++ own peers))
          → (elim outcome [
            | not_found ↦ collision_loop lookup label self_pubkey peers matched
            | unavailable ↦ collision_loop lookup label self_pubkey peers matched
            | found owner ↦
                if owner == self_pubkey
                then collision_loop lookup label self_pubkey peers (matched ++ (peer ∷ []))
                else conflict peer
          ])
            ≡ verdict (if held_by_other self_pubkey outcome then some peer else others peers) (
                matched
                ++ (if held_by_self self_pubkey outcome then peer ∷ own peers else own peers))
      go not_found rest = rest matched
      go unavailable rest = rest matched
      go (found owner) rest = elim (Bool-cases (owner == self_pubkey)) [
        | inl same ↦ rw same (
            rest (matched ++ (peer ∷ []))
            ∙ ap (verdict (others peers)) (append_assoc matched (peer ∷ []) (own peers)))
        | inr other ↦ rw other refl
      ]

  -- The check answers with the first peer that says another identity has the label; if none does,
  -- it clears the label with exactly the peers that say this identity has it, in order. Peers that
  -- do not answer count for neither.
  pub check_collision_exact :
      (peers : List Bytes)
      → check_collision lookup label self_pubkey peers ≡ verdict (others peers) (own peers)
  unfolding check_collision
  check_collision_exact peers = collision_loop_lem peers []
