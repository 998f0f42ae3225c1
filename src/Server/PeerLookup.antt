-- ===== src/Server/PeerLookup.antt =====
-- crates/krot-server/src/peer_lookup.rs: is a label held elsewhere by another identity? The oracle
-- `PeerLabelLookup` is a parameter.
pub mod Verdict
mod Tests
use krot.Base.{◌==◌, ◌≡◌, refl, ◌⊎◌, inl, inr, if◌then◌else◌, List, [], ◌∷◌, ◌++◌, Bytes}
use krot.Proto.Frames.{PubKey}

pub data PeerLookupOutcome : Type 0 where
  not_found : PeerLookupOutcome
  found : PubKey → PeerLookupOutcome
  unavailable : PeerLookupOutcome

pub data CollisionCheck : Type 0 where
  clear : (matched_peers : List Bytes) → CollisionCheck
  conflict : (first_conflict : Bytes) → CollisionCheck

pub CollisionCheck-cases :
    (c : CollisionCheck)
    → ((peer : Bytes) × (c ≡ conflict peer)) ⊎ ((matched : List Bytes) × (c ≡ clear matched))
CollisionCheck-cases (clear matched) = inr (matched, refl)
CollisionCheck-cases (conflict peer) = inl (peer, refl)

abbrev pub Lookup : Type 0
Lookup = Bytes → Bytes → PeerLookupOutcome

module _ (lookup : Lookup) (label : Bytes) (self_pubkey : PubKey) where
  -- `matched` holds the peers pushed so far.
  unfoldable pub collision_loop : List Bytes → List Bytes → CollisionCheck
  collision_loop [] matched = clear matched
  collision_loop (peer ∷ peers) matched =
      let rest = collision_loop peers matched in
      let rest_matched = collision_loop peers (matched ++ (peer ∷ [])) in
      elim (lookup peer label) [
        | not_found ↦ rest
        | unavailable ↦ rest
        | found owner ↦ if owner == self_pubkey then rest_matched else conflict peer
      ]

  unfoldable pub check_collision : List Bytes → CollisionCheck
  unfolding collision_loop
  check_collision peers = collision_loop peers []
