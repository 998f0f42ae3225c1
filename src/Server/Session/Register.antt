-- ===== src/Server/Session/Register.antt =====
-- What a registration of an HTTP tunnel grants, and what a refusal leaves.
use krot.Base.{
  nat_eq, text_eq, ℕ, ◌≡◌, Bool, true, false, none, some, List, [], ◌∷◌, ◌++◌, Bytes, text,
}
use krot.Base.Map
use krot.Base.HashSet
use krot.Proto.Frames.{TunnelId, tunnel_registered, tunnel_rejected}
use krot.Server.PeerLookup.{clear, conflict, check_collision}
use krot.Proto.Error as code
use krot.Server.Registry.{TunnelRegistry, resolve_label}
use krot.Server.Registry.Label.{is_valid_label}
use krot.Server.Session.{ip, domain, Session, Outside, Effect, candidate_peers, is_permitted}

-- The registration is refused: one frame says so, and the table is as it was.
pub record Refused (r : TunnelRegistry) (e : Effect) : Type 0 where
  pub code : ℕ
  pub detail : Bytes
  pub told : e.sent ≡ tunnel_rejected code detail ∷ []
  pub unchanged : e.registry ≡ r

module _ (o : Outside) (s : Session) (r : TunnelRegistry) (label : Bytes) (inspect : Bool) where
  -- Why a registration is refused: the first test that fails, with its own code and text.
  pub data HttpRefusal : ℕ → Bytes → Type 0 where
    no_domain :
        (public_host : Bytes)
        → s.mode ≡ ip public_host
        → HttpRefusal code.http_not_available (text "server is in IpMode")
    invalid :
        is_valid_label label ≡ false
        → HttpRefusal code.label_invalid (text "does not match DNS label grammar")
    forbidden :
        is_valid_label label ≡ true
        → is_permitted s.entry label ≡ false
        → HttpRefusal code.label_forbidden
            (text "`" ++ label ++ text "` not permitted for this identity")
    elsewhere :
        (peer : Bytes)
        → is_valid_label label ≡ true
        → is_permitted s.entry label ≡ true
        → check_collision s.peer_lookup label s.pubkey
            (candidate_peers s.peer_list s.entry.federation)
          ≡ conflict peer
        → HttpRefusal code.label_unavailable (
            text "`"
            ++ label
            ++ text "` already registered on peer "
            ++ peer
            ++ text " by a different identity")
    taken :
        (matched_peers : List Bytes)
        → is_valid_label label ≡ true
        → is_permitted s.entry label ≡ true
        → check_collision s.peer_lookup label s.pubkey
            (candidate_peers s.peer_list s.entry.federation)
          ≡ clear matched_peers
        → HashSet.contains label r.used_labels ≡ true
        → HttpRefusal code.label_unavailable (text "`" ++ label ++ text "` is taken")

  pub record HttpRefused (e : Effect) : Type 0 where
    pub code : ℕ
    pub detail : Bytes
    pub why : HttpRefusal code detail
    pub told : e.sent ≡ tunnel_rejected code detail ∷ []
    pub unchanged : e.registry ≡ r

  -- The registration is granted.
  pub record HttpGranted (e : Effect) : Type 0 where
    pub apex : Bytes
    pub id : TunnelId
    pub in_domain : s.mode ≡ domain apex
    pub valid : is_valid_label label ≡ true
    pub permitted : is_permitted s.entry label ≡ true
    pub matched_peers : List Bytes
    pub no_conflict :
        check_collision s.peer_lookup label s.pubkey
          (candidate_peers s.peer_list s.entry.federation)
        ≡ clear matched_peers
    pub was_free : HashSet.contains label r.used_labels ≡ false
    pub now_held : HashSet.contains label e.registry.used_labels ≡ true
    pub told :
        e.sent ≡ tunnel_registered id (text "https://" ++ label ++ text "." ++ apex) none ∷ []
    pub routes :
        resolve_label e.registry label
        ≡ some (record { id = id; connection = s.connection; rate = s.rate; inspect = inspect })
