-- ===== src/Server/Handshake/Sound.antt =====
-- What a handshake has checked when it ends.
use krot.Base.{
  ◌≡◌, refl, sym, ap, inl, inr, true, Option, some, Option-cases, [], ◌∷◌, ◌++◌, append_assoc,
  Bytes, get_or, Result, ok, err, Result-cases, arith,
}
use krot.Proto.Auth.{verify_challenge}
use krot.Proto.Frames.{
  PubKey, Signature, ClientFrame, auth_request, auth_response, enroll, register_tunnel,
  unregister_tunnel, ping, bye, list_peers, ServerFrame, auth_challenge, auth_ok,
}
use krot.Proto.Stream.{try_from}
use krot.Transport.Frame.{read_exact, read_frame}
use krot.Server.Error.{ServerError}
use krot.Server.Keys.{AuthorizedEntry}
use krot.Server.Keys.Registry
use krot.Server.Keys.Registry.{KeyRegistry}
use krot.Server.Handshake.{
  HandshakeOk, HandshakeOutcome, auth, enrollment_done, failed, Control, World, with_frame, reply,
  store_identity, handle_enroll, on_response, challenge, handle_auth, on_first, perform,
}
use krot.Server.Handshake.Guarded.{IsGuarded, perform-IsGuarded}

module _ (w : World) where
  -- An identity in the file answered this handshake's nonce with a signature that verifies.
  pub record IsProven (stream : Bytes) (c c' : Control) (h : HandshakeOk) : Type 0 where
    pub signature : Signature
    pub rest : Bytes
    pub known : Registry.get h.pubkey c.keys ≡ some h.entry
    pub response : read_frame w.codec stream ≡ ok (auth_response signature, rest)
    pub verified : verify_challenge w.ed25519 h.pubkey w.nonce signature ≡ true
    pub session : h.session_id ≡ w.session_id
    pub exchange : c'.sent ≡ c.sent ++ (auth_challenge w.nonce ∷ auth_ok w.session_id ∷ [])
    pub keys_kept : c'.keys ≡ c.keys
    pub admin_kept : c'.admin ≡ c.admin

  reply-auth :
      (frame : ServerFrame) (outcome : HandshakeOutcome) (c c' : Control) (h : HandshakeOk)
      → reply w frame outcome c ≡ (ok (auth h), c')
      → (outcome ≡ auth h) × (with_frame frame c ≡ c')
  unfolding reply
  reply-auth frame outcome c c' h e = (ground (arith, e), ground (arith, e))

  -- A response that the server takes.
  on_response-auth :
      (pubkey : PubKey) (entry : AuthorizedEntry) (frame : ClientFrame) (c c' : Control)
      (h : HandshakeOk)
      → on_response w pubkey entry frame c ≡ (ok (auth h), c')
      → (signature : Signature) × (frame ≡ auth_response signature)
        × (verify_challenge w.ed25519 pubkey w.nonce signature ≡ true)
        × (h ≡ record { pubkey = pubkey; session_id = w.session_id; entry = entry })
        × (with_frame (auth_ok w.session_id) c ≡ c')
  unfolding on_response reply
  on_response-auth pubkey entry (auth_response signature) c c' h e =
      (signature, refl, ground (arith, e), ground (arith, e), ground (arith, e))
  on_response-auth pubkey entry (auth_request _) c c' h e = absurd (ground (arith, e))
  on_response-auth pubkey entry (register_tunnel _ _ _ _) c c' h e = absurd (ground (arith, e))
  on_response-auth pubkey entry (unregister_tunnel _) c c' h e = absurd (ground (arith, e))
  on_response-auth pubkey entry (ping _) c c' h e = absurd (ground (arith, e))
  on_response-auth pubkey entry bye c c' h e = absurd (ground (arith, e))
  on_response-auth pubkey entry (enroll _ _ _) c c' h e = absurd (ground (arith, e))
  on_response-auth pubkey entry list_peers c c' h e = absurd (ground (arith, e))

  handle_auth-IsProven :
      (pubkey : PubKey) (stream : Bytes) (c c' : Control) (h : HandshakeOk)
      → handle_auth w pubkey stream c ≡ (ok (auth h), c')
      → (h.pubkey ≡ pubkey) × IsProven stream c c' h
  unfolding handle_auth challenge reply
  handle_auth-IsProven pubkey stream c c' h e = elim (Option-cases (Registry.get pubkey c.keys)) [
    | inl unknown ↦ absurd (ground (arith, e, unknown))
    | inr (entry, known) ↦ elim (Result-cases (read_frame w.codec stream)) [
      | inl (_, broken) ↦ absurd (ground (arith, e, known, broken))
      | inr ((frame, rest), read) ↦
          let asked = with_frame (auth_challenge w.nonce) c in
          let (signature, response, verified, made, sent) =
            on_response-auth pubkey entry frame asked c' h (ground (arith, e, known, read)) in
          (
            ap (λ x. x.pubkey) made,
            record {
              signature = signature;
              rest = rest;
              known = ground (arith, known, made);
              response = ground (arith, read, response);
              verified = ground (arith, verified, made);
              session = ap (λ x. x.session_id) made;
              exchange = ground (
                arith,
                sent,
                append_assoc c.sent (auth_challenge w.nonce ∷ []) (auth_ok w.session_id ∷ []),
              );
              keys_kept = ground (arith, sent);
              admin_kept = ground (arith, sent);
            },
          )
    ]
  ]

  handle_enroll-auth :
      (token : Bytes) (pubkey : PubKey) (label_hint : Option Bytes) (c c' : Control)
      (h : HandshakeOk)
      → handle_enroll w token pubkey label_hint c ≡ (ok (auth h), c')
      → ⊥
  unfolding handle_enroll store_identity reply
  handle_enroll-auth token pubkey label_hint c c' h e = ground (arith, e)

  on_first-IsProven :
      (frame : ClientFrame) (stream : Bytes) (c c' : Control) (h : HandshakeOk)
      → on_first w frame stream c ≡ (ok (auth h), c')
      → (frame ≡ auth_request h.pubkey) × IsProven stream c c' h
  unfolding on_first
  on_first-IsProven (enroll token pubkey label_hint) stream c c' h e =
      absurd (handle_enroll-auth token pubkey label_hint c c' h e)
  on_first-IsProven (auth_request pubkey) stream c c' h e =
      let (same, proven) = handle_auth-IsProven pubkey stream c c' h e in
      (ap auth_request (sym same), proven)
  on_first-IsProven (auth_response _) stream c c' h e = absurd (ground (arith, e))
  on_first-IsProven (register_tunnel _ _ _ _) stream c c' h e = absurd (ground (arith, e))
  on_first-IsProven (unregister_tunnel _) stream c c' h e = absurd (ground (arith, e))
  on_first-IsProven (ping _) stream c c' h e = absurd (ground (arith, e))
  on_first-IsProven bye stream c c' h e = absurd (ground (arith, e))
  on_first-IsProven list_peers stream c c' h e = absurd (ground (arith, e))

  -- The stream that made a session: the byte of a Control stream, the request, and behind it the
  -- proof.
  pub record IsSession (stream : Bytes) (c c' : Control) (h : HandshakeOk) : Type 0 where
    pub kind_byte : Bytes
    pub rest : Bytes
    pub behind : Bytes
    pub opened : read_exact 1 stream ≡ ok (kind_byte, rest)
    pub request : read_frame w.codec rest ≡ ok (auth_request h.pubkey, behind)
    pub proof : IsProven behind c c' h

  -- What must hold of an outcome.
  abbrev pub IsJustified : Bytes → Control → Control → Result ServerError HandshakeOutcome → Type 0
  IsJustified stream c c' (ok (auth h)) = IsSession stream c c' h
  IsJustified stream c c' (ok (enrollment_done _)) = Unit {0}
  IsJustified stream c c' (ok (failed _)) = Unit {0}
  IsJustified stream c c' (err _) = Unit {0}

  perform-IsSession :
      (stream : Bytes) (c c' : Control) (h : HandshakeOk)
      → perform w stream c ≡ (ok (auth h), c')
      → IsSession stream c c' h
  unfolding perform
  perform-IsSession stream c c' h e = elim (Result-cases (read_exact 1 stream)) [
    | inl (_, broken) ↦ absurd (ground (arith, e, broken))
    | inr ((kind_byte, rest), opened) ↦ elim (Result-cases (try_from (get_or kind_byte 0 0))) [
      | inl (_, unknown) ↦ absurd (ground (arith, e, opened, unknown))
      | inr (kind, known) ↦ elim (Result-cases (read_frame w.codec rest)) [
        | inl (_, broken) ↦ absurd (ground (arith, e, opened, known, broken))
        | inr ((frame, behind), read) ↦
            let (request, proof) =
              on_first-IsProven frame behind c c' h (ground (arith, e, opened, known, read)) in
            record {
              kind_byte = kind_byte;
              rest = rest;
              behind = behind;
              opened = opened;
              request = ground (arith, read, request);
              proof = proof;
            }
      ]
    ]
  ]

  -- Whatever bytes a peer sends on its Control stream: a session comes only of a request for an
  -- identity of the file, with that entry, which then answered the nonce of this handshake with a
  -- signature that verifies, the challenge and the confirmation being the frames sent; and the index
  -- of keys changes only if an admin token was used up.
  pub perform-IsJustified :
      (stream : Bytes) (c : Control)
      → let (result, c') = perform w stream c in (IsJustified stream c c' result × IsGuarded w c c')
  perform-IsJustified stream c =
      (justified (perform w stream c).0 (perform w stream c).1 refl, perform-IsGuarded w stream c)
    where
      justified :
          (result : Result ServerError HandshakeOutcome) (c' : Control)
          → perform w stream c ≡ (result, c')
          → IsJustified stream c c' result
      justified (ok (auth h)) c' e = perform-IsSession stream c c' h e
      justified (ok (enrollment_done _)) c' e = tt
      justified (ok (failed _)) c' e = tt
      justified (err _) c' e = tt
