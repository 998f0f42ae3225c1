-- ===== src/Server/Handshake/Guarded.antt =====
-- What a handshake does to the index of keys.
use krot.Base.{
  ◌≡◌, ◌⊎◌, inl, inr, Bool-cases, Option, Option-cases, Bytes, get_or, ok, Result-cases, arith,
}
use krot.Proto.Frames.{
  PubKey, ClientFrame, auth_request, auth_response, enroll, register_tunnel, unregister_tunnel,
  ping, bye, list_peers, ServerFrame, auth_challenge,
}
use krot.Proto.Stream.{is_control, try_from}
use krot.Transport.Frame.{read_exact, read_frame}
use krot.Server.Keys.{AuthorizedEntry}
use krot.Server.Keys.Registry
use krot.Server.Keys.Registry.{KeyRegistry}
use krot.Server.Admin.{consume}
use krot.Server.Handshake.{
  HandshakeOutcome, Control, World, with_frame, reply, store_identity, handle_enroll, on_response,
  challenge, handle_auth, on_first, perform,
}

module _ (w : World) where
  -- The index of keys is as it was, or a token was used up for it.
  abbrev pub IsGuarded : Control → Control → Type 0
  IsGuarded c c' =
      (c'.keys ≡ c.keys)
      ⊎ ((token : Bytes) × (consume w.hash token w.now c.admin ≡ (ok tt, c'.admin)))

  reply-stores :
      (frame : ServerFrame) (outcome : HandshakeOutcome) (c : Control)
      → ((reply w frame outcome c).1.keys ≡ c.keys) × ((reply w frame outcome c).1.admin ≡ c.admin)
  unfolding reply
  reply-stores frame outcome c = (ground arith, ground arith)

  on_response-keys :
      (pubkey : PubKey) (entry : AuthorizedEntry) (frame : ClientFrame) (c : Control)
      → (on_response w pubkey entry frame c).1.keys ≡ c.keys
  unfolding on_response reply
  on_response-keys pubkey entry (auth_response signature) c = ground arith
  on_response-keys pubkey entry (auth_request _) c = ground arith
  on_response-keys pubkey entry (register_tunnel _ _ _ _) c = ground arith
  on_response-keys pubkey entry (unregister_tunnel _) c = ground arith
  on_response-keys pubkey entry (ping _) c = ground arith
  on_response-keys pubkey entry bye c = ground arith
  on_response-keys pubkey entry (enroll _ _ _) c = ground arith
  on_response-keys pubkey entry list_peers c = ground arith

  handle_auth-keys :
      (pubkey : PubKey) (stream : Bytes) (c : Control)
      → (handle_auth w pubkey stream c).1.keys ≡ c.keys
  unfolding handle_auth challenge reply
  handle_auth-keys pubkey stream c = elim (Option-cases (Registry.get pubkey c.keys)) [
    | inl unknown ↦ ground (arith, unknown)
    | inr (entry, known) ↦ elim (Result-cases (read_frame w.codec stream)) [
      | inl (_, broken) ↦ ground (arith, known, broken)
      | inr ((frame, rest), read) ↦ ground (
        arith,
        known,
        read,
        on_response-keys pubkey entry frame (with_frame (auth_challenge w.nonce) c),
      )
    ]
  ]

  store_identity-admin :
      (pubkey : PubKey) (label_hint : Option Bytes) (c : Control)
      → (store_identity w pubkey label_hint c).1.admin ≡ c.admin
  unfolding store_identity reply
  store_identity-admin pubkey label_hint c = ground arith

  handle_enroll-IsGuarded :
      (token : Bytes) (pubkey : PubKey) (label_hint : Option Bytes) (c : Control)
      → IsGuarded c (handle_enroll w token pubkey label_hint c).1
  unfolding handle_enroll reply
  handle_enroll-IsGuarded token pubkey label_hint c =
      let (result, admin) = consume w.hash token w.now c.admin in
      elim (Result-cases result) [
        | inl (_, refused) ↦ inl (ground (arith, refused))
        | inr (_, good) ↦ inr (
          token,
          ground (arith, good, store_identity-admin pubkey label_hint (record c { admin = admin })),
        )
      ]

  on_first-IsGuarded :
      (frame : ClientFrame) (stream : Bytes) (c : Control)
      → IsGuarded c (on_first w frame stream c).1
  unfolding on_first
  on_first-IsGuarded (enroll token pubkey label_hint) stream c =
      handle_enroll-IsGuarded token pubkey label_hint c
  on_first-IsGuarded (auth_request pubkey) stream c = inl (handle_auth-keys pubkey stream c)
  on_first-IsGuarded (auth_response _) stream c = inl (ground arith)
  on_first-IsGuarded (register_tunnel _ _ _ _) stream c = inl (ground arith)
  on_first-IsGuarded (unregister_tunnel _) stream c = inl (ground arith)
  on_first-IsGuarded (ping _) stream c = inl (ground arith)
  on_first-IsGuarded bye stream c = inl (ground arith)
  on_first-IsGuarded list_peers stream c = inl (ground arith)

  pub perform-IsGuarded : (stream : Bytes) (c : Control) → IsGuarded c (perform w stream c).1
  unfolding perform
  perform-IsGuarded stream c = elim (Result-cases (read_exact 1 stream)) [
    | inl (_, broken) ↦ inl (ground (arith, broken))
    | inr ((kind_byte, rest), opened) ↦ elim (Result-cases (try_from (get_or kind_byte 0 0))) [
      | inl (_, unknown) ↦ inl (ground (arith, opened, unknown))
      | inr (kind, known) ↦ elim (Bool-cases (is_control kind)) [
        | inr other ↦ inl (ground (arith, opened, known, other))
        | inl control ↦ elim (Result-cases (read_frame w.codec rest)) [
          | inl (_, broken) ↦ inl (ground (arith, opened, known, control, broken))
          | inr ((frame, behind), read) ↦ elim (on_first-IsGuarded frame behind c) [
            | inl kept ↦ inl (ground (arith, opened, known, control, read, kept))
            | inr (token, used) ↦ inr (token, ground (arith, opened, known, control, read, used))
          ]
        ]
      ]
    ]
  ]
