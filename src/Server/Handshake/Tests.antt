-- ===== src/Server/Handshake/Tests.antt =====
-- Runs of the handshake, with a codec of one byte and a check that takes one signature.
use krot.Base.{
  ℕ, zero, suc, ◌≡◌, refl, ◌==◌, true, false, Option, none, some, [], ◌∷◌, Bytes, to_le_bytes, text,
  nat_eq, ok, bytes_eq,
}
use krot.Base.Map
use krot.Proto.Auth.{verify_challenge, signing_payload}
use krot.Proto.Frames.{
  ClientFrame, auth_request, auth_response, enroll, auth_challenge, auth_ok, enroll_rejected,
}
use krot.Proto.Framing.{add_group}
use krot.Proto.Stream.{try_from}
use krot.Transport.Frame.{
  unexpected_eof, read_exact, read_frame, read_varint, read_varint_loop, read_payload,
}
use krot.Server.Keys.Parse.{default_entry}
use krot.Server.Keys.Registry
use krot.Server.Keys.Registry.{KeyRegistry}
use krot.Server.Admin.{consume}
use krot.Server.Handshake.{
  auth, enrollment_done, Control, World, perform, on_first, handle_auth, handle_enroll, challenge,
  on_response, reply, reject_code,
}
use krot.Server.Handshake.Sound.{IsJustified, perform-IsJustified}
use krot.Server.Handshake.Guarded.{IsGuarded}

abbrev parse : Bytes → Option ClientFrame
parse [] = none
parse (zero ∷ _) = some (auth_request 97)
parse (suc zero ∷ _) = some (auth_response 5)
parse (suc (suc zero) ∷ _) = some (enroll (text "x") 98 none)
parse _ = none

abbrev world : World
world = record {
  codec = record { to_stdvec = λ f. none; from_bytes = parse };
  writes = λ f. true;
  write_error = unexpected_eof;
  nonce = 1234;
  session_id = 4321;
  now = 0;
  stamp = text "today";
  disk = true;
  hash = λ s. s;
  encode = λ s. s;
  decode = λ s. some s;
  ed25519 = record {
    SigningKey = ℕ;
    VerifyingKey = ℕ;
    sign = λ k payload. k;
    from_bytes = λ pubkey. some pubkey;
    verify = λ k payload signature. signature == 5;
  };
}

abbrev control : Control
control = record {
  keys = record { file = none; entries = (97, default_entry) ∷ []; revocation = [] };
  admin = record { state = none; hash_file = none };
  sent = [];
}

-- The byte of a Control stream, and two frames of one byte.
abbrev stream : Bytes
stream = 1 ∷ 1 ∷ 0 ∷ 1 ∷ 1 ∷ []

lets_in : perform world stream control ≡ (
  ok (auth (record { pubkey = 97; session_id = 4321; entry = default_entry })),
  record control { sent = auth_challenge 1234 ∷ auth_ok 4321 ∷ [] },
)
unfolding perform on_first handle_auth challenge on_response reply verify_challenge signing_payload
    read_frame read_varint read_varint_loop read_payload read_exact add_group try_from Registry.get
    Map.get to_le_bytes
lets_in = refl

refuses_token :
    perform world (1 ∷ 1 ∷ 2 ∷ []) control
    ≡ (ok (enrollment_done false), record control { sent = enroll_rejected 0x14 ∷ [] })
unfolding perform on_first handle_enroll consume reject_code reply read_frame read_varint
    read_varint_loop read_payload read_exact add_group try_from bytes_eq
refuses_token = refl

perform-IsJustified_example :
    let (result, c') = perform world stream control in
    (IsJustified world stream control c' result × IsGuarded world control c')
perform-IsJustified_example = perform-IsJustified world stream control
