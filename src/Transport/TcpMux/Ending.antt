-- ===== src/Transport/TcpMux/Ending.antt =====
-- What the reader does to the state, frame by frame, whatever the bytes.
use krot.Base.{
  ℕ, ◌+◌, ◌<◌, ◌≤◌, ◌≡◌, ◌≢◌, refl, sym, subst, ◌⊎◌, inl, inr, Result-cases, some, List, [], ◌∷◌,
  ◌++◌, append-nil, Bytes, length, All, ok, length-take, arith,
}
use krot.Proto.Consts.{control_stream_id, mux_header_size}
use krot.Proto.Mux.{MuxFlag, open_flag, data_flag, fin_flag, MuxHeader, decode}
use krot.Transport.Frame.{read_exact}
use krot.Transport.Frame.Reading.{length-drop}
use krot.Transport.TcpMux.{AcceptedStream, Inner, insert_channel, remove_stream, send_chunk}
use krot.Transport.TcpMux.Tasks.{accept_stream, deliver, read_body, read_turn}
use krot.Transport.TcpMux.Wire.{dispatch}
use krot.Transport.TcpMux.Channels.{IsValid, dispatch-IsValid}
use krot.Transport.TcpMux.Delivery.{accepted}

-- A stream of the peer: never the control stream, with nine bytes of payload.
abbrev pub IsPeerStream : AcceptedStream → Type 0
IsPeerStream a = (a.stream_id ≢ control_stream_id) × (length a.open_payload ≡ 9)

-- One state after another, where valid state stays valid, the side and the ids to mint stay, and the
-- accept queue gains streams of the peer.
abbrev pub Grows : Inner → Inner → Type 0
Grows inner inner' =
    (IsValid inner → IsValid inner')
    × ((inner'.is_server ≡ inner.is_server) × (inner'.next_stream_id ≡ inner.next_stream_id))
    × ((later : List AcceptedStream) × (inner'.accept_tx ≡ inner.accept_tx ++ later)
        × All IsPeerStream later)

pub read_exact-eq-ok :
    (n : ℕ) (input xs rest : Bytes)
    → read_exact n input ≡ ok (xs, rest)
    → (length xs ≡ n) × (n + length rest ≡ length input)
unfolding read_exact
read_exact-eq-ok n input xs rest e =
    (ground (arith, length-take n input), ground (arith, length-drop n input))

pub flag_cases : (flag : MuxFlag) → (flag ≡ open_flag) ⊎ ((flag ≡ data_flag) ⊎ (flag ≡ fin_flag))
flag_cases open_flag = inl refl
flag_cases data_flag = inr (inl refl)
flag_cases fin_flag = inr (inr refl)

-- An OPEN that the reader takes: not for the control stream, with nine bytes.
abbrev IsOpening : MuxFlag → ℕ → Bytes → Type 0
IsOpening flag id payload = flag ≡ open_flag → (id ≢ control_stream_id) × (length payload ≡ 9)

dispatch-Grows :
    (flag : MuxFlag) (id : ℕ) (payload : Bytes) (inner : Inner)
    → IsOpening flag id payload
    → Grows inner (dispatch flag id payload inner)
unfolding dispatch accept_stream deliver insert_channel remove_stream send_chunk
dispatch-Grows open_flag id payload inner h = (
  dispatch-IsValid open_flag id payload inner,
  (refl, refl),
  (accepted id payload inner.next_channel ∷ [], refl, (h refl, tt)),
)
dispatch-Grows data_flag id payload inner h = (
  dispatch-IsValid data_flag id payload inner,
  (ground arith, ground arith),
  ([], ground (arith, append-nil inner.accept_tx), tt),
)
dispatch-Grows fin_flag id payload inner h = (
  dispatch-IsValid fin_flag id payload inner,
  (refl, refl),
  ([], sym (append-nil inner.accept_tx), tt),
)

-- Where the reader goes on, it has done what one frame does.
pub read_body-dispatch :
    (header : MuxHeader) (inner inner' : Inner) (input rest : Bytes)
    → read_body header inner input ≡ some (inner', rest)
    → (payload : Bytes) × (dispatch header.flag header.stream_id payload inner ≡ inner')
      × IsOpening header.flag header.stream_id payload
      × (length rest ≤ length input)
unfolding read_body dispatch
read_body-dispatch header inner inner' input rest e = elim (flag_cases header.flag) [
  | inl f ↦ elim (Result-cases (read_exact 9 input)) [
    | inl (_, failed) ↦ absurd (ground (arith, e, f, failed))
    | inr ((payload, behind), read) ↦
        let (nine, shorter) = read_exact-eq-ok 9 input payload behind read in
        (
          payload,
          ground (arith, e, f, read),
          λ _. (ground (arith, e, f, read), nine),
          ground (arith, e, f, read, shorter),
        )
  ]
  | inr (inl f) ↦ elim (Result-cases (read_exact header.payload_len input)) [
    | inl (_, failed) ↦ absurd (ground (arith, e, f, failed))
    | inr ((payload, behind), read) ↦
        let (_, shorter) = read_exact-eq-ok header.payload_len input payload behind read in
        (
          payload,
          ground (arith, e, f, read),
          λ h. absurd (ground (arith, h, f)),
          ground (arith, e, f, read, shorter),
        )
  ]
  | inr (inr f) ↦
      ([], ground (arith, e, f), λ h. absurd (ground (arith, h, f)), ground (arith, e, f))
]

-- The reader goes round its loop by one frame's effect, and nearer to the end.
pub read_turn-Grows :
    (inner inner' : Inner) (input rest : Bytes)
    → read_turn inner input ≡ some (inner', rest)
    → Grows inner inner' × (length rest < length input)
unfolding read_turn
read_turn-Grows inner inner' input rest e = elim (Result-cases (read_exact mux_header_size input)) [
  | inl (_, failed) ↦ absurd (ground (arith, e, failed))
  | inr ((buf, behind), read) ↦ elim (Result-cases (decode buf)) [
    | inl (_, failed) ↦ absurd (ground (arith, e, read, failed))
    | inr (header, decoded) ↦
        let (payload, same, opening, less) =
          read_body-dispatch header inner inner' behind rest (ground (arith, e, read, decoded)) in
        let (_, nine) = read_exact-eq-ok mux_header_size input buf behind read in
        (
          subst (λ x. Grows inner x) same
              (dispatch-Grows header.flag header.stream_id payload inner opening),
          omega arith,
        )
  ]
]
