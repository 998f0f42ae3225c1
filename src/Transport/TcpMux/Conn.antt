-- ===== src/Transport/TcpMux/Conn.antt =====
-- crates/krot-transport/src/tcp_mux.rs: the connection's handle. A wait that has nothing to return
-- yet is `pending`; `accept_rx.recv()` never ends, since `Inner` itself keeps the sender.
use krot.Base.{
  ℕ, ◌+◌, ◌%◌, ◌^◌, ◌==◌, if◌then◌else◌, Bool, true, false, Option, none, some, [], ◌∷◌, Bytes,
  Result, ok, err,
}
use krot.Proto.Consts.{control_stream_id}
use krot.Proto.Mux.{open_flag}
use krot.Transport.Frame.{TransportError, unexpected_eof}
use krot.Transport.TcpMux.{
  OutFrame, frame, AcceptedStream, Inner, update, insert_channel, send_frame, try_send_frame,
}
use krot.Transport.TcpMux

pub data Poll {ℓ} (A : Type ℓ) : Type ℓ where
  pending : Poll A
  ready : A → Poll A

pub record TcpMuxSendStream : Type 0 where
  pub stream_id : ℕ
  pub pending_open : Option Bytes
  pub finished : Bool

pub record TcpMuxRecvStream : Type 0 where
  pub stream_id : ℕ
  pub data_rx : ℕ
  pub leftover : Bytes
  pub eof : Bool

abbrev zeros : Bytes
zeros = 0 ∷ 0 ∷ 0 ∷ 0 ∷ 0 ∷ 0 ∷ 0 ∷ 0 ∷ 0 ∷ []

-- The control stream has channel 0.
unfoldable pub new : (is_server : Bool) → Inner
new is_server = record {
  is_server = is_server;
  writer_tx = [];
  writer_gone = false;
  streams = λ id. if control_stream_id == id then some 0 else none;
  accept_tx =
      if is_server
      then record { stream_id = control_stream_id; open_payload = zeros; data_rx = 0 } ∷ []
      else [];
  next_stream_id = if is_server then 1 else 2;
  closed = false;
  control_recv_slot = if is_server then none else some 0;
  channels = λ c. if 0 == c then some [] else none;
  next_channel = 1;
}

-- `fetch_add(2)` on an `AtomicU32`
unfoldable pub mint_stream_id : Inner → ℕ × Inner
mint_stream_id inner =
    (inner.next_stream_id, record inner { next_stream_id = (inner.next_stream_id + 2) % 2 ^ 32 })

abbrev pub send_half : ℕ → Option Bytes → TcpMuxSendStream
send_half id pending_open = record { stream_id = id; pending_open = pending_open; finished = false }

abbrev pub recv_half : ℕ → ℕ → Bytes → TcpMuxRecvStream
recv_half id c leftover = record { stream_id = id; data_rx = c; leftover = leftover; eof = false }

abbrev pub open_frame : ℕ → Bytes → OutFrame
open_frame id payload = frame (record { flag = open_flag; stream_id = id; payload_len = 9 }) payload

-- The two halves, and the state.
abbrev pub Opened : Type 0
Opened = TcpMuxSendStream × TcpMuxRecvStream × Inner

-- The part of `open_data_stream` and `open_bi` that mints an id and registers its channel.
unfoldable pub register_stream : Inner → ℕ × ℕ × Inner
unfolding mint_stream_id insert_channel
register_stream inner =
    let (id, minted) = mint_stream_id inner in (id, minted.next_channel, insert_channel id minted)

-- A send that fails leaves the id minted and the sender in the map.
unfoldable pub open_data_stream :
    (header : Bytes) → Inner → Result TransportError (TcpMuxSendStream × TcpMuxRecvStream) × Inner
unfolding register_stream send_frame
open_data_stream header inner =
    let (id, c, registered) = register_stream inner in
    let opened : Result TransportError (TcpMuxSendStream × TcpMuxRecvStream) × Inner =
      elim (send_frame (open_frame id header) registered) [
        | none ↦ (err unexpected_eof, registered)
        | some sent ↦ (ok (send_half id none, recv_half id c []), sent)
      ] in
    if inner.closed then (err unexpected_eof, inner) else opened

unfoldable pub open_registered : Inner → Opened
unfolding register_stream
open_registered inner =
    let (id, c, registered) = register_stream inner in
    (send_half id (some []), recv_half id c [], registered)

unfoldable pub open_bi : Inner → Result TransportError Opened
unfolding open_registered
open_bi inner =
    if inner.closed
    then err unexpected_eof
    else if inner.is_server
    then ok (open_registered inner)
    else elim inner.control_recv_slot [
      | some c ↦ ok (
        send_half control_stream_id none,
        recv_half control_stream_id c [],
        record inner { control_recv_slot = none },
      )
      | none ↦ ok (open_registered inner)
    ]

unfoldable pub accept_data_stream :
    Inner → Poll (Bytes × TcpMuxSendStream × TcpMuxRecvStream × Inner)
accept_data_stream inner = elim inner.accept_tx [
  | [] ↦ pending
  | a ∷ rest ↦ ready (
    a.open_payload,
    send_half a.stream_id none,
    recv_half a.stream_id a.data_rx [],
    record inner { accept_tx = rest },
  )
]

-- The bytes that `accept_bi` primes the receiving half with.
abbrev pub primed : AcceptedStream → Bytes
primed a = if a.stream_id == control_stream_id then [] else a.open_payload

unfoldable pub accept_bi : Inner → Poll Opened
accept_bi inner = elim inner.accept_tx [
  | [] ↦ pending
  | a ∷ rest ↦ ready (
    send_half a.stream_id none,
    recv_half a.stream_id a.data_rx (primed a),
    record inner { accept_tx = rest },
  )
]

unfoldable pub close : Inner → Inner
unfolding try_send_frame
close inner =
    if inner.closed then inner else try_send_frame TcpMux.close (record inner { closed = true })

unfoldable pub is_closed : Inner → Poll (Unit {0})
is_closed inner = if inner.closed then ready tt else pending
