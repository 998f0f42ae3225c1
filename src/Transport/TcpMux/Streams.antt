-- ===== src/Transport/TcpMux/Streams.antt =====
-- crates/krot-transport/src/tcp_mux.rs: the two halves of a stream. Each operation takes the half
-- and the shared state, and returns both.
use krot.Base.{
  ℕ, ◌+◌, ◌-◌, ◌%◌, ◌^◌, min, ◌==◌, ltb, if◌then◌else◌, Bool, true, false, Option, none, some, [],
  ◌∷◌, ◌++◌, Bytes, length, take, drop, Result, ok, err, ◌||◌,
}
use krot.Proto.Mux.{data_flag, fin_flag}
use krot.Transport.Frame.{TransportError, unexpected_eof}
use krot.Transport.TcpMux.{
  OutFrame, frame, Inner, update, remove_stream, send_frame, try_send_frame,
}
use krot.Transport.TcpMux.Conn.{
  Poll, pending, ready, TcpMuxSendStream, TcpMuxRecvStream, open_frame,
}

abbrev pub data_frame : ℕ → Bytes → OutFrame
data_frame id payload =
    frame (record { flag = data_flag; stream_id = id; payload_len = length payload % 2 ^ 32 })
      payload

abbrev pub fin_frame : ℕ → OutFrame
fin_frame id = frame (record { flag = fin_flag; stream_id = id; payload_len = 0 }) []

-- `vec![0; n]`
abbrev pub zero_bytes : ℕ → Bytes
zero_bytes ℕ.zero = []
zero_bytes (ℕ.suc n) = 0 ∷ zero_bytes n

-- `buf.resize(9, 0)`
abbrev pub resize_9 : Bytes → Bytes
resize_9 buf = take 9 (buf ++ zero_bytes 9)

-- The OPEN that `finish` still owes, padded.
unfoldable pub flush_open : TcpMuxSendStream → Inner → Inner
unfolding try_send_frame
flush_open send inner = elim send.pending_open [
  | none ↦ inner
  | some buf ↦ try_send_frame (open_frame send.stream_id (resize_9 buf)) inner
]

unfoldable pub finish :
    TcpMuxSendStream → Inner → Result TransportError (Unit {0}) × TcpMuxSendStream × Inner
unfolding flush_open send_frame
finish send inner =
    if send.finished
    then (ok tt, send, inner)
    else let done = record send { finished = true; pending_open = none } in
      let flushed = flush_open send inner in
      elim (send_frame (fin_frame send.stream_id) flushed) [
        | none ↦ (err unexpected_eof, done, flushed)
        | some sent ↦ (ok tt, done, sent)
      ]

pub data IoError : Type 0 where
  broken_pipe : IoError

-- The outcome of a write: `io::Result<usize>`, the half and the state.
abbrev pub Written : Type 0
Written = Result IoError ℕ × TcpMuxSendStream × Inner

-- Phase 2 of `poll_write`, where the first `cursor` bytes are taken.
unfoldable pub write_rest : ℕ → Bytes → TcpMuxSendStream → Inner → Written
unfolding send_frame
write_rest cursor [] send inner = (ok cursor, send, inner)
write_rest cursor (b ∷ rest) send inner =
    elim (send_frame (data_frame send.stream_id (b ∷ rest)) inner) [
      | none ↦ (err broken_pipe, send, inner)
      | some sent ↦ (ok (cursor + length (b ∷ rest)), send, sent)
    ]

-- Phase 1 of `poll_write`, which gathers the nine bytes of the OPEN frame.
unfoldable pub write_open : Bytes → Bytes → TcpMuxSendStream → Inner → Written
unfolding write_rest send_frame
write_open held buf send inner =
    let n = min (9 - length held) (length buf) in
    let held' = held ++ take n buf in
    let opened = record send { pending_open = none } in
    let sent = send_frame (open_frame send.stream_id held') inner in
    if length held' == 9
    then elim sent [
      | none ↦ (err broken_pipe, opened, inner)
      | some inner' ↦ write_rest n (drop n buf) opened inner'
    ]
    else (ok n, record send { pending_open = some held' }, inner)

unfoldable pub poll_write : Bytes → TcpMuxSendStream → Inner → Written
unfolding write_open
poll_write buf send inner =
    if send.finished || inner.closed
    then (err broken_pipe, send, inner)
    else elim send.pending_open [
      | none ↦ write_rest 0 buf send inner
      | some held ↦ write_open held buf send inner
    ]

-- The result of `finish` is dropped.
unfoldable pub poll_shutdown : TcpMuxSendStream → Inner → TcpMuxSendStream × Inner
unfolding finish
poll_shutdown send inner = let (_, send', inner') = finish send inner in (send', inner')

-- `Drop`: the sender is taken out of the map, and the receiver goes away.
unfoldable pub drop_recv : TcpMuxRecvStream → Inner → Inner
unfolding remove_stream
drop_recv recv inner =
    let removed = remove_stream recv.stream_id inner in
    record removed { channels = update removed.channels recv.data_rx none }

-- The sender of a stream's channel is alive as long as the map has it.
abbrev pub is_kept : Option ℕ → ℕ → Bool
is_kept none c = false
is_kept (some c') c = c' == c

-- `remaining` is the room in the caller's buffer. The result is what is put there, with the half and
-- the state.
unfoldable pub poll_read :
    (remaining : ℕ) → TcpMuxRecvStream → Inner → Poll (Bytes × TcpMuxRecvStream × Inner)
poll_read remaining recv inner = elim recv.leftover [
  | b ∷ more ↦
      let n = min (length (b ∷ more)) remaining in
      ready (take n (b ∷ more), record recv { leftover = drop n (b ∷ more) }, inner)
  | [] ↦ if recv.eof then ready ([], recv, inner) else elim (inner.channels recv.data_rx) [
    | none ↦ ready ([], record recv { eof = true }, inner)
    | some [] ↦
        if is_kept (inner.streams recv.stream_id) recv.data_rx
        then pending
        else ready ([], record recv { eof = true }, inner)
    | some (chunk ∷ chunks) ↦
        let n = min (length chunk) remaining in
        ready (
          take n chunk,
          record recv { leftover = if ltb n (length chunk) then drop n chunk else [] },
          record inner { channels = update inner.channels recv.data_rx (some chunks) },
        )
  ]
]
