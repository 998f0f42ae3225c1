-- ===== src/Transport/TcpMux/Tasks.antt =====
-- crates/krot-transport/src/tcp_mux.rs: the reader and the writer task. The reader takes the bytes
-- that arrive before the pipe's end, on fuel; the writer takes frames of the queue.
use krot.Base.{
  ℕ, zero, suc, ◌-◌, ◌==◌, ltb, leb, if◌then◌else◌, Bool, true, false, Option, none, some, List, [],
  ◌∷◌, ◌++◌, Bytes, length, take, ok, err,
}
use krot.Proto.Consts.{control_stream_id, mux_header_size}
use krot.Proto.Mux.{open_flag, data_flag, fin_flag, MuxHeader, to_bytes, decode}
use krot.Transport.Frame.{read_exact}
use krot.Transport.TcpMux.{
  OutFrame, frame, close, AcceptedStream, Inner, max_mux_payload, insert_channel, remove_stream,
  send_chunk,
}

-- An OPEN frame's new channel, and its entry in the accept queue.
unfoldable pub accept_stream : ℕ → Bytes → Inner → Inner
unfolding insert_channel
accept_stream id payload inner =
    let a : AcceptedStream = record {
      stream_id = id;
      open_payload = payload;
      data_rx = inner.next_channel;
    } in
    let registered = insert_channel id inner in
    record registered { accept_tx = registered.accept_tx ++ (a ∷ []) }

-- A chunk for a stream. That of an unknown stream is discarded.
unfoldable pub deliver : ℕ → Bytes → Inner → Inner
unfolding send_chunk
deliver id chunk inner = elim (inner.streams id) [
  | none ↦ inner
  | some c ↦ send_chunk c chunk inner
]

-- The arms of the reader's `match`, with the bytes behind the header. `none` breaks the loop; the
-- state with the bytes left goes round it.
unfoldable pub read_body : MuxHeader → Inner → Bytes → Option (Inner × Bytes)
unfolding accept_stream deliver remove_stream read_exact
read_body header inner input = elim header.flag [
  | open_flag ↦ elim (read_exact 9 input) [
    | err _ ↦ none
    | ok (payload, rest) ↦
        if header.stream_id == control_stream_id
        then none
        else some (accept_stream header.stream_id payload inner, rest)
  ]
  | data_flag ↦
      if ltb max_mux_payload header.payload_len
      then none
      else elim (read_exact header.payload_len input) [
        | err _ ↦ none
        | ok (buf, rest) ↦ some (deliver header.stream_id buf inner, rest)
      ]
  | fin_flag ↦ some (remove_stream header.stream_id inner, input)
]

-- One round of the reader's loop.
unfoldable pub read_turn : Inner → Bytes → Option (Inner × Bytes)
unfolding read_body read_exact
read_turn inner input = elim (read_exact mux_header_size input) [
  | err _ ↦ none
  | ok (header_buf, rest) ↦ elim (decode header_buf) [
    | err _ ↦ none
    | ok header ↦ read_body header inner rest
  ]
]

-- `none` if the fuel runs out.
unfoldable pub reader_loop : ℕ → Inner → Bytes → Option Inner
unfolding read_turn
reader_loop zero inner input = none
reader_loop (suc fuel) inner input = elim (read_turn inner input) [
  | none ↦ some (record inner { closed = true })
  | some (inner', rest) ↦ reader_loop fuel inner' rest
]

-- A round takes nine bytes at least, so there is fuel for all.
unfoldable pub reader_task : Inner → Bytes → Option Inner
unfolding reader_loop
reader_task inner input = reader_loop (suc (length input)) inner input

-- The pipe below: what was written, how much more it takes before it fails, and whether it was shut
-- down.
pub record Pipe : Type 0 where
  pub written : Bytes
  pub room : ℕ
  pub shut : Bool

unfoldable pub write_all : Pipe → Bytes → Bool × Pipe
write_all pipe bytes =
    if leb (length bytes) pipe.room
    then (true, record pipe { written = pipe.written ++ bytes; room = pipe.room - length bytes })
    else (false, record pipe { written = pipe.written ++ take pipe.room bytes; room = 0 })

unfoldable pub write_payload : Pipe → Bytes → Bool × Pipe
unfolding write_all
write_payload pipe [] = (true, pipe)
write_payload pipe (b ∷ payload) = write_all pipe (b ∷ payload)

-- `shutdown`
abbrev shutdown : Pipe → Pipe
shutdown pipe = record pipe { shut = true }

-- The frames of the queue, in order. The task waits for more at its end.
unfoldable pub writer_task : Pipe → List OutFrame → Pipe
unfolding write_payload write_all
writer_task pipe [] = pipe
writer_task pipe (close ∷ queue) = shutdown pipe
writer_task pipe (frame header payload ∷ queue) =
    let (ok_header, pipe') = write_all pipe (to_bytes header) in
    let (ok_payload, pipe'') = write_payload pipe' payload in
    let rest = writer_task pipe'' queue in
    if ok_header then (if ok_payload then rest else shutdown pipe'') else shutdown pipe'

-- The state behind the task, which drops its receiver and what is queued in it.
abbrev gone : Inner → Inner
gone inner = record inner { writer_tx = []; writer_gone = true }

-- One round of the writer's loop. `none` if it waits for a frame, or has ended.
unfoldable pub writer_turn : Pipe → Inner → Option (Pipe × Inner)
unfolding write_payload write_all
writer_turn pipe inner =
    let turn : Option (Pipe × Inner) = elim inner.writer_tx [
      | [] ↦ none
      | close ∷ queue ↦ some (shutdown pipe, gone inner)
      | frame header payload ∷ queue ↦
          let (ok_header, pipe') = write_all pipe (to_bytes header) in
          let (ok_payload, pipe'') = write_payload pipe' payload in
          if ok_header
          then (if ok_payload
              then some (pipe'', record inner { writer_tx = queue })
              else some (shutdown pipe'', gone inner))
          else some (shutdown pipe', gone inner)
    ] in
    if inner.writer_gone then none else turn
