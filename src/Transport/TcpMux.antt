-- ===== src/Transport/TcpMux.antt =====
-- crates/krot-transport/src/tcp_mux.rs: the state that a mux connection, its two tasks and its
-- streams share. A bounded channel is a number, under which the state holds the chunks on their
-- way. A send here finds room; Waiting has the reader where a send may wait.
pub mod Conn
pub mod Streams
pub mod Tasks
pub mod Wire
pub mod Tandem
pub mod Channels
pub mod Delivery
pub mod Ending
pub mod Waiting
pub mod Writes
pub mod Opening
pub mod Transfer
pub mod Kept
pub mod Reachable
pub mod Reads
mod Tests
use krot.Base.{
  ℕ, ◌+◌, ◌*◌, ◌==◌, if◌then◌else◌, Bool, true, false, Option, none, some, List, [], ◌∷◌, ◌++◌,
  Bytes,
}
use krot.Proto.Consts.{control_stream_id}
use krot.Proto.Mux.{MuxHeader}

abbrev pub max_mux_payload : ℕ
max_mux_payload = 256 * 1024

pub data OutFrame : Type 0 where
  frame : (header : MuxHeader) (payload : Bytes) → OutFrame
  close : OutFrame

pub record AcceptedStream : Type 0 where
  pub stream_id : ℕ
  pub open_payload : Bytes
  pub data_rx : ℕ

-- `writer_tx` and `accept_tx` are the queues behind them. `writer_gone` says that the writer task
-- has dropped its receiver. `streams` has the channel whose sender is kept for a stream, and
-- `channels` the chunks in each channel, or none if its receiver was dropped.
pub record Inner : Type 0 where
  pub is_server : Bool
  pub writer_tx : List OutFrame
  pub writer_gone : Bool
  pub streams : ℕ → Option ℕ
  pub accept_tx : List AcceptedStream
  pub next_stream_id : ℕ
  pub closed : Bool
  pub control_recv_slot : Option ℕ
  pub channels : ℕ → Option (List Bytes)
  pub next_channel : ℕ

-- A map with one key set to a value, or taken out.
abbrev pub update {ℓ} : {V : Type ℓ} → (ℕ → V) → ℕ → V → ℕ → V
update f k v j = if k == j then v else f j

-- `mpsc::channel`, whose sender `streams.insert` keeps for the stream. The sender kept before is
-- dropped.
unfoldable pub insert_channel : ℕ → Inner → Inner
insert_channel id inner = record inner {
  streams = update inner.streams id (some inner.next_channel);
  channels = update inner.channels inner.next_channel (some []);
  next_channel = inner.next_channel + 1;
}

-- `streams.remove`
unfoldable pub remove_stream : ℕ → Inner → Inner
remove_stream id inner = record inner { streams = update inner.streams id none }

-- `tx.send` on a channel. To a dropped receiver it fails, and the chunk is lost.
unfoldable pub send_chunk : ℕ → Bytes → Inner → Inner
send_chunk c chunk inner = elim (inner.channels c) [
  | none ↦ inner
  | some chunks ↦ record inner {
    channels = update inner.channels c (some (chunks ++ (chunk ∷ [])));
  }
]

-- `writer_tx.send`, which fails when the receiver is gone.
unfoldable pub send_frame : OutFrame → Inner → Option Inner
send_frame out inner =
    if inner.writer_gone
    then none
    else some (record inner { writer_tx = inner.writer_tx ++ (out ∷ []) })

-- `let _ = writer_tx.send(out)`
unfoldable pub try_send_frame : OutFrame → Inner → Inner
unfolding send_frame
try_send_frame out inner = elim (send_frame out inner) [ none ↦ inner | some inner' ↦ inner' ]
