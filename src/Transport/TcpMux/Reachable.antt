-- ===== src/Transport/TcpMux/Reachable.antt =====
-- The states that a connection reaches, whatever its handle, its streams and its two tasks do, in
-- whatever order.
use krot.Base.{[], ◌∷◌, ◌++◌, ℕ, ◌≡◌, refl, Bool, true, false, some, Bytes, ok, arith}
use krot.Transport.TcpMux.{
  OutFrame, AcceptedStream, Inner, insert_channel, remove_stream, send_chunk, try_send_frame,
}
use krot.Transport.TcpMux.Conn.{
  ready, TcpMuxSendStream, TcpMuxRecvStream, new, open_bi, open_data_stream, accept_bi,
  accept_data_stream, close, mint_stream_id,
}
use krot.Transport.TcpMux.Streams.{finish, poll_write, drop_recv, poll_read}
use krot.Transport.TcpMux.Tasks.{Pipe, read_turn, writer_turn}
use krot.Transport.TcpMux.Wire.{ended}
use krot.Transport.TcpMux.Kept.{
  mint_stream_id-Kept, insert_channel-Kept, remove_stream-Shrinks, try_send_frame-Shrinks,
  send_chunk-Shrinks, Kept, Shrinks-Kept, poll_write-Shrinks, finish-Shrinks, close-Shrinks,
  drop_recv-Shrinks, poll_read-Shrinks, accept_bi-Shrinks, accept_data_stream-Shrinks, open_bi-Kept,
  open_data_stream-Kept, writer_turn-Shrinks, read_turn-Kept,
}

-- One operation on the shared state.
pub data Step : Inner → Inner → Type 0 where
  opens :
      (inner inner' : Inner) (send : TcpMuxSendStream) (recv : TcpMuxRecvStream)
      → open_bi inner ≡ ok (send, recv, inner')
      → Step inner inner'
  opens_data : (header : Bytes) (inner : Inner) → Step inner (open_data_stream header inner).1
  accepts :
      (inner inner' : Inner) (send : TcpMuxSendStream) (recv : TcpMuxRecvStream)
      → accept_bi inner ≡ ready (send, recv, inner')
      → Step inner inner'
  accepts_data :
      (header : Bytes) (inner inner' : Inner) (send : TcpMuxSendStream) (recv : TcpMuxRecvStream)
      → accept_data_stream inner ≡ ready (header, send, recv, inner')
      → Step inner inner'
  writes :
      (inner : Inner) (buf : Bytes) (send : TcpMuxSendStream)
      → Step inner (poll_write buf send inner).2
  finishes : (inner : Inner) (send : TcpMuxSendStream) → Step inner (finish send inner).2
  reads :
      (remaining : ℕ) (inner inner' : Inner) (recv recv' : TcpMuxRecvStream) (bytes : Bytes)
      → poll_read remaining recv inner ≡ ready (bytes, recv', inner')
      → Step inner inner'
  drops : (inner : Inner) (recv : TcpMuxRecvStream) → Step inner (drop_recv recv inner)
  closes : (inner : Inner) → Step inner (close inner)
  receives :
      (inner inner' : Inner) (input rest : Bytes)
      → read_turn inner input ≡ some (inner', rest)
      → Step inner inner'
  sends :
      (pipe pipe' : Pipe) (inner inner' : Inner)
      → writer_turn pipe inner ≡ some (pipe', inner')
      → Step inner inner'
  stops : (inner : Inner) → Step inner (ended inner)
  -- The parts of an operation, which those of others may separate: an id is minted, a sender is
  -- kept or dropped, a frame or a stream is queued, a chunk is sent on a sender that was cloned.
  mints : (inner : Inner) → Step inner (mint_stream_id inner).1
  inserts : (id : ℕ) (inner : Inner) → Step inner (insert_channel id inner)
  removes : (id : ℕ) (inner : Inner) → Step inner (remove_stream id inner)
  queues : (out : OutFrame) (inner : Inner) → Step inner (try_send_frame out inner)
  announces :
      (a : AcceptedStream) (inner : Inner)
      → Step inner (record inner { accept_tx = inner.accept_tx ++ (a ∷ []) })
  delivers : (c : ℕ) (chunk : Bytes) (inner : Inner) → Step inner (send_chunk c chunk inner)

pub data Reaches (first : Inner) : Inner → Type 0 where
  start : Reaches first first
  then_step :
      (inner inner' : Inner) → Reaches first inner → Step inner inner' → Reaches first inner'

Step-Kept : (b : Bool) {inner inner' : Inner} → Step inner inner' → Kept b inner → Kept b inner'
Step-Kept b (opens inner inner' send recv h) k = open_bi-Kept b inner inner' send recv h k
Step-Kept b (opens_data header inner) k = open_data_stream-Kept b header inner k
Step-Kept b (sends pipe pipe' inner inner' h) k =
    Shrinks-Kept b inner inner' (writer_turn-Shrinks pipe pipe' inner inner' h) k
Step-Kept b (accepts inner inner' send recv h) k =
    Shrinks-Kept b inner inner' (accept_bi-Shrinks inner inner' send recv h) k
Step-Kept b (accepts_data header inner inner' send recv h) k =
    Shrinks-Kept b inner inner' (accept_data_stream-Shrinks header inner inner' send recv h) k
Step-Kept b (writes inner buf send) k =
    Shrinks-Kept b inner (poll_write buf send inner).2 (poll_write-Shrinks inner buf send) k
Step-Kept b (finishes inner send) k =
    Shrinks-Kept b inner (finish send inner).2 (finish-Shrinks inner send) k
Step-Kept b (reads remaining inner inner' recv recv' bytes h) k =
    Shrinks-Kept b inner inner' (poll_read-Shrinks inner inner' recv recv' bytes remaining h) k
Step-Kept b (drops inner recv) k =
    Shrinks-Kept b inner (drop_recv recv inner) (drop_recv-Shrinks inner recv) k
Step-Kept b (closes inner) k = Shrinks-Kept b inner (close inner) (close-Shrinks inner) k
Step-Kept b (receives inner inner' input rest h) k = read_turn-Kept b inner inner' input rest h k
Step-Kept b (stops inner) k =
    Shrinks-Kept b inner (ended inner)
      (record { senders = λ id c e. e; channels = refl; side = refl; next = refl }) k
Step-Kept b (mints inner) k = mint_stream_id-Kept b inner k
Step-Kept b (inserts id inner) k = insert_channel-Kept b id inner k
Step-Kept b (removes id inner) k =
    Shrinks-Kept b inner (remove_stream id inner) (remove_stream-Shrinks id inner) k
Step-Kept b (queues out inner) k =
    Shrinks-Kept b inner (try_send_frame out inner) (try_send_frame-Shrinks out inner) k
Step-Kept b (announces a inner) k =
    Shrinks-Kept b inner (record inner { accept_tx = inner.accept_tx ++ (a ∷ []) })
      (record { senders = λ id c e. e; channels = refl; side = refl; next = refl }) k
Step-Kept b (delivers c chunk inner) k =
    Shrinks-Kept b inner (send_chunk c chunk inner) (send_chunk-Shrinks c chunk inner) k

new-Kept : (b : Bool) → Kept b (new b)
unfolding new
new-Kept true = record {
  side = refl;
  valid = record { owner = λ c. 0; kept = λ id c e. ground (arith, e) };
  ids = refl;
  fits = omega arith;
}
new-Kept false = record {
  side = refl;
  valid = record { owner = λ c. 0; kept = λ id c e. ground (arith, e) };
  ids = refl;
  fits = omega arith;
}

Reaches-Kept :
    (b : Bool) (first : Inner) {inner : Inner} → Reaches first inner → Kept b first → Kept b inner
Reaches-Kept b first start k = k
Reaches-Kept b first (then_step inner inner' before step) k =
    Step-Kept b step (Reaches-Kept b first before k)

-- In every state that a connection of either side reaches from its start, with the parts of its
-- operations and of its two tasks in any order: each kept sender's channel
-- was made, and for one stream alone, and the next id is a u32 that is odd on the server and even on
-- the client.
pub reachable-Kept : (b : Bool) {inner : Inner} → Reaches (new b) inner → Kept b inner
reachable-Kept b reached = Reaches-Kept b (new b) reached (new-Kept b)
