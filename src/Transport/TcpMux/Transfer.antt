-- ===== src/Transport/TcpMux/Transfer.antt =====
-- A stream of the mux from end to end: `open_bi`, the writes, `finish`, the two tasks, `accept_bi` and
-- the reads.
use krot.Base.{
  ℕ, suc, ◌≡◌, ◌≢◌, false, none, some, List, [], ◌∷◌, ◌++◌, Bytes, length, All, IsU32, ok,
}
use krot.Proto.Consts.{control_stream_id}
use krot.Transport.TcpMux.{OutFrame, AcceptedStream, Inner}
use krot.Transport.TcpMux.Conn.{ready, TcpMuxSendStream, TcpMuxRecvStream, open_bi, accept_bi}
use krot.Transport.TcpMux.Streams.{fin_frame, finish}
use krot.Transport.TcpMux.Tasks.{Pipe}
use krot.Transport.TcpMux.Wire.{wire}
use krot.Transport.TcpMux.Writes.{Event, run_events, IsOther, IsOpen}
use krot.Transport.TcpMux.Reads.{read_to_end}

-- The pipe that takes a queue and no more.
abbrev pub pipe_for : List OutFrame → Pipe
pipe_for queue = record { written = []; room = length (wire queue); shut = false }

-- A stream waits in the accept queue; once those before it are taken, `accept_bi` returns it, and
-- reads into buffers of this size return these bytes and then the end.
pub record IsReceived (b : Inner) (id remaining : ℕ) (bytes : Bytes) : Type 0 where
  pub before : List AcceptedStream
  pub stream : AcceptedStream
  pub later : List AcceptedStream
  pub send : TcpMuxSendStream
  pub recv : TcpMuxRecvStream
  pub after : Inner
  pub queued : b.accept_tx ≡ before ++ (stream ∷ later)
  pub taken : accept_bi (record b { accept_tx = stream ∷ later }) ≡ ready (send, recv, after)
  pub same_id : recv.stream_id ≡ id
  pub all_read : read_to_end (suc (length bytes)) remaining recv after ≡ some bytes

-- A queue that opens a stream, with the stream's FIN at its end.
abbrev closing : ℕ → List OutFrame → List OutFrame → List OutFrame
closing id queue frames = queue ++ (frames ++ (fin_frame id ∷ []))

-- A connection whose next data stream can be opened with `open_bi`: it takes frames, the control
-- stream is handed out, the ids have not run out, and its queue is free of the stream's id.
pub record CanOpen (a : Inner) : Type 0 where
  pub takes_frames : IsOpen a
  pub control_taken : a.control_recv_slot ≡ none
  pub fits : IsU32 a.next_stream_id
  pub not_control : a.next_stream_id ≢ control_stream_id
  pub fresh : All (IsOther a.next_stream_id) a.writer_tx

-- The sender's run: a stream is opened, written on and finished, and this is the queue then.
pub record IsSent (a : Inner) (events : List Event) (queue : List OutFrame) : Type 0 where
  pub send : TcpMuxSendStream
  pub sent : TcpMuxSendStream
  pub done : TcpMuxSendStream
  pub recv : TcpMuxRecvStream
  pub opening : Inner
  pub writing : Inner
  pub ending : Inner
  pub opens : open_bi a ≡ ok (send, recv, opening)
  pub writes : run_events events send opening ≡ some (sent, writing)
  pub finishes : finish sent writing ≡ (ok tt, done, ending)
  pub queued : ending.writer_tx ≡ queue
