-- ===== src/Transport/TcpMux/Tests.antt =====
-- Runs of the mux.
use krot.Base.{
  from_le_bytes, ℕ, zero, suc, ◌==◌, if◌then◌else◌, Bytes, length, ◌≡◌, refl, true, false, none,
  some, List, [], ◌∷◌, ok, err,
}
use krot.Proto.Mux.{decode}
use krot.Transport.TcpMux.{OutFrame, Inner, insert_channel, send_frame, try_send_frame}
use krot.Transport.TcpMux.Conn.{
  send_half, recv_half, new, open_bi, open_registered, register_stream, mint_stream_id, accept_bi,
  close, ready,
}
use krot.Transport.TcpMux.Streams.{data_frame, poll_write, broken_pipe}
use krot.Transport.TcpMux.Wire.{whole}
use krot.Transport.TcpMux.Waiting.{
  is_at_capacity, awaits_body, awaits, Progress, waiting, run_reader, IsProgress,
  run_reader-IsProgress,
}
use krot.Transport.TcpMux.Writes.{Event, mine, theirs}
use krot.Transport.TcpMux.Kept.{Kept}
use krot.Transport.TcpMux.Reachable.{opens, start, then_step, reachable-Kept}

-- A client whose control stream is handed out, and a server.
abbrev client : Inner
client = record (new false) { control_recv_slot = none }

hands_out_control : open_bi (new false) ≡ ok (send_half 0 none, recv_half 0 0 [], client)
unfolding open_bi new
hands_out_control = refl

opens_data_stream :
    open_bi client
    ≡ ok (
      send_half 2 (some []),
      recv_half 2 1 [],
      record (insert_channel 2 client) { next_stream_id = 4 },
    )
unfolding open_bi new open_registered register_stream mint_stream_id insert_channel
opens_data_stream = refl

refuses_when_closed :
    poll_write (1 ∷ []) (send_half 2 none) (close client)
    ≡ (err broken_pipe, send_half 2 none, close client)
unfolding poll_write close new try_send_frame send_frame
refuses_when_closed = refl

accepts_control_first :
    accept_bi (new true)
    ≡ ready (send_half 0 none, recv_half 0 0 [], record (new true) { accept_tx = [] })
unfolding accept_bi new
accepts_control_first = refl

-- Two writes on stream 2, with data of the control stream between them.
abbrev events : List Event
events =
    mine (0 ∷ 1 ∷ 2 ∷ 3 ∷ 4 ∷ [])
    ∷ theirs (data_frame 0 (7 ∷ 7 ∷ []))
    ∷ mine (5 ∷ 6 ∷ 7 ∷ 8 ∷ 9 ∷ 10 ∷ [])
    ∷ []

next_id : client.next_stream_id ≡ 2
unfolding new
next_id = refl

abbrev queue : List OutFrame
queue = data_frame 0 (7 ∷ 7 ∷ []) ∷ data_frame 0 (8 ∷ 8 ∷ []) ∷ []

gets_through : whole 15 queue ≡ data_frame 0 (7 ∷ 7 ∷ []) ∷ []
gets_through = refl

-- A server whose control stream is not read.
abbrev chunks : ℕ → List Bytes
chunks zero = []
chunks (suc n) = [] ∷ chunks n

abbrev unread : Inner
unread = record (new true) { channels = λ c. if 0 == c then some (chunks 64) else none }

-- A DATA frame of one byte for the control stream.
abbrev one_byte : Bytes
one_byte = 2 ∷ 0 ∷ 0 ∷ 0 ∷ 0 ∷ 1 ∷ 0 ∷ 0 ∷ 0 ∷ 7 ∷ []

waits : run_reader 11 unread one_byte ≡ some (waiting 0 unread one_byte)
unfolding run_reader awaits awaits_body is_at_capacity new decode from_le_bytes
waits = refl

run_reader-IsProgress_example :
    (p : Progress) × (run_reader (suc (length one_byte)) unread one_byte ≡ some p)
    × IsProgress unread one_byte p
run_reader-IsProgress_example = run_reader-IsProgress unread one_byte

reachable-Kept_example : Kept false client
reachable-Kept_example = reachable-Kept false (
    then_step (new false) client start
      (opens (new false) client (send_half 0 none) (recv_half 0 0 []) hands_out_control))
