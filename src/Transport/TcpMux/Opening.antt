-- ===== src/Transport/TcpMux/Opening.antt =====
-- The writes of a stream that `open_bi` returned: its first nine bytes go out as the OPEN frame.
use krot.Base.{
  ℕ, ◌+◌, ◌-◌, ◌<◌, ◌≤◌, min, ◌≡◌, ◌≢◌, refl, sym, inl, inr, false, none, some, List, [], ◌∷◌, ◌++◌,
  append_assoc, Bytes, length, take, drop, All, All-append, IsU32, ok, length-append, length-take,
  take-all, take-drop, arith,
}
use krot.Base.Order.{le_or_lt}
use krot.Proto.Consts.{control_stream_id}
use krot.Transport.Frame.Reading.{length-drop}
use krot.Transport.TcpMux.{OutFrame, frame, close, Inner, max_mux_payload, send_frame}
use krot.Transport.TcpMux.Conn.{TcpMuxSendStream, open_frame}
use krot.Transport.TcpMux.Streams.{write_open, poll_write}
use krot.Transport.TcpMux.Wire.{IsSendable}
use krot.Transport.TcpMux.Delivery.{find_open}
use krot.Transport.TcpMux.Writes.{
  Event, mine, theirs, run_events, bytes_of, IsOther, IsEvent, IsOpen, with_sent, data_frames,
  with_sent-with_sent, write_rest-with_sent, Carries, data_frames-Carries, Carries-append,
  data_frames-IsSendable, Runs, run_events-Carries,
}

-- Frames that open a stream, with any queue behind them, and carry these bytes in all.
pub record Opens (id : ℕ) (frames : List OutFrame) (bytes : Bytes) : Type 0 where
  pub payload : Bytes
  pub behind : List OutFrame
  pub rest : Bytes
  pub nine : length payload ≡ 9
  pub split : payload ++ rest ≡ bytes
  pub carries : Carries id behind rest
  pub found :
      (tail : List OutFrame) → find_open id (frames ++ tail) ≡ some (payload, behind ++ tail)

-- The half behind its OPEN.
abbrev pub opened : TcpMuxSendStream → TcpMuxSendStream
opened send = record send { pending_open = none }

abbrev holding : Bytes → TcpMuxSendStream → TcpMuxSendStream
holding held send = record send { pending_open = some held }

write_open-part :
    (held buf : Bytes) (send : TcpMuxSendStream) (inner : Inner)
    → length held + length buf < 9
    → write_open held buf send inner ≡ (ok (length buf), holding (held ++ buf) send, inner)
unfolding write_open
write_open-part held buf send inner h =
    let n : ℕ = min (9 - length held) (length buf) in
    let all : n ≡ length buf = omega arith in
    ground (arith, all, take-all n buf (omega arith), length-append held buf)

-- The frames that such a write sends.
abbrev opening : ℕ → Bytes → Bytes → List OutFrame
opening id held buf =
    let n = 9 - length held in open_frame id (held ++ take n buf) ∷ data_frames id (drop n buf)

write_open-opening :
    (held buf : Bytes) (send : TcpMuxSendStream) (inner : Inner)
    → length held < 9
    → 9 ≤ length held + length buf
    → inner.writer_gone ≡ false
    → write_open held buf send inner
      ≡ (ok (length buf), opened send, with_sent inner (opening send.stream_id held buf))
unfolding write_open send_frame
write_open-opening held buf send inner h h' up =
    let n : ℕ = 9 - length held in
    let least : min n (length buf) ≡ n = omega arith in
    let first = open_frame send.stream_id (held ++ take n buf) in
    ground (
      arith,
      least,
      up,
      length-append held (take n buf),
      length-take n buf (omega arith),
      length-drop n buf (omega arith),
      write_rest-with_sent n (drop n buf) (opened send) (with_sent inner (first ∷ [])) up,
      with_sent-with_sent inner (first ∷ []) (data_frames send.stream_id (drop n buf)),
    )

opening-Opens :
    (id : ℕ) (held buf : Bytes) (frames : List OutFrame) (bytes : Bytes)
    → length held < 9
    → 9 ≤ length held + length buf
    → Carries id frames bytes
    → Opens id (opening id held buf ++ frames) ((held ++ buf) ++ bytes)
opening-Opens id held buf frames bytes h h' carries =
    let n = 9 - length held in
    record {
      payload = held ++ take n buf;
      behind = data_frames id (drop n buf) ++ frames;
      rest = drop n buf ++ bytes;
      nine = omega (arith, length-append held (take n buf), length-take n buf (omega arith));
      split =
          rw
            (
              ← append_assoc (held ++ take n buf) (drop n buf) bytes,
              append_assoc held (take n buf) (drop n buf),
              take-drop n buf,
            )
            refl;
      carries =
          Carries-append id (data_frames id (drop n buf)) frames (drop n buf) bytes
            (data_frames-Carries id (drop n buf)) carries;
      found = λ tail. ground arith;
    }

opening-IsSendable :
    (id : ℕ) (held buf : Bytes)
    → IsU32 id
    → id ≢ control_stream_id
    → length held < 9
    → 9 ≤ length held + length buf
    → length buf ≤ max_mux_payload
    → All IsSendable (opening id held buf)
opening-IsSendable id held buf hid ne h h' small =
    let n = 9 - length held in
    let nine : length (held ++ take n buf) ≡ 9 =
      omega (arith, length-append held (take n buf), length-take n buf (omega arith)) in
    (
      (
        record {
          id_fits = hid;
          len_fits = omega arith;
          fin_empty = λ e. cc;
          open_nine = λ e. refl;
        },
        sym nine,
        omega (arith, nine),
        λ _. ne,
      ),
      data_frames-IsSendable id (drop n buf) hid (omega (arith, length-drop n buf (omega arith))),
    )

other-Opens :
    (id : ℕ) (out : OutFrame) (frames : List OutFrame) (bytes : Bytes)
    → IsOther id out
    → Opens id frames bytes
    → Opens id (out ∷ frames) bytes
other-Opens id close frames bytes h o = absurd h
other-Opens id (frame header payload) frames bytes h o = record {
  payload = o.payload;
  behind = o.behind;
  rest = o.rest;
  nine = o.nine;
  split = o.split;
  carries = o.carries;
  found = λ tail. ground (arith, h.1, o.found tail);
}

-- A stream that holds back fewer than nine bytes and is given the others, as its connection runs:
-- every write takes its whole buffer, and the frames of the run open the stream and carry all bytes.
pub run_events-Opens :
    (events : List Event) (send : TcpMuxSendStream) (inner : Inner) (held : Bytes)
    → send.pending_open ≡ some held
    → length held < 9
    → 9 ≤ length held + length (bytes_of events)
    → send.finished ≡ false
    → IsU32 send.stream_id
    → send.stream_id ≢ control_stream_id
    → IsOpen inner
    → All (IsEvent send.stream_id) events
    → (frames : List OutFrame) × Runs send.stream_id events send (opened send) inner frames
      × Opens send.stream_id frames (held ++ bytes_of events)
unfolding run_events poll_write send_frame
run_events-Opens [] send inner held pending few enough live hid ne up h = absurd (omega arith)
run_events-Opens (mine buf ∷ events) send inner held pending few enough live hid ne up h =
    let id = send.stream_id in
    let both = length-append buf (bytes_of events) in
    elim (le_or_lt 9 (length held + length buf)) [
      | inr part ↦
          let (frames, (run, sendable), opens) =
            run_events-Opens events (holding (held ++ buf) send) inner (held ++ buf) refl
              (omega (arith, length-append held buf)) (omega (arith, both, length-append held buf))
              live hid ne up h.1 in
          (
            frames,
            (
              ground (arith, pending, live, up, write_open-part held buf send inner part, run),
              sendable,
            ),
            rw (← append_assoc held buf (bytes_of events)) opens,
          )
      | inl full ↦
          let first = opening id held buf in
          let (frames, (run, sendable), carries) =
            run_events-Carries events (opened send) (with_sent inner first) refl live hid up h.1 in
          (
            first ++ frames,
            (
              ground (
                arith,
                pending,
                live,
                up,
                write_open-opening held buf send inner few full up.1,
                run,
                with_sent-with_sent inner first frames,
              ),
              All-append IsSendable first frames
                  (opening-IsSendable id held buf hid ne few full h.0) sendable,
            ),
            rw (← append_assoc held buf (bytes_of events))
                (opening-Opens id held buf frames (bytes_of events) few full carries),
          )
    ]
run_events-Opens (theirs close ∷ events) send inner held pending few enough live hid ne up h =
    absurd h.0
run_events-Opens (theirs (frame header payload) ∷ events) send inner held pending few enough live
      hid ne up h =
    let id = send.stream_id in
    let out = frame header payload in
    let (frames, (run, sendable), opens) =
      run_events-Opens events send (with_sent inner (out ∷ [])) held pending few enough live hid ne
        up h.1 in
    (
      out ∷ frames,
      (ground (arith, up, run, with_sent-with_sent inner (out ∷ []) frames), (h.0.0, sendable)),
      other-Opens id out frames (held ++ bytes_of events) h.0 opens,
    )
