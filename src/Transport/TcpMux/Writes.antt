-- ===== src/Transport/TcpMux/Writes.antt =====
-- What the writes on a stream put on the connection's queue, among the frames of other streams.
use krot.Base.{
  ℕ, ◌+◌, ◌<◌, ◌≤◌, ◌≡◌, ◌≢◌, refl, ap, ◌∙◌, ◌==◌, if◌then◌else◌, false, Option, none, some, List,
  [], ◌∷◌, ◌++◌, append-nil, append_assoc, Bytes, length, All, IsU32, ok, err, All-append, arith,
}
use krot.Transport.TcpMux.{OutFrame, frame, close, Inner, max_mux_payload, send_frame}
use krot.Transport.TcpMux.Conn.{TcpMuxSendStream}
use krot.Transport.TcpMux.Streams.{data_frame, write_rest, poll_write}
use krot.Transport.TcpMux.Wire.{IsSendable}
use krot.Transport.TcpMux.Channels.{chunks_of, is_ended}

-- What happens on a connection beside one stream: a write on it, or another stream's frame.
pub data Event : Type 0 where
  mine : (buf : Bytes) → Event
  theirs : OutFrame → Event

-- A run of events, in which every write takes all of its buffer.
unfoldable pub run_events :
    List Event → TcpMuxSendStream → Inner → Option (TcpMuxSendStream × Inner)
unfolding poll_write send_frame
run_events [] send inner = some (send, inner)
run_events (mine buf ∷ events) send inner =
    let (result, send', inner') = poll_write buf send inner in
    let rest = run_events events send' inner' in
    elim result [ err _ ↦ none | ok n ↦ if n == length buf then rest else none ]
run_events (theirs out ∷ events) send inner = elim (send_frame out inner) [
  | none ↦ none
  | some inner' ↦ run_events events send inner'
]

-- What the stream is given to write.
abbrev pub bytes_of : List Event → Bytes
bytes_of [] = []
bytes_of (mine buf ∷ events) = buf ++ bytes_of events
bytes_of (theirs out ∷ events) = bytes_of events

abbrev pub concat : List Bytes → Bytes
concat [] = []
concat (chunk ∷ chunks) = chunk ++ concat chunks

-- A frame of another stream, that the reader takes.
abbrev pub IsOther : ℕ → OutFrame → Type 0
IsOther id close = ⊥
IsOther id (frame header payload) = IsSendable (frame header payload) × (header.stream_id ≢ id)

-- A write is within the limit of a frame.
abbrev pub IsEvent : ℕ → Event → Type 0
IsEvent id (mine buf) = length buf ≤ max_mux_payload
IsEvent id (theirs out) = IsOther id out

-- A connection that takes frames.
abbrev pub IsOpen : Inner → Type 0
IsOpen inner = (inner.closed ≡ false) × (inner.writer_gone ≡ false)

abbrev pub with_sent : Inner → List OutFrame → Inner
with_sent inner frames = record inner { writer_tx = inner.writer_tx ++ frames }

-- The frame that carries a buffer, which is none for an empty one.
abbrev pub data_frames : ℕ → Bytes → List OutFrame
data_frames id [] = []
data_frames id (b ∷ buf) = data_frame id (b ∷ buf) ∷ []

with_sent-nil : (inner : Inner) → with_sent inner [] ≡ inner
with_sent-nil inner = ground (arith, append-nil inner.writer_tx)

pub with_sent-with_sent :
    (inner : Inner) (frames more : List OutFrame)
    → with_sent (with_sent inner frames) more ≡ with_sent inner (frames ++ more)
with_sent-with_sent inner frames more = ground (arith, append_assoc inner.writer_tx frames more)

pub write_rest-with_sent :
    (cursor : ℕ) (buf : Bytes) (send : TcpMuxSendStream) (inner : Inner)
    → inner.writer_gone ≡ false
    → write_rest cursor buf send inner
      ≡ (ok (cursor + length buf), send, with_sent inner (data_frames send.stream_id buf))
unfolding write_rest send_frame
write_rest-with_sent cursor [] send inner h = ground (arith, with_sent-nil inner)
write_rest-with_sent cursor (b ∷ buf) send inner h = ground (arith, h)

abbrev pub IsFilled : Bytes → Type 0
IsFilled chunk = 0 < length chunk

-- What frames do to their stream, with any queue behind them: they carry these bytes on, in chunks
-- that are not empty, and they do not end it.
abbrev pub Carries : ℕ → List OutFrame → Bytes → Type 0
Carries id frames bytes =
    (tail : List OutFrame)
    → (concat (chunks_of id (frames ++ tail)) ≡ bytes ++ concat (chunks_of id tail))
      × (is_ended id (frames ++ tail) ≡ is_ended id tail)
      × (All IsFilled (chunks_of id tail) → All IsFilled (chunks_of id (frames ++ tail)))

pub data_frames-Carries : (id : ℕ) (buf : Bytes) → Carries id (data_frames id buf) buf
data_frames-Carries id [] tail = (refl, refl, λ t. t)
data_frames-Carries id (b ∷ buf) tail = (ground arith, ground arith, λ t. ground arith)

pub Carries-append :
    (id : ℕ) (frames more : List OutFrame) (bytes bytes' : Bytes)
    → Carries id frames bytes
    → Carries id more bytes'
    → Carries id (frames ++ more) (bytes ++ bytes')
Carries-append id frames more bytes bytes' h h' tail =
    let (e, f, g) = h (more ++ tail) in
    let (e', f', g') = h' tail in
    rw (append_assoc frames more tail, append_assoc bytes bytes' (concat (chunks_of id tail)))
      (e ∙ ap (λ x. bytes ++ x) e', f ∙ f', λ t. g (g' t))

other-Carries : (id : ℕ) (out : OutFrame) → IsOther id out → Carries id (out ∷ []) []
other-Carries id close h tail = absurd h
other-Carries id (frame header payload) h tail =
    (ground (arith, h.1), ground (arith, h.1), λ t. ground (arith, h.1))

pub data_frames-IsSendable :
    (id : ℕ) (buf : Bytes)
    → IsU32 id
    → length buf ≤ max_mux_payload
    → All IsSendable (data_frames id buf)
data_frames-IsSendable id [] hid h = tt
data_frames-IsSendable id (b ∷ buf) hid h = (
  (
    record { id_fits = hid; len_fits = omega arith; fin_empty = λ e. cc; open_nine = λ e. cc },
    omega arith,
    h,
    λ e. cc,
  ),
  tt,
)

-- The frames of a run, behind which the half is `send`.
abbrev pub Runs : ℕ → List Event → (send send' : TcpMuxSendStream) → Inner → List OutFrame → Type 0
Runs id events send send' inner frames =
    (run_events events send inner ≡ some (send', with_sent inner frames)) × All IsSendable frames

-- Once the stream's OPEN is out, its writes go into DATA frames.
pub run_events-Carries :
    (events : List Event) (send : TcpMuxSendStream) (inner : Inner)
    → send.pending_open ≡ none
    → send.finished ≡ false
    → IsU32 send.stream_id
    → IsOpen inner
    → All (IsEvent send.stream_id) events
    → (frames : List OutFrame) × Runs send.stream_id events send send inner frames
      × Carries send.stream_id frames (bytes_of events)
unfolding run_events poll_write send_frame
run_events-Carries [] send inner none_pending live hid up h =
    ([], (ground (arith, with_sent-nil inner), tt), λ tail. (refl, refl, λ t. t))
run_events-Carries (mine buf ∷ events) send inner none_pending live hid up h =
    let id = send.stream_id in
    let first = data_frames id buf in
    let (frames, (run, sendable), carries) =
      run_events-Carries events send (with_sent inner first) none_pending live hid up h.1 in
    (
      first ++ frames,
      (
        ground (
          arith,
          none_pending,
          live,
          up,
          write_rest-with_sent 0 buf send inner up.1,
          run,
          with_sent-with_sent inner first frames,
        ),
        All-append IsSendable first frames (data_frames-IsSendable id buf hid h.0) sendable,
      ),
      Carries-append id first frames buf (bytes_of events) (data_frames-Carries id buf) carries,
    )
run_events-Carries (theirs close ∷ events) send inner none_pending live hid up h = absurd h.0
run_events-Carries (theirs (frame header payload) ∷ events) send inner none_pending live hid up h =
    let id = send.stream_id in
    let out = frame header payload in
    let (frames, (run, sendable), carries) =
      run_events-Carries events send (with_sent inner (out ∷ [])) none_pending live hid up h.1 in
    (
      out ∷ frames,
      (ground (arith, up, run, with_sent-with_sent inner (out ∷ []) frames), (h.0.0, sendable)),
      Carries-append id (out ∷ []) frames [] (bytes_of events) (other-Carries id out h.0) carries,
    )
