-- ===== src/Transport/TcpMux/Wire.antt =====
-- The writer and the reader of the mux together: what one task writes of its queue, the other reads.
use krot.Base.{
  ℕ, zero, suc, ◌+◌, ◌-◌, ◌≤◌, ◌<◌, ◌≡◌, ◌≢◌, refl, ap, ◌∙◌, inl, inr, leb, if◌then◌else◌, true,
  false, List, [], ◌∷◌, ◌++◌, append-nil, append_assoc, Bytes, length, take, to_le_bytes, arith,
}
use krot.Base.Order.{le_or_lt}
use krot.Proto.Consts.{control_stream_id}
use krot.Proto.Mux.{MuxFlag, open_flag, data_flag, fin_flag, MuxHeader, to_bytes}
use krot.Proto.Mux.Header.{IsWellFormed}
use krot.Transport.TcpMux.{OutFrame, frame, close, Inner, max_mux_payload, remove_stream}
use krot.Transport.TcpMux.Tasks.{
  accept_stream, deliver, Pipe, write_all, write_payload, writer_task,
}

-- The bytes of a queue.
abbrev pub wire : List OutFrame → Bytes
wire [] = []
wire (close ∷ queue) = []
wire (frame header payload ∷ queue) = to_bytes header ++ (payload ++ wire queue)

-- What a frame does to the side that receives it.
unfoldable pub dispatch : MuxFlag → ℕ → Bytes → Inner → Inner
unfolding accept_stream deliver remove_stream
dispatch open_flag id payload inner = accept_stream id payload inner
dispatch data_flag id payload inner = deliver id payload inner
dispatch fin_flag id payload inner = remove_stream id inner

abbrev pub dispatch_all : List OutFrame → Inner → Inner
dispatch_all [] inner = inner
dispatch_all (close ∷ queue) inner = inner
dispatch_all (frame header payload ∷ queue) inner =
    dispatch_all queue (dispatch header.flag header.stream_id payload inner)

-- The reader's last write.
abbrev pub ended : Inner → Inner
ended inner = record inner { closed = true }

-- A frame that the reader takes: the header is well formed and says the payload's length, which is
-- within the limit, and no OPEN is for the control stream.
abbrev pub IsSendable : OutFrame → Type 0
IsSendable close = Unit {0}
IsSendable (frame header payload) =
    IsWellFormed header
    × (header.payload_len ≡ length payload)
    × (length payload ≤ max_mux_payload)
    × (header.flag ≡ open_flag → header.stream_id ≢ control_stream_id)

-- The frames of which all bytes are among the first `room`.
abbrev pub whole : ℕ → List OutFrame → List OutFrame
whole room [] = []
whole room (close ∷ queue) = []
whole room (frame header payload ∷ queue) =
    let rest = whole (room - (9 + length payload)) queue in
    if leb (9 + length payload) room then frame header payload ∷ rest else []

pub take-nil : (n : ℕ) → take {A = ℕ} n [] ≡ []
take-nil zero = refl
take-nil (suc n) = refl

pub take-append_le : (n : ℕ) (xs ys : Bytes) → n ≤ length xs → take n (xs ++ ys) ≡ take n xs
take-append_le zero xs ys h = refl
take-append_le (suc n) [] ys h = absurd (omega arith)
take-append_le (suc n) (x ∷ xs) ys h = ap (◌∷◌ x) (take-append_le n xs ys (omega arith))

pub take-append_ge :
    (n : ℕ) (xs ys : Bytes) → length xs ≤ n → take n (xs ++ ys) ≡ xs ++ take (n - length xs) ys
take-append_ge n [] ys h = ap (λ k. take {A = ℕ} k ys) (omega arith)
take-append_ge zero (x ∷ xs) ys h = absurd (omega arith)
take-append_ge (suc n) (x ∷ xs) ys h =
    ap (◌∷◌ x) (take-append_ge n xs ys (omega arith) ∙ ap (λ k. xs ++ take k ys) (omega arith))

pub length-to_bytes : (header : MuxHeader) → length (to_bytes header) ≡ 9
unfolding to_bytes to_le_bytes
length-to_bytes header = refl

-- Bytes that the pipe has room for, and bytes that it fails on.
write_all-fits :
    (pipe : Pipe) (bytes : Bytes)
    → length bytes ≤ pipe.room
    → write_all pipe bytes
      ≡ (true, record pipe { written = pipe.written ++ bytes; room = pipe.room - length bytes })
unfolding write_all
write_all-fits pipe bytes h = ground arith

write_all-fails :
    (pipe : Pipe) (bytes : Bytes)
    → pipe.room < length bytes
    → write_all pipe bytes
      ≡ (false, record pipe { written = pipe.written ++ take pipe.room bytes; room = 0 })
unfolding write_all
write_all-fails pipe bytes h = ground arith

write_payload-fits :
    (pipe : Pipe) (bytes : Bytes)
    → length bytes ≤ pipe.room
    → write_payload pipe bytes
      ≡ (true, record pipe { written = pipe.written ++ bytes; room = pipe.room - length bytes })
unfolding write_payload
write_payload-fits pipe [] h = ground (arith, append-nil pipe.written)
write_payload-fits pipe (b ∷ bytes) h = write_all-fits pipe (b ∷ bytes) h

write_payload-fails :
    (pipe : Pipe) (bytes : Bytes)
    → pipe.room < length bytes
    → write_payload pipe bytes
      ≡ (false, record pipe { written = pipe.written ++ take pipe.room bytes; room = 0 })
unfolding write_payload
write_payload-fails pipe [] h = absurd (omega arith)
write_payload-fails pipe (b ∷ bytes) h = write_all-fails pipe (b ∷ bytes) h

-- The writer writes its queue, up to the point where the pipe fails.
pub written-writer_task :
    (pipe : Pipe) (queue : List OutFrame)
    → (writer_task pipe queue).written ≡ pipe.written ++ take pipe.room (wire queue)
unfolding writer_task
written-writer_task pipe [] = rw (take-nil pipe.room, append-nil) refl
written-writer_task pipe (close ∷ queue) = rw (take-nil pipe.room, append-nil) refl
written-writer_task pipe (frame header payload ∷ queue) =
    let nine = length-to_bytes header in
    elim (le_or_lt 9 pipe.room) [
      | inr short ↦ ground (
        arith,
        write_all-fails pipe (to_bytes header) (omega (arith, nine)),
        take-append_le pipe.room (to_bytes header) (payload ++ wire queue) (omega (arith, nine)),
      )
      | inl enough ↦
          let pipe' : Pipe = record pipe {
            written = pipe.written ++ to_bytes header;
            room = pipe.room - 9;
          } in
          let wrote = write_all-fits pipe (to_bytes header) (omega (arith, nine)) in
          let cut =
            take-append_ge pipe.room (to_bytes header) (payload ++ wire queue)
              (omega (arith, nine)) in
          elim (le_or_lt (length payload) pipe'.room) [
            | inr short ↦ ground (
              arith,
              wrote,
              write_payload-fails pipe' payload short,
              cut,
              nine,
              take-append_le pipe'.room payload (wire queue) (omega arith),
              append_assoc pipe.written (to_bytes header) (take pipe'.room payload),
            )
            | inl room ↦
                let pipe'' : Pipe = record pipe' {
                  written = pipe'.written ++ payload;
                  room = pipe'.room - length payload;
                } in
                let rest = take pipe''.room (wire queue) in
                ground (
                  arith,
                  wrote,
                  write_payload-fits pipe' payload room,
                  cut,
                  nine,
                  take-append_ge pipe'.room payload (wire queue) room,
                  written-writer_task pipe'' queue,
                  append_assoc pipe.written (to_bytes header) (payload ++ rest),
                  append_assoc pipe'.written payload rest,
                )
          ]
    ]
