-- ===== src/Transport/TcpMux/Tandem.antt =====
-- The reader of the mux on what the writer wrote.
use krot.Base.{
  ℕ, zero, suc, ◌+◌, ◌-◌, ◌≤◌, ◌<◌, ◌≡◌, refl, sym, ap, ◌∙◌, inl, inr, none, some, List, [], ◌∷◌,
  ◌++◌, append-nil, Bytes, length, take, All, ok, err, arith, length-append, take-append,
  drop-append, length-take,
}
use krot.Base.Order.{le_or_lt}
use krot.Proto.Mux.{MuxHeader, to_bytes}
use krot.Proto.Mux.Header.{IsWellFormed, decode-to_bytes}
use krot.Transport.Frame.{read_exact_error, read_exact}
use krot.Transport.TcpMux.{OutFrame, frame, close, Inner}
use krot.Transport.TcpMux.Tasks.{read_body, read_turn, reader_loop, reader_task}
use krot.Transport.TcpMux.Wire.{
  wire, dispatch, dispatch_all, ended, IsSendable, whole, take-nil, take-append_le, take-append_ge,
  length-to_bytes,
}

read_exact-append :
    (n : ℕ) (xs rest : Bytes) → n ≡ length xs → read_exact n (xs ++ rest) ≡ ok (xs, rest)
unfolding read_exact
read_exact-append n xs rest e =
    rw e (ground (arith, length-append xs rest, take-append xs rest, drop-append xs rest))

read_exact-short : (n : ℕ) (xs : Bytes) → length xs < n → read_exact n xs ≡ err read_exact_error
unfolding read_exact
read_exact-short n xs h = ground arith

-- A whole header is read, and then the rest of the frame.
read_turn-to_bytes :
    (header : MuxHeader) (rest : Bytes) (inner : Inner)
    → IsWellFormed header
    → read_turn inner (to_bytes header ++ rest) ≡ read_body header inner rest
unfolding read_turn
read_turn-to_bytes header rest inner h = ground (
  read_exact-append 9 (to_bytes header) rest (sym (length-to_bytes header)),
  append-nil (to_bytes header),
  decode-to_bytes header [] h,
  arith,
)

-- A whole frame is read.
read_turn-frame :
    (header : MuxHeader) (payload rest : Bytes) (inner : Inner)
    → IsSendable (frame header payload)
    → read_turn inner (to_bytes header ++ (payload ++ rest))
      ≡ some (dispatch header.flag header.stream_id payload inner, rest)
unfolding read_body dispatch
read_turn-frame header payload rest inner h =
    read_turn-to_bytes header (payload ++ rest) inner h.0
    ∙ ground (
      arith,
      h.0.open_nine,
      h.0.fin_empty,
      read_exact-append 9 payload rest,
      read_exact-append header.payload_len payload rest h.1,
    )

-- A header with a part of its payload is not.
read_body-part :
    (n : ℕ) (header : MuxHeader) (payload : Bytes) (inner : Inner)
    → IsSendable (frame header payload)
    → n < length payload
    → read_body header inner (take n payload) ≡ none
unfolding read_body
read_body-part n header payload inner h cut = ground (
  arith,
  h.0.open_nine,
  h.0.fin_empty,
  h.1,
  length-take n payload,
  read_exact-short 9 (take n payload),
  read_exact-short header.payload_len (take n payload),
)

-- A part of a frame is not.
read_turn-part :
    (n : ℕ) (header : MuxHeader) (payload rest : Bytes) (inner : Inner)
    → IsSendable (frame header payload)
    → n < 9 + length payload
    → read_turn inner (take n (to_bytes header ++ (payload ++ rest))) ≡ none
unfolding read_turn
read_turn-part n header payload rest inner h cut =
    let nine = length-to_bytes header in
    elim (le_or_lt 9 n) [
      | inr short ↦
          rw (take-append_le n (to_bytes header) (payload ++ rest) (omega (arith, nine))) (
            ground (
              arith,
              read_exact-short 9 (take n (to_bytes header)),
              length-take n (to_bytes header),
            ))
      | inl enough ↦
          rw
            (
              take-append_ge n (to_bytes header) (payload ++ rest) (omega (arith, nine)),
              nine,
              take-append_le (n - 9) payload rest (omega arith),
            )
            (read_turn-to_bytes header (take (n - 9) payload) inner h.0
              ∙ read_body-part (n - 9) header payload inner h (omega arith))
    ]

-- The first bytes of a queue whose first frame is whole.
take-frame :
    (n : ℕ) (header : MuxHeader) (payload rest : Bytes)
    → 9 + length payload ≤ n
    → take n (to_bytes header ++ (payload ++ rest))
      ≡ to_bytes header ++ (payload ++ take (n - (9 + length payload)) rest)
take-frame n header payload rest h =
    let nine = length-to_bytes header in
    rw
      (
        take-append_ge n (to_bytes header) (payload ++ rest) (omega (arith, nine)),
        nine,
        take-append_ge (n - 9) payload rest (omega arith),
      )
      (ap (λ k. to_bytes header ++ (payload ++ take k rest)) (omega arith))

reader_loop-empty :
    (fuel : ℕ) (inner : Inner) → 0 < fuel → reader_loop fuel inner [] ≡ some (ended inner)
unfolding reader_loop read_turn read_exact
reader_loop-empty zero inner h = absurd (omega arith)
reader_loop-empty (suc fuel) inner h = refl

reader_loop-wire :
    (fuel room : ℕ) (queue : List OutFrame) (inner : Inner)
    → All IsSendable queue
    → length (take room (wire queue)) < fuel
    → reader_loop fuel inner (take room (wire queue))
      ≡ some (ended (dispatch_all (whole room queue) inner))
unfolding reader_loop
reader_loop-wire fuel room [] inner h more =
    rw (take-nil room) (reader_loop-empty fuel inner (omega arith))
reader_loop-wire fuel room (close ∷ queue) inner h more =
    rw (take-nil room) (reader_loop-empty fuel inner (omega arith))
reader_loop-wire zero room (frame header payload ∷ queue) inner h more = absurd (omega arith)
reader_loop-wire (suc fuel) room (frame header payload ∷ queue) inner h more =
    elim (le_or_lt (9 + length payload) room) [
      | inr part ↦ ground (arith, read_turn-part room header payload (wire queue) inner h.0 part)
      | inl room_for_it ↦
          let rest = take (room - (9 + length payload)) (wire queue) in
          let first = take-frame room header payload (wire queue) room_for_it in
          ground (
            arith,
            first,
            read_turn-frame header payload rest inner h.0,
            length-to_bytes header,
            length-append (to_bytes header) (payload ++ rest),
            length-append payload rest,
            reader_loop-wire fuel (room - (9 + length payload)) queue
                (dispatch header.flag header.stream_id payload inner) h.1,
          )
    ]

-- Of the first `room` bytes of a queue, the reader takes the whole frames, and ends.
pub reader_task-wire :
    (room : ℕ) (queue : List OutFrame) (inner : Inner)
    → All IsSendable queue
    → reader_task inner (take room (wire queue))
      ≡ some (ended (dispatch_all (whole room queue) inner))
unfolding reader_task
reader_task-wire room queue inner h =
    reader_loop-wire (suc (length (take room (wire queue)))) room queue inner h (omega arith)
