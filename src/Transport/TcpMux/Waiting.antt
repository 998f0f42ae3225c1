-- ===== src/Transport/TcpMux/Waiting.antt =====
-- crates/krot-transport/src/tcp_mux.rs: the reader task where a channel may be full. Its send then
-- waits until the stream is read or dropped, and no other frame is taken meanwhile.
use krot.Base.{
  ℕ, zero, suc, ◌<◌, ◌≤◌, ◌≡◌, refl, sym, ◌∙◌, inl, inr, leb, ltb, if◌then◌else◌, Bool, true, false,
  Bool-cases, Option-cases, Result-cases, Option, none, some, List, [], ◌++◌, append-nil,
  append_assoc, Bytes, length, All-append, ok, err, arith,
}
use krot.Proto.Consts.{mux_header_size}
use krot.Proto.Mux.{open_flag, data_flag, fin_flag, MuxHeader, decode}
use krot.Transport.Frame.{read_exact}
use krot.Transport.TcpMux.{Inner, max_mux_payload}
use krot.Transport.TcpMux.Tasks.{deliver, read_body, read_turn, reader_loop, reader_task}
use krot.Transport.TcpMux.Wire.{ended}
use krot.Transport.TcpMux.Ending.{IsPeerStream, Grows, flag_cases, read_turn-Grows}

abbrev pub stream_inbound_capacity : ℕ
stream_inbound_capacity = 64

-- Whether a send would wait. To a dropped receiver it fails at once.
unfoldable pub is_at_capacity : Option (List Bytes) → Bool
is_at_capacity none = false
is_at_capacity (some chunks) = leb stream_inbound_capacity (length chunks)

-- The full channel that the chunk of a DATA frame is for, with the bytes behind the header.
unfoldable pub awaits_body : MuxHeader → Inner → Bytes → Option ℕ
unfolding read_exact is_at_capacity
awaits_body header inner input = elim header.flag [
  | open_flag ↦ none
  | fin_flag ↦ none
  | data_flag ↦
      if ltb max_mux_payload header.payload_len
      then none
      else elim (read_exact header.payload_len input) [
        | err _ ↦ none
        | ok (buf, rest) ↦ elim (inner.streams header.stream_id) [
          | none ↦ none
          | some c ↦ if is_at_capacity (inner.channels c) then some c else none
        ]
      ]
]

-- The full channel that the reader would wait for in its next round.
unfoldable pub awaits : Inner → Bytes → Option ℕ
unfolding awaits_body read_exact
awaits inner input = elim (read_exact mux_header_size input) [
  | err _ ↦ none
  | ok (header_buf, rest) ↦ elim (decode header_buf) [
    | err _ ↦ none
    | ok header ↦ awaits_body header inner rest
  ]
]

-- Where the reader comes to, as long as nobody reads: its end, or a wait for a channel, in a state
-- and before bytes that begin with the frame in hand.
pub data Progress : Type 0 where
  finished : Inner → Progress
  waiting : ℕ → Inner → Bytes → Progress

unfoldable pub run_reader : ℕ → Inner → Bytes → Option Progress
unfolding awaits read_turn
run_reader zero inner input = none
run_reader (suc fuel) inner input = elim (awaits inner input) [
  | some c ↦ some (waiting c inner input)
  | none ↦ elim (read_turn inner input) [
    | none ↦ some (finished (ended inner))
    | some (inner', rest) ↦ run_reader fuel inner' rest
  ]
]

-- A wait for a channel ends with a round that takes the frame, in whatever state there is room.
abbrev pub GoesOn : Bytes → Type 0
GoesOn rest =
    (later : Inner)
    → awaits later rest ≡ none
    → (next : Inner) × (left : Bytes) × (read_turn later rest ≡ some (next, left))
      × (length left < length rest)

abbrev IsRun : ℕ → Inner → Bytes → Progress → Type 0
IsRun fuel inner input (finished inner') =
    (inner'.closed ≡ true) × Grows inner inner' × (reader_loop fuel inner input ≡ some inner')
IsRun fuel inner input (waiting c inner' rest) =
    Grows inner inner'
    × ((chunks : List Bytes) × (inner'.channels c ≡ some chunks)
        × (stream_inbound_capacity ≤ length chunks))
    × (length rest ≤ length input)
    × GoesOn rest

-- The end is that of `reader_task`, whose sends find room.
abbrev pub IsProgress : Inner → Bytes → Progress → Type 0
IsProgress inner input (finished inner') =
    (inner'.closed ≡ true) × Grows inner inner' × (reader_task inner input ≡ some inner')
IsProgress inner input (waiting c inner' rest) =
    Grows inner inner'
    × ((chunks : List Bytes) × (inner'.channels c ≡ some chunks)
        × (stream_inbound_capacity ≤ length chunks))
    × (length rest ≤ length input)
    × GoesOn rest

is_at_capacity-chunks :
    (channel : Option (List Bytes))
    → is_at_capacity channel ≡ true
    → (chunks : List Bytes) × (channel ≡ some chunks) × (stream_inbound_capacity ≤ length chunks)
unfolding is_at_capacity
is_at_capacity-chunks none h = cc
is_at_capacity-chunks (some chunks) h = (chunks, refl, ground (arith, h))

awaits_body-full :
    (header : MuxHeader) (inner : Inner) (input : Bytes) (c : ℕ)
    → awaits_body header inner input ≡ some c
    → (is_at_capacity (inner.channels c) ≡ true)
      × ((later : Inner)
          → (next : Inner) × (left : Bytes) × (read_body header later input ≡ some (next, left)))
unfolding awaits_body read_body
awaits_body-full header inner input c h = elim (flag_cases header.flag) [
  | inl f ↦ absurd (ground (arith, h, f))
  | inr (inr f) ↦ absurd (ground (arith, h, f))
  | inr (inl f) ↦ elim (Bool-cases (ltb max_mux_payload header.payload_len)) [
    | inl large ↦ absurd (ground (arith, h, f, large))
    | inr small ↦ elim (Result-cases (read_exact header.payload_len input)) [
      | inl (_, failed) ↦ absurd (ground (arith, h, f, small, failed))
      | inr ((buf, rest), read) ↦ elim (Option-cases (inner.streams header.stream_id)) [
        | inl unknown ↦ absurd (ground (arith, h, f, small, read, unknown))
        | inr (c', known) ↦ (
          ground (arith, h, f, small, read, known),
          λ later. (deliver header.stream_id buf later, rest, ground (arith, f, small, read)),
        )
      ]
    ]
  ]
]

read_turn-decoded :
    (inner : Inner) (input buf behind : Bytes) (header : MuxHeader)
    → read_exact mux_header_size input ≡ ok (buf, behind)
    → decode buf ≡ ok header
    → read_turn inner input ≡ read_body header inner behind
unfolding read_turn
read_turn-decoded inner input buf behind header read decoded =
    rw (read, read_turn) (rw (decoded, read_turn) refl)

awaits-full :
    (inner : Inner) (input : Bytes) (c : ℕ)
    → awaits inner input ≡ some c
    → (is_at_capacity (inner.channels c) ≡ true) × GoesOn input
unfolding awaits
awaits-full inner input c h = elim (Result-cases (read_exact mux_header_size input)) [
  | inl (_, failed) ↦ absurd (ground (arith, h, failed))
  | inr ((buf, behind), read) ↦ elim (Result-cases (decode buf)) [
    | inl (_, failed) ↦ absurd (ground (arith, h, read, failed))
    | inr (header, decoded) ↦
        let (full, goes) =
          awaits_body-full header inner behind c (ground (arith, h, read, decoded)) in
        (
          full,
          λ later _.
              let (next, left, body) = goes later in
              let turn = read_turn-decoded later input buf behind header read decoded ∙ body in
              (next, left, turn, (read_turn-Grows later next input left turn).1),
        )
  ]
]

Grows-refl : (inner : Inner) → Grows inner inner
Grows-refl inner = (λ v. v, (refl, refl), ([], sym (append-nil inner.accept_tx), tt))

Grows-trans : (a b c : Inner) → Grows a b → Grows b c → Grows a c
Grows-trans a b c (valid, (side, ids), (one, grown, peers))
      (valid', (side', ids'), (later, grown', peers')) =
    (
      λ v. valid' (valid v),
      (side' ∙ side, ids' ∙ ids),
      (
        one ++ later,
        ground (arith, grown, grown', append_assoc a.accept_tx one later),
        All-append IsPeerStream one later peers peers',
      ),
    )

-- What one more round in front does to the rest of the run.
after_turn :
    (fuel : ℕ) (inner next : Inner) (input rest : Bytes) (p : Progress)
    → read_turn inner input ≡ some (next, rest)
    → Grows inner next × (length rest < length input)
    → IsRun fuel next rest p
    → IsRun (suc fuel) inner input p
unfolding reader_loop
after_turn fuel inner next input rest (finished inner') turn (grown, less) (closed, more, run) =
    (closed, Grows-trans inner next inner' grown more, ground (arith, turn, run))
after_turn fuel inner next input rest (waiting c inner' left) turn (grown, less)
      (more, full, fewer, goes) =
    (Grows-trans inner next inner' grown more, full, omega (arith, less, fewer), goes)

run_reader-IsRun :
    (fuel : ℕ) (inner : Inner) (input : Bytes)
    → length input < fuel
    → (p : Progress) × (run_reader fuel inner input ≡ some p) × IsRun fuel inner input p
unfolding run_reader reader_loop
run_reader-IsRun zero inner input h = absurd (omega (arith, h))
run_reader-IsRun (suc fuel) inner input h = elim (Option-cases (awaits inner input)) [
  | inr (c, blocked) ↦
      let (full, goes) = awaits-full inner input c blocked in
      (
        waiting c inner input,
        ground (arith, blocked),
        (Grows-refl inner, is_at_capacity-chunks (inner.channels c) full, omega arith, goes),
      )
  | inl room ↦ elim (Option-cases (read_turn inner input)) [
    | inl stop ↦ (
      finished (ended inner),
      ground (arith, room, stop),
      (
        refl,
        (
          λ v. record { owner = v.owner; kept = v.kept },
          (refl, refl),
          ([], sym (append-nil inner.accept_tx), tt),
        ),
        ground (arith, stop),
      ),
    )
    | inr ((next, rest), turn) ↦
        let grown = read_turn-Grows inner next input rest turn in
        let (p, run, is_run) = run_reader-IsRun fuel next rest (omega (arith, h, grown.1)) in
        (
          p,
          ground (arith, room, turn, run),
          after_turn fuel inner next input rest p turn grown is_run,
        )
  ]
]

-- Whatever bytes arrive, the reader task comes to its end, with the connection closed, or to a wait
-- for a channel that holds its 64 chunks. Until then valid state stays valid, and the streams that the
-- task queues for `accept_bi` are behind those that waited, are never the control stream, and have a
-- header of nine bytes. The end is the one of `reader_task`, whose sends never wait. A wait ends with
-- a round that takes the frame at hand, in every later state in which there is room, and fewer bytes
-- are left then.
pub run_reader-IsProgress :
    (inner : Inner) (input : Bytes)
    → (p : Progress) × (run_reader (suc (length input)) inner input ≡ some p)
      × IsProgress inner input p
unfolding reader_task
run_reader-IsProgress inner input = run_reader-IsRun (suc (length input)) inner input (omega arith)
