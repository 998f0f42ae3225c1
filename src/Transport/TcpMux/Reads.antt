-- ===== src/Transport/TcpMux/Reads.antt =====
-- The reads of a stream: the bytes of its channel come out in their order, whatever the buffers.
use krot.Base.{
  ℕ, zero, suc, ◌+◌, ◌<◌, ◌≤◌, min, ◌≡◌, refl, ◌==◌, if◌then◌else◌, false, Option, none, some, List,
  [], ◌∷◌, ◌++◌, append_assoc, Bytes, length, take, drop, All, length-append, length-take,
  take-drop, arith,
}
use krot.Transport.Frame.Reading.{length-drop}
use krot.Transport.TcpMux.{Inner, update}
use krot.Transport.TcpMux.Conn.{pending, ready, TcpMuxRecvStream, recv_half}
use krot.Transport.TcpMux.Streams.{is_kept, poll_read}
use krot.Transport.TcpMux.Writes.{concat, IsFilled}

-- A caller that reads into a buffer of one size until a read returns nothing. `none` if a read has to
-- wait, or the fuel runs out.
unfoldable pub read_to_end : (fuel remaining : ℕ) → TcpMuxRecvStream → Inner → Option Bytes
unfolding poll_read
read_to_end zero remaining recv inner = none
read_to_end (suc fuel) remaining recv inner = elim (poll_read remaining recv inner) [
  | pending ↦ none
  | ready (bytes, recv', inner') ↦ elim (read_to_end fuel remaining recv' inner') [
    | none ↦ if length bytes == 0 then some [] else none
    | some more ↦ if length bytes == 0 then some [] else some (bytes ++ more)
  ]
]

drop-all : (n : ℕ) (xs : Bytes) → length xs ≤ n → drop n xs ≡ []
drop-all zero [] h = refl
drop-all zero (x ∷ xs) h = absurd (omega arith)
drop-all (suc n) [] h = refl
drop-all (suc n) (x ∷ xs) h = drop-all n xs (omega arith)

-- A channel with these bytes to come and then its end.
pub record IsEnding (inner : Inner) (id c : ℕ) (chunks : List Bytes) : Type 0 where
  pub holds : inner.channels c ≡ some chunks
  pub lost : is_kept (inner.streams id) c ≡ false
  pub filled : All IsFilled chunks

length-take-min :
    (remaining : ℕ) (chunk : Bytes)
    → length (take (min (length chunk) remaining) chunk) ≡ min (length chunk) remaining
length-take-min remaining chunk = length-take (min (length chunk) remaining) chunk (omega arith)

-- A read of a part of a chunk, and the reads behind it.
take-drop-rest :
    (n : ℕ) (chunk more : Bytes) → take n chunk ++ (drop n chunk ++ more) ≡ chunk ++ more
take-drop-rest n chunk more =
    rw (← append_assoc (take n chunk) (drop n chunk) more, take-drop n chunk) refl

pub read_to_end-all :
    (fuel remaining : ℕ) (inner : Inner) (id c : ℕ) (leftover : Bytes) (chunks : List Bytes)
    → 0 < remaining
    → IsEnding inner id c chunks
    → length leftover + length (concat chunks) < fuel
    → read_to_end fuel remaining (recv_half id c leftover) inner ≡ some (leftover ++ concat chunks)
unfolding read_to_end poll_read
read_to_end-all zero remaining inner id c leftover chunks pos h more = absurd (omega arith)
read_to_end-all (suc fuel) remaining inner id c [] [] pos h more = ground (arith, h.holds, h.lost)
read_to_end-all (suc fuel) remaining inner id c (b ∷ leftover) chunks pos h more =
    let all = b ∷ leftover in
    let n : ℕ = min (length all) remaining in
    ground (
      arith,
      length-take-min remaining all,
      length-drop n all (omega arith),
      take-drop-rest n all (concat chunks),
      read_to_end-all fuel remaining inner id c (drop n all) chunks pos h
          (omega (arith, length-drop n all (omega arith))),
    )
read_to_end-all (suc fuel) remaining inner id c [] (chunk ∷ chunks) pos h more =
    let n : ℕ = min (length chunk) remaining in
    let shorter = length-drop n chunk (omega arith) in
    let inner' : Inner = record inner { channels = update inner.channels c (some chunks) } in
    let h' : IsEnding inner' id c chunks = record {
      holds = ground arith;
      lost = h.lost;
      filled = h.filled.1;
    } in
    ground (
      arith,
      h.holds,
      h.filled.0,
      length-take-min remaining chunk,
      shorter,
      drop-all n chunk,
      take-drop-rest n chunk (concat chunks),
      read_to_end-all fuel remaining inner' id c (drop n chunk) chunks pos h'
          (omega (arith, shorter, h.filled.0, length-append chunk (concat chunks))),
    )
