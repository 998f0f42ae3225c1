-- ===== src/Transport/TcpMux/Delivery.antt =====
-- The streams of the mux under the frames that arrive: what a stream that the peer opened finds.
use krot.Base.{
  ℕ, ◌≡◌, refl, sym, subst, ◌∙◌, inl, inr, ◌==◌, ==_iff, if◌then◌else◌, Option, none, some,
  Bool-cases, List, [], ◌∷◌, ◌++◌, append-nil, append_assoc, Bytes, arith,
}
use krot.Proto.Mux.{MuxFlag, open_flag, data_flag, fin_flag}
use krot.Transport.TcpMux.{
  OutFrame, frame, close, AcceptedStream, Inner, insert_channel, remove_stream, send_chunk,
}
use krot.Transport.TcpMux.Tasks.{accept_stream, deliver}
use krot.Transport.TcpMux.Wire.{dispatch, dispatch_all}
use krot.Transport.TcpMux.Channels.{
  IsValid, chunks_of, is_ended, Holds, dispatch-IsValid, dispatch_all-Holds,
}

-- The payload of the first OPEN of a stream, and the queue behind it.
abbrev pub opened_with :
    MuxFlag
    → Bytes
    → List OutFrame
    → Option (Bytes × List OutFrame)
    → Option (Bytes × List OutFrame)
opened_with open_flag payload queue rest = some (payload, queue)
opened_with data_flag payload queue rest = rest
opened_with fin_flag payload queue rest = rest

abbrev pub find_open : ℕ → List OutFrame → Option (Bytes × List OutFrame)
find_open id [] = none
find_open id (close ∷ queue) = none
find_open id (frame header payload ∷ queue) =
    let rest = find_open id queue in
    if header.stream_id == id then opened_with header.flag payload queue rest else rest

abbrev pub accepted : ℕ → Bytes → ℕ → AcceptedStream
accepted id payload c = record { stream_id = id; open_payload = payload; data_rx = c }

-- The accept queue only grows.
pub dispatch-accept_tx :
    (flag : MuxFlag) (id : ℕ) (payload : Bytes) (inner : Inner)
    → (later : List AcceptedStream) × ((dispatch flag id payload inner).accept_tx
        ≡ inner.accept_tx ++ later)
unfolding dispatch accept_stream deliver insert_channel remove_stream send_chunk
dispatch-accept_tx open_flag id payload inner = (accepted id payload inner.next_channel ∷ [], refl)
dispatch-accept_tx data_flag id payload inner = ([], ground (arith, append-nil inner.accept_tx))
dispatch-accept_tx fin_flag id payload inner = ([], sym (append-nil inner.accept_tx))

dispatch_all-accept_tx :
    (queue : List OutFrame) (inner : Inner)
    → (later : List AcceptedStream) × ((dispatch_all queue inner).accept_tx
        ≡ inner.accept_tx ++ later)
dispatch_all-accept_tx [] inner = ([], sym (append-nil inner.accept_tx))
dispatch_all-accept_tx (close ∷ queue) inner = ([], sym (append-nil inner.accept_tx))
dispatch_all-accept_tx (frame header payload ∷ queue) inner =
    let (one, e) = dispatch-accept_tx header.flag header.stream_id payload inner in
    let (later, e') =
      dispatch_all-accept_tx queue (dispatch header.flag header.stream_id payload inner) in
    (one ++ later, ground (e, e', append_assoc inner.accept_tx one later, arith))

-- A stream that is accepted, and what its channel holds.
abbrev pub IsAccepted : Inner → ℕ → Bytes → List OutFrame → Type 0
IsAccepted inner id payload behind =
    (before later : List AcceptedStream) × (c : ℕ) × (inner.accept_tx
      ≡ before ++ (accepted id payload c ∷ later))
    × Holds inner id c (chunks_of id behind) (is_ended id behind)

open-IsAccepted :
    (id : ℕ) (payload : Bytes) (queue : List OutFrame) (inner : Inner)
    → IsValid inner
    → IsAccepted (dispatch_all queue (dispatch open_flag id payload inner)) id payload queue
unfolding dispatch accept_stream insert_channel
open-IsAccepted id payload queue inner v =
    let inner' = dispatch open_flag id payload inner in
    let (later, e) = dispatch_all-accept_tx queue inner' in
    (
      inner.accept_tx,
      later,
      inner.next_channel,
      e ∙ append_assoc inner.accept_tx (accepted id payload inner.next_channel ∷ []) later,
      dispatch_all-Holds queue inner' id inner.next_channel []
          (dispatch-IsValid open_flag id payload inner v) (ground arith) (ground arith),
    )

-- One frame, given the claim for the queue behind it.
dispatch-IsAccepted :
    (flag : MuxFlag) (i : ℕ) (p : Bytes) (queue : List OutFrame) (inner : Inner) (id : ℕ)
    (payload : Bytes) (behind : List OutFrame) (rest : Option (Bytes × List OutFrame))
    → IsValid inner
    → (if i == id then opened_with flag p queue rest else rest) ≡ some (payload, behind)
    → ((inner' : Inner)
        → IsValid inner'
        → rest ≡ some (payload, behind)
        → IsAccepted (dispatch_all queue inner') id payload behind)
    → IsAccepted (dispatch_all queue (dispatch flag i p inner)) id payload behind
dispatch-IsAccepted flag i p queue inner id payload behind rest v e later =
    elim (Bool-cases (i == id)) [
      | inr other ↦
          later (dispatch flag i p inner) (dispatch-IsValid flag i p inner v)
            (ground (arith, e, other))
      | inl mine ↦ rw ((==_iff i id).0 mine) (at_id flag (ground (arith, e, mine)))
    ]
  where
    at_id :
        (flag : MuxFlag)
        → opened_with flag p queue rest ≡ some (payload, behind)
        → IsAccepted (dispatch_all queue (dispatch flag id p inner)) id payload behind
    at_id open_flag h =
        let (same, same') : (p ≡ payload) × (queue ≡ behind) =
          (ground (arith, h), ground (arith, h)) in
        subst (λ x. IsAccepted (dispatch_all queue (dispatch open_flag id p inner)) id x behind)
          same
          (subst (λ x. IsAccepted (dispatch_all queue (dispatch open_flag id p inner)) id p x) same'
            (open-IsAccepted id p queue inner v))
    at_id data_flag h =
        later (dispatch data_flag id p inner) (dispatch-IsValid data_flag id p inner v) h
    at_id fin_flag h =
        later (dispatch fin_flag id p inner) (dispatch-IsValid fin_flag id p inner v) h

-- A stream that a queue opens is accepted, with the payload of its first OPEN, and its channel holds
-- the stream's data behind that, in order, with an end exactly if the queue has one.
pub dispatch_all-IsAccepted :
    (queue : List OutFrame) (inner : Inner) (id : ℕ) (payload : Bytes) (behind : List OutFrame)
    → IsValid inner
    → find_open id queue ≡ some (payload, behind)
    → IsAccepted (dispatch_all queue inner) id payload behind
dispatch_all-IsAccepted [] inner id payload behind v e = cc
dispatch_all-IsAccepted (close ∷ queue) inner id payload behind v e = cc
dispatch_all-IsAccepted (frame header p ∷ queue) inner id payload behind v e =
    dispatch-IsAccepted header.flag header.stream_id p queue inner id payload behind
      (find_open id queue) v e
      (λ inner' v' e'. dispatch_all-IsAccepted queue inner' id payload behind v' e')
