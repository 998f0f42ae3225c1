-- ===== src/Transport/TcpMux/Channels.antt =====
-- The channels of the mux under the frames that arrive: which frames reach which channel.
use krot.Base.{
  ℕ, ◌<◌, ◌≡◌, ◌≢◌, refl, ◌∙◌, inl, inr, ◌==◌, ==_iff, if◌then◌else◌, Bool, true, false, some,
  Bool-cases, List, [], ◌∷◌, ◌++◌, append-nil, append_assoc, Bytes, arith,
}
use krot.Proto.Mux.{MuxFlag, open_flag, data_flag, fin_flag}
use krot.Transport.TcpMux.{
  OutFrame, frame, close, Inner, update, insert_channel, remove_stream, send_chunk,
}
use krot.Transport.TcpMux.Tasks.{accept_stream, deliver}
use krot.Transport.TcpMux.Wire.{dispatch, dispatch_all}

-- A channel that a stream's entry has was made, and for that stream alone.
pub record IsValid (inner : Inner) : Type 0 where
  pub owner : ℕ → ℕ
  pub kept : (id c : ℕ) → inner.streams id ≡ some c → (c < inner.next_channel) × (owner c ≡ id)

-- What a frame of a stream adds to the chunks behind it, and whether it ends the stream.
abbrev pub chunks_with : MuxFlag → Bytes → List Bytes → List Bytes
chunks_with open_flag payload rest = []
chunks_with data_flag payload rest = payload ∷ rest
chunks_with fin_flag payload rest = []

abbrev pub ended_with : MuxFlag → Bool → Bool
ended_with open_flag rest = true
ended_with data_flag rest = rest
ended_with fin_flag rest = true

-- The chunks that a queue has for the channel that stream `id` has at its start: those up to the
-- FIN, or up to an OPEN that replaces the channel.
abbrev pub chunks_of : ℕ → List OutFrame → List Bytes
chunks_of id [] = []
chunks_of id (close ∷ queue) = []
chunks_of id (frame header payload ∷ queue) =
    let rest = chunks_of id queue in
    if header.stream_id == id then chunks_with header.flag payload rest else rest

-- Whether such a FIN or OPEN is in the queue.
abbrev pub is_ended : ℕ → List OutFrame → Bool
is_ended id [] = false
is_ended id (close ∷ queue) = false
is_ended id (frame header payload ∷ queue) =
    let rest = is_ended id queue in
    if header.stream_id == id then ended_with header.flag rest else rest

-- A channel that no sender is left for.
abbrev pub IsLost : ℕ → Inner → Type 0
IsLost c inner = (c < inner.next_channel) × ((id : ℕ) → inner.streams id ≢ some c)

-- What a channel holds, and whether its sender is kept.
abbrev pub Holds : Inner → (id c : ℕ) → List Bytes → Bool → Type 0
Holds inner id c chunks true = (inner.channels c ≡ some chunks) × IsLost c inner
Holds inner id c chunks false = (inner.channels c ≡ some chunks) × (inner.streams id ≡ some c)

send_chunk-streams :
    (c : ℕ) (chunk : Bytes) (inner : Inner)
    → ((send_chunk c chunk inner).streams ≡ inner.streams)
      × ((send_chunk c chunk inner).next_channel ≡ inner.next_channel)
unfolding send_chunk
send_chunk-streams c chunk inner = ground arith

deliver-streams :
    (id : ℕ) (chunk : Bytes) (inner : Inner)
    → ((deliver id chunk inner).streams ≡ inner.streams)
      × ((deliver id chunk inner).next_channel ≡ inner.next_channel)
unfolding deliver send_chunk
deliver-streams id chunk inner = ground arith

pub dispatch-IsValid :
    (flag : MuxFlag) (id : ℕ) (payload : Bytes) (inner : Inner)
    → IsValid inner
    → IsValid (dispatch flag id payload inner)
unfolding dispatch accept_stream insert_channel remove_stream
dispatch-IsValid open_flag i payload inner v = record {
  owner = update v.owner inner.next_channel i;
  kept = λ id c e. ground (arith, v.kept id c);
}
dispatch-IsValid data_flag i payload inner v = record {
  owner = v.owner;
  kept = λ id c e. ground (arith, v.kept id c, deliver-streams i payload inner);
}
dispatch-IsValid fin_flag i payload inner v = record {
  owner = v.owner;
  kept = λ id c e. ground (arith, v.kept id c);
}

-- No frame reaches a lost channel.
dispatch-IsLost :
    (flag : MuxFlag) (id : ℕ) (payload : Bytes) (inner : Inner) (c : ℕ)
    → IsLost c inner
    → IsLost c (dispatch flag id payload inner)
      × ((dispatch flag id payload inner).channels c ≡ inner.channels c)
unfolding dispatch accept_stream deliver insert_channel remove_stream send_chunk
dispatch-IsLost open_flag i payload inner c (made, lost) =
    ((ground arith, λ id e. ground (arith, lost id)), ground arith)
dispatch-IsLost data_flag i payload inner c (made, lost) = (
  (
    ground (arith, deliver-streams i payload inner),
    λ id e. ground (arith, lost id, deliver-streams i payload inner),
  ),
  ground (arith, lost i),
)
dispatch-IsLost fin_flag i payload inner c (made, lost) =
    ((made, λ id e. ground (arith, lost id)), refl)

dispatch_all-IsLost :
    (queue : List OutFrame) (inner : Inner) (c : ℕ)
    → IsLost c inner
    → IsLost c (dispatch_all queue inner)
      × ((dispatch_all queue inner).channels c ≡ inner.channels c)
dispatch_all-IsLost [] inner c lost = (lost, refl)
dispatch_all-IsLost (close ∷ queue) inner c lost = (lost, refl)
dispatch_all-IsLost (frame header payload ∷ queue) inner c lost =
    let flag = header.flag in
    let id = header.stream_id in
    let (lost', same) = dispatch-IsLost flag id payload inner c lost in
    let (lost'', same') = dispatch_all-IsLost queue (dispatch flag id payload inner) c lost' in
    (lost'', same' ∙ same)

-- A frame of another stream leaves a channel alone.
dispatch-other :
    (flag : MuxFlag) (i : ℕ) (payload : Bytes) (inner : Inner) (id c : ℕ)
    → IsValid inner
    → inner.streams id ≡ some c
    → i ≢ id
    → ((dispatch flag i payload inner).streams id ≡ some c)
      × ((dispatch flag i payload inner).channels c ≡ inner.channels c)
unfolding dispatch accept_stream deliver insert_channel remove_stream send_chunk
dispatch-other open_flag i payload inner id c v e ne = (ground arith, ground (arith, v.kept id c e))
dispatch-other data_flag i payload inner id c v e ne =
    (ground (arith, deliver-streams i payload inner), ground (arith, v.kept id c e, v.kept i c))
dispatch-other fin_flag i payload inner id c v e ne = (ground arith, refl)

-- The data of a stream is put behind what its channel holds.
dispatch-data :
    (payload : Bytes) (inner : Inner) (id c : ℕ) {chunks : List Bytes}
    → inner.streams id ≡ some c
    → inner.channels c ≡ some chunks
    → ((dispatch data_flag id payload inner).streams id ≡ some c)
      × ((dispatch data_flag id payload inner).channels c ≡ some (chunks ++ (payload ∷ [])))
unfolding dispatch deliver send_chunk
dispatch-data payload inner id c e held =
    (ground (arith, deliver-streams id payload inner), ground arith)

-- A FIN or an OPEN takes the sender of the stream's channel away.
dispatch-end :
    (flag : MuxFlag) (payload : Bytes) (inner : Inner) (id c : ℕ)
    → IsValid inner
    → inner.streams id ≡ some c
    → flag ≢ data_flag
    → IsLost c (dispatch flag id payload inner)
      × ((dispatch flag id payload inner).channels c ≡ inner.channels c)
unfolding dispatch accept_stream insert_channel remove_stream
dispatch-end open_flag payload inner id c v e ne =
    let (made, owned) = v.kept id c e in
    ((omega arith, λ j h. ground (arith, v.kept j c, owned)), ground arith)
dispatch-end data_flag payload inner id c v e ne = absurd (ne refl)
dispatch-end fin_flag payload inner id c v e ne =
    let (made, owned) = v.kept id c e in ((made, λ j h. ground (arith, v.kept j c, owned)), refl)

lost-Holds :
    (queue : List OutFrame) (inner inner' : Inner) (id c : ℕ) (chunks : List Bytes)
    → IsLost c inner' × (inner'.channels c ≡ inner.channels c)
    → inner.channels c ≡ some chunks
    → Holds (dispatch_all queue inner') id c (chunks ++ []) true
lost-Holds queue inner inner' id c chunks (lost, same) held =
    let (lost', same') = dispatch_all-IsLost queue inner' c lost in
    rw append-nil (same' ∙ same ∙ held, lost')

-- One frame, given the claim for the queue behind it.
dispatch-Holds :
    (flag : MuxFlag) (i : ℕ) (payload : Bytes) (queue : List OutFrame) (inner : Inner) (id c : ℕ)
    (chunks rest : List Bytes) (end : Bool)
    → IsValid inner
    → inner.streams id ≡ some c
    → inner.channels c ≡ some chunks
    → ((inner' : Inner) (chunks' : List Bytes)
        → IsValid inner'
        → inner'.streams id ≡ some c
        → inner'.channels c ≡ some chunks'
        → Holds (dispatch_all queue inner') id c (chunks' ++ rest) end)
    → Holds
        (dispatch_all queue (dispatch flag i payload inner))
        id
        c
        (chunks ++ (if i == id then chunks_with flag payload rest else rest))
        (if i == id then ended_with flag end else end)
dispatch-Holds flag i payload queue inner id c chunks rest end v e held later =
    elim (Bool-cases (i == id)) [
      | inr other ↦
          let (e', same) = dispatch-other flag i payload inner id c v e (λ h. ground (arith, h)) in
          rw other (
            later (dispatch flag i payload inner) chunks (dispatch-IsValid flag i payload inner v)
              e' (same ∙ held))
      | inl mine ↦ rw (mine, (==_iff i id).0 mine) (at_id flag)
    ]
  where
    at_id :
        (flag : MuxFlag)
        → Holds
            (dispatch_all queue (dispatch flag id payload inner))
            id
            c
            (chunks ++ chunks_with flag payload rest)
            (ended_with flag end)
    at_id open_flag =
        lost-Holds queue inner (dispatch open_flag id payload inner) id c chunks
          (dispatch-end open_flag payload inner id c v e (λ h. cc)) held
    at_id data_flag =
        let (e', held') = dispatch-data payload inner id c e held in
        rw (← append_assoc chunks (payload ∷ []) rest) (
          later (dispatch data_flag id payload inner) (chunks ++ (payload ∷ []))
            (dispatch-IsValid data_flag id payload inner v) e' held')
    at_id fin_flag =
        lost-Holds queue inner (dispatch fin_flag id payload inner) id c chunks
          (dispatch-end fin_flag payload inner id c v e (λ h. cc)) held

-- What a queue does to the channel of a stream: the chunks that are for it arrive in order behind
-- those that it holds, and its sender is gone exactly if the queue ends the stream.
pub dispatch_all-Holds :
    (queue : List OutFrame) (inner : Inner) (id c : ℕ) (chunks : List Bytes)
    → IsValid inner
    → inner.streams id ≡ some c
    → inner.channels c ≡ some chunks
    → Holds (dispatch_all queue inner) id c (chunks ++ chunks_of id queue) (is_ended id queue)
dispatch_all-Holds [] inner id c chunks v e held = rw append-nil (held, e)
dispatch_all-Holds (close ∷ queue) inner id c chunks v e held = rw append-nil (held, e)
dispatch_all-Holds (frame header payload ∷ queue) inner id c chunks v e held =
    dispatch-Holds header.flag header.stream_id payload queue inner id c chunks (chunks_of id queue)
      (is_ended id queue) v e held (λ inner' chunks'. dispatch_all-Holds queue inner' id c chunks')
