-- ===== src/Transport/TcpMux/Kept.antt =====
-- What the operations on the shared state keep, and what they take away.
use krot.Base.{
  ℕ, ◌+◌, ◌<◌, ◌%◌, ◌^◌, ◌≡◌, refl, ap, ◌∙◌, inl, inr, if◌then◌else◌, Bool, some, Option-cases,
  Bool-cases, Bytes, ok, arith,
}
use krot.Transport.TcpMux.{
  OutFrame, send_chunk, Inner, update, send_frame, try_send_frame, insert_channel, remove_stream,
}
use krot.Transport.TcpMux.Conn.{
  ready, TcpMuxSendStream, TcpMuxRecvStream, open_bi, open_data_stream, open_registered,
  register_stream, mint_stream_id, accept_bi, accept_data_stream, close,
}
use krot.Transport.TcpMux.Streams.{
  flush_open, finish, write_rest, write_open, poll_write, drop_recv, poll_read,
}
use krot.Transport.TcpMux.Tasks.{Pipe, read_turn, writer_turn}
use krot.Transport.TcpMux.Ending.{read_turn-Grows}
use krot.Transport.TcpMux.Channels.{IsValid}

-- The parity of the ids that a side mints.
abbrev pub parity : Bool → ℕ
parity is_server = if is_server then 1 else 0

-- The state that operations keep.
pub record Kept (is_server : Bool) (inner : Inner) : Type 0 where
  pub side : inner.is_server ≡ is_server
  pub valid : IsValid inner
  pub ids : inner.next_stream_id % 2 ≡ parity is_server
  pub fits : inner.next_stream_id < 2 ^ 32

-- A later state with no sender that the earlier has not.
pub record Shrinks (inner inner' : Inner) : Type 0 where
  pub senders : (id c : ℕ) → inner'.streams id ≡ some c → inner.streams id ≡ some c
  pub channels : inner'.next_channel ≡ inner.next_channel
  pub side : inner'.is_server ≡ inner.is_server
  pub next : inner'.next_stream_id ≡ inner.next_stream_id

pub Shrinks-Kept :
    (b : Bool) (inner inner' : Inner) → Shrinks inner inner' → Kept b inner → Kept b inner'
Shrinks-Kept b inner inner' s k = record {
  side = s.side ∙ k.side;
  valid = record {
    owner = k.valid.owner;
    kept = λ id c e. ground (arith, k.valid.kept id c (s.senders id c e), s.channels);
  };
  ids = ground (arith, s.next, k.ids);
  fits = ground (arith, s.next, k.fits);
}

Shrinks-refl : (inner : Inner) → Shrinks inner inner
Shrinks-refl inner = record { senders = λ id c e. e; channels = refl; side = refl; next = refl }

pub poll_write-Shrinks :
    (inner : Inner) (buf : Bytes) (send : TcpMuxSendStream)
    → Shrinks inner (poll_write buf send inner).2
unfolding poll_write write_open write_rest send_frame
poll_write-Shrinks inner buf send = record {
  senders = λ id c e. ground (arith, e);
  channels = ground arith;
  side = ground arith;
  next = ground arith;
}

pub finish-Shrinks : (inner : Inner) (send : TcpMuxSendStream) → Shrinks inner (finish send inner).2
unfolding finish flush_open try_send_frame send_frame
finish-Shrinks inner send = record {
  senders = λ id c e. ground (arith, e);
  channels = ground arith;
  side = ground arith;
  next = ground arith;
}

pub close-Shrinks : (inner : Inner) → Shrinks inner (close inner)
unfolding close try_send_frame send_frame
close-Shrinks inner = record {
  senders = λ id c e. ground (arith, e);
  channels = ground arith;
  side = ground arith;
  next = ground arith;
}

pub drop_recv-Shrinks :
    (inner : Inner) (recv : TcpMuxRecvStream) → Shrinks inner (drop_recv recv inner)
unfolding drop_recv remove_stream
drop_recv-Shrinks inner recv = record {
  senders = λ id c e. ground (arith, e);
  channels = refl;
  side = refl;
  next = refl;
}

pub poll_read-Shrinks :
    (inner inner' : Inner) (recv recv' : TcpMuxRecvStream) (bytes : Bytes) (remaining : ℕ)
    → poll_read remaining recv inner ≡ ready (bytes, recv', inner')
    → Shrinks inner inner'
unfolding poll_read
poll_read-Shrinks inner inner' recv recv' bytes remaining h = record {
  senders = λ id c e. ground (arith, e, h);
  channels = ground (arith, h);
  side = ground (arith, h);
  next = ground (arith, h);
}

pub accept_bi-Shrinks :
    (inner inner' : Inner) (send : TcpMuxSendStream) (recv : TcpMuxRecvStream)
    → accept_bi inner ≡ ready (send, recv, inner')
    → Shrinks inner inner'
unfolding accept_bi
accept_bi-Shrinks inner inner' send recv h = record {
  senders = λ id c e. ground (arith, e, h);
  channels = ground (arith, h);
  side = ground (arith, h);
  next = ground (arith, h);
}

mint-parity : (n : ℕ) → ((n + 2) % 2 ^ 32) % 2 ≡ n % 2
mint-parity n = omega arith

pub accept_data_stream-Shrinks :
    (header : Bytes) (inner inner' : Inner) (send : TcpMuxSendStream) (recv : TcpMuxRecvStream)
    → accept_data_stream inner ≡ ready (header, send, recv, inner')
    → Shrinks inner inner'
unfolding accept_data_stream
accept_data_stream-Shrinks header inner inner' send recv h = record {
  senders = λ id c e. ground (arith, e, h);
  channels = ground (arith, h);
  side = ground (arith, h);
  next = ground (arith, h);
}

-- A new stream: the channel that is made for it is its own, and the next id has the same parity.
pub register_stream-Kept :
    (b : Bool) (inner : Inner) → Kept b inner → Kept b (register_stream inner).2
unfolding register_stream mint_stream_id insert_channel
register_stream-Kept b inner k = record {
  side = k.side;
  valid = record {
    owner = update k.valid.owner inner.next_channel inner.next_stream_id;
    kept = λ id c e. ground (arith, k.valid.kept id c);
  };
  ids = mint-parity inner.next_stream_id ∙ k.ids;
  fits = omega arith;
}

pub mint_stream_id-Kept :
    (b : Bool) (inner : Inner) → Kept b inner → Kept b (mint_stream_id inner).1
unfolding mint_stream_id
mint_stream_id-Kept b inner k = record {
  side = k.side;
  valid = record { owner = k.valid.owner; kept = k.valid.kept };
  ids = mint-parity inner.next_stream_id ∙ k.ids;
  fits = omega arith;
}

pub insert_channel-Kept :
    (b : Bool) (id : ℕ) (inner : Inner) → Kept b inner → Kept b (insert_channel id inner)
unfolding insert_channel
insert_channel-Kept b id inner k = record {
  side = k.side;
  valid = record {
    owner = update k.valid.owner inner.next_channel id;
    kept = λ j c e. ground (arith, k.valid.kept j c);
  };
  ids = k.ids;
  fits = k.fits;
}

pub try_send_frame-Shrinks :
    (out : OutFrame) (inner : Inner) → Shrinks inner (try_send_frame out inner)
unfolding try_send_frame send_frame
try_send_frame-Shrinks out inner = record {
  senders = λ id c e. ground (arith, e);
  channels = ground arith;
  side = ground arith;
  next = ground arith;
}

pub send_chunk-Shrinks :
    (c : ℕ) (chunk : Bytes) (inner : Inner) → Shrinks inner (send_chunk c chunk inner)
unfolding send_chunk
send_chunk-Shrinks c chunk inner = record {
  senders = λ id j e. ground (arith, e);
  channels = ground arith;
  side = ground arith;
  next = ground arith;
}

pub remove_stream-Shrinks : (id : ℕ) (inner : Inner) → Shrinks inner (remove_stream id inner)
unfolding remove_stream
remove_stream-Shrinks id inner = record {
  senders = λ j c e. ground (arith, e);
  channels = refl;
  side = refl;
  next = refl;
}

pub open_bi-Kept :
    (b : Bool) (inner inner' : Inner) (send : TcpMuxSendStream) (recv : TcpMuxRecvStream)
    → open_bi inner ≡ ok (send, recv, inner')
    → Kept b inner
    → Kept b inner'
unfolding open_bi open_registered
open_bi-Kept b inner inner' send recv h k = elim (Bool-cases inner.is_server) [
  | inl server ↦ ground (arith, h, server, fresh)
  | inr client ↦ elim (Option-cases inner.control_recv_slot) [
    | inl taken ↦ ground (arith, h, client, taken, fresh)
    | inr (c, control) ↦
        Shrinks-Kept b inner inner'
          (record {
            senders = λ id j e. ground (arith, h, client, control, e);
            channels = ground (arith, h, client, control);
            side = ground (arith, h, client, control);
            next = ground (arith, h, client, control);
          })
          k
  ]
]
  where
    fresh : Kept b (register_stream inner).2
    fresh = register_stream-Kept b inner k

pub open_data_stream-Kept :
    (b : Bool) (header : Bytes) (inner : Inner)
    → Kept b inner
    → Kept b (open_data_stream header inner).1
unfolding open_data_stream send_frame
open_data_stream-Kept b header inner k = elim (Bool-cases inner.closed) [
  | inl closed ↦ ground (arith, closed, k)
  | inr up ↦
      Shrinks-Kept b (register_stream inner).2 (open_data_stream header inner).1
        (record {
          senders = λ id j e. ground (arith, up, e);
          channels = ground (arith, up);
          side = ground (arith, up);
          next = ground (arith, up);
        })
        (register_stream-Kept b inner k)
]

pub writer_turn-Shrinks :
    (pipe pipe' : Pipe) (inner inner' : Inner)
    → writer_turn pipe inner ≡ some (pipe', inner')
    → Shrinks inner inner'
unfolding writer_turn
writer_turn-Shrinks pipe pipe' inner inner' h = record {
  senders = λ id c e. ground (arith, e, h);
  channels = ground (arith, h);
  side = ground (arith, h);
  next = ground (arith, h);
}

pub read_turn-Kept :
    (b : Bool) (inner inner' : Inner) (input rest : Bytes)
    → read_turn inner input ≡ some (inner', rest)
    → Kept b inner
    → Kept b inner'
read_turn-Kept b inner inner' input rest h k =
    let ((valid, (side, ids), _), _) = read_turn-Grows inner inner' input rest h in
    record {
      side = side ∙ k.side;
      valid = valid k.valid;
      ids = ap (λ n. n % 2) ids ∙ k.ids;
      fits = ground (arith, ids, k.fits);
    }
