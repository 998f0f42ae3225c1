-- ===== src/Lib.antt =====
-- krot is a reverse tunnel. A client behind a firewall opens one connection to the server (QUIC, or
-- TCP with a mux of its own), authenticates on a Control stream and registers tunnels, HTTP ones
-- under a label of the server's domain and TCP ones on a port of its pool. The server routes
-- inbound traffic to the client's connection. A connection that drops leaves its tunnels dangling
-- for a grace period, in which the client may take them back on another.
--
-- The parts and their files:
-- * crates/krot-proto/src/framing.rs, the length-prefixed frames: Proto/Framing, with the prefix in
--   Framing/Varint and whole frames in Framing/Codec. `write_varint_u32`, `read_varint_u32`,
--   `encode_frame` and `decode_frame` keep their names; `write_loop`, `read_loop` and `add_group`
--   are the loops and the body of one. The `postcard` crate is the parameter `Postcard`.
-- * crates/krot-proto/src/mux.rs and stream.rs, the two headers of nine bytes: Proto/Mux, Proto/Stream.
-- * crates/krot-proto/src/frames.rs, ids.rs, error.rs and consts.rs: Proto/Frames, Proto/Error,
--   Proto/Consts.
-- * crates/krot-transport/src/frame.rs, frames over a stream: Transport/Frame.
-- * crates/krot-transport/src/tcp_mux.rs, many streams on one pipe: Transport/TcpMux (the shared
--   state and its channels), TcpMux/Conn (the handle), TcpMux/Streams (the two halves of a stream)
--   and TcpMux/Tasks (the reader and the writer task). `open_bi` and `open_data_stream` share
--   `register_stream`; `poll_write` is split at its two phases (`write_open`, `write_rest`), `finish`
--   at the OPEN that it may owe (`flush_open`), and a round of the reader is `read_turn` with the arms
--   in `read_body`. `reader_task` never waits; TcpMux/Waiting has `run_reader`, where a send waits
--   for a full channel. `writer_turn` is a round of the writer on the shared state. Wire, Tandem,
--   Ending, Channels, Delivery, Writes, Opening, Reads, Transfer, Kept and
--   Reachable hold proofs.
-- * crates/krot-proto/src/auth.rs, the challenge: Proto/Auth, where the ed25519 crate is the parameter
--   `Ed25519`.
-- * crates/krot-server/src/keys.rs, the authorized keys: Server/Keys (the entry), Keys/Parse (the
--   grammar) and Keys/Registry (the file and its index; `KeyRegistry::open` is `open_registry`), with
--   what they take of `str` in Server/Text. Ports, Reload, Removal and Text/Lines hold proofs.
-- * crates/krot-server/src/admin.rs, the one-time tokens: Server/Admin.
-- * crates/krot-server/src/handshake.rs, the first frames of a connection: Server/Handshake. Its
--   random numbers, clock, disk and crates are the parameter `World`.
-- * crates/krot-server/src/domain/sni.rs, the names in a TLS ClientHello: Server/Sni. `Reader::take`
--   is `take_reader`; the three loops are `alpn_loop`, `sni_loop` and `extensions_loop`.
--   Reading, Hello, Extensions, RoundTrip and Rounds hold proofs.
-- * crates/krot-server/src/domain/http.rs, the plain HTTP router: Server/Http. `handle` is split behind
--   `read_request` (`route`) and at the stream to the client (`forward`); `httparse` is a parameter.
--   Routing holds proofs.
-- * crates/krot-server/src/domain/https.rs and replay.rs, the TLS router: Server/Https. `handle` is
--   `handle_https`, with the branch of a tunnel in `pass_through`; `poll_read` is `poll_replay`.
--   Replay holds proofs.
-- * crates/krot-server/src/peers.rs, the list of federated peers: Server/Peers. `parse_file` is
--   `read_peers`, and `parse_peers` on the text; `open` and `reload` are `open_peers` and
--   `reload_peers`. Listing holds a proof.
-- * crates/krot-server/src/registry.rs, the table of tunnels: Server/Registry (allocation,
--   publication, routing, removal), Registry/Lease (`mark_dangling`, `reap_expired`, `try_resume`,
--   `set_tcp_abort` and the views) and Registry/Label (`is_valid_label`). Registry/Interleaving is
--   the table under sessions that run at once: a step is one section under the table's lock, and a
--   registration is two of them. Views, LeaseLaws, Resume, Reconnect and Ports hold proofs.
-- * crates/krot-server/src/session.rs, what a session does with a frame: Server/Session, with
--   crates/krot-server/src/peer_lookup.rs in Server/PeerLookup. `register_http` and `register_tcp`
--   are split where they call out (`checked_http`, `publish_http`, `listen_tcp`), and `register`
--   behind the attempt to resume (`register_fresh`). Session/Ending has `run`, over the events that
--   its `select!` picks, and the disposal of tunnels at the end of `handle_connection` in
--   crates/krot-server/src/server.rs. Session/Cap is the relation of the sections under the
--   lock that several sessions of an identity run. Register, Sockets, Quota, Sections and Disposal
--   hold proofs. The operating
--   system's listeners, the success of a write and the handles of tasks are the parameter
--   `Outside`.
-- * crates/krot-server/src/rate.rs, the quota and the rates: Server/Rate.
--
-- A struct is a record, an enum a data type, a `HashMap` an association list, a `HashSet` a list, a
-- text the list of its bytes. Numbers are natural numbers, with the wrap of a machine integer
-- written out where the code can reach it. An operation that takes `&self` behind a lock is a
-- function from the state to the state. `Instant::now()` is an argument.
--
-- Loops: the writer of the prefix recurses on the well-founded order of its number, the readers on
-- the five rounds that the code allows, `find_port` on the number of ports of the pool. The reader
-- task of the mux has a round for each byte and one more, of which a frame uses one and takes nine
-- bytes; a loop over a part of a ClientHello has a round for each byte of that part, and a round takes
-- one byte at least. All other loops are structural.
--
-- Not modelled: the accept loops, the byte copiers, the admin API,
-- metrics, configuration and the client, which are I/O or wait for a model of their own; the capacity
-- of the mux's channels anywhere but in TcpMux/Waiting; the watchers of files, which call `reload`;
-- `governor`'s bandwidth buckets, whose crate is not here; log lines and counters, which no operation
-- reads.
pub mod Base
pub mod Proto
pub mod Transport
pub mod Server
