-- ===== src/Server/Https/Replay.antt =====
-- The mux reads the socket from its first byte.
use krot.Base.{
  zero, suc, ◌≢◌, Option-cases, ℕ, ◌+◌, ◌*◌, ◌≡◌, ◌≤◌, ltb, refl, sym, ap, ◌∙◌, inl, inr, Bool,
  true, Bool-cases, Option, List, [], ◌∷◌, ◌++◌, append_assoc, Bytes, Result-cases, ok, min, get_or,
  length, take, drop, take-drop, arith,
}
use krot.Proto.Framing.{Postcard}
use krot.Server.Registry.{TunnelRegistry, resolve_label}
use krot.Server.Sni.{SniPeek, peek_sni, read_at_least, parse_client_hello}
use krot.Server.Http.{InspectionPrelude}
use krot.Server.Https.{
  ReplayStream, replay_stream, poll_replay, offers, alpn_tcp, to_mux, extract_sni_label,
  handle_https, pass_through,
}

drop-all : (n : ℕ) (xs : Bytes) → length xs ≤ n → drop n xs ≡ []
drop-all zero [] h = refl
drop-all zero (x ∷ xs) h = absurd (omega arith)
drop-all (suc n) [] h = refl
drop-all (suc n) (x ∷ xs) h = drop-all n xs (omega arith)

drop-drop : (a b : ℕ) (xs : Bytes) → drop (a + b) xs ≡ drop b (drop a xs)
drop-drop zero b xs = ap (λ k. drop k xs) (omega arith)
drop-drop (suc a) b [] = drop-all (suc a + b) [] (omega arith) ∙ sym (drop-all b [] (omega arith))
drop-drop (suc a) b (x ∷ xs) =
    let later : suc a + b ≡ suc (a + b) = omega arith in
    ap (λ k. drop k (x ∷ xs)) later ∙ drop-drop a b xs

-- What is taken, and what is behind as many bytes.
take-rest : (n : ℕ) (xs : Bytes) → take n xs ++ drop (length (take n xs)) xs ≡ xs
take-rest zero xs = refl
take-rest (suc n) [] = refl
take-rest (suc n) (x ∷ xs) = ap (λ (l : Bytes). x ∷ l) (take-rest n xs)

-- What is still to come of a stream.
abbrev pub unread : ReplayStream → Bytes
unread s = drop s.read_pos s.replay ++ s.inner

poll_replay-unread :
    (n ready : ℕ) (s : ReplayStream)
    → (poll_replay n ready s).0 ++ unread (poll_replay n ready s).1 ≡ unread s
unfolding poll_replay
poll_replay-unread n ready s =
    let left = drop s.read_pos s.replay in
    let replayed = min (length left) n in
    let fresh = min ready n in
    elim (Bool-cases (ltb s.read_pos (length s.replay))) [
      | inl e ↦
          let whole : take replayed left ++ (drop replayed left ++ s.inner) ≡ left ++ s.inner =
            sym (append_assoc (take replayed left) (drop replayed left) s.inner)
            ∙ ap (λ (l : Bytes). l ++ s.inner) (take-drop replayed left) in
          ground (arith, e, drop-drop s.read_pos replayed s.replay, whole)
      | inr e ↦
          let none_left : left ≡ [] = drop-all s.read_pos s.replay (ground (arith, e)) in
          ground (arith, e, none_left, take-drop fresh s.inner)
    ]

-- Reads of any rooms, whatever is ready at each.
unfoldable pub read_all : List (ℕ × ℕ) → ReplayStream → Bytes × ReplayStream
unfolding poll_replay
read_all [] s = ([], s)
read_all ((n, ready) ∷ reads) s =
    let (first, s') = poll_replay n ready s in
    let (rest, s'') = read_all reads s' in (first ++ rest, s'')

read_all-unread :
    (reads : List (ℕ × ℕ)) (s : ReplayStream)
    → (read_all reads s).0 ++ unread (read_all reads s).1 ≡ unread s
unfolding read_all
read_all-unread [] s = refl
read_all-unread ((n, ready) ∷ reads) s =
    let s' = (poll_replay n ready s).1 in
    let first = (poll_replay n ready s).0 in
    append_assoc first (read_all reads s').0 (unread (read_all reads s').1)
    ∙ ap (λ (rest : Bytes). first ++ rest) (read_all-unread reads s')
    ∙ poll_replay-unread n ready s

module _ (lower_utf8 : Bytes → Option Bytes) where
  read_at_least-take :
      (stream buf : Bytes) (n : ℕ)
      → read_at_least lower_utf8 stream n ≡ ok buf
      → take n stream ≡ buf
  unfolding read_at_least
  read_at_least-take stream buf n h = ground (arith, h)

  -- What was peeked is the front of the stream.
  peek_sni-buffered :
      (stream : Bytes) (peeked : SniPeek)
      → peek_sni lower_utf8 stream ≡ ok peeked
      → peeked.buffered ++ drop (length peeked.buffered) stream ≡ stream
  unfolding peek_sni
  peek_sni-buffered stream peeked h = elim (Result-cases (read_at_least lower_utf8 stream 5)) [
    | inl (e, p) ↦ ground (arith, h, p)
    | inr (head, p) ↦
        let record_len = get_or head 3 0 * 256 + get_or head 4 0 in
        elim (Result-cases (read_at_least lower_utf8 stream (5 + record_len))) [
          | inl (e, q) ↦ ground (arith, h, p, q)
          | inr (buf, q) ↦
              let front = read_at_least-take stream buf (5 + record_len) q in
              let same : peeked.buffered ≡ buf =
                elim (Result-cases (parse_client_hello lower_utf8 (drop 5 buf))) [
                  | inl (e, c) ↦ ground (arith, h, p, q, c)
                  | inr (names, c) ↦ ground (arith, h, p, q, c)
                ] in
              ap (λ (b : Bytes). b ++ drop (length b) stream) (same ∙ sym front)
              ∙ take-rest (5 + record_len) stream
        ]
  ]

module _ (lower_utf8 : Bytes → Option Bytes) (codec : Postcard InspectionPrelude)
    (opens : ℕ → Bool) where
  not_to_mux :
      (now : ℕ) (peer : Option Bytes) (apex : Bytes) (r : TunnelRegistry) (peeked : SniPeek)
      (s : ReplayStream)
      → pass_through lower_utf8 codec opens now peer apex r peeked ≢ to_mux s
  unfolding pass_through
  not_to_mux now peer apex r peeked s h =
      elim (Option-cases (extract_sni_label peeked.server_name apex)) [
        | inl x ↦ ground (arith, h, x)
        | inr (label, x) ↦ elim (Option-cases (resolve_label r label)) [
          | inl y ↦ ground (arith, h, x, y)
          | inr (resolved, y) ↦ ground (arith, h, x, y)
        ]
      ]

  -- A socket that goes to the mux offered the protocol `krot-tcp/1` in its ClientHello; reads of
  -- what the mux gets, of any sizes, return the bytes of the socket from the first one on, in order.
  pub handle_https-to_mux :
      (now : ℕ) (peer : Option Bytes) (apex : Bytes) (r : TunnelRegistry) (stream : Bytes)
      (s : ReplayStream) (reads : List (ℕ × ℕ))
      → handle_https lower_utf8 codec opens now peer apex r stream ≡ to_mux s
      → ((peeked : SniPeek) × ((peek_sni lower_utf8 stream ≡ ok peeked)
            × (offers alpn_tcp peeked.alpn ≡ true)))
        × ((read_all reads s).0 ++ unread (read_all reads s).1 ≡ stream)
  unfolding handle_https
  handle_https-to_mux now peer apex r stream s reads h =
      elim (Result-cases (peek_sni lower_utf8 stream)) [
        | inl (e, p) ↦ ground (arith, h, p)
        | inr (peeked, p) ↦
            let socket = drop (length peeked.buffered) stream in
            elim (Bool-cases (offers alpn_tcp peeked.alpn)) [
              | inl o ↦
                  let given : replay_stream peeked.buffered socket ≡ s = ground (arith, h, p, o) in
                  (
                    (peeked, (p, o)),
                    read_all-unread reads s
                        ∙ sym (ap unread given)
                        ∙ peek_sni-buffered lower_utf8 stream peeked p,
                  )
              | inr o ↦ absurd (not_to_mux now peer apex r peeked s (ground (arith, h, p, o)))
            ]
      ]
