-- ===== src/Server/Http/Routing.antt =====
-- What the HTTP router sends where.
use krot.Base.{
  text_eq, ℕ, suc, ◌+◌, ◌≤◌, ltb, ◌≡◌, ◌↔◌, refl, ap, subst, ◌∙◌, ◌⊎◌, inl, inr, Bool, true, false,
  Bool-cases, Option-cases, Option, none, some, List, [], ◌∷◌, ◌++◌, Bytes, bytes_eq, bytes_eq_iff,
  length, length-append, All, ok, Result-cases, arith,
}
use krot.Base.Map.{Map, get}
use krot.Proto.Framing.{Postcard}
use krot.Proto.Stream.{data_http, to_bytes}
use krot.Transport.Frame.{write_frame}
use krot.Server.Registry.{TunnelRegistry, ResolvedTunnel, resolve_label}
use krot.Server.Http.{
  InspectionPrelude, strip_suffix, host_name, to_ascii_lowercase, extract_label, Parsed, complete,
  partial, malformed, Request, read_request, max_header_bytes, forwarded, prelude_of, forward,
  handle, route, strip_prefix, acme_path_prefix,
}

strip_suffix→append : (p s t : Bytes) → strip_suffix p s ≡ some t → s ≡ t ++ p
unfolding strip_suffix
strip_suffix→append p [] t h = ground (arith, bytes_eq_iff p [])
strip_suffix→append p (c ∷ s) t h = elim (Bool-cases (bytes_eq p (c ∷ s))) [
  | inl e ↦ ground (arith, (bytes_eq_iff p (c ∷ s)).0 e)
  | inr e ↦ elim (Option-cases (strip_suffix p s)) [
    | inl e' ↦ ground (arith, e, e')
    | inr (u, e') ↦ ground (arith, e, e', strip_suffix→append p s u e')
  ]
]

append→strip_suffix : (p s t : Bytes) → s ≡ t ++ p → strip_suffix p s ≡ some t
unfolding strip_suffix
append→strip_suffix p [] [] h = ground (arith, bytes_eq_iff p [])
append→strip_suffix p [] (d ∷ t) h = ground arith
append→strip_suffix p (c ∷ s) [] h = ground (arith, bytes_eq_iff p (c ∷ s))
append→strip_suffix p (c ∷ s) (d ∷ t) h =
    let tail : s ≡ t ++ p = cc in
    let head : c ≡ d = cc in
    elim (Bool-cases (bytes_eq p (c ∷ s))) [
      | inl e ↦
          let same : length p ≡ suc (length s) = ap length ((bytes_eq_iff p (c ∷ s)).0 e) in
          let longer : length s ≡ length (t ++ p) = ap length tail in
          absurd (omega (arith, same, longer, length-append t p))
      | inr e ↦ ground (arith, e, head, append→strip_suffix p s t tail)
    ]

-- The label is what stands in front of the dot and the apex, case, port and white space aside; a
-- host that is not of that form has none.
pub extract_label_exact :
    (host_header apex label : Bytes)
    → (extract_label host_header apex ≡ some label)
      ↔ (host_name host_header ≡ label ++ (46 ∷ to_ascii_lowercase apex))
unfolding extract_label
extract_label_exact host_header apex label =
    let host = host_name host_header in
    let apex' = to_ascii_lowercase apex in
    let suffix : Bytes = 46 ∷ apex' in
    elim (Bool-cases (bytes_eq host apex')) [
      | inl e ↦
          let same : length host ≡ length apex' = ap length ((bytes_eq_iff host apex').0 e) in
          (
            λ h. ground (arith, e, h),
            λ h.
                let longer : length host ≡ length (label ++ suffix) = ap length h in
                absurd (omega (arith, same, longer, length-append label suffix)),
          )
      | inr e ↦ (
        λ h. strip_suffix→append suffix host label (ground (arith, e, h)),
        λ h. ground (arith, e, append→strip_suffix suffix host label h),
      )
    ]

Parsed-cases :
    (x : Parsed)
    → ((headers : List (Bytes × Bytes)) × ((path : Option Bytes) × (x ≡ complete headers path)))
      ⊎ ((x ≡ partial) ⊎ (x ≡ malformed))
Parsed-cases (complete headers path) = inl (headers, (path, refl))
Parsed-cases partial = inr (inl refl)
Parsed-cases malformed = inr (inr refl)

module _ (parse : Bytes → Parsed) (from_utf8 : Bytes → Option Bytes) where
  -- Chunks of at most n bytes: what is buffered of a request, behind at most the cap, is at most
  -- n bytes more than the cap.
  pub read_request_bound :
      (n : ℕ) (buf : Bytes) (chunks : List Bytes) (request : Request)
      → length buf ≤ max_header_bytes
      → All (λ chunk. length chunk ≤ n) chunks
      → read_request parse from_utf8 buf chunks ≡ ok request
      → length (request.0) ≤ max_header_bytes + n
  unfolding read_request
  read_request_bound n buf [] request h all e = ground (arith, e)
  read_request_bound n buf ([] ∷ chunks) request h all e = ground (arith, e)
  read_request_bound n buf ((b ∷ tmp) ∷ chunks) request h all e =
      let buf' = buf ++ (b ∷ tmp) in
      let size = length-append buf (b ∷ tmp) in
      elim (Parsed-cases (parse buf')) [
        | inl (headers, (path, p)) ↦ ground (arith, e, p, size, all.0)
        | inr (inl p) ↦ elim (Bool-cases (ltb max_header_bytes (length buf'))) [
          | inl l ↦ ground (arith, e, p, l)
          | inr l ↦
              read_request_bound n buf' chunks request (ground (arith, l)) all.1
                (ground (arith, e, p, l))
        ]
        | inr (inr p) ↦ ground (arith, e, p)
      ]

module _ (codec : Postcard InspectionPrelude) (opens : ℕ → Bool) where
  -- What the stream holds before the request: the data header, and the prelude if the tunnel is
  -- inspected.
  abbrev pub IsOpening : InspectionPrelude → ResolvedTunnel → Bytes → Type 0
  IsOpening prelude t opening =
      let header = to_bytes (record { kind = data_http; tunnel_id = t.id }) in
      ((t.inspect ≡ false) × (opening ≡ header))
      ⊎ ((t.inspect ≡ true) × (write_frame codec header prelude ≡ ok opening))

  pub forward-IsOpening :
      (prelude : InspectionPrelude) (buffered : Bytes) (resolved t : ResolvedTunnel)
      (stream : Bytes)
      → forward codec opens prelude buffered resolved ≡ forwarded t stream
      → (resolved ≡ t)
        × ((opening : Bytes) × (IsOpening prelude resolved opening
              × (stream ≡ opening ++ buffered)))
  unfolding forward
  forward-IsOpening prelude buffered resolved t stream h =
      let header = to_bytes (record { kind = data_http; tunnel_id = resolved.id }) in
      elim (Bool-cases (opens resolved.connection)) [
        | inr o ↦ ground (arith, h, o)
        | inl o ↦ elim (Bool-cases (resolved.inspect)) [
          | inr i ↦ (ground (arith, h, o, i), (header, (inl (i, refl), ground (arith, h, o, i))))
          | inl i ↦ elim (Result-cases (write_frame codec header prelude)) [
            | inl (e, w) ↦ ground (arith, h, o, i, w)
            | inr (s, w) ↦
                (ground (arith, h, o, i, w), (s, (inr (i, w), ground (arith, h, o, i, w))))
          ]
        ]
      ]

  route-forwarded :
      (now : ℕ) (peer : Option Bytes) (apex : Bytes) (r : TunnelRegistry)
      (challenges : Map Bytes Bytes) (buffered host path : Bytes) (t : ResolvedTunnel)
      (stream : Bytes)
      → route codec opens now peer apex r challenges (buffered, (host, path)) ≡ forwarded t stream
      → (strip_prefix acme_path_prefix path ≡ none)
        × (((label : Bytes) × ((host_name host ≡ label ++ (46 ∷ to_ascii_lowercase apex))
                × (resolve_label r label ≡ some t)))
            × ((opening : Bytes) × (IsOpening (prelude_of codec opens now peer host) t opening
                  × (stream ≡ opening ++ buffered))))
  unfolding route
  route-forwarded now peer apex r challenges buffered host path t stream h =
      elim (Option-cases (strip_prefix acme_path_prefix path)) [
        | inr (token, p) ↦ elim (Option-cases (get token challenges)) [
          | inl g ↦ ground (arith, h, p, g)
          | inr (response, g) ↦ ground (arith, h, p, g)
        ]
        | inl p ↦ elim (Option-cases (extract_label host apex)) [
          | inl x ↦ ground (arith, h, p, x)
          | inr (label, x) ↦ elim (Option-cases (resolve_label r label)) [
            | inl y ↦ ground (arith, h, p, x, y)
            | inr (resolved, y) ↦
                let sent : forward codec opens (prelude_of codec opens now peer host) buffered
                      resolved
                    ≡ forwarded t stream =
                  ground (arith, h, p, x, y) in
                let (same, opened) =
                  forward-IsOpening (prelude_of codec opens now peer host) buffered resolved t
                    stream sent in
                (
                  p,
                  (
                    (label, ((extract_label_exact host apex label).0 x, y ∙ ap some same)),
                    subst
                        (λ u.
                          (opening : Bytes) × (IsOpening (prelude_of codec opens now peer host) u
                              opening
                            × (stream ≡ opening ++ buffered)))
                        same opened,
                  ),
                )
          ]
        ]
      ]

module _ (parse : Bytes → Parsed) (from_utf8 : Bytes → Option Bytes)
    (codec : Postcard InspectionPrelude) (opens : ℕ → Bool) where
  -- A socket is forwarded only if a whole request came, its path is no challenge's and its host is a
  -- label in front of the apex. Then it goes to the live tunnel that the label resolves to; the
  -- stream holds that tunnel's header and, if it is inspected, the prelude, then all that was read.
  pub handle-forwarded :
      (now : ℕ) (peer : Option Bytes) (apex : Bytes) (r : TunnelRegistry)
      (challenges : Map Bytes Bytes) (chunks : List Bytes) (t : ResolvedTunnel) (stream : Bytes)
      → handle parse from_utf8 codec opens now peer apex r challenges chunks ≡ forwarded t stream
      → (request : Request) × ((read_request parse from_utf8 [] chunks ≡ ok request)
          × ((strip_prefix acme_path_prefix request.1.1 ≡ none)
              × (((label : Bytes) × ((host_name request.1.0
                        ≡ label ++ (46 ∷ to_ascii_lowercase apex))
                      × (resolve_label r label ≡ some t)))
                  × ((opening : Bytes) × (IsOpening codec opens
                          (prelude_of codec opens now peer request.1.0)
                          t
                          opening
                        × (stream ≡ opening ++ request.0))))))
  unfolding handle
  handle-forwarded now peer apex r challenges chunks t stream h =
      elim (Result-cases (read_request parse from_utf8 [] chunks)) [
        | inl (e, p) ↦ ground (arith, h, p)
        | inr ((buffered, (host, path)), p) ↦ (
          (buffered, (host, path)),
          (
            p,
            route-forwarded codec opens now peer apex r challenges buffered host path t stream
                (ground (arith, h, p)),
          ),
        )
      ]
