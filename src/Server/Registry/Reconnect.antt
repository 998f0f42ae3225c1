-- ===== src/Server/Registry/Reconnect.antt =====
-- A lease from the drop of a connection to the resumption on another.
use krot.Base.{
  nat_eq, text_eq, ℕ, ◌+◌, ◌==◌, ◌≡◌, refl, sym, subst, ◌∙◌, ap, if◌then◌else◌, Bool, Option, none,
  some, inl, inr, Option-cases, Bytes, arith, ==_iff,
}
use krot.Base.Map
use krot.Proto.Frames.{TunnelId, SessionId, PubKey}
use krot.Server.Registry.{
  http, live, dangling, TunnelInfo, TunnelRegistry, resolve_label, resolve_state,
}
use krot.Server.Registry.Lease.{
  is_dangling, ResumedInfo, resumed_http, resumed_info, reattached, reattach, candidate,
  resume_found, try_resume, mark_dangling,
}
use krot.Server.Registry.Resume.{Resumable, try_resume_cases}
use krot.Server.Registry.LeaseLaws.{get-mark_dangling, leased}
use krot.Server.Registry.Interleaving.Leases.{mark_each-RoutesAlike}

reattach_lem :
    (r : TunnelRegistry) (id : TunnelId) (info : TunnelInfo) (connection : ℕ) (i : TunnelId)
    (resumed : ResumedInfo) (inspect : Bool)
    → (reattach r id info connection).0 ≡ reattached i resumed inspect
    → (i ≡ id)
      × (resumed_info info.kind info.tcp_listener ≡ some resumed)
      × (inspect ≡ info.inspect)
unfolding reattach
reattach_lem r id info connection i resumed inspect e =
    ground (arith, Option-cases (resumed_info info.kind info.tcp_listener))

reattach-tunnels :
    (r : TunnelRegistry) (id : TunnelId) (info : TunnelInfo) (connection : ℕ) (i : TunnelId)
    → Map.get id r.tunnels ≡ some info
    → Map.get i (reattach r id info connection).1.tunnels ≡ (
        if id == i
        then some (record info { state = live connection none })
        else Map.get i r.tunnels)
unfolding reattach
reattach-tunnels r id info connection i here = ground (
  arith,
  ==_iff id i,
  Option-cases (resumed_info info.kind info.tcp_listener),
  Map.get-update id i (λ (info : TunnelInfo). record info { state = live connection none })
      r.tunnels,
)

-- A tunnel is handed back only if it dangles, be its lease run out or not, and the caller shows its
-- session and its owner's key; it is the tunnel found for the label, the answer carries its own data, and
-- the table then has it live on the new connection and every other tunnel as before.
pub reattached_sound :
    (r : TunnelRegistry) (label : Bytes) (session_id : SessionId) (pubkey : PubKey) (connection : ℕ)
    (id : TunnelId) (resumed : ResumedInfo) (inspect : Bool)
    → (try_resume r label session_id pubkey connection).0 ≡ reattached id resumed inspect
    → (info : TunnelInfo) × Resumable r label session_id pubkey connection id info
      × (resumed_info info.kind info.tcp_listener ≡ some resumed)
      × (inspect ≡ info.inspect)
      × ((i : TunnelId)
          → Map.get i (try_resume r label session_id pubkey connection).1.tunnels ≡ (
              if id == i
              then some (record info { state = live connection none })
              else Map.get i r.tunnels))
reattached_sound r label session_id pubkey connection id resumed inspect e =
    elim (try_resume_cases r label session_id pubkey connection) [
      | inl (_, other) ↦ absurd (other id resumed inspect e)
      | inr (id', info, able, same) ↦
          let (is_id, told, inspects) =
            reattach_lem r id' info connection id resumed inspect (ap (λ x. x.0) (sym same) ∙ e) in
          (
            info,
            subst (λ i. Resumable r label session_id pubkey connection i info) (sym is_id) able,
            told,
            inspects,
            λ i. rw (same, is_id) (reattach-tunnels r id' info connection i able.here),
          )
    ]

-- An HTTP tunnel that dangles.
module _ (r : TunnelRegistry) (label : Bytes) (id : TunnelId) (info : TunnelInfo) (expires_at : ℕ)
    (labelled : Map.get label r.labels ≡ some id) (here : Map.get id r.tunnels ≡ some info)
    (kind : info.kind ≡ http label) (waits : info.state ≡ dangling expires_at) where
  dangling-resolve_label : resolve_label r label ≡ none
  unfolding resolve_label resolve_state
  dangling-resolve_label = rw (labelled, resolve_label) (rw (here, resolve_label) (rw waits refl))

  dangling-try_resume :
      (connection : ℕ)
      → try_resume r label info.session_id info.owner connection ≡ (
        reattached id (resumed_http label) info.inspect,
        record r {
          tunnels = Map.update id (λ info. record info { state = live connection none }) r.tunnels;
        },
      )
  unfolding try_resume candidate resume_found reattach resumed_info is_dangling
  dangling-try_resume connection =
      rw (labelled, try_resume)
        (rw (here, try_resume)
          (rw (waits, resume_found)
            (rw ((==_iff info.session_id info.session_id).1 refl, resume_found)
              (rw ((==_iff info.owner info.owner).1 refl, resume_found)
                (rw (kind, reattach) refl)))))

  resolve_label-resumed :
      (connection : ℕ)
      → resolve_label
          (record r {
            tunnels =
                Map.update id (λ info. record info { state = live connection none }) r.tunnels;
          })
          label
        ≡ some
            (record { id = id; connection = connection; rate = info.rate; inspect = info.inspect })
  unfolding resolve_label resolve_state
  resolve_label-resumed connection = rw (labelled, resolve_label) (rw (updated, resolve_label) refl)
    where
      updated :
          Map.get id
            (Map.update id (λ info. record info { state = live connection none }) r.tunnels)
          ≡ some (record info { state = live connection none })
      updated = rw (Map.get-update, here, (==_iff id id).1 refl) refl

mark_dangling-labels :
    (r : TunnelRegistry) (owner : PubKey) (grace now : ℕ)
    → (mark_dangling r owner grace now).labels ≡ r.labels
unfolding mark_dangling
mark_dangling-labels r owner grace now =
    (mark_each-RoutesAlike (now + grace) r
      (Map.keys_where (λ info. info.owner == owner) r.tunnels)).labels

-- The connection of an HTTP tunnel drops, in a table whose ids are distinct: its label does not
-- route. The client that shows the owner's key and the session then gets the tunnel back under the
-- same id and label, and the label routes to the new connection.
pub drop_and_resume :
    (r : TunnelRegistry) (grace now : ℕ) (label : Bytes) (id : TunnelId) (info : TunnelInfo)
    (abort : Option ℕ) (old connection : ℕ)
    → Map.IsDistinct r.tunnels
    → Map.get label r.labels ≡ some id
    → Map.get id r.tunnels ≡ some info
    → info.kind ≡ http label
    → info.state ≡ live old abort
    → let dropped = mark_dangling r info.owner grace now in
      let (answer, resumed) = try_resume dropped label info.session_id info.owner connection in
      (resolve_label dropped label ≡ none)
      × (answer ≡ reattached id (resumed_http label) info.inspect)
      × (resolve_label resumed label
          ≡ some (record {
            id = id;
            connection = connection;
            rate = info.rate;
            inspect = info.inspect;
          }))
unfolding is_dangling
drop_and_resume r grace now label id info abort old connection distinct labelled here kind alive =
    let dropped = mark_dangling r info.owner grace now in
    let waiting : TunnelInfo = record info { state = dangling (now + grace) } in
    let labelled' : Map.get label dropped.labels ≡ some id =
      ap (Map.get label) (mark_dangling-labels r info.owner grace now) ∙ labelled in
    let here' : Map.get id dropped.tunnels ≡ some waiting =
      get-mark_dangling r info.owner grace now id distinct ∙ leases in
    let answer =
      dangling-try_resume dropped label id waiting (now + grace) labelled' here' kind refl
        connection in
    (
      dangling-resolve_label dropped label id waiting (now + grace) labelled' here' kind refl,
      ap (λ x. x.0) answer,
      ap (λ x. resolve_label x.1 label) answer
          ∙ resolve_label-resumed dropped label id waiting (now + grace) labelled' here' kind refl
              connection,
    )
  where
    leases :
        Map.map_option
          (λ i. if i.owner == info.owner then leased (now + grace) i else i)
          (Map.get id r.tunnels)
        ≡ some (record info { state = dangling (now + grace) })
    leases = rw (here, (==_iff info.owner info.owner).1 refl, alive) refl
