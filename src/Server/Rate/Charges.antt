-- ===== src/Server/Rate/Charges.antt =====
-- The period quota over a run of charges.
use krot.Base.{
  ℕ, ◌+◌, ◌^◌, ◌<◌, ◌≤◌, ◌≡◌, refl, sym, subst, ◌⊎◌, inl, inr, ltb, Bool-cases, some, List, [], ◌∷◌,
  All, arith,
}
use krot.Proto.Frames.{TunnelId}
use krot.Server.Rate.{RateLimitState, roll, retry_after_ms, Charge, charged, quota_exceeded, charge}

-- A charge that a data path makes.
pub record Request : Type 0 where
  pub tunnel_id : TunnelId
  pub size : ℕ
  pub now : ℕ
  pub later : ℕ

abbrev pub counted_size : Charge → ℕ → ℕ
counted_size charged n = n
counted_size (quota_exceeded ms) n = 0

-- The bytes that may pass in a run of charges.
unfoldable pub granted : RateLimitState → List Request → ℕ
granted s [] = 0
granted s (q ∷ qs) =
    let (answer, s') = charge s q.tunnel_id q.size q.now q.later in
    let rest = granted s' qs in counted_size answer q.size + rest

abbrev pub total : List Request → ℕ
total [] = 0
total (q ∷ qs) = q.size + total qs

-- One charge within the period.
charge_within :
    (s : RateLimitState) (limit : ℕ) (tunnel_id : TunnelId) (n now later : ℕ)
    → s.quota_cap ≡ some limit
    → now < s.quota_reset_at
    → s.quota_used + n < 2 ^ 64
    → let (answer, s') = charge s tunnel_id n now later in
      (s'.quota_cap ≡ some limit)
      × (s'.quota_reset_at ≡ s.quota_reset_at)
      × (s'.quota_used ≡ s.quota_used + n)
      × ((counted_size answer n ≡ n) × (s.quota_used + n ≤ limit)
          ⊎ (counted_size answer n ≡ 0) × (limit < s.quota_used + n))
unfolding charge roll
charge_within s limit tunnel_id n now later capped early fits =
    let wait = retry_after_ms (record s { quota_used = s.quota_used + n }) later in
    elim (Bool-cases (ltb limit (s.quota_used + n))) [
      | inl over ↦ rw (capped, charge) (ground arith)
      | inr fine ↦ rw (capped, charge) (ground arith)
    ]

-- Within one period no more bytes pass than the cap leaves, in whatever sizes they come and over
-- whatever tunnels; past the cap none do. The counter of 64 bits must not wrap.
pub granted_within_cap :
    (qs : List Request) (s : RateLimitState) (limit : ℕ)
    → s.quota_cap ≡ some limit
    → All (λ q. q.now < s.quota_reset_at) qs
    → s.quota_used + total qs < 2 ^ 64
    → (granted s qs ≡ 0) ⊎ (s.quota_used + granted s qs ≤ limit)
unfolding granted
granted_within_cap [] s limit capped early fits = inl refl
granted_within_cap (q ∷ qs) s limit capped early fits =
    let (still, same_end, used, answer) =
      charge_within s limit q.tunnel_id q.size q.now q.later capped early.0 (omega arith) in
    let rest =
      granted_within_cap qs (charge s q.tunnel_id q.size q.now q.later).1 limit still
        (subst (λ e. All (λ (x : Request). x.now < e) qs) (sym same_end) early.1) (omega arith) in
    ground (arith, used, answer, rest)
