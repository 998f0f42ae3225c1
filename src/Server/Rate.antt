-- ===== src/Server/Rate.antt =====
-- crates/krot-server/src/rate.rs: the limits of an identity. Times are milliseconds on the clock
-- of `Instant`; a text is ASCII, so its white space is the six bytes that `trim` takes there. The
-- buckets of the `governor` crate and the counters of the metrics are left out.
pub mod Charges
pub mod Rates
mod Tests
use krot.Base.{
  ℕ, zero, suc, ◌+◌, ◌-◌, ◌*◌, ◌/◌, ◌%◌, ◌^◌, min, ◌==◌, ltb, leb, not, ◌&&◌, ◌||◌, if◌then◌else◌,
  Bool, true, false, Option, none, some, List, [], ◌∷◌, ◌++◌, Bytes, bytes_eq, text, ◌>>=◌,
}
use krot.Proto.Frames.{TunnelId, ServerFrame, rate_limit}

pub data Period : Type 0 where
  second minute hour day week month : Period

-- In seconds.
unfoldable pub as_duration : Period → ℕ
as_duration second = 1
as_duration minute = 60
as_duration hour = 60 * 60
as_duration day = 24 * 60 * 60
as_duration week = 7 * 24 * 60 * 60
as_duration month = 30 * 24 * 60 * 60

pub record RatePer : Type 0 where
  pub bytes : ℕ
  pub period : Period

abbrev pub max : ℕ → ℕ → ℕ
max a b = if leb a b then b else a

-- `div_ceil` by the number of seconds.
unfoldable pub as_bytes_per_second : RatePer → ℕ
unfolding as_duration
as_bytes_per_second rate =
    let secs = max (as_duration rate.period) 1 in (rate.bytes + (secs - 1)) / secs

abbrev pub is_space : ℕ → Bool
is_space c = (leb 9 c && leb c 13) || (c == 32)

unfoldable pub trim_start : Bytes → Bytes
trim_start [] = []
trim_start (c ∷ s) = let rest = trim_start s in if is_space c then rest else c ∷ s

unfoldable pub trim_end : Bytes → Bytes
trim_end [] = []
trim_end (c ∷ s) = elim (trim_end s) [ [] ↦ if is_space c then [] else c ∷ [] | d ∷ t ↦ c ∷ d ∷ t ]

unfoldable pub trim : Bytes → Bytes
unfolding trim_start trim_end
trim s = trim_end (trim_start s)

-- `rsplit_once('/')`
unfoldable pub rsplit_once : Bytes → Option (Bytes × Bytes)
rsplit_once [] = none
rsplit_once (c ∷ s) = elim (rsplit_once s) [
  | some (front, back) ↦ some (c ∷ front, back)
  | none ↦ if c == 47 then some ([], s) else none
]

abbrev pub is_digit : ℕ → Bool
is_digit c = leb 48 c && leb c 57

-- `s.split_at` before the first byte that is no digit.
unfoldable pub split_digits : Bytes → Bytes × Bytes
split_digits [] = ([], [])
split_digits (c ∷ s) =
    let (front, back) = split_digits s in if is_digit c then (c ∷ front, back) else ([], c ∷ s)

-- `num.parse::<u64>()` on digits, from the value of those before.
unfoldable pub parse_digits : ℕ → Bytes → Option ℕ
parse_digits n [] = some n
parse_digits n (c ∷ s) =
    let next = n * 10 + (c - 48) in
    let rest = parse_digits next s in if ltb next (2 ^ 64) then rest else none

unfoldable pub parse_u64 : Bytes → Option ℕ
unfolding parse_digits
parse_u64 [] = none
parse_u64 (c ∷ s) = parse_digits 0 (c ∷ s)

unfoldable pub unit_of : Bytes → Option ℕ
unit_of u =
    if bytes_eq u (text "") || bytes_eq u (text "B")
    then some 1
    else if bytes_eq u (text "KB") || bytes_eq u (text "kB")
    then some 1000
    else if bytes_eq u (text "KiB")
    then some 1024
    else if bytes_eq u (text "MB")
    then some 1000000
    else if bytes_eq u (text "MiB")
    then some (1024 * 1024)
    else if bytes_eq u (text "GB")
    then some 1000000000
    else if bytes_eq u (text "GiB")
    then some (1024 * 1024 * 1024)
    else if bytes_eq u (text "TB")
    then some 1000000000000
    else if bytes_eq u (text "TiB")
    then some (1024 ^ 4)
    else none

abbrev pub checked_mul : ℕ → ℕ → Option ℕ
checked_mul a b = if ltb (a * b) (2 ^ 64) then some (a * b) else none

unfoldable pub parse_bytes : Bytes → Option ℕ
unfolding split_digits parse_u64 trim unit_of
parse_bytes s =
    let (num, unit) = split_digits s in
    elim (parse_u64 num) [
      | none ↦ none
      | some n ↦ elim (unit_of (trim unit)) [ none ↦ none | some mul ↦ checked_mul n mul ]
    ]

unfoldable pub period_of : Bytes → Option Period
period_of p =
    if bytes_eq p (text "s") || bytes_eq p (text "sec") || bytes_eq p (text "second")
    then some second
    else if bytes_eq p (text "m") || bytes_eq p (text "min") || bytes_eq p (text "minute")
    then some minute
    else if bytes_eq p (text "h") || bytes_eq p (text "hr") || bytes_eq p (text "hour")
    then some hour
    else if bytes_eq p (text "d") || bytes_eq p (text "day")
    then some day
    else if bytes_eq p (text "w") || bytes_eq p (text "week")
    then some week
    else if bytes_eq p (text "mo") || bytes_eq p (text "month")
    then some month
    else none

unfoldable pub parse_rate_per : Bytes → Option RatePer
unfolding rsplit_once period_of parse_bytes trim
parse_rate_per s = elim (rsplit_once s) [
  | none ↦ none
  | some (amount, period) ↦ elim (period_of (trim period)) [
    | none ↦ none
    | some p ↦ elim (parse_bytes (trim amount)) [
      | none ↦ none
      | some n ↦ some (record { bytes = n; period = p })
    ]
  ]
]

-- The rate of each bucket of `from_entry_with_metrics`, and their number.
unfoldable pub per_core_bps : RatePer → ℕ → ℕ × ℕ
unfolding as_bytes_per_second
per_core_bps rate bw_partitions =
    let partitions = max bw_partitions 1 in
    let total_bps = min (as_bytes_per_second rate) (2 ^ 32 - 1) in
    (max (total_bps / partitions) 1, partitions)

-- `queued` holds what went to the control stream, newest first; `attached` tells whether a session
-- listens.
pub record RateLimitState : Type 0 where
  pub quota_cap : Option ℕ
  pub quota_period : Period
  pub quota_used : ℕ
  pub quota_reset_at : ℕ
  pub attached : Bool
  pub queued : List ServerFrame

abbrev pub quota_cap_of : Option RatePer → Option ℕ
quota_cap_of none = none
quota_cap_of (some q) = some q.bytes

abbrev pub quota_period_of : Option RatePer → Period
quota_period_of none = month
quota_period_of (some q) = q.period

unfoldable pub from_entry : Option RatePer → (now : ℕ) → RateLimitState
unfolding as_duration
from_entry quota now = record {
  quota_cap = quota_cap_of quota;
  quota_period = quota_period_of quota;
  quota_used = 0;
  quota_reset_at = now + as_duration (quota_period_of quota) * 1000;
  attached = false;
  queued = [];
}

unfoldable pub attach_ctrl : RateLimitState → RateLimitState
attach_ctrl s = record s { attached = true }

unfoldable pub detach_ctrl : RateLimitState → RateLimitState
detach_ctrl s = record s { attached = false }

unfoldable pub retry_after_ms : RateLimitState → (now : ℕ) → ℕ
retry_after_ms s now = let d = s.quota_reset_at - now in if ltb d (2 ^ 32) then d else 2 ^ 32 - 1

pub data Charge : Type 0 where
  charged : Charge
  quota_exceeded : (retry_after_ms : ℕ) → Charge

-- The counter starts again when the reset instant has passed.
unfoldable pub roll : RateLimitState → (now : ℕ) → RateLimitState
unfolding as_duration
roll s now =
    if leb s.quota_reset_at now
    then record s { quota_used = 0; quota_reset_at = now + as_duration s.quota_period * 1000 }
    else s

-- `fetch_add` wraps, as does the sum in a release build. `later` is the clock at `retry_after_ms`.
unfoldable pub charge : RateLimitState → TunnelId → ℕ → (now later : ℕ) → Charge × RateLimitState
unfolding roll retry_after_ms
charge s tunnel_id n now later = elim s.quota_cap [
  | none ↦ (charged, s)
  | some limit ↦
      let rolled = roll s now in
      let used = (rolled.quota_used + n) % 2 ^ 64 in
      let counted = record rolled { quota_used = used } in
      let wait = retry_after_ms counted later in
      if ltb limit used
      then (
        quota_exceeded wait,
        if counted.attached
            then record counted { queued = rate_limit (some tunnel_id) wait ∷ counted.queued }
            else counted,
      )
      else (charged, counted)
]
