-- ===== src/Server/Rate/Rates.antt =====
-- Rates per second.
use krot.Base.{ℕ, ◌*◌, ◌≤◌, ◌↔◌, arith}
use krot.Server.Rate.{
  Period, second, minute, hour, day, week, month, as_duration, RatePer, as_bytes_per_second,
}

-- A rate in bytes per second allows a period's bytes within the period exactly when it is at least
-- the computed one.
pub as_bytes_per_second_least :
    (rate : RatePer) (bps : ℕ)
    → (as_bytes_per_second rate ≤ bps) ↔ (rate.bytes ≤ bps * as_duration rate.period)
unfolding as_bytes_per_second as_duration
as_bytes_per_second_least rate bps = go rate.period
  where
    go :
        (p : Period)
        → let bps' = as_bytes_per_second (record { bytes = rate.bytes; period = p }) in
          (bps' ≤ bps) ↔ (rate.bytes ≤ bps * as_duration p)
    go second = ground arith
    go minute = ground arith
    go hour = ground arith
    go day = ground arith
    go week = ground arith
    go month = ground arith
