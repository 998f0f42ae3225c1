-- ===== src/Server/Rate/Tests.antt =====
-- Runs of the limits.
use krot.Base.{
  ◌+◌, ◌*◌, ◌≤◌, ◌≡◌, ◌↔◌, ◌⊎◌, refl, true, none, some, List, [], ◌∷◌, text, bytes_eq, arith,
}
use krot.Server.Rate.{
  day, month, as_duration, as_bytes_per_second, parse_rate_per, parse_bytes, split_digits,
  parse_u64, trim, trim_start, trim_end, unit_of, period_of, rsplit_once, RateLimitState, charge,
}
use krot.Server.Rate.Charges.{Request, granted, granted_within_cap}
use krot.Server.Rate.Rates.{as_bytes_per_second_least}

parse_day : parse_rate_per (text " 10 KiB / day") ≡ some (record { bytes = 10240; period = day })
unfolding parse_rate_per rsplit_once trim trim_start trim_end split_digits parse_u64 unit_of
    period_of parse_bytes bytes_eq
parse_day = refl

parse_no_unit : parse_rate_per (text "10XB/day") ≡ none
unfolding parse_rate_per rsplit_once trim trim_start trim_end split_digits parse_u64 unit_of
    period_of parse_bytes bytes_eq
parse_no_unit = refl

abbrev state : RateLimitState
state = record {
  quota_cap = some 100;
  quota_period = month;
  quota_used = 30;
  quota_reset_at = 1000;
  attached = true;
  queued = [];
}

abbrev requests : List Request
requests =
    record { tunnel_id = 1; size = 60; now = 10; later = 11 }
    ∷ record { tunnel_id = 2; size = 20; now = 12; later = 13 }
    ∷ []

granted_60 : granted state requests ≡ 60
unfolding granted charge
granted_60 = refl

granted_within_cap_example : (granted state requests ≡ 0) ⊎ (30 + granted state requests ≤ 100)
granted_within_cap_example = granted_within_cap requests state 100 refl (ground arith) (omega arith)

as_bytes_per_second_least_example :
    (as_bytes_per_second (record { bytes = 100000; period = day }) ≤ 2)
    ↔ (100000 ≤ 2 * as_duration day)
as_bytes_per_second_least_example =
    as_bytes_per_second_least (record { bytes = 100000; period = day }) 2
