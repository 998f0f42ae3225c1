-- ===== src/Server/Keys.antt =====
-- crates/krot-server/src/keys.rs: the entry of an identity in the `authorized_keys` file.
pub mod Parse
pub mod Registry
pub mod Ports
pub mod Reload
pub mod Removal
mod Tests
use krot.Base.{
  ℕ, ◌==◌, not, ◌&&◌, if◌then◌else◌, Bool, true, false, Option, none, some, List, [], ◌∷◌, Bytes,
  bytes_eq,
}
use krot.Server.Rate.{RatePer, Period, second, minute, hour, day, week, month}

pub record AuthorizedEntry : Type 0 where
  pub allow_any_subdomain : Bool
  pub allowed_subdomains : List Bytes
  pub max_conns : Option ℕ
  pub allowed_ports : Option (List ℕ)
  pub bw : Option RatePer
  pub quota : Option RatePer
  pub federation : List Bytes
  pub comment : Option Bytes

-- The derived equalities.
abbrev pub bool_eq : Bool → Bool → Bool
bool_eq true b = b
bool_eq false b = not b

abbrev pub option_eq {ℓ} : {A : Type ℓ} → (A → A → Bool) → Option A → Option A → Bool
option_eq eq none none = true
option_eq eq (some a) (some b) = eq a b
option_eq eq none (some b) = false
option_eq eq (some a) none = false

abbrev pub list_eq {ℓ} : {A : Type ℓ} → (A → A → Bool) → List A → List A → Bool
list_eq eq [] [] = true
list_eq eq (a ∷ xs) (b ∷ ys) = eq a b && list_eq eq xs ys
list_eq eq [] (b ∷ ys) = false
list_eq eq (a ∷ xs) [] = false

abbrev pub period_eq : Period → Period → Bool
period_eq second second = true
period_eq minute minute = true
period_eq hour hour = true
period_eq day day = true
period_eq week week = true
period_eq month month = true
period_eq _ _ = false

abbrev pub rate_eq : RatePer → RatePer → Bool
rate_eq a b = (a.bytes == b.bytes) && period_eq a.period b.period

unfoldable pub authorization_equal : AuthorizedEntry → AuthorizedEntry → Bool
authorization_equal a b =
    bool_eq a.allow_any_subdomain b.allow_any_subdomain
    && list_eq bytes_eq a.allowed_subdomains b.allowed_subdomains
    && option_eq ◌==◌ a.max_conns b.max_conns
    && option_eq (list_eq ◌==◌) a.allowed_ports b.allowed_ports
    && option_eq rate_eq a.bw b.bw
    && option_eq rate_eq a.quota b.quota
    && list_eq bytes_eq a.federation b.federation
