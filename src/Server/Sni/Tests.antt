-- ===== src/Server/Sni/Tests.antt =====
-- Runs of the ClientHello parser, on texts taken as they are.
use krot.Base.{ℕ, zero, suc, ◌≡◌, ◌≢◌, refl, Option, some, [], ◌∷◌, Bytes, text, err, arith}
use krot.Server.Error.{protocol}
use krot.Server.Sni.{peek_sni, read_at_least, stuck}
use krot.Server.Sni.Extensions.{host_name, protocols, other, ClientHello}
use krot.Server.Sni.Rounds.{peek_sni-terminates}
use krot.Server.Sni.RoundTrip.{IsHello}

abbrev pub as_is : Bytes → Option Bytes
as_is s = some s

abbrev zeros : ℕ → Bytes
zeros zero = []
zeros (suc n) = 0 ∷ zeros n

-- A hello with a key share first, the protocols before the name, and versions behind.
abbrev pub hello : ClientHello
hello = record {
  major = 3;
  minor = 3;
  random = zeros 32;
  session_id = 1 ∷ 2 ∷ [];
  cipher_suites = 0x13 ∷ 1 ∷ [];
  compression = 0 ∷ [];
  extensions =
      other 51 (7 ∷ 7 ∷ [])
      ∷ protocols (text "krot-tcp/1" ∷ text "h2" ∷ [])
      ∷ host_name (text "api.krot")
      ∷ other 43 (4 ∷ [])
      ∷ [];
}

pub hello-IsHello : IsHello as_is hello (text "api.krot")
hello-IsHello = record {
  random_size = refl;
  readable = (
    (omega arith, omega arith),
    (tt, ((text "api.krot", refl), ((omega arith, omega arith), tt))),
  );
  named = refl;
  small = omega arith;
}

needs_record :
    peek_sni as_is (0x16 ∷ 3 ∷ 1 ∷ []) ≡ err (protocol (text "eof while reading ClientHello"))
unfolding peek_sni read_at_least
needs_record = refl

-- A record whose length is more than its hello's.
abbrev cut_short : Bytes
cut_short = 22 ∷ 3 ∷ 1 ∷ 0 ∷ 5 ∷ 1 ∷ 0 ∷ 0 ∷ 1 ∷ 7 ∷ []

peek_sni-terminates_example : peek_sni as_is cut_short ≢ err stuck
peek_sni-terminates_example = peek_sni-terminates as_is cut_short
