-- ===== src/Server/Text/Lines.antt =====
-- Lines of a text that is put together from lines.
use krot.Base.{
  ℕ, ◌≡◌, ◌≢◌, refl, ◌⊎◌, ap, ◌∙◌, inl, inr, ◌==◌, ==_iff, ◌&&◌, if◌then◌else◌, Bool-cases, List,
  [], ◌∷◌, ◌++◌, Bytes, All, arith,
}
use krot.Server.Rate.{trim_start, trim_end, trim}
use krot.Server.Text.{starts_with, lines}

abbrev pub IsOtherByte : ℕ → Type 0
IsOtherByte c = c ≢ 10

-- A line without the carriage return at its end.
abbrev pub strip : Bytes → Bytes
strip [] = []
strip (c ∷ []) = if c == 13 then [] else c ∷ []
strip (c ∷ d ∷ s) = c ∷ strip (d ∷ s)

abbrev pub IsLine : Bytes → Type 0
IsLine line = All IsOtherByte line

-- A character put before the first line.
abbrev onto : ℕ → List Bytes → List Bytes
onto c [] = (c ∷ []) ∷ []
onto c (line ∷ more) = (c ∷ line) ∷ more

onto-IsLine : (c : ℕ) (ls : List Bytes) → c ≢ 10 → All IsLine ls → All IsLine (onto c ls)
onto-IsLine c [] ne h = ((ne, tt), tt)
onto-IsLine c (line ∷ more) ne h = ((ne, h.0), h.1)

lines-cons :
    (c : ℕ) (s : Bytes) → c ≢ 10 → (lines (c ∷ s) ≡ lines s) ⊎ (lines (c ∷ s) ≡ onto c (lines s))
unfolding lines
lines-cons c s ne = elim (Bool-cases ((c == 13) && starts_with 10 s)) [
  | inl cr ↦ inl (ground (arith, ne, cr))
  | inr plain ↦ inr (ground (arith, ne, plain))
]

lines-newline : (s : Bytes) → lines (10 ∷ s) ≡ [] ∷ lines s
unfolding lines
lines-newline s = refl

lines-cons-IsLine : (c : ℕ) (s : Bytes) → All IsLine (lines s) → All IsLine (lines (c ∷ s))
lines-cons-IsLine c s h = elim (Bool-cases (c == 10)) [
  | inl newline ↦ rw ((==_iff c 10).0 newline, lines-newline s) (tt, h)
  | inr other ↦ elim (lines-cons c s (λ e. ground (arith, e, other))) [
    | inl same ↦ rw same h
    | inr longer ↦ rw longer (onto-IsLine c (lines s) (λ e. ground (arith, e, other)) h)
  ]
]

pub lines-IsLine : (s : Bytes) → All IsLine (lines s)
unfolding lines
lines-IsLine [] = tt
lines-IsLine (c ∷ s) = lines-cons-IsLine c s (lines-IsLine s)

pub lines-line :
    (line rest : Bytes) → IsLine line → lines (line ++ (10 ∷ rest)) ≡ strip line ∷ lines rest
unfolding lines
lines-line [] rest h = refl
lines-line (c ∷ []) rest h = ground (arith, h.0)
lines-line (c ∷ d ∷ line) rest h = ground (arith, h.0, h.1.0, lines-line (d ∷ line) rest h.1)

trim_start-strip : (s : Bytes) → trim_start (strip s) ≡ strip (trim_start s)
unfolding trim_start
trim_start-strip [] = refl
trim_start-strip (c ∷ []) = ground arith
trim_start-strip (c ∷ d ∷ s) = ground (arith, trim_start-strip (d ∷ s))

trim_end-strip : (s : Bytes) → trim_end (strip s) ≡ trim_end s
unfolding trim_end
trim_end-strip [] = refl
trim_end-strip (c ∷ []) = ground arith
trim_end-strip (c ∷ d ∷ s) = ground (arith, trim_end-strip (d ∷ s))

-- Trimming takes the carriage return off too.
pub trim-strip : (s : Bytes) → trim (strip s) ≡ trim s
unfolding trim
trim-strip s = ap trim_end (trim_start-strip s) ∙ trim_end-strip (trim_start s)
