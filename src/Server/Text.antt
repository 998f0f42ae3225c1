-- ===== src/Server/Text.antt =====
-- What the parsers of crates/krot-server take from `str`. A text is ASCII.
pub mod Lines
use krot.Base.{
  ℕ, zero, suc, ◌+◌, ◌-◌, ◌*◌, ◌^◌, ◌==◌, ltb, not, ◌&&◌, if◌then◌else◌, Bool, true, false, Option,
  none, some, List, [], ◌∷◌, ◌++◌, Bytes,
}
use krot.Server.Rate.{is_space, is_digit}

-- `s.split(c)`, which is never empty.
unfoldable pub split : ℕ → Bytes → List Bytes
split c [] = [] ∷ []
split c (d ∷ s) = elim (split c s) [
  | [] ↦ if d == c then [] ∷ [] else (d ∷ []) ∷ []
  | part ∷ parts ↦ if d == c then [] ∷ part ∷ parts else (d ∷ part) ∷ parts
]

-- `s.split(c).next()` and `s.find(c)`: the text before the first `c`, and the text behind it.
unfoldable pub before : ℕ → Bytes → Bytes
before c [] = []
before c (d ∷ s) = let rest = before c s in if d == c then [] else d ∷ rest

unfoldable pub behind : ℕ → Bytes → Option Bytes
behind c [] = none
behind c (d ∷ s) = let rest = behind c s in if d == c then some s else rest

-- `s.split_once(c)`
unfoldable pub split_once : ℕ → Bytes → Option (Bytes × Bytes)
unfolding before behind
split_once c s = elim (behind c s) [ none ↦ none | some back ↦ some (before c s, back) ]

-- `s.split_whitespace()`, from the characters of the word at hand.
unfoldable pub words : Bytes → Bytes → List Bytes
words [] [] = []
words (w ∷ word) [] = (w ∷ word) ∷ []
words word (c ∷ s) =
    let rest = words [] s in
    let longer = words (word ++ (c ∷ [])) s in
    if is_space c then (elim word [ [] ↦ rest | w ∷ more ↦ (w ∷ more) ∷ rest ]) else longer

abbrev pub split_whitespace : Bytes → List Bytes
split_whitespace s = words [] s

-- `parts.join(c)`
unfoldable pub join : ℕ → List Bytes → Bytes
join c [] = []
join c (part ∷ []) = part
join c (part ∷ next ∷ parts) = part ++ (c ∷ join c (next ∷ parts))

abbrev pub starts_with : ℕ → Bytes → Bool
starts_with c [] = false
starts_with c (d ∷ s) = d == c

unfoldable pub ends_with : ℕ → Bytes → Bool
ends_with c [] = false
ends_with c (d ∷ []) = d == c
ends_with c (d ∷ e ∷ s) = ends_with c (e ∷ s)

abbrev pub is_empty_text : Bytes → Bool
is_empty_text [] = true
is_empty_text (c ∷ s) = false

-- `text.lines()`: a line ends at `\n` or `\r\n`.
unfoldable pub lines : Bytes → List Bytes
lines [] = []
lines (c ∷ s) =
    let rest = lines s in
    if c == 10
    then [] ∷ rest
    else if (c == 13) && starts_with 10 s
    then rest
    else elim rest [ [] ↦ (c ∷ []) ∷ [] | line ∷ more ↦ (c ∷ line) ∷ more ]

-- `s.parse()` into an unsigned number of `w` bits, from the value of the digits before.
unfoldable pub parse_number : ℕ → ℕ → Bytes → Option ℕ
parse_number w n [] = some n
parse_number w n (c ∷ s) =
    let next = n * 10 + (c - 48) in
    let rest = parse_number w next s in if is_digit c && ltb next (2 ^ w) then rest else none

-- The sign that is allowed, and one digit at least.
unfoldable pub parse_uint : ℕ → Bytes → Option ℕ
unfolding parse_number
parse_uint w [] = none
parse_uint w (c ∷ []) = parse_number w 0 (c ∷ [])
parse_uint w (c ∷ d ∷ s) =
    if c == 43 then parse_number w 0 (d ∷ s) else parse_number w 0 (c ∷ d ∷ s)
