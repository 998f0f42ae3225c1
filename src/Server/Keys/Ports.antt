-- ===== src/Server/Keys/Ports.antt =====
-- `parse_ports` against the grammar of a list of ports and ranges.
use krot.Base.{
  nat_eq, ℕ, zero, suc, ◌+◌, ◌-◌, ◌≤◌, ◌≡◌, ◌≢◌, refl, sym, ap, subst, ◌∙◌, inl, inr, ◌==◌, ltb,
  leb, ◌&&◌, ◌||◌, if◌then◌else◌, Bool, true, false, Option, none, some, Option-cases, List, [],
  ◌∷◌, ◌++◌, Bytes, arith,
}
use krot.Base.HashSet.{contains}
use krot.Server.Rate.{trim}
use krot.Server.Text.{split, split_once, parse_uint}
use krot.Server.Keys.Parse.{port_range, parse_part, parse_parts, parse_ports}

-- A number of a port, and the test of one against another.
abbrev pub is_port : Bytes → Bool
is_port s = elim (parse_uint 16 s) [ none ↦ false | some n ↦ true ]

abbrev pub is_number : ℕ → Bytes → Bool
is_number p s = elim (parse_uint 16 s) [ none ↦ false | some n ↦ n == p ]

-- `lo-hi` or one port, as a part of the grammar and as the ports that it stands for.
abbrev pub bounds : Bytes → Bytes → Option (ℕ × ℕ)
bounds lo hi = elim (parse_uint 16 (trim lo)) [
  | none ↦ none
  | some l ↦ elim (parse_uint 16 (trim hi)) [
    | none ↦ none
    | some h ↦ if leb l h then some (l, h) else none
  ]
]

abbrev pub part_bounds : Bytes → Option (ℕ × ℕ)
part_bounds part = elim (split_once 45 part) [
  | some (lo, hi) ↦ bounds lo hi
  | none ↦ elim (parse_uint 16 part) [ none ↦ none | some p ↦ some (p, p) ]
]

abbrev pub is_within : ℕ → Option (ℕ × ℕ) → Bool
is_within p none = false
is_within p (some (l, h)) = leb l p && leb p h

abbrev pub is_bounded : Option (ℕ × ℕ) → Bool
is_bounded none = false
is_bounded (some b) = true

-- Every part is in the grammar; some part covers a port.
abbrev pub are_parts : List Bytes → Bool
are_parts [] = true
are_parts (part ∷ parts) = is_bounded (part_bounds (trim part)) && are_parts parts

abbrev pub are_covering : ℕ → List Bytes → Bool
are_covering p [] = false
are_covering p (part ∷ parts) = is_within p (part_bounds (trim part)) || are_covering p parts

contains-port_range : (p lo n : ℕ) → contains p (port_range lo n) ≡ (leb lo p && ltb p (lo + n))
unfolding contains port_range
contains-port_range p lo zero = ground arith
contains-port_range p lo (suc n) = ground (arith, contains-port_range p (lo + 1) n)

contains-append :
    (k : ℕ) (xs ys : List ℕ) → contains k (xs ++ ys) ≡ (contains k xs || contains k ys)
unfolding contains
contains-append k [] ys = refl
contains-append k (x ∷ xs) ys = ground (arith, contains-append k xs ys)

-- The ports between bounds.
abbrev ports_of : Option (ℕ × ℕ) → Option (List ℕ)
ports_of none = none
ports_of (some (l, h)) = some (port_range l (suc (h - l)))

port_range-one : (p : ℕ) → port_range p (suc (p - p)) ≡ p ∷ []
unfolding port_range
port_range-one p =
    let none_left : p - p ≡ 0 = omega arith in ap (λ n. p ∷ port_range (p + 1) n) none_left

parse_part-ports_of : (part : Bytes) → parse_part part ≡ ports_of (part_bounds part)
unfolding parse_part
parse_part-ports_of part = elim (Option-cases (split_once 45 part)) [
  | inl single ↦ elim (Option-cases (parse_uint 16 part)) [
    | inl bad ↦ ground (arith, single, bad)
    | inr (n, good) ↦ ground (arith, single, good, port_range-one n)
  ]
  | inr ((lo, hi), range) ↦ elim (Option-cases (parse_uint 16 (trim lo))) [
    | inl bad ↦ ground (arith, range, bad)
    | inr (l, low) ↦ elim (Option-cases (parse_uint 16 (trim hi))) [
      | inl bad ↦ ground (arith, range, low, bad)
      | inr (h, high) ↦ ground (arith, range, low, high)
    ]
  ]
]

-- What the grammar says of some parts, and what the ports read of them are: none outside the
-- grammar, else the ports that the parts cover.
abbrev pub IsReading : List Bytes → Option (List ℕ) → Type 0
IsReading parts none = are_parts parts ≡ false
IsReading parts (some ports) =
    (are_parts parts ≡ true) × ((p : ℕ) → contains p ports ≡ are_covering p parts)

-- The bounds of a part are in order.
part_bounds-le : (part : Bytes) {l h : ℕ} → part_bounds part ≡ some (l, h) → l ≤ h
part_bounds-le part {l} {h} e = elim (Option-cases (split_once 45 part)) [
  | inl single ↦ elim (Option-cases (parse_uint 16 part)) [
    | inl bad ↦ absurd (ground (arith, e, single, bad))
    | inr (n, good) ↦ ground (arith, e, single, good)
  ]
  | inr ((lo, hi), range) ↦ elim (Option-cases (parse_uint 16 (trim lo))) [
    | inl bad ↦ absurd (ground (arith, e, range, bad))
    | inr (a, low) ↦ elim (Option-cases (parse_uint 16 (trim hi))) [
      | inl bad ↦ absurd (ground (arith, e, range, low, bad))
      | inr (b, high) ↦ ground (arith, e, range, low, high)
    ]
  ]
]

abbrev joined : Option (List ℕ) → Option (List ℕ) → Option (List ℕ)
joined none more = none
joined (some ps) none = none
joined (some ps) (some more) = some (ps ++ more)

parse_parts-joined :
    (part : Bytes) (parts : List Bytes)
    → parse_parts (part ∷ parts) ≡ joined (parse_part (trim part)) (parse_parts parts)
unfolding parse_parts
parse_parts-joined part parts = ground arith

joined-IsReading :
    (part : Bytes) (parts : List Bytes) (b : Option (ℕ × ℕ)) (more : Option (List ℕ))
    → part_bounds (trim part) ≡ b
    → IsReading parts more
    → IsReading (part ∷ parts) (joined (ports_of b) more)
joined-IsReading part parts none more e h = ground (arith, e)
joined-IsReading part parts (some b) none e h = ground (arith, e, h)
joined-IsReading part parts (some (l, h)) (some more) e (good, covers) =
    let ordered = part_bounds-le (trim part) e in
    (
      ground (arith, e, good),
      λ p. ground (
        arith,
        e,
        ordered,
        contains-append p (port_range l (suc (h - l))) more,
        contains-port_range p l (suc (h - l)),
        covers p,
      ),
    )

parse_parts-IsReading : (parts : List Bytes) → IsReading parts (parse_parts parts)
unfolding parse_parts contains
parse_parts-IsReading [] = (refl, λ p. refl)
parse_parts-IsReading (part ∷ parts) =
    let e : parse_parts (part ∷ parts)
        ≡ joined (ports_of (part_bounds (trim part))) (parse_parts parts) =
      parse_parts-joined part parts
      ∙ ap (λ x. joined x (parse_parts parts)) (parse_part-ports_of (trim part)) in
    subst (λ x. IsReading (part ∷ parts) x) (sym e)
      (joined-IsReading part parts (part_bounds (trim part)) (parse_parts parts) refl
        (parse_parts-IsReading parts))

-- Parts of the grammar have a port.
no_ports : (parts : List Bytes) → IsReading parts (some []) → parts ≡ []
unfolding contains
no_ports [] h = refl
no_ports (part ∷ parts) (good, covers) = elim (Option-cases (part_bounds (trim part))) [
  | inl bad ↦ absurd (ground (arith, good, bad))
  | inr ((l, h), e) ↦ absurd (ground (arith, covers l, e, part_bounds-le (trim part) e))
]

split-some : (c : ℕ) (s : Bytes) → split c s ≢ []
unfolding split
split-some c [] e = cc
split-some c (d ∷ s) e = ground (arith, e)

-- `parse_ports` reads a list exactly when every part between commas is a port or a range in order,
-- of numbers of 16 bits; the list has exactly the ports that some part covers.
pub parse_ports-IsReading : (s : Bytes) → IsReading (split 44 s) (parse_ports s)
unfolding parse_ports
parse_ports-IsReading s = go (parse_parts (split 44 s)) refl (parse_parts-IsReading (split 44 s))
  where
    go :
        (r : Option (List ℕ))
        → parse_parts (split 44 s) ≡ r
        → IsReading (split 44 s) r
        → IsReading (split 44 s) (parse_ports s)
    go none e h =
        let same : parse_ports s ≡ none = ground (arith, e) in
        subst (λ x. IsReading (split 44 s) x) (sym same) h
    go (some []) e h = absurd (split-some 44 s (no_ports (split 44 s) h))
    go (some (p ∷ ps)) e h =
        let same : parse_ports s ≡ some (p ∷ ps) = ground (arith, e) in
        subst (λ x. IsReading (split 44 s) x) (sym same) h
