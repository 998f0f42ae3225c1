-- ===== src/Server/Registry/Label.antt =====
-- crates/krot-server/src/registry.rs: `is_valid_label`, against the grammar that its comment
-- gives: `[a-z0-9]([a-z0-9-]{0,61}[a-z0-9])?`, less the reserved name.
use krot.Base.{
  ℕ, suc, ◌+◌, ◌-◌, ◌≤◌, ◌==◌, ltb, leb, ◌≡◌, ◌≢◌, ◌↔◌, refl, sym, subst, ap, not, ◌&&◌, ◌||◌,
  if◌then◌else◌, Bool, true, false, [], ◌∷◌, ◌++◌, Bytes, bytes_eq, bytes_eq_iff, text, length,
  take, drop, get_or, All, all, inl, inr, Bool-cases, arith, length-append, take-append, ◌∙◌,
}

-- `is_ascii_lowercase` or `is_ascii_digit`.
unfoldable pub is_alnum : ℕ → Bool
is_alnum b = (leb 97 b && leb b 122) || (leb 48 b && leb b 57)

unfoldable pub is_inner : ℕ → Bool
unfolding is_alnum
is_inner b = is_alnum b || (b == 45)

unfoldable pub is_valid_label : Bytes → Bool
unfolding is_alnum is_inner
is_valid_label label =
    if bytes_eq label (text "admin")
    then false
    else if not (leb 1 (length label) && leb (length label) 63)
    then false
    else if not (is_alnum (get_or label 0 0)) || not (is_alnum (get_or label (length label - 1) 0))
    then false
    else if ltb (length label) 3
    then true
    else all is_inner (take (length label - 2) (drop 1 label))

-- The grammar.
pub data Label : Bytes → Type 0 where
  one : (c : ℕ) → is_alnum c ≡ true → Label (c ∷ [])
  more :
      (c : ℕ) (inner : Bytes) (d : ℕ)
      → is_alnum c ≡ true
      → All (λ b. is_inner b ≡ true) inner
      → length inner ≤ 61
      → is_alnum d ≡ true
      → Label (c ∷ inner ++ (d ∷ []))

all→All : (p : ℕ → Bool) (xs : Bytes) → all p xs ≡ true → All (λ b. p b ≡ true) xs
unfolding all
all→All p [] h = tt
all→All p (x ∷ xs) h = (ground arith, all→All p xs (ground arith))

All→all : (p : ℕ → Bool) (xs : Bytes) → All (λ b. p b ≡ true) xs → all p xs ≡ true
unfolding all
All→all p [] h = refl
All→all p (x ∷ xs) h = ground (arith, h.0, All→all p xs h.1)

-- The last byte and the bytes before it.
last_of : (x : ℕ) (xs : Bytes) → (init : Bytes) × (d : ℕ) × (x ∷ xs ≡ init ++ (d ∷ []))
last_of x [] = ([], x, refl)
last_of x (y ∷ ys) = let (init, d, e) = last_of y ys in (x ∷ init, d, ap (◌∷◌ x) e)

module _ (c : ℕ) (inner : Bytes) (d : ℕ) where
  length-more : length (c ∷ inner ++ (d ∷ [])) ≡ length inner + 2
  length-more = omega (arith, length-append inner (d ∷ []))

  last-more : get_or (c ∷ inner ++ (d ∷ [])) (length (c ∷ inner ++ (d ∷ [])) - 1) 0 ≡ d
  last-more =
      ap (λ n. get_or (c ∷ inner ++ (d ∷ [])) n 0) {y = suc (length inner)}
        (omega (arith, length-more))
      ∙ go inner
    where
      go : (xs : Bytes) → get_or (c ∷ xs ++ (d ∷ [])) (suc (length xs)) 0 ≡ d
      go [] = refl
      go (x ∷ xs) = go xs

  inner-more : take (length (c ∷ inner ++ (d ∷ [])) - 2) (drop 1 (c ∷ inner ++ (d ∷ []))) ≡ inner
  inner-more =
      ap (λ n. take n (inner ++ (d ∷ []))) {y = length inner} (omega (arith, length-more))
      ∙ take-append inner (d ∷ [])

  is_valid_label-more :
      bytes_eq (c ∷ inner ++ (d ∷ [])) (text "admin") ≡ false
      → is_valid_label (c ∷ inner ++ (d ∷ []))
        ≡ (leb (length inner) 61 && is_alnum c && is_alnum d && all is_inner inner)
  unfolding is_valid_label all
  is_valid_label-more h = rw (h, last-more, inner-more, length-more) (short inner)
    where
      short :
          (xs : Bytes)
          → (if not (leb 1 (length xs + 2) && leb (length xs + 2) 63)
              then false
              else if not (is_alnum c) || not (is_alnum d)
              then false
              else if ltb (length xs + 2) 3
              then true
              else all is_inner xs)
            ≡ (leb (length xs) 61 && is_alnum c && is_alnum d && all is_inner xs)
      short [] = ground arith
      short (x ∷ xs) = ground arith

-- A label is valid exactly when it follows the grammar and is not `admin`.
pub is_valid_label_exact :
    (label : Bytes) → (is_valid_label label ≡ true) ↔ ((label ≢ text "admin") × Label label)
unfolding is_valid_label all bytes_eq
is_valid_label_exact label = (λ h. (not_admin h, parses label h), λ h. accepts label h.0 h.1)
  where
    not_admin : is_valid_label label ≡ true → label ≢ text "admin"
    not_admin h e = cc ((bytes_eq_iff label (text "admin")).1 e)

    admin_test : (l : Bytes) → l ≢ text "admin" → bytes_eq l (text "admin") ≡ false
    admin_test l h = elim (Bool-cases (bytes_eq l (text "admin"))) [
      | inl e ↦ absurd (h ((bytes_eq_iff l (text "admin")).0 e))
      | inr e ↦ e
    ]

    named : (l : Bytes) → is_valid_label l ≡ true → bytes_eq l (text "admin") ≡ false
    named l h = ground arith

    split :
        (c : ℕ) (inner : Bytes) (d : ℕ)
        → is_valid_label (c ∷ inner ++ (d ∷ [])) ≡ true
        → Label (c ∷ inner ++ (d ∷ []))
    split c inner d h =
        let tests = sym (is_valid_label-more c inner d (named (c ∷ inner ++ (d ∷ [])) h)) ∙ h in
        more c inner d (ground arith) (all→All is_inner inner (ground arith)) (ground arith)
          (ground arith)

    parses : (l : Bytes) → is_valid_label l ≡ true → Label l
    parses [] h = absurd (cc h)
    parses (c ∷ []) h = one c (ground arith)
    parses (c ∷ y ∷ ys) h =
        let (inner, d, e) = last_of y ys in
        subst Label (sym (ap (◌∷◌ c) e))
          (split c inner d (subst (λ t. is_valid_label (c ∷ t) ≡ true) e h))

    accepts : (l : Bytes) → l ≢ text "admin" → Label l → is_valid_label l ≡ true
    accepts l n (one c a) = ground (arith, admin_test (c ∷ []) n)
    accepts l n (more c inner d a is len b) =
        is_valid_label-more c inner d (admin_test l n) ∙ ground (arith, All→all is_inner inner is)
