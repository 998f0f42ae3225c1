-- ===== src/Server/Peers/Listing.antt =====
-- The peers file read in one pass is the list of the names in it, each where it comes first.
use krot.Base.{
  text_eq, ◌≡◌, refl, sym, ap, ◌∙◌, inl, inr, Bool-cases, true, ◌||◌, if◌then◌else◌, List, [], ◌∷◌,
  ◌++◌, append-nil, append_assoc, Bytes, bytes_eq, bytes_eq_iff, arith,
}
use krot.Base.HashSet.{contains, remove}
use krot.Server.Rate.{trim}
use krot.Server.Text.{lines}
use krot.Server.Peers.{is_comment, peer_lines, parse_peers}

-- The names on lines: what is left of the lines that are neither blank nor comments.
unfoldable pub names_on : List Bytes → List Bytes
unfolding trim
names_on [] = []
names_on (line ∷ rest) =
    let names = names_on rest in if is_comment (trim line) then names else trim line ∷ names

-- Each text where it comes first.
unfoldable pub firsts : List Bytes → List Bytes
unfolding remove
firsts [] = []
firsts (name ∷ names) = name ∷ remove name (firsts names)

-- The texts that are not among others.
abbrev pub without : List Bytes → List Bytes → List Bytes
without out [] = []
without out (name ∷ names) =
    let rest = without out names in if contains name out then rest else name ∷ rest

without-nil : (names : List Bytes) → without [] names ≡ names
unfolding contains
without-nil [] = refl
without-nil (name ∷ names) = ap (λ (l : List Bytes). name ∷ l) (without-nil names)

without-remove :
    (out names : List Bytes) (name : Bytes)
    → contains name out ≡ true
    → without out (remove name names) ≡ without out names
unfolding remove
without-remove out [] name h = refl
without-remove out (x ∷ names) name h =
    ground (arith, h, bytes_eq_iff x name, without-remove out names name h)

contains-push :
    (out : List Bytes) (name x : Bytes)
    → contains x (out ++ (name ∷ [])) ≡ (contains x out || bytes_eq name x)
unfolding contains
contains-push [] name x = ground arith
contains-push (y ∷ out) name x = ground (arith, contains-push out name x)

without-push :
    (out names : List Bytes) (name : Bytes)
    → without (out ++ (name ∷ [])) names ≡ without out (remove name names)
unfolding remove
without-push out [] name = refl
without-push out (x ∷ names) name = ground (
  arith,
  bytes_eq_iff x name,
  bytes_eq_iff name x,
  contains-push out name x,
  without-push out names name,
)

peer_lines-without :
    (out rest : List Bytes) → peer_lines out rest ≡ out ++ without out (firsts (names_on rest))
unfolding peer_lines names_on firsts
peer_lines-without out [] = sym (append-nil out)
peer_lines-without out (line ∷ rest) =
    let name = trim line in
    let names = firsts (names_on rest) in
    elim (Bool-cases (is_comment name)) [
      | inl e ↦ ground (arith, e, peer_lines-without out rest)
      | inr e ↦ elim (Bool-cases (contains name out)) [
        | inl f ↦ ground (arith, e, f, peer_lines-without out rest, without-remove out names name f)
        | inr f ↦ ground (
          arith,
          e,
          f,
          peer_lines-without (out ++ (name ∷ [])) rest,
          without-push out names name,
          append_assoc out (name ∷ []) (without out (remove name names)),
        )
      ]
    ]

-- `parse_file` returns the names on the lines of the file, in the order in which they come first,
-- and none twice.
pub parse_peers-firsts :
    (contents : Bytes) → parse_peers contents ≡ firsts (names_on (lines contents))
unfolding parse_peers
parse_peers-firsts contents =
    peer_lines-without [] (lines contents) ∙ without-nil (firsts (names_on (lines contents)))
