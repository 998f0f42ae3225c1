-- ===== src/Server/Keys/Reload.antt =====
-- Which identities a reload of the `authorized_keys` file revokes.
use krot.Base.{
  nat_eq, ℕ, ◌+◌, ◌≡◌, refl, inl, inr, ==_iff, not, ◌&&◌, ◌||◌, Bool, true, false, Option, none,
  some, Option-cases, Bool-cases, List, [], ◌∷◌, ◌++◌, Bytes, ok, arith,
}
use krot.Base.HashSet.{contains}
use krot.Base.Map
use krot.Base.Map.{Map, IsDistinct, insert-IsDistinct}
use krot.Proto.Frames.{PubKey}
use krot.Server.Rate.{trim}
use krot.Server.Text.{lines}
use krot.Server.Keys.{AuthorizedEntry, authorization_equal}
use krot.Server.Keys.Parse.{is_skipped, parse_line, parse_lines, parse_file}
use krot.Server.Keys.Registry.{
  KeyRegistry, is_some, removed_keys, is_modified, modified_keys, apply_entries, reload,
}

-- An identity that had an entry and has none, or one of another authorization.
abbrev pub is_revoked : Option AuthorizedEntry → Option AuthorizedEntry → Bool
is_revoked none new = false
is_revoked (some old) none = true
is_revoked (some old) (some new) = not (authorization_equal old new)

contains-append :
    (k : ℕ) (xs ys : List ℕ) → contains k (xs ++ ys) ≡ (contains k xs || contains k ys)
unfolding contains
contains-append k [] ys = refl
contains-append k (x ∷ xs) ys = ground (arith, contains-append k xs ys)

-- An index is as `parse_file` makes it: no key stands twice.
parse_lines-IsDistinct :
    (decode : Bytes → Option Bytes) (idx : ℕ) (ls : List Bytes)
    (out entries : Map PubKey AuthorizedEntry)
    → IsDistinct out
    → parse_lines decode idx ls out ≡ ok entries
    → IsDistinct entries
unfolding parse_lines
parse_lines-IsDistinct decode idx [] out entries d e = ground (arith, d, e)
parse_lines-IsDistinct decode idx (line ∷ rest) out entries d e =
    elim (Bool-cases (is_skipped decode (trim line))) [
      | inl skipped ↦
          parse_lines-IsDistinct decode (idx + 1) rest out entries d (ground (arith, e, skipped))
      | inr read ↦ elim (Option-cases (parse_line decode (trim line))) [
        | inl failed ↦ absurd (ground (arith, e, read, failed))
        | inr ((pk, entry), parsed) ↦
            parse_lines-IsDistinct decode (idx + 1) rest (Map.insert pk entry out) entries
              (insert-IsDistinct pk entry out d) (ground (arith, e, read, parsed))
      ]
    ]

parse_file-IsDistinct :
    (decode : Bytes → Option Bytes) (contents : Bytes) (entries : Map PubKey AuthorizedEntry)
    → parse_file decode contents ≡ ok entries
    → IsDistinct entries
unfolding parse_file
parse_file-IsDistinct decode contents entries e =
    parse_lines-IsDistinct decode 0 (lines contents) [] entries tt e

contains-removed_keys :
    (k : PubKey) (current new : Map PubKey AuthorizedEntry)
    → contains k (removed_keys current new)
      ≡ (is_some (Map.get k current) && not (is_some (Map.get k new)))
unfolding contains removed_keys Map.get
contains-removed_keys k [] new = refl
contains-removed_keys k ((j, old) ∷ current) new =
    ground (arith, ==_iff j k, contains-removed_keys k current new)

-- A key of which the new entry is another.
abbrev is_changed : Option AuthorizedEntry → Option AuthorizedEntry → Bool
is_changed old none = false
is_changed old (some new) = is_modified old new

contains-modified_keys :
    (k : PubKey) (current new : Map PubKey AuthorizedEntry)
    → IsDistinct new
    → contains k (modified_keys current new) ≡ is_changed (Map.get k current) (Map.get k new)
unfolding contains modified_keys Map.get
contains-modified_keys k current [] d = refl
contains-modified_keys k current ((j, entry) ∷ new) d =
    ground (arith, ==_iff j k, contains-modified_keys k current new d.1, d.0)

-- A reload of a file that parses replaces the index, and broadcasts, behind what was broadcast
-- before, exactly the identities that had an entry and now have none or one whose authorization is
-- another; the comment of an entry does not count.
pub reload-revoked :
    (decode : Bytes → Option Bytes) (r : KeyRegistry) (contents : Bytes)
    (new : Map PubKey AuthorizedEntry)
    → r.file ≡ some contents
    → parse_file decode contents ≡ ok new
    → (sent : List PubKey) × (reload decode r
        ≡ ok (record r { entries = new; revocation = r.revocation ++ sent }))
      × ((k : PubKey) → contains k sent ≡ is_revoked (Map.get k r.entries) (Map.get k new))
unfolding reload apply_entries is_modified
reload-revoked decode r contents new there parsed =
    let removed = removed_keys r.entries new in
    let modified = modified_keys r.entries new in
    (
      removed ++ modified,
      ground (arith, there, parsed),
      λ k. ground (
        arith,
        contains-append k removed modified,
        contains-removed_keys k r.entries new,
        contains-modified_keys k r.entries new (parse_file-IsDistinct decode contents new parsed),
      ),
    )
