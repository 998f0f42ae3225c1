-- ===== src/Server/Keys/Removal.antt =====
-- `remove_pubkey`: the file that it writes, and the index that it reads back.
use krot.Base.{
  nat_eq, ℕ, ◌+◌, ◌≡◌, refl, inl, inr, ◌==◌, ==_iff, ◌||◌, if◌then◌else◌, true, false, Option, none,
  some, Option-cases, Bool-cases, List, [], ◌∷◌, Bytes, All, ok, arith,
}
use krot.Base.Map
use krot.Base.Map.{Map, get-insert}
use krot.Proto.Frames.{PubKey}
use krot.Server.Rate.{trim}
use krot.Server.Text.{lines}
use krot.Server.Text.Lines.{IsLine, lines-IsLine, lines-line, trim-strip}
use krot.Server.Keys.{AuthorizedEntry}
use krot.Server.Keys.Parse.{is_skipped, parse_line, parse_lines, parse_file}
use krot.Server.Keys.Registry.{
  KeyRegistry, is_some, apply_entries, reload, is_target, kept_lines, remove_pubkey,
}

module _ (decode : Bytes → Option Bytes) (target : PubKey) where
  -- One index is another without the target.
  abbrev pub IsWithout : Map PubKey AuthorizedEntry → Map PubKey AuthorizedEntry → Type 0
  IsWithout entries less =
      (k : PubKey) → Map.get k less ≡ (if target == k then none else Map.get k entries)

  insert-IsWithout :
      (pk : PubKey) (entry : AuthorizedEntry) (out less : Map PubKey AuthorizedEntry)
      → IsWithout out less
      → (pk == target) ≡ false
      → IsWithout (Map.insert pk entry out) (Map.insert pk entry less)
  insert-IsWithout pk entry out less h other k =
      ground (arith, get-insert pk k entry out, get-insert pk k entry less, h k, other)

  drop-IsWithout :
      (pk : PubKey) (entry : AuthorizedEntry) (out less : Map PubKey AuthorizedEntry)
      → IsWithout out less
      → (pk == target) ≡ true
      → IsWithout (Map.insert pk entry out) less
  drop-IsWithout pk entry out less h same k = ground (arith, get-insert pk k entry out, h k, same)

  -- The file that is written parses, into the index without the target; a line goes exactly if the
  -- target is in the index.
  kept_lines-IsWithout :
      (idx idx' : ℕ) (ls : List Bytes) (out less entries : Map PubKey AuthorizedEntry)
      → All IsLine ls
      → IsWithout out less
      → parse_lines decode idx ls out ≡ ok entries
      → let (kept, removed) = kept_lines decode target ls in
        ((entries' : Map PubKey AuthorizedEntry) × (parse_lines decode idx' (lines kept) less
            ≡ ok entries')
          × IsWithout entries entries'
          × ((removed || is_some (Map.get target out)) ≡ is_some (Map.get target entries)))
  unfolding kept_lines parse_lines is_target lines
  kept_lines-IsWithout idx idx' [] out less entries h w e =
      (less, refl, λ k. ground (arith, w k, e), ground (arith, e))
  kept_lines-IsWithout idx idx' (line ∷ ls) out less entries h w e =
      let (kept, removed) = kept_lines decode target ls in
      let written = lines-line line kept h.0 in
      elim (Bool-cases (is_skipped decode (trim line))) [
        | inl skipped ↦
            let (entries', parsed, w', found) =
              kept_lines-IsWithout (idx + 1) (idx' + 1) ls out less entries h.1 w
                (ground (arith, e, skipped)) in
            (
              entries',
              ground (arith, skipped, written, trim-strip line, parsed),
              w',
              ground (arith, skipped, found),
            )
        | inr read ↦ elim (Option-cases (parse_line decode (trim line))) [
          | inl failed ↦ absurd (ground (arith, e, read, failed))
          | inr ((pk, entry), good) ↦ elim (Bool-cases (pk == target)) [
            | inl same ↦
                let (entries', parsed, w', found) =
                  kept_lines-IsWithout (idx + 1) idx' ls (Map.insert pk entry out) less entries h.1
                    (drop-IsWithout pk entry out less w same) (ground (arith, e, read, good)) in
                (
                  entries',
                  ground (arith, read, good, same, parsed),
                  w',
                  ground (arith, read, good, same, found, get-insert pk target entry out),
                )
            | inr other ↦
                let (entries', parsed, w', found) =
                  kept_lines-IsWithout (idx + 1) (idx' + 1) ls (Map.insert pk entry out)
                    (Map.insert pk entry less) entries h.1
                    (insert-IsWithout pk entry out less w other) (ground (arith, e, read, good)) in
                (
                  entries',
                  ground (arith, read, good, other, written, trim-strip line, parsed),
                  w',
                  ground (arith, read, good, other, found, get-insert pk target entry out),
                )
          ]
        ]
      ]

  get_nil : is_some (Map.get {V = AuthorizedEntry} target []) ≡ false
  unfolding Map.get
  get_nil = refl

  empty-IsWithout : IsWithout [] []
  unfolding Map.get
  empty-IsWithout k = ground arith

  absent-IsWithout :
      (entries : Map PubKey AuthorizedEntry)
      → is_some (Map.get target entries) ≡ false
      → IsWithout entries entries
  absent-IsWithout entries h k = elim (Bool-cases (target == k)) [
    | inr other ↦ ground (arith, other)
    | inl same ↦ elim (Option-cases (Map.get target entries)) [
      | inl missing ↦ ground (arith, same, ==_iff target k, missing)
      | inr (entry, there) ↦ absurd (ground (arith, h, there))
    ]
  ]

  -- On an index that is in step with its file, the removal of a key succeeds when the disk takes the
  -- file. It says whether the key was there; then the key is gone from the index that is read back,
  -- every other key has its entry, and the new index is again what its file parses to.
  pub remove_pubkey-IsWithout :
      (r : KeyRegistry) (contents : Bytes)
      → r.file ≡ some contents
      → parse_file decode contents ≡ ok r.entries
      → (r' : KeyRegistry) × (remove_pubkey decode true target r
          ≡ ok (is_some (Map.get target r.entries), r'))
        × IsWithout r.entries r'.entries
        × ((after : Bytes) × (r'.file ≡ some after) × (parse_file decode after ≡ ok r'.entries))
  unfolding remove_pubkey reload apply_entries parse_file
  remove_pubkey-IsWithout r contents there e =
      let ls = lines contents in
      let (kept, removed) = kept_lines decode target ls in
      let (entries', parsed, w, found) =
        kept_lines-IsWithout 0 0 ls [] [] r.entries (lines-IsLine contents) empty-IsWithout e in
      elim (Bool-cases removed) [
        | inl gone ↦ (
          apply_entries decode entries' (record r { file = some kept }),
          ground (arith, there, gone, parsed, found, get_nil),
          w,
          (kept, refl, parsed),
        )
        | inr stays ↦ (
          r,
          ground (arith, there, stays, found, get_nil),
          absent-IsWithout r.entries (ground (arith, stays, found, get_nil)),
          (contents, there, e),
        )
      ]
