-- ===== src/Server/Keys/Registry.antt =====
-- crates/krot-server/src/keys.rs: the index over the file, and what changes both. A write of the file
-- succeeds or fails as `disk` says; the watcher calls `reload`.
use krot.Base.{
  nat_eq, ℕ, ◌==◌, not, if◌then◌else◌, Bool, true, false, Option, none, some, List, [], ◌∷◌, ◌++◌,
  Bytes, text, length, Result, ok, err, ok_or, ◌>>=◌,
}
use krot.Base.Map
use krot.Base.Map.{Map}
use krot.Proto.Frames.{PubKey}
use krot.Server.Error.{ServerError, keys, io}
use krot.Server.Rate.{trim, trim_end}
use krot.Server.Text.{lines, ends_with, is_empty_text}
use krot.Server.Keys.{AuthorizedEntry, authorization_equal}
use krot.Server.Keys.Parse.{is_skipped, parse_line, parse_file}

-- `file` is the text of the file, if there is one. `revocation` holds what was broadcast.
pub record KeyRegistry : Type 0 where
  pub file : Option Bytes
  pub entries : Map PubKey AuthorizedEntry
  pub revocation : List PubKey

abbrev pub contents_of : Option Bytes → Bytes
contents_of none = []
contents_of (some contents) = contents

abbrev pub is_some {ℓ} : {A : Type ℓ} → Option A → Bool
is_some none = false
is_some (some a) = true

unfoldable pub contains : PubKey → KeyRegistry → Bool
contains pubkey r = is_some (Map.get pubkey r.entries)

unfoldable pub get : PubKey → KeyRegistry → Option AuthorizedEntry
get pubkey r = Map.get pubkey r.entries

unfoldable pub snapshot : KeyRegistry → List (PubKey × AuthorizedEntry)
snapshot r = r.entries

unfoldable pub len : KeyRegistry → ℕ
len r = length r.entries

unfoldable pub is_empty : KeyRegistry → Bool
unfolding len
is_empty r = len r == 0

-- The keys that the new index has not.
unfoldable pub removed_keys : Map PubKey AuthorizedEntry → Map PubKey AuthorizedEntry → List PubKey
removed_keys [] new = []
removed_keys ((k, old) ∷ current) new =
    let rest = removed_keys current new in if is_some (Map.get k new) then rest else k ∷ rest

-- Whether an entry is there and its authorization is another.
unfoldable pub is_modified : Option AuthorizedEntry → AuthorizedEntry → Bool
unfolding authorization_equal
is_modified none new = false
is_modified (some old) new = not (authorization_equal old new)

unfoldable pub modified_keys : Map PubKey AuthorizedEntry → Map PubKey AuthorizedEntry → List PubKey
unfolding is_modified
modified_keys current [] = []
modified_keys current ((k, entry) ∷ new) =
    let rest = modified_keys current new in
    if is_modified (Map.get k current) entry then k ∷ rest else rest

-- `fs::write` of the whole file.
abbrev pub atomic_write : Bool → Bytes → KeyRegistry → Result ServerError KeyRegistry
atomic_write disk contents r = if disk then ok (record r { file = some contents }) else err io

module _ (decode : Bytes → Option Bytes) where
  unfoldable pub open_registry :
      (disk : Bool) (file : Option Bytes) → Result ServerError KeyRegistry
  unfolding parse_file
  open_registry disk (some contents) = do
    entries ← parse_file decode contents
    ok (record { file = some contents; entries = entries; revocation = [] })
  open_registry disk none =
      if disk then ok (record { file = some []; entries = []; revocation = [] }) else err io

  -- The index is replaced, and what it revokes is sent.
  unfoldable pub apply_entries : Map PubKey AuthorizedEntry → KeyRegistry → KeyRegistry
  unfolding removed_keys modified_keys
  apply_entries new r =
      let removed = removed_keys r.entries new in
      let modified = modified_keys r.entries new in
      record r { entries = new; revocation = r.revocation ++ (removed ++ modified) }

  unfoldable pub reload : KeyRegistry → Result ServerError KeyRegistry
  unfolding apply_entries parse_file
  reload r = do
    contents ← ok_or r.file io
    new ← parse_file decode contents
    ok (apply_entries new r)

  -- Whether a line is for a key.
  unfoldable pub is_target : PubKey → Bytes → Bool
  unfolding parse_line trim
  is_target target line =
      if is_skipped decode (trim line)
      then false
      else elim (parse_line decode (trim line)) [ none ↦ false | some (pk, _) ↦ pk == target ]

  -- The lines that stay, each with its end, and whether one goes.
  unfoldable pub kept_lines : PubKey → List Bytes → Bytes × Bool
  unfolding is_target
  kept_lines target [] = ([], false)
  kept_lines target (line ∷ rest) =
      let (out, removed) = kept_lines target rest in
      if is_target target line then (out, true) else (line ++ (10 ∷ out), removed)

  unfoldable pub remove_pubkey :
      (disk : Bool) → PubKey → KeyRegistry → Result ServerError (Bool × KeyRegistry)
  unfolding kept_lines reload lines
  remove_pubkey disk target r =
      let (out, removed) = kept_lines target (lines (contents_of r.file)) in
      let rewritten = do
        written ← atomic_write disk out r
        reloaded ← reload written
        ok (true, reloaded)
      in if removed then rewritten else ok (false, r)

  -- A text with the newline that ends it.
  abbrev pub with_newline : Bytes → Bytes
  with_newline s = if ends_with 10 s then s else s ++ (10 ∷ [])

  unfoldable pub append_line :
      (disk : Bool) → Bytes → KeyRegistry → Result ServerError (Bytes × KeyRegistry)
  unfolding parse_line ends_with trim_end Map.insert
  append_line disk line r = do
    (pubkey, entry) ← ok_or (parse_line decode line) (keys (text "cannot parse: " ++ line))
    let contents = contents_of r.file
    let ended = if is_empty_text contents then [] else with_newline contents
    written ← atomic_write disk (ended ++ with_newline line) r
    ok (trim_end line, record written { entries = Map.insert pubkey entry written.entries })
