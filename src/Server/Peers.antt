-- ===== src/Server/Peers.antt =====
-- crates/krot-server/src/peers.rs: the list of federated peers and its file. A file is what a read
-- of it returns, if there is one. The watcher calls `reload`.
pub mod Listing
mod Tests
use krot.Base.{
  text_eq, ℕ, ◌==◌, ◌||◌, if◌then◌else◌, Bool, Option, none, some, List, [], ◌∷◌, ◌++◌, Bytes,
  length, Result, ok, err, ◌>>=◌,
}
use krot.Base.HashSet.{contains}
use krot.Server.Error.{ServerError}
use krot.Server.Rate.{trim}
use krot.Server.Text.{lines, starts_with, is_empty_text}

pub record PeerRegistry : Type 0 where
  pub peers : List Bytes

-- The file, or none; reading it may fail.
abbrev pub File : Type 0
File = Option (Result ServerError Bytes)

abbrev pub is_comment : Bytes → Bool
is_comment trimmed = is_empty_text trimmed || starts_with 35 trimmed

-- The loop of `parse_file`.
unfoldable pub peer_lines : List Bytes → List Bytes → List Bytes
unfolding trim contains
peer_lines out [] = out
peer_lines out (line ∷ rest) =
    let trimmed = trim line in
    peer_lines (if is_comment trimmed || contains trimmed out then out else out ++ (trimmed ∷ []))
      rest

unfoldable pub parse_peers : Bytes → List Bytes
unfolding peer_lines lines
parse_peers contents = peer_lines [] (lines contents)

unfoldable pub read_peers : File → Result ServerError (List Bytes)
unfolding parse_peers
read_peers none = ok []
read_peers (some read) = do contents ← read; ok (parse_peers contents)

unfoldable pub open_peers : File → Result ServerError PeerRegistry
unfolding read_peers
open_peers file = do peers ← read_peers file; ok (record { peers = peers })

unfoldable pub snapshot : PeerRegistry → List Bytes
snapshot r = r.peers

unfoldable pub len : PeerRegistry → ℕ
len r = length r.peers

unfoldable pub is_empty : PeerRegistry → Bool
unfolding len
is_empty r = len r == 0

-- An error leaves the list as it was.
unfoldable pub reload_peers : File → PeerRegistry → Result ServerError (Unit {0}) × PeerRegistry
unfolding read_peers
reload_peers file r = elim (read_peers file) [
  | err e ↦ (err e, r)
  | ok peers ↦ (ok tt, record { peers = peers })
]
