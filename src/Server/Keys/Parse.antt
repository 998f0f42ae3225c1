-- ===== src/Server/Keys/Parse.antt =====
-- crates/krot-server/src/keys.rs: the grammar of a line, and of a file.
use krot.Base.{
  text_eq, ℕ, zero, suc, ◌+◌, ◌-◌, ◌==◌, ltb, not, if◌then◌else◌, Bool, true, false, Option, none,
  some, List, [], ◌∷◌, ◌++◌, map, Bytes, bytes_eq, text, decimal, length, from_le_bytes, Result, ok,
  err, nat_eq,
}
use krot.Base.HashSet.{contains}
use krot.Base.Map
use krot.Base.Map.{Map}
use krot.Proto.Frames.{PubKey}
use krot.Server.Error.{ServerError, keys}
use krot.Server.Rate.{trim, parse_rate_per}
use krot.Server.Text.{
  split, before, behind, split_once, split_whitespace, join, is_empty_text, lines, parse_uint,
}
use krot.Server.Keys.{AuthorizedEntry}

-- The `n` ports from `lo` on: `lo..=hi` for `n = suc (hi - lo)`.
unfoldable pub port_range : ℕ → ℕ → List ℕ
port_range lo zero = []
port_range lo (suc n) = lo ∷ port_range (lo + 1) n

-- The body of the loop of `parse_ports`.
unfoldable pub parse_part : Bytes → Option (List ℕ)
unfolding port_range split_once parse_uint trim
parse_part part = elim (split_once 45 part) [
  | none ↦ elim (parse_uint 16 part) [ none ↦ none | some p ↦ some (p ∷ []) ]
  | some (lo, hi) ↦ elim (parse_uint 16 (trim lo)) [
    | none ↦ none
    | some l ↦ elim (parse_uint 16 (trim hi)) [
      | none ↦ none
      | some h ↦ if ltb h l then none else some (port_range l (suc (h - l)))
    ]
  ]
]

unfoldable pub parse_parts : List Bytes → Option (List ℕ)
unfolding parse_part trim
parse_parts [] = some []
parse_parts (part ∷ parts) = elim (parse_part (trim part)) [
  | none ↦ none
  | some ps ↦ elim (parse_parts parts) [ none ↦ none | some more ↦ some (ps ++ more) ]
]

unfoldable pub parse_ports : Bytes → Option (List ℕ)
unfolding parse_parts split
parse_ports s = elim (parse_parts (split 44 s)) [
  | none ↦ none
  | some [] ↦ none
  | some (p ∷ ps) ↦ some (p ∷ ps)
]

abbrev pub known : List Bytes
known =
    text "subdomain"
    ∷ text "conns"
    ∷ text "bw"
    ∷ text "quota"
    ∷ text "ports"
    ∷ text "federation"
    ∷ []

-- A token goes on the value of the last pair.
unfoldable pub continue_last : Bytes → List (Bytes × Bytes) → List (Bytes × Bytes)
continue_last tok [] = []
continue_last tok ((k, v) ∷ []) = (k, v ++ (44 ∷ tok)) ∷ []
continue_last tok (pair ∷ next ∷ pairs) = pair ∷ continue_last tok (next ∷ pairs)

unfoldable pub add_token : Bytes → List (Bytes × Bytes) → List (Bytes × Bytes)
unfolding continue_last split_once
add_token tok pairs = elim (split_once 61 tok) [
  | none ↦ continue_last tok pairs
  | some (k, v) ↦ if contains k known then pairs ++ ((k, v) ∷ []) else continue_last tok pairs
]

unfoldable pub add_tokens : List Bytes → List (Bytes × Bytes) → List (Bytes × Bytes)
unfolding add_token
add_tokens [] pairs = pairs
add_tokens (tok ∷ toks) pairs = add_tokens toks (add_token tok pairs)

-- `.filter(|s| !s.is_empty())`
unfoldable pub filled : List Bytes → List Bytes
filled [] = []
filled (s ∷ ss) = let rest = filled ss in if is_empty_text s then rest else s ∷ rest

unfoldable pub apply_option : Bytes → Bytes → AuthorizedEntry → AuthorizedEntry
unfolding split parse_uint parse_rate_per parse_ports filled trim
apply_option k v entry =
    if bytes_eq k (text "subdomain")
    then (if bytes_eq v (text "*")
        then record entry { allow_any_subdomain = true }
        else record entry { allowed_subdomains = split 44 v })
    else if bytes_eq k (text "conns")
    then record entry { max_conns = parse_uint 32 v }
    else if bytes_eq k (text "bw")
    then record entry { bw = parse_rate_per v }
    else if bytes_eq k (text "quota")
    then record entry { quota = parse_rate_per v }
    else if bytes_eq k (text "ports")
    then record entry { allowed_ports = parse_ports v }
    else if bytes_eq k (text "federation")
    then record entry { federation = filled (map trim (split 44 v)) }
    else entry

unfoldable pub apply_options : List (Bytes × Bytes) → AuthorizedEntry → AuthorizedEntry
unfolding apply_option
apply_options [] entry = entry
apply_options ((k, v) ∷ pairs) entry = apply_options pairs (apply_option k v entry)

abbrev pub default_entry : AuthorizedEntry
default_entry = record {
  allow_any_subdomain = false;
  allowed_subdomains = [];
  max_conns = none;
  allowed_ports = none;
  bw = none;
  quota = none;
  federation = [];
  comment = none;
}

-- The text of a comment, if it has any.
unfoldable pub comment_of : Bytes → Option Bytes
unfolding behind trim
comment_of line = elim (behind 35 line) [
  | none ↦ none
  | some s ↦ if is_empty_text (trim s) then none else some (trim s)
]

-- `STANDARD.decode` of the base64 crate.
module _ (decode : Bytes → Option Bytes) where
  -- `PubKey(arr)`, where the array has 32 bytes.
  unfoldable pub parse_key : Bytes → Option PubKey
  parse_key b64 = elim (decode b64) [
    | none ↦ none
    | some raw ↦ if length raw == 32 then some (from_le_bytes raw) else none
  ]

  unfoldable pub parse_words : Bytes → List Bytes → Option (PubKey × AuthorizedEntry)
  unfolding parse_key add_tokens apply_options comment_of join split
  parse_words line [] = none
  parse_words line (algo ∷ []) = none
  parse_words line (algo ∷ b64 ∷ rest) =
      let entry = apply_options (add_tokens (split 44 (join 44 rest)) []) default_entry in
      let parsed = parse_key b64 in
      if not (bytes_eq algo (text "ed25519")) then none else elim parsed [
        | none ↦ none
        | some pk ↦ some (pk, record entry { comment = comment_of line })
      ]

  unfoldable pub parse_line : Bytes → Option (PubKey × AuthorizedEntry)
  unfolding parse_words before trim
  parse_line line = parse_words line (split_whitespace (trim (before 35 line)))

  -- Whether a trimmed line is blank or a comment.
  abbrev pub is_skipped : Bytes → Bool
  is_skipped [] = true
  is_skipped (c ∷ s) = c == 35

  -- The loop of `parse_file` at line `idx`.
  unfoldable pub parse_lines :
      ℕ → List Bytes → Map PubKey AuthorizedEntry → Result ServerError (Map PubKey AuthorizedEntry)
  unfolding parse_line trim Map.insert
  parse_lines idx [] out = ok out
  parse_lines idx (line ∷ rest) out =
      let skipped = parse_lines (idx + 1) rest out in
      if is_skipped (trim line) then skipped else elim (parse_line (trim line)) [
        | none ↦ err (keys (text "line " ++ (decimal (idx + 1) ++ (text ": " ++ line))))
        | some (pk, entry) ↦ parse_lines (idx + 1) rest (Map.insert pk entry out)
      ]

  -- `parse_file` on the text of the file.
  unfoldable pub parse_file : Bytes → Result ServerError (Map PubKey AuthorizedEntry)
  unfolding parse_lines lines
  parse_file contents = parse_lines 0 (lines contents) []
