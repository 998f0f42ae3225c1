-- ===== src/Server/Keys/Tests.antt =====
-- Runs of the key file. The decoder takes one character to a key of 32 bytes.
use krot.Base.{
  ℕ, suc, ◌≡◌, refl, true, Option, none, some, List, [], ◌∷◌, ◌++◌, Bytes, text, ok, bytes_eq,
  from_le_bytes, nat_eq, text_eq,
}
use krot.Base.HashSet.{contains}
use krot.Base.Map
use krot.Base.Map.{Map}
use krot.Proto.Frames.{PubKey}
use krot.Server.Rate.{trim, trim_start, trim_end}
use krot.Server.Text.{
  split, split_once, before, behind, words, join, lines, parse_uint, parse_number,
}
use krot.Server.Keys.{AuthorizedEntry}
use krot.Server.Keys.Parse.{
  parse_ports, default_entry, parse_line, parse_words, parse_key, add_tokens, add_token,
  continue_last, apply_options, apply_option, comment_of, parse_lines, parse_file,
}
use krot.Server.Keys.Registry.{KeyRegistry, is_some, reload, remove_pubkey}
use krot.Server.Keys.Ports.{IsReading, parse_ports-IsReading}
use krot.Server.Keys.Reload.{is_revoked, reload-revoked}
use krot.Server.Keys.Removal.{IsWithout, remove_pubkey-IsWithout}

range : parse_ports (text "80, 90-92") ≡ some (80 ∷ 90 ∷ 91 ∷ 92 ∷ [])
unfolding parse_ports
range = refl

backwards : parse_ports (text "9-8") ≡ none
unfolding parse_ports
backwards = refl

parse_ports-IsReading_example :
    IsReading (split 44 (text "80, 90-92")) (parse_ports (text "80, 90-92"))
parse_ports-IsReading_example = parse_ports-IsReading (text "80, 90-92")

abbrev zeros : ℕ → Bytes
zeros ℕ.zero = []
zeros (suc n) = 0 ∷ zeros n

abbrev one_char : Bytes → Option Bytes
one_char [] = none
one_char (c ∷ s) = some (c ∷ zeros 31)

abbrev api_line : Bytes
api_line = text "ed25519 a subdomain=api,web conns=2 # laptop"

abbrev api_entry : AuthorizedEntry
api_entry = record default_entry {
  allowed_subdomains = text "api" ∷ text "web" ∷ [];
  max_conns = some 2;
  comment = some (text "laptop");
}

reads_line : parse_line one_char api_line ≡ some (97, api_entry)
unfolding parse_line parse_words parse_key add_tokens add_token continue_last apply_options
    apply_option comment_of words bytes_eq split join split_once before behind trim trim_start
    trim_end parse_uint parse_number from_le_bytes contains
reads_line = refl

abbrev both : Bytes
both = api_line ++ (10 ∷ (text "ed25519 b" ++ (10 ∷ [])))

abbrev entries : Map PubKey AuthorizedEntry
entries = (98, default_entry) ∷ (97, api_entry) ∷ []

reads_file : parse_file one_char both ≡ ok entries
unfolding parse_file parse_lines lines Map.insert Map.remove parse_line parse_words parse_key
    add_tokens add_token continue_last apply_options apply_option comment_of words bytes_eq split
    join split_once before behind trim trim_start trim_end parse_uint parse_number from_le_bytes
    contains
reads_file = refl

abbrev in_step : KeyRegistry
in_step = record { file = some both; entries = entries; revocation = [] }

remove_pubkey-IsWithout_example :
    (r' : KeyRegistry) × (remove_pubkey one_char true 97 in_step
      ≡ ok (is_some (Map.get 97 entries), r'))
    × IsWithout one_char 97 entries r'.entries
    × ((after : Bytes) × (r'.file ≡ some after) × (parse_file one_char after ≡ ok r'.entries))
remove_pubkey-IsWithout_example = remove_pubkey-IsWithout one_char 97 in_step both refl reads_file

-- The index before the second line was written, and with another cap.
abbrev behind_file : KeyRegistry
behind_file = record {
  file = some both;
  entries = (97, record api_entry { max_conns = none }) ∷ (99, default_entry) ∷ [];
  revocation = [];
}

reload-revoked_example :
    (sent : List PubKey) × (reload one_char behind_file
      ≡ ok (record behind_file { entries = entries; revocation = [] ++ sent }))
    × ((k : PubKey)
        → contains k sent ≡ is_revoked (Map.get k behind_file.entries) (Map.get k entries))
reload-revoked_example = reload-revoked one_char behind_file both entries refl reads_file
