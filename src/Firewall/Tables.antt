-- ===== src/Firewall/Tables.antt =====
-- internal/nexodus/policy_linux.go: `nfTableExists` finds a table in the output of `nft`.
use nexodus.Prelude.{
  ◌≡◌, ap, ◌∙◌, ◌↔◌, String, Bool, true, false, some, List, [], ◌∷◌, ◌++◌, string_eq, arith, eq_iff,
  In, map, Every,
}
use nexodus.Prelude.Text.{concat}
use nexodus.Prelude.Pieces.{contains_char, join, split_at_char, trim_space, split-join}
use nexodus.Firewall.{Command, Nft, policy_cmd, nf_table_exists, has_line}

has_line_iff :
    (name : String) (lines : List String)
    → (has_line name lines ≡ true) ↔ In name (map trim_space lines)
has_line_iff name [] = ground arith
has_line_iff name (line ∷ lines) =
    ground (arith, has_line_iff name lines, eq_iff (trim_space line) name)

-- What `nft list tables` prints are lines.
abbrev pub Prints : Nft → List Command → List String → Type 0
Prints nft log lines =
    (nft log ("list" ∷ "tables" ∷ []) ≡ some (join "\n" lines))
    × Every lines (λ line. contains_char b'\n' line ≡ false)

exists_runs :
    (nft : Nft) (table : String) (log : List Command) (output : String)
    → nft log ("list" ∷ "tables" ∷ []) ≡ some output
    → nf_table_exists nft table log ≡ (
      some (has_line (concat ("table " ∷ "inet" ∷ " " ∷ table ∷ [])) (split_at_char b'\n' output)),
      log ++ ("list" ∷ "tables" ∷ []) ∷ [],
    )
unfolding nf_table_exists policy_cmd
exists_runs nft table log output e = ground arith

-- When nft prints the tables as lines, the search for a table gives no error and finds it exactly
-- if some line, trimmed, is the word table, the family inet and its name.
pub table_exists_lem :
    (nft : Nft) (table : String) (log : List Command) (line : String) (lines : List String)
    → Prints nft log (line ∷ lines)
    → (found : Bool) × (nf_table_exists nft table log
        ≡ (some found, log ++ ("list" ∷ "tables" ∷ []) ∷ []))
      × ((found ≡ true)
          ↔ In (concat ("table " ∷ "inet" ∷ " " ∷ table ∷ [])) (map trim_space (line ∷ lines)))
table_exists_lem nft table log line lines (e, (clean, cleans)) = (
  has_line (concat ("table " ∷ "inet" ∷ " " ∷ table ∷ [])) (line ∷ lines),
  exists_runs nft table log (join "\n" (line ∷ lines)) e
      ∙ ap
          (λ ls. (
            some (has_line (concat ("table " ∷ "inet" ∷ " " ∷ table ∷ [])) ls),
            log ++ ("list" ∷ "tables" ∷ []) ∷ [],
          ))
          (split-join "\n" line lines clean cleans),
  has_line_iff (concat ("table " ∷ "inet" ∷ " " ∷ table ∷ [])) (line ∷ lines),
)
