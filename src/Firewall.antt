-- ===== src/Firewall.antt =====
-- internal/nexodus/policy_linux.go: the security group of a Linux node and the rules of a network
-- router, written with the command `nft`. This file: the commands, what an action on the host is,
-- and the operations on tables and chains.
pub mod Ranges
pub mod Permit
pub mod Group
pub mod Router
pub mod Runs
pub mod Plan
pub mod PermitPlan
pub mod GroupPlan
pub mod RouterPlan
pub mod Valid
pub mod Tables
pub mod Kinds
mod Tests
use nexodus.Prelude.{
  String, Bool, true, false, Option, none, some, List, [], ◌∷◌, ◌++◌, ◌==◌, string_eq,
  if◌then◌else◌,
}
use nexodus.Prelude.Text.{concat}
use nexodus.Prelude.Integers.{ℤ}
use nexodus.Prelude.Pieces.{split_at_char, trim_space}

pub record SecurityRule : Type 0 where
  pub ip_protocol : String
  pub from_port : ℤ
  pub to_port : ℤ
  pub ip_ranges : List String

pub record SecurityGroup : Type 0 where
  pub inbound_rules : List SecurityRule
  pub outbound_rules : List SecurityRule

abbrev pub sg_table_name : String
sg_table_name = "nexodus"

abbrev pub table_family : String
table_family = "inet"

abbrev pub ingress_chain : String
ingress_chain = "nexodus-inbound"

abbrev pub egress_chain : String
egress_chain = "nexodus-outbound"

-- The arguments of one call of `nft`.
abbrev pub Command : Type 0
Command = List String

-- What `nft` prints, given the commands that it has carried out; `none` is a failure.
abbrev pub Nft : Type 0
Nft = List Command → Command → Option String

-- Code that calls `nft`: from the commands carried out before to its result and the commands
-- carried out after it; `none` is an error.
abbrev pub Action : Type 0 → Type 0
Action A = List Command → Option A × List Command

abbrev pub done : {A : Type 0} → A → Action A
done a log = (some a, log)

abbrev pub and_then :
    {A B : Type 0} → Option A × List Command → (A → Action B) → Option B × List Command
and_then (none, log) f = (none, log)
and_then (some a, log) f = f a log

infixl 5 ◌>>=◌
abbrev pub ◌>>=◌ : {A B : Type 0} → Action A → (A → Action B) → Action B
◌>>=◌ x f log = and_then (x log) f

infixr 5 ◌>>◌
abbrev pub ◌>>◌ : {A : Type 0} → Action Unit → Action A → Action A
◌>>◌ x y = x >>= λ _. y

-- A Go `if` without an `else`.
abbrev pub when : Bool → Action Unit → Action Unit
when b x = if b then x else done tt

unfoldable pub policy_cmd : Nft → Command → Action String
policy_cmd nft c log = elim (nft log c) [
  | none ↦ (none, log)
  | some out ↦ (some out, log ++ c ∷ [])
]

-- A call of which only the error is looked at.
unfoldable pub try_cmd : Nft → Command → Action Unit
try_cmd nft c = policy_cmd nft c >>= λ _. done tt

abbrev pub has_line : String → List String → Bool
has_line full_name [] = false
has_line full_name (line ∷ lines) =
    if trim_space line == full_name then true else has_line full_name lines

unfoldable pub nf_table_exists : Nft → String → Action Bool
nf_table_exists nft table = policy_cmd nft ("list" ∷ "tables" ∷ []) >>= λ output.
    done
      (has_line (concat ("table " ∷ table_family ∷ " " ∷ table ∷ [])) (split_at_char b'\n' output))

unfoldable pub policy_table_drop : Nft → String → Action Unit
policy_table_drop nft table = nf_table_exists nft table >>= λ found.
    if found then try_cmd nft ("delete" ∷ "table" ∷ table_family ∷ table ∷ []) else done tt

unfoldable pub nf_create_table : Nft → String → Action Unit
nf_create_table nft table = try_cmd nft ("add" ∷ "table" ∷ table_family ∷ table ∷ [])

unfoldable pub nf_create_chain : Nft → String → Action Unit
nf_create_chain nft chain_name = try_cmd nft (
    "add" ∷ "chain" ∷ table_family ∷ sg_table_name ∷ chain_name ∷ "{" ∷ "type" ∷ "filter" ∷ "hook"
    ∷ "input" ∷ "priority" ∷ "0" ∷ ";" ∷ "policy" ∷ "accept" ∷ ";" ∷ "}" ∷ [])
