-- ===== src/Ssh/Account.antt =====
-- src/ssh/account.rs: the accounts and their choice by region. The embedded files and the TOML
-- reader are outside the repository's code: a file is its stem and what was read of it.
pub mod Groups
use unroxy.Base.{
  ℕ, Bool, true, false, ◌||◌, Option, none, some, List, [], ◌∷◌, ◌++◌, length, filter, ◌==◌,
  if◌then◌else◌,
}
use unroxy.Base.Text.{Text, text_eq, is_empty}

pub record Account : Type 0 where
  pub ip : Text
  pub region : Text
  pub ssh_port : ℕ
  pub ossh_port : ℕ
  pub ssh_username : Text
  pub ssh_password : Text
  pub ssh_host_key : Text
  pub ssh_obfuscated_key : Text

-- `File`, the contents of an account's file.
pub record AccountFile : Type 0 where
  pub region : Text
  pub ssh_port : ℕ
  pub ossh_port : ℕ
  pub ssh_username : Text
  pub ssh_password : Text
  pub ssh_host_key : Text
  pub ssh_obfuscated_key : Text

abbrev pub account_of : Text → AccountFile → Account
account_of ip f = record {
  ip = ip;
  region = f.region;
  ssh_port = f.ssh_port;
  ossh_port = f.ossh_port;
  ssh_username = f.ssh_username;
  ssh_password = f.ssh_password;
  ssh_host_key = f.ssh_host_key;
  ssh_obfuscated_key = f.ssh_obfuscated_key;
}

-- `load`: a file that is not text or TOML, or whose name is not text, is passed over.
unfoldable pub load : List (Option Text × Option AccountFile) → List Account
load [] = []
load ((some ip, some f) ∷ files) = account_of ip f ∷ load files
load ((some ip, none) ∷ files) = load files
load ((none, f) ∷ files) = load files

unfoldable pub parse : List Account → Text → List Account
parse accounts region = filter (λ a. is_empty region || text_eq a.region region) accounts

-- The `BTreeMap` as a function.
abbrev pub Grouped : Type 0
Grouped = Text → Option (List Account)

-- `entry(..).or_default().push(..)`
unfoldable pub push_entry : Account → Grouped → Grouped
push_entry a grouped region =
    if text_eq a.region region
    then some ((elim (grouped region) [ none ↦ [] | some known ↦ known ]) ++ (a ∷ []))
    else grouped region

unfoldable pub group_from : Grouped → List Account → Grouped
unfolding push_entry
group_from grouped [] = grouped
group_from grouped (a ∷ accounts) =
    if is_empty a.region
    then group_from grouped accounts
    else group_from (push_entry a grouped) accounts

unfoldable pub group_by_region : List Account → Grouped
unfolding group_from
group_by_region accounts = group_from (λ region. none) accounts
