-- ===== src/Directory.antt =====
-- src/directory.rs: the directory of names. The time `now` is an argument.
pub mod Names
pub mod Pool
use ari.Base.{
  ℕ, String, Bool, true, false, not, Option, none, some, List, [], ◌∷◌, ◌++◌, eqb, if◌then◌else◌,
  length, retain, nat_key, string_key, Result, ok, err,
}
use ari.Map
use ari.Map.{Map, get, insert, remove, keys}

pub record DirectoryEntry : Type 0 where
  pub name : String
  pub addresses : List ℕ
  pub timestamp : ℕ

pub record Directory : Type 0 where
  pub entries : Map String DirectoryEntry

pub data DirectoryError : Type 0 where
  name_not_found : String → DirectoryError

abbrev pub new : Directory
new = record { entries = [] }

-- `contains` of a vector of addresses.
abbrev pub contains : List ℕ → ℕ → Bool
contains [] a = false
contains (x ∷ xs) a = if eqb x a then true else contains xs a

unfoldable pub modified : DirectoryEntry → ℕ → ℕ → DirectoryEntry
modified e address now = record e {
  addresses = if contains e.addresses address then e.addresses else e.addresses ++ address ∷ [];
  timestamp = now;
}

unfoldable pub register : Directory → String → ℕ → ℕ → Directory × Result DirectoryError (Unit {0})
unfolding modified
register d name address now = elim (get d.entries name) [
  | some e ↦ (record { entries = insert d.entries name (modified e address now) }, ok tt)
  | none ↦ (
    record {
      entries =
          insert d.entries name (record { name = name; addresses = address ∷ []; timestamp = now });
    },
    ok tt,
  )
]

abbrev pub without : List ℕ → ℕ → List ℕ
without addresses address = retain (λ a. not (eqb a address)) addresses

abbrev pub is_empty : List ℕ → Bool
is_empty [] = true
is_empty (x ∷ xs) = false

unfoldable pub unregister : Directory → String → ℕ → Directory × Result DirectoryError (Unit {0})
unregister d name address = elim (get d.entries name) [
  | none ↦ (d, err (name_not_found name))
  | some e ↦
      if is_empty (without e.addresses address)
      then (record { entries = remove d.entries name }, ok tt)
      else (
        record {
          entries = insert d.entries name (record e { addresses = without e.addresses address });
        },
        ok tt,
      )
]

unfoldable pub resolve : Directory → String → Option (List ℕ)
resolve d name = elim (get d.entries name) [ none ↦ none | some e ↦ some e.addresses ]

unfoldable pub list_names : Directory → List String
list_names d = keys d.entries

unfoldable pub count : Directory → ℕ
count d = length d.entries

unfoldable pub clear : Directory → Directory
clear d = record { entries = [] }
