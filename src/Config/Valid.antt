-- ===== src/Config/Valid.antt =====
-- What a configuration from the command line satisfies, and the texts of the modes.
use ari.Base.{
  ℕ, String, ◌≡◌, refl, ap, ◌≢◌, inl, inr, false, Option, none, some, List, [], ◌∷◌, arith,
  Bool-cases, ◌==◌, nat_key, string_key, ==_iff, Result, ok, ok-injective,
}
use mathlib.Core.Path.{subst}
use ari.Config.{
  of_bootstrap, of_member, get_or, IpcpMode, bootstrap, member, demo, display, from_str, CliArgs,
  IpcpConfiguration, TomlConfig, from_cli, validate, of_mode, valid_as, from_arguments, is_empty,
}

-- The text of a mode is read back as the mode, if it is in lower case.
from_str-display :
    (to_lowercase : String → String) (mode : IpcpMode)
    → to_lowercase (display mode) ≡ display mode
    → from_str to_lowercase (display mode) ≡ ok mode
unfolding from_str display
from_str-display to_lowercase bootstrap low = rw low refl
from_str-display to_lowercase member low = rw low refl
from_str-display to_lowercase demo low = rw low refl

-- What the options of the command line that may not be empty are.
not_empty : (bind : String) → some bind ≢ some "" → (bind == "") ≡ false
not_empty bind given = elim (Bool-cases (bind == "")) [
  | inl empty ↦ absurd (given (ap (λ (t : String). some t) ((==_iff bind "").0 empty)))
  | inr other ↦ other
]

not_nil : (peers : List String) → some peers ≢ some [] → is_empty peers ≡ false
not_nil [] given = absurd (given refl)
not_nil (p ∷ ps) given = refl

-- The validity of a configuration that was made.
made :
    (c d : IpcpConfiguration)
    → valid_as c.mode c ≡ ok tt
    → ◌≡◌ {A = Result String IpcpConfiguration} (ok c) (ok d)
    → valid_as d.mode d ≡ ok tt
made c d fine e =
    subst (λ (x : IpcpConfiguration). valid_as x.mode x ≡ ok tt) (ok-injective c d e) fine

module _ (c : IpcpConfiguration) (start end : ℕ) where
  of_bootstrap-Valid :
      (n d : Option String) (a : Option ℕ) (b : Option String)
      → b ≢ some ""
      → of_bootstrap n d a b start end ≡ ok c
      → valid_as c.mode c ≡ ok tt
  of_bootstrap-Valid none d a b bound e = absurd (ground arith)
  of_bootstrap-Valid (some n) none a b bound e = absurd (ground arith)
  of_bootstrap-Valid (some n) (some d) none b bound e = absurd (ground arith)
  of_bootstrap-Valid (some n) (some d) (some a) none bound e = absurd (ground arith)
  of_bootstrap-Valid (some n) (some d) (some a) (some b) bound e =
      made (from_arguments n bootstrap d (some a) b [] start end) c (rw (not_empty b bound) refl) e

  of_member-Valid :
      (n d b : Option String) (p : Option (List String))
      → b ≢ some ""
      → p ≢ some []
      → of_member n d b p start end ≡ ok c
      → valid_as c.mode c ≡ ok tt
  of_member-Valid none d b p bound peered e = absurd (ground arith)
  of_member-Valid (some n) none b p bound peered e = absurd (ground arith)
  of_member-Valid (some n) (some d) none p bound peered e = absurd (ground arith)
  of_member-Valid (some n) (some d) (some b) none bound peered e = absurd (ground arith)
  of_member-Valid (some n) (some d) (some b) (some p) bound peered e =
      made (from_arguments n member d none b p start end) c
        (rw (not_nil p peered) (rw (not_empty b bound) refl)) e

of_mode-Valid :
    (args : CliArgs) (c : IpcpConfiguration) (mode : IpcpMode)
    → args.bind ≢ some ""
    → args.bootstrap_peers ≢ some []
    → of_mode args mode ≡ ok c
    → valid_as c.mode c ≡ ok tt
of_mode-Valid args c demo bound peered e =
    made (from_arguments (get_or args.name "demo-ipcp") demo "demo-dif" none "" [] 1002 1999) c refl
      e
of_mode-Valid args c bootstrap bound peered e =
    of_bootstrap-Valid c args.address_pool_start args.address_pool_end args.name args.dif_name
      args.address args.bind bound e
of_mode-Valid args c member bound peered e =
    of_member-Valid c args.address_pool_start args.address_pool_end args.name args.dif_name
      args.bind args.bootstrap_peers bound peered e

-- A configuration that is made from the command line without a file is valid, if the bind
-- address and the list of peers are not given as empty.
pub validate-from_cli :
    (load : String → Result String TomlConfig) (args : CliArgs) (c : IpcpConfiguration)
    → args.config ≡ none
    → args.bind ≢ some ""
    → args.bootstrap_peers ≢ some []
    → from_cli load args ≡ ok c
    → validate c ≡ ok tt
unfolding from_cli validate
validate-from_cli load args c unfiled bound peered e =
    of_mode-Valid args c args.mode bound peered (rw unfiled at e)
