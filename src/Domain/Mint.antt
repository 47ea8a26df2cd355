-- ===== src/Domain/Mint.antt =====
-- `MintAuthority` and `_MintGuarded`: a guarded fact is built only for the authority that it names.
use ibkr_auto_trader.Prelude.{
  ◌≡◌, refl, Bool, true, false, Option, none, some, String, arith, if◌then◌else◌,
}
use ibkr_auto_trader.Prelude.Result.{Result, err}

-- What the domain's constructors raise.
pub data Error : Type 0 where
  value_error : String → Error
  type_error overflow_error : Error
  reduce_only_violation : Error
  unpriced_holding : String → Error

-- The three module-level singletons, compared by identity.
pub data MintAuthority : Type 0 where
  risk_authority execution_authority assembler_authority : MintAuthority

abbrev pub is_same : MintAuthority → MintAuthority → Bool
is_same risk_authority risk_authority = true
is_same execution_authority execution_authority = true
is_same assembler_authority assembler_authority = true
is_same _ _ = false

-- `data.pop("_authority", None) is required`
abbrev pub holds : MintAuthority → Option MintAuthority → Bool
holds required none = false
holds required (some given) = is_same given required

-- `_MintGuarded.__init__`; `build` is what the model's own validators make of the fields.
unfoldable pub construct :
    {A : Type 0} → MintAuthority → Option MintAuthority → Result Error A → Result Error A
construct required given build = if holds required given then build else err type_error

pub holds-eq :
    (required : MintAuthority) (given : Option MintAuthority)
    → holds required given ≡ true
    → given ≡ some required
holds-eq required none h = cc
holds-eq risk_authority (some risk_authority) h = refl
holds-eq execution_authority (some execution_authority) h = refl
holds-eq assembler_authority (some assembler_authority) h = refl
holds-eq required (some given) h = ground arith
