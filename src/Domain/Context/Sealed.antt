-- ===== src/Domain/Context/Sealed.antt =====
-- What a minted context satisfies, and that nothing more is asked of one.
use ibkr_auto_trader.Prelude.{
  ℕ, ◌≡◌, refl, false, Option, none, some, List, [], ◌∷◌, arith, All, nat_key, Bool-cases, inl, inr,
  Option-cases,
}
use ibkr_auto_trader.Prelude.Dict.{Distinct, contains-All, All-contains, Dict, keys}
use ibkr_auto_trader.Prelude.Int.{pos, ◌≤ℤ◌}
use ibkr_auto_trader.Prelude.Result.{ok}
use ibkr_auto_trader.Domain.Time.{Datetime, is_utc-offset, is_utc_of_offset, is_later_utc}
use ibkr_auto_trader.Domain.Mint.{MintAuthority, assembler_authority, holds, holds-eq}
use ibkr_auto_trader.Domain.Holding.{HoldingValuation, ValuationStatus, available, unavailable}
use ibkr_auto_trader.Domain.Context.{
  RiskContext, has_duplicate, mark_error, validate_holding_marks, validate_context, mint_context,
}

-- A value in UTC that is no later than the decision.
abbrev pub IsCausalMark : Datetime → Datetime → Type 0
IsCausalMark as_of mark = (mark.offset ≡ some (pos 0)) × (mark.wall ≤ℤ as_of.wall)

abbrev pub HasCausalMark : Datetime → ValuationStatus → Option Datetime → Type 0
HasCausalMark as_of unavailable mark = Unit
HasCausalMark as_of available none = ⊥
HasCausalMark as_of available (some mark) = IsCausalMark as_of mark

pub record IsSealed (c : RiskContext) : Type 0 where
  pub distinct : Distinct (keys c.holdings)
  pub in_utc : c.as_of.offset ≡ some (pos 0)
  pub causal :
      All
        (λ (e : ℕ × HoldingValuation). HasCausalMark c.as_of e.1.status e.1.mark_available_at)
        c.holdings

has_duplicate-Distinct : (ks : List ℕ) → has_duplicate ks ≡ false → Distinct ks
unfolding has_duplicate
has_duplicate-Distinct [] h = tt
has_duplicate-Distinct (k ∷ ks) h =
    (contains-All k ks (ground arith), has_duplicate-Distinct ks (ground arith))

Distinct-has_duplicate : (ks : List ℕ) → Distinct ks → has_duplicate ks ≡ false
unfolding has_duplicate
Distinct-has_duplicate [] h = refl
Distinct-has_duplicate (k ∷ ks) h =
    ground (arith, All-contains k ks h.0, Distinct-has_duplicate ks h.1)

mark_error-HasCausalMark :
    (as_of : Datetime) (s : ValuationStatus) (m : Option Datetime)
    → as_of.offset ≡ some (pos 0)
    → mark_error as_of s m ≡ none
    → HasCausalMark as_of s m
mark_error-HasCausalMark as_of available (some m) u h =
    unfold mark_error in ground (arith, is_utc-offset m, is_later_utc m as_of)
mark_error-HasCausalMark as_of available none u h = unfold mark_error in cc
mark_error-HasCausalMark as_of unavailable m u h = tt

HasCausalMark-mark_error :
    (as_of : Datetime) (s : ValuationStatus) (m : Option Datetime)
    → as_of.offset ≡ some (pos 0)
    → HasCausalMark as_of s m
    → mark_error as_of s m ≡ none
HasCausalMark-mark_error as_of available (some m) u h =
    unfold mark_error in ground (arith, is_utc_of_offset m, is_later_utc m as_of)
HasCausalMark-mark_error as_of available none u h = absurd h
HasCausalMark-mark_error as_of unavailable m u h = unfold mark_error in refl

abbrev AllCausal : Datetime → Dict ℕ HoldingValuation → Type 0
AllCausal as_of = All (λ e. HasCausalMark as_of e.1.status e.1.mark_available_at)

marks-AllCausal :
    (as_of : Datetime) (d : Dict ℕ HoldingValuation) {u : Unit {0}}
    → as_of.offset ≡ some (pos 0)
    → validate_holding_marks as_of d ≡ ok u
    → AllCausal as_of d
unfolding validate_holding_marks
marks-AllCausal as_of [] u h = tt
marks-AllCausal as_of ((k, v) ∷ d) u h =
    elim (Option-cases (mark_error as_of v.status v.mark_available_at)) [
      | inl none_late ↦ (
        mark_error-HasCausalMark as_of v.status v.mark_available_at u none_late,
        marks-AllCausal as_of d u (ground arith),
      )
      | inr (e, raised) ↦ absurd (ground arith)
    ]

AllCausal-marks :
    (as_of : Datetime) (d : Dict ℕ HoldingValuation)
    → as_of.offset ≡ some (pos 0)
    → AllCausal as_of d
    → validate_holding_marks as_of d ≡ ok tt
unfolding validate_holding_marks
AllCausal-marks as_of [] u h = refl
AllCausal-marks as_of ((k, v) ∷ d) u h = ground (
  arith,
  HasCausalMark-mark_error as_of v.status v.mark_available_at u h.0,
  AllCausal-marks as_of d u h.1,
)

validate_context-IsSealed :
    (c c' : RiskContext) → validate_context c ≡ ok c' → (c' ≡ c) × IsSealed c
unfolding validate_context
validate_context-IsSealed c c' h = ground (
  arith,
  has_duplicate-Distinct (keys c.holdings),
  is_utc-offset c.as_of,
  marks-AllCausal c.as_of c.holdings {u = tt},
)

-- Only the assembler mints a context, its fields come through as given, and it has distinct ids, a
-- UTC decision instant, and no AVAILABLE holding whose mark is missing, naive or later than the
-- decision.
pub mint_context-IsSealed :
    (given : Option MintAuthority) (c c' : RiskContext)
    → mint_context given c ≡ ok c'
    → (given ≡ some assembler_authority) × (c' ≡ c) × IsSealed c
unfolding mint_context
mint_context-IsSealed given c c' h = elim (Bool-cases (holds assembler_authority given)) [
  | inl held ↦
      (let (same, sealed) = validate_context-IsSealed c c' (ground arith) in
        (holds-eq assembler_authority given held, same, sealed))
  | inr refused ↦ absurd (ground arith)
]

-- Every sealed record of fields is accepted from the assembler.
pub IsSealed-mint_context :
    (c : RiskContext) → IsSealed c → mint_context (some assembler_authority) c ≡ ok c
unfolding mint_context validate_context
IsSealed-mint_context c s = rw (
  Distinct-has_duplicate (keys c.holdings) s.distinct,
  is_utc_of_offset c.as_of s.in_utc,
  AllCausal-marks c.as_of c.holdings s.in_utc s.causal,
)
