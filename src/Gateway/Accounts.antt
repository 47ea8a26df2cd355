-- ===== src/Gateway/Accounts.antt =====
-- Resolving the account, the account snapshot, and the status of a holding.
use text.Mathlib.Text.{starts_with}
use ibkr_auto_trader.Prelude.{
  ◌≡◌, ◌↔◌, true, Option, none, some, String, List, [], ◌∷◌, arith, text_key, inl, inr, ap, ◌∙◌,
}
use ibkr_auto_trader.Prelude.Dict.{contains}
use ibkr_auto_trader.Prelude.Result.{ok, err, Result-cases}
use ibkr_auto_trader.Config.{Mode}
use ibkr_auto_trader.Gateway.{
  GatewayError, account_resolution, is_fatal, resolve_account, pick, named, configured_name,
  is_paper,
}

-- The account that the rules choose: the configured one if it is offered, else the only one.
abbrev pub IsChosen : Option String → List String → String → Type 0
IsChosen none accounts a = accounts ≡ a ∷ []
IsChosen (some c) accounts a = (a ≡ c) × (contains c accounts ≡ true)

pick_iff :
    (c : Option String) (accounts : List String) (a : String)
    → (pick c accounts ≡ ok a) ↔ IsChosen c accounts a
unfolding pick
pick_iff none [] a = (λ h. absurd (ground arith), λ h. absurd (ground arith))
pick_iff none (b ∷ []) a = (λ h. ground arith, λ h. ground arith)
pick_iff none (b ∷ d ∷ bs) a = (λ h. absurd (ground arith), λ h. absurd (ground arith))
pick_iff (some c) accounts a = (λ h. (ground arith, ground arith), λ h. ground arith)

pick-is_fatal :
    (c : Option String) (accounts : List String) (e : GatewayError)
    → pick c accounts ≡ err e
    → e ≡ account_resolution
unfolding pick
pick-is_fatal none [] e h = ground arith
pick-is_fatal none (b ∷ []) e h = absurd (ground arith)
pick-is_fatal none (b ∷ d ∷ bs) e h = ground arith
pick-is_fatal (some c) accounts e h = ground arith

-- An account is resolved exactly if it is the configured one and offered, or nothing is configured
-- and it is the only one offered, blank names aside, and under PAPER its name starts with DU; every
-- refusal is a fatal error.
pub resolve_account_iff :
    (configured : Option String) (offered : List String) (mode : Mode) (a : String)
    → ((resolve_account configured offered mode ≡ ok a) ↔ (
        IsChosen (configured_name configured) (named offered) a
        × (is_paper mode ≡ true → starts_with a "DU" ≡ true)))
      × ((e : GatewayError) → resolve_account configured offered mode ≡ err e → is_fatal e ≡ true)
unfolding resolve_account
resolve_account_iff configured offered mode a =
    let c = configured_name configured in
    let accounts = named offered in
    elim (Result-cases (pick c accounts)) [
      | inl (b, e) ↦ (
        (
          λ h.
              let same : b ≡ a = ground arith in
              ((pick_iff c accounts a).0 (e ∙ ap ok same), λ p. ground arith),
          λ (chosen, du). let e' = (pick_iff c accounts a).1 chosen in ground arith,
        ),
        λ x h. ground arith,
      )
      | inr (x, e) ↦ (
        (
          λ h. absurd (ground arith),
          λ (chosen, du). let e' = (pick_iff c accounts a).1 chosen in absurd (ground arith),
        ),
        λ y h. let f = pick-is_fatal c accounts x e in ground arith,
      )
    ]
