-- ===== src/Assembler/Pricing.antt =====
-- The loop of `capture` over the universe: every price comes from the field that the causal gate
-- chose for its instrument.
use mathlib.Core.Path.{subst}
use ibkr_auto_trader.Prelude.{
  ℕ, ◌≡◌, refl, Option, none, some, List, [], ◌∷◌, arith, ◌==◌, nat_key, Option-cases, Bool-cases,
  inl, inr, ap, ◌∙◌,
}
use ibkr_auto_trader.Prelude.Dict.{Dict, lookup, insert, lookup-insert}
use ibkr_auto_trader.Prelude.Result.{ok, >>=-eq_ok}
use ibkr_auto_trader.Decimal.{Decimal, Number, finite, infinite, nan}
use ibkr_auto_trader.Domain.{Datetime, as_utc}
use ibkr_auto_trader.Gateway.{HeldPosition}
use ibkr_auto_trader.MarketData.{QuoteField, QuoteBatch, select_causal}
use ibkr_auto_trader.Assembler.{Prices, candidates, price_by, price_all, finite_prices}

-- A price with its basis and its time, all of the one field that was chosen.
pub record IsChosenField (chosen : Option QuoteField) (out : Prices) (n : ℕ) (v : Number)
    (f : QuoteField) : Type 0 where
  pub is_chosen : chosen ≡ some f
  pub has_value : f.value ≡ some v
  pub has_basis : lookup n out.price_basis ≡ some f.basis
  pub has_time : lookup n out.data_as_of ≡ some (as_utc f.available_at)

module _ (held : Dict ℕ HeldPosition) (batch : QuoteBatch) (at : Datetime) where
  abbrev pub chosen_for : ℕ → Option QuoteField
  chosen_for n = (select_causal (candidates held batch n) at).chosen

  abbrev pub IsPriced : Prices → Type 0
  IsPriced out =
      (n : ℕ) (v : Number)
      → lookup n out.prices ≡ some v
      → (f : QuoteField) × IsChosenField (chosen_for n) out n v f

  -- What the loop's three assignments leave.
  abbrev pub priced_with : Prices → ℕ → QuoteField → Number → Prices
  priced_with out n f v = record {
    prices = insert n v out.prices;
    price_basis = insert n f.basis out.price_basis;
    data_as_of = insert n (as_utc f.available_at) out.data_as_of;
  }

  priced_with-IsPriced :
      (out : Prices) (n : ℕ) (f : QuoteField) (v : Number)
      → chosen_for n ≡ some f
      → f.value ≡ some v
      → IsPriced out
      → IsPriced (priced_with out n f v)
  priced_with-IsPriced out n f v e h p m w found = elim (Bool-cases (m == n)) [
    | inl here ↦
        (let same : m ≡ n = ground arith in
          (
            f,
            record {
              is_chosen = ap chosen_for same ∙ e;
              has_value = ground (arith, lookup-insert n m v out.prices);
              has_basis = ground (arith, lookup-insert n m f.basis out.price_basis);
              has_time = ground (arith, lookup-insert n m (as_utc f.available_at) out.data_as_of);
            },
          ))
    | inr there ↦
        (let (g, c) = p m w (ground (arith, lookup-insert n m v out.prices)) in
          (
            g,
            record {
              is_chosen = c.is_chosen;
              has_value = c.has_value;
              has_basis = ground (arith, c.has_basis, lookup-insert n m f.basis out.price_basis);
              has_time =
                  ground
                    (arith, c.has_time, lookup-insert n m (as_utc f.available_at) out.data_as_of);
            },
          ))
  ]

  price_by-IsPriced :
      (out next : Prices) (n : ℕ) (c : Option QuoteField)
      → chosen_for n ≡ c
      → price_by out n c ≡ ok next
      → IsPriced out
      → IsPriced next
  price_by-IsPriced out next n none e h p =
      let same : out ≡ next = unfold price_by in ground arith in subst IsPriced same p
  price_by-IsPriced out next n (some f) e h p = elim (Option-cases f.value) [
    | inl unread ↦ unfold price_by in absurd (ground arith)
    | inr (v, read) ↦
        (let same : priced_with out n f v ≡ next = unfold price_by in ground arith in
          subst IsPriced same (priced_with-IsPriced out n f v e read p))
  ]

  pub price_all-IsPriced :
      (out result : Prices) (ns : List ℕ)
      → price_all held batch at out ns ≡ ok result
      → IsPriced out
      → IsPriced result
  unfolding price_all
  price_all-IsPriced out result [] h p =
      let same : out ≡ result = ground arith in subst IsPriced same p
  price_all-IsPriced out result (n ∷ ns) h p =
      let (next, first, rest) =
        >>=-eq_ok (price_by out n (chosen_for n)) (λ x. price_all held batch at x ns) h in
      price_all-IsPriced next result ns rest
        (price_by-IsPriced out next n (chosen_for n) refl first p)

-- The sealed prices are the gathered ones, all of them finite.
pub lookup-finite_prices :
    (ps : Dict ℕ Number) (result : Dict ℕ Decimal) (n : ℕ) (d : Decimal)
    → finite_prices ps ≡ ok result
    → lookup n result ≡ some d
    → lookup n ps ≡ some (finite d)
unfolding finite_prices
lookup-finite_prices [] result n d h found = absurd (ground arith)
lookup-finite_prices ((k, finite p) ∷ ps) result n d h found =
    let (rest, e, same) = >>=-eq_ok (finite_prices ps) (λ r. ok ((k, p) ∷ r)) h in
    let ih = lookup-finite_prices ps rest n d e in ground arith
lookup-finite_prices ((k, infinite b) ∷ ps) result n d h found = absurd (ground arith)
lookup-finite_prices ((k, nan) ∷ ps) result n d h found = absurd (ground arith)
