-- ===== src/Assembler/Capture.antt =====
-- What a captured context is: of one generation, sealed, and priced without look-ahead.
use mathlib.Core.Path.{subst}
use ibkr_auto_trader.Prelude.{
  ℕ, ◌≡◌, refl, some, List, [], arith, nat_key, Bool-cases, inl, inr, sym, ap, ◌∙◌,
}
use ibkr_auto_trader.Prelude.Dict.{Dict, lookup}
use ibkr_auto_trader.Prelude.Result.{Result, ok, err, ◌>>=◌, >>=-eq_ok}
use ibkr_auto_trader.Decimal.{Decimal, Number, finite, infinite, nan}
use ibkr_auto_trader.Domain.{Datetime, as_utc, HoldingValuation, Error, assembler_authority}
use ibkr_auto_trader.Domain.Context.{RiskContext, mint_context}
use ibkr_auto_trader.Domain.Context.Sealed.{IsSealed, mint_context-IsSealed}
use ibkr_auto_trader.Gateway.{AccountSnapshot, GatewayError}
use ibkr_auto_trader.MarketData.{QuoteField, QuoteBatch, select_causal}
use ibkr_auto_trader.MarketData.Causal.{IsCausal, select_causal_lem}
use ibkr_auto_trader.Assembler.{
  CaptureError, Prices, candidates, to_finite, lift, finite_prices, price_all, seal, Digest, agrees,
  universe, held_by_id, holdings_of, assemble, capture, gathered,
}
use ibkr_auto_trader.Assembler.Pricing.{price_all-IsPriced, lookup-finite_prices}

to_finite-eq_ok : (v : Number) (d : Decimal) → to_finite v ≡ ok d → v ≡ finite d
to_finite-eq_ok (finite d') d h = ground arith
to_finite-eq_ok (infinite b) d h = absurd (ground arith)
to_finite-eq_ok nan d h = absurd (ground arith)

lift-eq_ok : {A : Type 0} (r : Result Error A) (a : A) → lift r ≡ ok a → r ≡ ok a
lift-eq_ok (ok b) a h = ground arith
lift-eq_ok (err e) a h = absurd (ground arith)

-- The money of the account, unchanged and finite.
pub record HasMoneyOf (account : AccountSnapshot) (c : RiskContext) : Type 0 where
  pub value : account.net_liquidation ≡ finite c.net_liquidation
  pub power : account.buying_power ≡ finite c.buying_power
  pub margin : account.maintenance_margin ≡ finite c.maintenance_margin
  pub observed : c.account_observed_at ≡ account.observed_at

-- The maps of the gathered prices, with the same prices as finite ones.
pub record HasPricesOf (priced : Prices) (c : RiskContext) : Type 0 where
  pub same_prices : finite_prices priced.prices ≡ ok c.prices
  pub same_basis : c.price_basis ≡ priced.price_basis
  pub same_times : c.data_as_of ≡ priced.data_as_of

module _ (digest : Digest) (account : AccountSnapshot) (holdings : Dict ℕ HoldingValuation)
    (priced : Prices) (at : Datetime) (generation : ℕ) (c : RiskContext) where
  abbrev IsSealedFrom : RiskContext → Type 0
  IsSealedFrom x =
      HasMoneyOf account x
      × HasPricesOf priced x
      × IsSealed x
      × (x.as_of ≡ at)
      × (x.generation ≡ generation)
      × (x.holdings ≡ holdings)

  gathered_lem :
      (nlv bp mm : Decimal) (ps : Dict ℕ Decimal)
      → to_finite account.net_liquidation ≡ ok nlv
      → to_finite account.buying_power ≡ ok bp
      → to_finite account.maintenance_margin ≡ ok mm
      → finite_prices priced.prices ≡ ok ps
      → lift (
          mint_context
            (some assembler_authority)
            (gathered digest account holdings priced at generation nlv bp mm ps))
        ≡ ok c
      → IsSealedFrom c
  gathered_lem nlv bp mm ps e1 e2 e3 e4 h =
      let x = gathered digest account holdings priced at generation nlv bp mm ps in
      let (given, same, sealed) =
        mint_context-IsSealed (some assembler_authority) x c
          (lift-eq_ok (mint_context (some assembler_authority) x) c h) in
      subst IsSealedFrom (sym same) (
        record {
          value = to_finite-eq_ok account.net_liquidation nlv e1;
          power = to_finite-eq_ok account.buying_power bp e2;
          margin = to_finite-eq_ok account.maintenance_margin mm e3;
          observed = refl;
        },
        record { same_prices = e4; same_basis = refl; same_times = refl },
        sealed,
        refl,
        refl,
        refl,
      )

  abbrev mint_of : Decimal → Decimal → Decimal → Dict ℕ Decimal → Result CaptureError RiskContext
  mint_of nlv bp mm ps = lift (
      mint_context (some assembler_authority)
        (gathered digest account holdings priced at generation nlv bp mm ps))

  from_margin :
      (nlv bp mm : Decimal)
      → to_finite account.net_liquidation ≡ ok nlv
      → to_finite account.buying_power ≡ ok bp
      → to_finite account.maintenance_margin ≡ ok mm
      → (finite_prices priced.prices >>= λ ps. mint_of nlv bp mm ps) ≡ ok c
      → IsSealedFrom c
  from_margin nlv bp mm e1 e2 e3 h =
      let (ps, e4, rest) = >>=-eq_ok (finite_prices priced.prices) (mint_of nlv bp mm) h in
      gathered_lem nlv bp mm ps e1 e2 e3 e4 rest

  from_value :
      (nlv : Decimal)
      → to_finite account.net_liquidation ≡ ok nlv
      → (to_finite account.buying_power >>= λ bp. to_finite account.maintenance_margin >>= λ mm.
          finite_prices priced.prices >>= λ ps. mint_of nlv bp mm ps)
        ≡ ok c
      → IsSealedFrom c
  from_value nlv e1 h =
      let (bp, e2, h2) = >>=-eq_ok (to_finite account.buying_power) _ h in
      let (mm, e3, h3) = >>=-eq_ok (to_finite account.maintenance_margin) _ h2 in
      from_margin nlv bp mm e1 e2 e3 h3

  seal_lem : seal digest account holdings priced at generation ≡ ok c → IsSealedFrom c
  unfolding seal
  seal_lem h =
      let (nlv, e1, h1) = >>=-eq_ok (to_finite account.net_liquidation) _ h in from_value nlv e1 h1

-- What a successful capture went through and what its context is.
pub record IsCapture (requested : List ℕ) (account : AccountSnapshot) (batch : QuoteBatch)
    (at : Datetime) (at_seal : ℕ) (c : RiskContext) : Type 0 where
  pub account_generation : account.generation ≡ at_seal
  pub quotes_generation : batch.generation ≡ at_seal
  pub context_generation : c.generation ≡ at_seal
  pub sealed : IsSealed c
  pub decided_at : c.as_of ≡ at
  pub money : HasMoneyOf account c
  pub no_look_ahead :
      (n : ℕ) (d : Decimal)
      → lookup n c.prices ≡ some d
      → (f : QuoteField) × ((select_causal
            (candidates (held_by_id [] account.held) batch n)
            at).chosen
          ≡ some f)
        × (f.value ≡ some (finite d))
        × (lookup n c.price_basis ≡ some f.basis)
        × (lookup n c.data_as_of ≡ some (as_utc f.available_at))
        × IsCausal at f

abbrev no_prices : Prices
no_prices = record { prices = []; price_basis = []; data_as_of = [] }

assemble_lem :
    (digest : Digest) (requested : List ℕ) (account : AccountSnapshot) (batch : QuoteBatch)
    (at : Datetime) (at_seal : ℕ) (c : RiskContext)
    → assemble digest requested account batch at at_seal ≡ ok c
    → IsCapture requested account batch at at_seal c
assemble_lem digest requested account batch at at_seal c h =
    elim (Bool-cases (agrees account.generation batch.generation at_seal)) [
      | inr spans ↦ unfold assemble in absurd (ground arith)
      | inl same ↦
          (let ids = held_by_id [] account.held in
            let gathering : (holdings_of [] account.held >>= λ holdings.
            price_all ids batch at no_prices (universe account.held requested) >>= λ priced.
            seal digest account holdings priced at at_seal)
                ≡ ok c =
              unfold assemble in ground arith in
            let (holdings, e1, h1) = >>=-eq_ok (holdings_of [] account.held) _ gathering in
            let (priced, e2, h2) =
              >>=-eq_ok (price_all ids batch at no_prices (universe account.held requested)) _ h1 in
            let s = seal_lem digest account holdings priced at at_seal c h2 in
            let p =
              price_all-IsPriced ids batch at no_prices priced (universe account.held requested) e2
                (λ n v found. absurd (ground arith)) in
            record {
              account_generation = ground arith;
              quotes_generation = ground arith;
              context_generation = s.4;
              sealed = s.2;
              decided_at = s.3;
              money = s.0;
              no_look_ahead = λ n d found.
                  let from =
                    lookup-finite_prices priced.prices c.prices n d s.1.same_prices found in
                  let (f, chosen) = p n (finite d) from in
                  let gate = select_causal_lem (candidates ids batch n) at in
                  (
                    f,
                    chosen.is_chosen,
                    chosen.has_value,
                    ap (lookup n) s.1.same_basis ∙ chosen.has_basis,
                    ap (lookup n) s.1.same_times ∙ chosen.has_time,
                    (gate.0 f chosen.is_chosen).0,
                  );
            })
    ]

-- A captured context comes from an account snapshot that was read, and account, quotes, session and
-- context are of one generation; the context is sealed at the decision instant with the account's
-- money, and each price in it, its basis and its time are those of the field that the causal gate
-- chose among the candidates of that instrument, which was available by the decision.
pub capture-IsCapture :
    (digest : Digest) (requested : List ℕ) (account : Result GatewayError AccountSnapshot)
    (feed : List ℕ → QuoteBatch) (now : Datetime) (at_seal : ℕ) (c : RiskContext)
    → capture digest requested account feed now at_seal ≡ ok c
    → (a : AccountSnapshot) × (account ≡ ok a)
      × IsCapture requested a (feed (universe a.held requested)) (as_utc now) at_seal c
unfolding capture
capture-IsCapture digest requested (err e) feed now at_seal c h = absurd (ground arith)
capture-IsCapture digest requested (ok a) feed now at_seal c h = (
  a,
  refl,
  assemble_lem digest requested a (feed (universe a.held requested)) (as_utc now) at_seal c h,
)
