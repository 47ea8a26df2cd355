-- ===== src/Planner/Plans.antt =====
-- What every plan that `plan` returns satisfies.
use mathlib.Core.Path.{subst₃}
use ibkr_auto_trader.Prelude.{
  sym, ◌∙◌, ℕ, ◌≤◌, ◌<◌, ◌≡◌, ◌≢◌, refl, ◌⊎◌, inl, inr, true, Option, none, some, String, arith,
  All, ◌==◌, Bool-cases,
}
use ibkr_auto_trader.Prelude.Dict.{values}
use ibkr_auto_trader.Prelude.Int.{pos}
use ibkr_auto_trader.Prelude.Result.{Result, ok, err, Result-cases}
use ibkr_auto_trader.Decimal.{Decimal, dec_zero}
use ibkr_auto_trader.Domain.{
  Error, value_error, type_error, overflow_error, reduce_only_violation, unpriced_holding,
}
use ibkr_auto_trader.Domain.Context.{RiskContext}
use ibkr_auto_trader.Projector.{OrderTerms, VerifiedProjection, project}
use ibkr_auto_trader.Projector.Figures.{IsPriced, IsStopLoss, project-IsProjectable}
use ibkr_auto_trader.Planner.{
  Field, Raw, Intent, Inputs, decimal_field, read_intent, Sized, size_order, RiskControlState,
  RiskPlan, Pydantic, Outcome, resolve_id, try_project, or_decline, outcome, make_plan, plan,
}
use ibkr_auto_trader.Planner.Asked.{IsRead, read_intent-IsRead}
use ibkr_auto_trader.Planner.Bounds.{IsSizedFor, size_order-IsSizedFor, IsCapped}

-- The terms that a plan's projection was computed for.
pub record IsProjectedBy (context : RiskContext) (i : Inputs) (multiplier : Field Raw) (q : ℕ)
    (p : VerifiedProjection) : Type 0 where
  pub terms : OrderTerms
  pub projected : project terms context ≡ ok p
  pub quantity : terms.quantity ≡ pos q
  pub side : terms.side ≡ i.side
  pub price : terms.price ≡ i.price
  pub stop : terms.stop_price ≡ i.stop
  pub multiplier_read : decimal_field multiplier "multiplier" ≡ ok terms.multiplier

-- The whole sized quantity, projected; or nothing, with a reason.
abbrev IsOutcome : Inputs → Field Raw → Sized → RiskContext → Outcome → Type 0
IsOutcome i mult s c o =
    ((0 < o.quantity)
      × (o.quantity ≡ s.quantity)
      × (o.reason ≡ s.reason)
      × (p : VerifiedProjection) × (o.projection ≡ some p)
      × IsProjectedBy c i mult s.quantity p)
    ⊎ ((o.quantity ≡ 0) × (o.projection ≡ none) × (o.reason ≢ none))

-- A plan for an intent in a context, under a control state.
pub record IsPlan (intent : Intent) (c : RiskContext) (state : RiskControlState) (p : RiskPlan)
    : Type 0 where
  pub inputs : Inputs
  pub read : read_intent intent c ≡ ok inputs
  pub asked : IsRead intent c inputs
  pub side : p.side ≡ inputs.side
  pub within : p.quantity ≤ inputs.requested
  pub kept : p.decline_reason ≡ none → p.quantity ≡ inputs.requested
  pub declined : p.declined ≡ (p.quantity == 0)
  pub explained : p.quantity ≡ 0 → p.decline_reason ≢ none
  pub capped :
      0 < p.quantity → IsCapped state.policy inputs intent.multiplier c.net_liquidation p.quantity
  pub projected :
      0 < p.quantity
      → (v : VerifiedProjection) × (p.planner_projection ≡ some v)
        × (p.est_risk_amount ≡ v.max_loss_if_stopped)
        × IsProjectedBy c inputs intent.multiplier p.quantity v
  pub unprojected : p.quantity ≡ 0 → (p.planner_projection ≡ none) × (p.est_risk_amount ≡ dec_zero)
  pub has_stop :
      0 < p.quantity → state.policy.stop_loss_required ≡ true → inputs.stop ≡ some p.stop_price

module _ (pydantic : Pydantic) where
  try_project-IsProjectedBy :
      (i : Inputs) (mult : Field Raw) (q : ℕ) (c : RiskContext) (p : VerifiedProjection)
      → try_project pydantic i mult q c ≡ ok p
      → IsProjectedBy c i mult q p
  try_project-IsProjectedBy i mult q c p h = elim (Result-cases (decimal_field mult "multiplier")) [
    | inr (e, raised) ↦ absurd (unfold try_project in ground arith)
    | inl (m, read) ↦ elim (Result-cases (resolve_id pydantic i.key)) [
      | inr (e, raised) ↦ absurd (unfold try_project in ground arith)
      | inl (n, id) ↦ record {
        terms = record {
          instrument_id = n;
          quantity = pos q;
          side = i.side;
          price = i.price;
          stop_price = i.stop;
          multiplier = m;
        };
        projected = unfold try_project in ground arith;
        quantity = refl;
        side = refl;
        price = refl;
        stop = refl;
        multiplier_read = read;
      }
    ]
  ]

  or_decline-ok :
      (q : ℕ) (reason : Option String) (r : Result Error VerifiedProjection) (o : Outcome)
      → or_decline pydantic q reason r ≡ ok o
      → ((p : VerifiedProjection) × (r ≡ ok p)
          × (o ≡ record { quantity = q; reason = reason; projection = some p }))
        ⊎ ((o.quantity ≡ 0) × (o.projection ≡ none) × (o.reason ≢ none))
  or_decline-ok q reason (ok p) o h = inl (p, refl, ground arith)
  or_decline-ok q reason (err (value_error m)) o h = inr (ground arith, ground arith, ground arith)
  or_decline-ok q reason (err (unpriced_holding m)) o h =
      inr (ground arith, ground arith, ground arith)
  or_decline-ok q reason (err type_error) o h = absurd (ground arith)
  or_decline-ok q reason (err overflow_error) o h = absurd (ground arith)
  or_decline-ok q reason (err reduce_only_violation) o h = absurd (ground arith)

  outcome-IsOutcome :
      (i : Inputs) (mult : Field Raw) (s : Sized) (c : RiskContext) (o : Outcome)
      → (s.quantity ≡ 0 → s.reason ≢ none)
      → outcome pydantic i mult s c ≡ ok o
      → IsOutcome i mult s c o
  unfolding outcome
  outcome-IsOutcome i mult s c o why h = elim (Bool-cases (s.quantity == 0)) [
    | inl nothing ↦ inr (ground arith, ground arith, ground (arith, why (ground arith)))
    | inr some_left ↦
        elim (or_decline-ok s.quantity s.reason (try_project pydantic i mult s.quantity c) o
          (ground arith)) [
            | inl (p, projected, same) ↦ inl (
              ground arith,
              ground arith,
              ground arith,
              p,
              ground arith,
              try_project-IsProjectedBy i mult s.quantity c p projected,
            )
            | inr declined ↦ inr declined
          ]
  ]

  plan-parts :
      (intent : Intent) (c : RiskContext) (state : RiskControlState) (p : RiskPlan)
      → plan pydantic intent c state ≡ ok p
      → (i : Inputs) × (s : Sized) × (o : Outcome) × (read_intent intent c ≡ ok i)
        × (size_order state.policy i intent.lot_size intent.multiplier c.net_liquidation ≡ ok s)
        × (outcome pydantic i intent.multiplier s c ≡ ok o)
        × (p ≡ make_plan pydantic i c state o)
  plan-parts intent c state p h = elim (Result-cases (read_intent intent c)) [
    | inr (e, raised) ↦ absurd (unfold plan in ground arith)
    | inl (i, r₁) ↦
        elim (Result-cases
          (size_order state.policy i intent.lot_size intent.multiplier c.net_liquidation)) [
            | inr (e, raised) ↦ absurd (unfold plan in ground arith)
            | inl (s, r₂) ↦ elim (Result-cases (outcome pydantic i intent.multiplier s c)) [
              | inr (e, raised) ↦ absurd (unfold plan in ground arith)
              | inl (o, r₃) ↦ (i, s, o, r₁, r₂, r₃, unfold plan in ground arith)
            ]
          ]
  ]

  stop_of_plan :
      (o : Option Decimal) → o ≢ none → o ≡ some (elim o [ none ↦ dec_zero | some s ↦ s ])
  stop_of_plan none n = absurd (n refl)
  stop_of_plan (some s) n = refl

  made-IsPlan :
      (intent : Intent) (c : RiskContext) (state : RiskControlState) (i : Inputs) (s : Sized)
      (o : Outcome)
      → read_intent intent c ≡ ok i
      → IsSizedFor state.policy i intent.lot_size intent.multiplier c.net_liquidation s
      → IsOutcome i intent.multiplier s c o
      → IsPlan intent c state (make_plan pydantic i c state o)
  made-IsPlan intent c state i s o read sized (inl (some_left, same, why, v, projection, by)) =
      record {
        inputs = i;
        read = read;
        asked = read_intent-IsRead intent c i read;
        side = refl;
        within = rw same sized.within;
        kept = λ e. rw same (sized.kept (rw (← why) e));
        declined = refl;
        explained = λ e. absurd (omega arith);
        capped = λ p. rw same (sized.capped (omega arith));
        projected = λ p. (v, projection, rw projection, rw same by);
        unprojected = λ e. absurd (omega arith);
        has_stop = λ p required. stop_of_plan i.stop (sized.has_stop (omega arith) required);
      }
  made-IsPlan intent c state i s o read sized (inr (nothing, no_projection, why)) = record {
    inputs = i;
    read = read;
    asked = read_intent-IsRead intent c i read;
    side = refl;
    within = omega arith;
    kept = λ e. absurd (why e);
    declined = refl;
    explained = λ e. why;
    capped = λ p. absurd (omega arith);
    projected = λ p. absurd (omega arith);
    unprojected = λ e. (no_projection, rw no_projection);
    has_stop = λ p required. absurd (omega arith);
  }

  pub plan-IsPlan :
      (intent : Intent) (c : RiskContext) (state : RiskControlState) (p : RiskPlan)
      → plan pydantic intent c state ≡ ok p
      → IsPlan intent c state p
  plan-IsPlan intent c state p h =
      let (i, s, o, read, size, out, e) = plan-parts intent c state p h in
      let sized =
        size_order-IsSizedFor state.policy i intent.lot_size intent.multiplier c.net_liquidation s
          size in
      rw e (
        made-IsPlan intent c state i s o read sized
          (outcome-IsOutcome i intent.multiplier s c o sized.explained out))

  -- A plan that trades under a policy that requires stops has its stop strictly on the losing side of
  -- the price that the intent was read at, and every holding of the book is available with a value.
  pub plan-IsStopLoss :
      (intent : Intent) (c : RiskContext) (state : RiskControlState) (p : RiskPlan)
      → plan pydantic intent c state ≡ ok p
      → state.policy.stop_loss_required ≡ true
      → 0 < p.quantity
      → (i : Inputs) × (read_intent intent c ≡ ok i)
        × IsStopLoss p.side (some p.stop_price) i.price
        × All IsPriced (values c.holdings)
  plan-IsStopLoss intent c state p h required some_left =
      let v = plan-IsPlan intent c state p h in
      let (proj, _, _, by) = v.projected some_left in
      let accepted = project-IsProjectable by.terms c proj by.projected in
      (
        v.inputs,
        v.read,
        subst₃ IsStopLoss (by.side ∙ sym v.side) (by.stop ∙ v.has_stop some_left required) by.price
            accepted.stop,
        accepted.priced,
      )
