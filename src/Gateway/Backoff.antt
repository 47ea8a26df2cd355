-- ===== src/Gateway/Backoff.antt =====
-- Connecting with bounded backoff: how often, how long, and with what result.
use ibkr_auto_trader.Prelude.{
  ℕ, zero, suc, ◌+◌, ◌≡◌, ◌≤◌, refl, List, [], ◌∷◌, arith, ap, sym, ◌∙◌, All, length,
}
use ibkr_auto_trader.Prelude.Result.{Result, ok, err}
use ibkr_auto_trader.Gateway.{
  GatewayError, not_connected, Attempt, opened, fatal, transient, Retry, then_retry, retry,
  delays_from, backoff_delays, connect_with_backoff, Gateway,
}

-- What the first n attempts come to: the first one that is not transient decides, and attempts
-- that nobody answers are transient.
pub verdict : ℕ → List Attempt → Result GatewayError (Unit {0})
verdict zero outs = err not_connected
verdict (suc n) [] = err not_connected
verdict (suc n) (opened ∷ outs) = ok tt
verdict (suc n) (fatal e ∷ outs) = err e
verdict (suc n) (transient ∷ outs) = verdict n outs

retry_silent : (ds : List ℕ) → (retry ds []).result ≡ err not_connected
unfolding retry
retry_silent [] = refl
retry_silent (d ∷ ds) = retry_silent ds

retry-verdict :
    (ds : List ℕ) (outs : List Attempt) → (retry ds outs).result ≡ verdict (length ds) outs
unfolding retry verdict
retry-verdict [] outs = refl
retry-verdict (d ∷ ds) [] = retry_silent ds
retry-verdict (d ∷ ds) (opened ∷ outs) = refl
retry-verdict (d ∷ ds) (fatal e ∷ outs) = refl
retry-verdict (d ∷ ds) (transient ∷ outs) = retry-verdict ds outs

-- How many of n attempts are made: up to and including the first one that is not transient.
pub tries : ℕ → List Attempt → ℕ
tries zero outs = 0
tries (suc n) [] = suc n
tries (suc n) (transient ∷ outs) = suc (tries n outs)
tries (suc n) (_ ∷ outs) = 1

tries_bounded : (n : ℕ) (outs : List Attempt) → tries n outs ≤ n
unfolding tries
tries_bounded zero outs = omega arith
tries_bounded (suc n) [] = omega arith
tries_bounded (suc n) (opened ∷ outs) = omega arith
tries_bounded (suc n) (fatal e ∷ outs) = omega arith
tries_bounded (suc n) (transient ∷ outs) = (let ih = tries_bounded n outs in omega arith)

tries_silent : (n : ℕ) → tries n [] ≡ n
unfolding tries
tries_silent zero = refl
tries_silent (suc n) = refl

-- The first n delays.
abbrev pub first : ℕ → List ℕ → List ℕ
first zero ds = []
first (suc n) [] = []
first (suc n) (d ∷ ds) = d ∷ first n ds

-- The pauses before a further attempt: one fewer than the attempts, each attempt's own delay.
abbrev pub pauses : ℕ → List ℕ → List ℕ
pauses zero ds = []
pauses (suc n) ds = first n ds

-- What the loop does over its delays: its number of attempts, and a pause between each two of them.
abbrev IsPaced : List ℕ → List Attempt → Retry → Type 0
IsPaced ds outs r = (r.tried ≡ tries (length ds) outs) × (r.slept ≡ pauses r.tried ds)

tries_pos : (n : ℕ) (outs : List Attempt) → 1 ≤ tries (suc n) outs
unfolding tries
tries_pos n [] = omega arith
tries_pos n (opened ∷ outs) = omega arith
tries_pos n (fatal e ∷ outs) = omega arith
tries_pos n (transient ∷ outs) = omega arith

pause_before :
    (d n : ℕ) (ds slept : List ℕ)
    → 1 ≤ n
    → slept ≡ pauses n ds
    → d ∷ slept ≡ pauses (suc n) (d ∷ ds)
pause_before d zero ds slept p e = absurd (omega arith)
pause_before d (suc n) ds slept p e = ap (λ s. d ∷ s) e

then_retry-IsPaced :
    (d : ℕ) (ds : List ℕ) (outs : List Attempt) (r : Retry)
    → IsPaced ds outs r
    → (r.tried + 1 ≡ suc (tries (length ds) outs))
      × ((then_retry d ds r).slept ≡ pauses (r.tried + 1) (d ∷ ds))
then_retry-IsPaced d [] outs r (p, q) =
    let z : r.tried ≡ 0 = unfold tries in p in (omega arith, q ∙ rw z refl)
then_retry-IsPaced d (e ∷ es) outs r (p, q) =
    let next : r.tried + 1 ≡ suc r.tried = omega arith in
    let some_made : 1 ≤ r.tried = omega (arith, tries_pos (length es) outs) in
    (
      omega arith,
      pause_before d r.tried (e ∷ es) r.slept some_made q
          ∙ ap (λ n. pauses n (d ∷ e ∷ es)) (sym next),
    )

retry-IsPaced : (ds : List ℕ) (outs : List Attempt) → IsPaced ds outs (retry ds outs)
unfolding retry tries
retry-IsPaced [] outs = (refl, refl)
retry-IsPaced (d ∷ ds) [] =
    let (p, q) = then_retry-IsPaced d ds [] (retry ds []) (retry-IsPaced ds []) in
    (p ∙ ap suc (tries_silent (length ds)), q)
retry-IsPaced (d ∷ ds) (opened ∷ outs) = (refl, refl)
retry-IsPaced (d ∷ ds) (fatal e ∷ outs) = (refl, refl)
retry-IsPaced (d ∷ ds) (transient ∷ outs) =
    then_retry-IsPaced d ds outs (retry ds outs) (retry-IsPaced ds outs)

length-delays_from : (n i base cap : ℕ) → length (delays_from n i base cap) ≡ n
unfolding delays_from
length-delays_from zero i base cap = refl
length-delays_from (suc n) i base cap = ground (arith, length-delays_from n (i + 1) base cap)

delays_from_bounded : (n i base cap : ℕ) → All (λ d. d ≤ cap) (delays_from n i base cap)
unfolding delays_from
delays_from_bounded zero i base cap = tt
delays_from_bounded (suc n) i base cap = (ground arith, delays_from_bounded n (i + 1) base cap)

slept_bounded :
    (cap : ℕ) (ds : List ℕ) (outs : List Attempt)
    → All (λ d. d ≤ cap) ds
    → All (λ d. d ≤ cap) (retry ds outs).slept
unfolding retry
slept_bounded cap [] outs a = tt
slept_bounded cap (d ∷ []) [] a = tt
slept_bounded cap (d ∷ e ∷ ds) [] a = (a.0, slept_bounded cap (e ∷ ds) [] a.1)
slept_bounded cap (d ∷ ds) (opened ∷ outs) a = tt
slept_bounded cap (d ∷ ds) (fatal e ∷ outs) a = tt
slept_bounded cap (d ∷ []) (transient ∷ outs) a = tt
slept_bounded cap (d ∷ e ∷ ds) (transient ∷ outs) a = (a.0, slept_bounded cap (e ∷ ds) outs a.1)

-- Connecting ends: the first attempt that opens or fails fatally, among the configured number of
-- them, is the last one and decides the result, which is the not-connected error if there is none.
-- The loop makes no further attempt. It sleeps between each two attempts and neither before the
-- first nor after the last, for the backoff delays in their order, none above the cap.
pub connect_with_backoff_lem :
    (g : Gateway) (outs : List Attempt)
    → let r = connect_with_backoff g outs in
      (r.result ≡ verdict g.reconnect_attempts outs)
      × (r.tried ≡ tries g.reconnect_attempts outs)
      × (r.tried ≤ g.reconnect_attempts)
      × (r.slept
          ≡ pauses r.tried (backoff_delays g.reconnect_attempts g.backoff_base g.backoff_max))
      × All (λ d. d ≤ g.backoff_max) r.slept
unfolding connect_with_backoff backoff_delays
connect_with_backoff_lem g outs =
    let ds = delays_from g.reconnect_attempts 0 g.backoff_base g.backoff_max in
    let e : length ds ≡ g.reconnect_attempts =
      length-delays_from g.reconnect_attempts 0 g.backoff_base g.backoff_max in
    let (made, slept) = retry-IsPaced ds outs in
    let made' = made ∙ ap (λ n. tries n outs) e in
    (
      retry-verdict ds outs ∙ ap (λ n. verdict n outs) e,
      made',
      omega (arith, made', tries_bounded g.reconnect_attempts outs),
      slept,
      slept_bounded g.backoff_max ds outs
          (delays_from_bounded g.reconnect_attempts 0 g.backoff_base g.backoff_max),
    )
