-- ===== src/Prelude/Keys.antt =====
-- Keys that Python compares by `==`: an interface, met by numbers and by texts.
use Prim.Native.Nat.{ℕ}
use Prim.Native.String.{String}
use mathlib.Core.Path.{◌≡◌}
use mathlib.Core.Logic.{◌↔◌}
use mathlib.Core.Bool.{Bool, true}
use native.Mathlib.Omega.{arith}
use text.Mathlib.Text.{◌==◌ as str_eq}
use text.Mathlib.TextEquality.{eq_iff}
use ibkr_auto_trader.Prelude.Tests.{◌==◌ as nat_eq}

pub record Key {ℓ} (K : Type ℓ) : Type ℓ where
  pub same : K → K → Bool
  pub same_iff : (a b : K) → (same a b ≡ true) ↔ (a ≡ b)

pub nat_eq_iff : (a b : ℕ) → (nat_eq a b ≡ true) ↔ (a ≡ b)
nat_eq_iff a b = ground arith

instance abbrev pub nat_key : Key ℕ
nat_key = record { same = nat_eq; same_iff = nat_eq_iff }

instance abbrev pub text_key : Key String
text_key = record { same = str_eq; same_iff = eq_iff }
