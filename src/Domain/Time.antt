-- ===== src/Domain/Time.antt =====
-- Python's `datetime`, by its wall clock in microseconds since the epoch and its UTC offset in
-- microseconds; a naive value has no offset.
use ibkr_auto_trader.Prelude.{◌≡◌, refl, Bool, false, Option, none, some, arith}
use ibkr_auto_trader.Prelude.Int.{ℤ, pos, ◌-ℤ◌, leb_ℤ, ltb_ℤ, ◌==ℤ◌, int_laws}

pub record Datetime : Type 0 where
  pub wall : ℤ
  pub offset : Option ℤ

-- The wall clock that UTC shows, under `_as_utc`'s convention that a naive value is in UTC.
unfoldable pub utc_wall : Datetime → ℤ
utc_wall dt = elim dt.offset [ none ↦ dt.wall | some o ↦ dt.wall -ℤ o ]

-- `_as_utc` of ibkr/gateway.py
unfoldable pub as_utc : Datetime → Datetime
unfolding utc_wall
as_utc dt = record { wall = utc_wall dt; offset = some (pos 0) }

-- `dt.tzinfo is None or dt.utcoffset() != UTC.utcoffset(dt)`, negated
unfoldable pub is_utc : Datetime → Bool
is_utc dt = elim dt.offset [ none ↦ false | some o ↦ o ==ℤ pos 0 ]

-- `a > b` for aware values
unfoldable pub is_later : Datetime → Datetime → Bool
unfolding utc_wall
is_later a b = ltb_ℤ (utc_wall b) (utc_wall a)

-- `a <= b` for aware values
unfoldable pub not_later : Datetime → Datetime → Bool
unfolding utc_wall
not_later a b = leb_ℤ (utc_wall a) (utc_wall b)

-- Normalising keeps the instant.
pub utc_wall-as_utc : (dt : Datetime) → utc_wall (as_utc dt) ≡ utc_wall dt
unfolding as_utc
utc_wall-as_utc dt = omega int_laws

pub as_utc-is_utc : (dt : Datetime) → is_utc (as_utc dt) ≡ Bool.true
unfolding is_utc as_utc
as_utc-is_utc dt = refl

pub is_utc-offset : (d : Datetime) → is_utc d ≡ Bool.true → d.offset ≡ some (pos 0)
unfolding is_utc
is_utc-offset d h = ground arith

pub is_utc_of_offset : (d : Datetime) → d.offset ≡ some (pos 0) → is_utc d ≡ Bool.true
unfolding is_utc
is_utc_of_offset d h = rw (h, is_utc)

utc_wall_of_offset : (d : Datetime) → d.offset ≡ some (pos 0) → utc_wall d ≡ d.wall
unfolding utc_wall
utc_wall_of_offset d h = rw (h, utc_wall) (omega int_laws)

-- Between values in UTC, the wall clocks decide.
pub is_later_utc :
    (a b : Datetime)
    → a.offset ≡ some (pos 0)
    → b.offset ≡ some (pos 0)
    → is_later a b ≡ ltb_ℤ b.wall a.wall
unfolding is_later
is_later_utc a b ha hb = rw (utc_wall_of_offset a ha, utc_wall_of_offset b hb)
