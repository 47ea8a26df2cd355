-- ===== src/Tests/Lease.antt =====
-- A run that holds the board, and one that waits for it.
use ibkr_auto_trader.Prelude.{◌≡◌, ◌≢◌, refl, some, List, [], ◌∷◌, arith, String, text_key, ap, ◌∙◌}
use ibkr_auto_trader.Prelude.Result.{ok}
use ibkr_auto_trader.Lease.{LeaseRecord, Board, Run, acquire}
use ibkr_auto_trader.Lease.Exclusion.{
  Act, acquires, renews, releases, acts, last_beat, IsHeld, acts-IsHeld, acquire_after_patience,
}

abbrev first : String
first = "run-a"

abbrev second : String
second = "run-b"

abbrev run_a : Run
run_a = record { run_uid = first; pid = 11; ttl = 600 }

abbrev run_b : Run
run_b = record { run_uid = second; pid = 12; ttl = 600 }

abbrev lease_a : LeaseRecord
lease_a = record {
  run_uid = first;
  hid = "014";
  pid = 11;
  acquired_epoch = 1000;
  heartbeat_epoch = some 1500;
}

abbrev held : Board
held = record { lease = some lease_a; audit = [] }

second_is_other : second ≢ first
second_is_other h = absurd (ground (arith, text_key.same_iff second first))

first_is_other : first ≢ second
first_is_other h = absurd (ground (arith, text_key.same_iff first second))

abbrev contest : List Act
contest =
    acquires run_b "014" 2000
    ∷ renews run_b 2050
    ∷ releases run_b
    ∷ renews run_a 2080
    ∷ acquires run_b "014" 2600
    ∷ acquires run_a "014" 2690
    ∷ acquires run_b "014" 3200
    ∷ []

acts-IsHeld_example :
    IsHeld first "014" 1000 (last_beat first "014" 1500 contest) (acts held contest)
acts-IsHeld_example =
    acts-IsHeld first "014" 1000 1500 held contest (lease_a, refl, refl, refl, refl, refl)
      (
        λ n. omega arith,
        (
          tt,
          (
            second_is_other,
            (tt, (λ n. omega arith, (λ n. absurd (n refl), (λ n. omega arith, tt)))),
          ),
        ),
      )

only_lease : (r : LeaseRecord) → some lease_a ≡ some r → lease_a ≡ r
only_lease r h = ground arith

acquire_after_patience_example :
    (b : Board) × (acquire run_b "014" 2100 held ≡ ok b) × IsHeld second "014" 2100 2100 b
acquire_after_patience_example = acquire_after_patience run_b "014" 2100 held (λ r h. (
  λ e. first_is_other (ap (λ x. x.run_uid) (only_lease r h) ∙ e),
  λ last k.
      (let q : some 1500 ≡ some last = ap (λ x. x.heartbeat_epoch) (only_lease r h) ∙ k in
        ground arith),
))
