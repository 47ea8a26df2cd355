-- ===== src/Store/Positions.antt =====
-- The conId-keyed positions cache: reads after writes, and the uniqueness of ids.
use ibkr_auto_trader.Prelude.{
  ℕ, ◌≡◌, ◌≢◌, refl, false, ◌&&◌, none, some, String, List, [], ◌∷◌, ◌++◌, map, arith, not, any,
  ◌==◌, if◌then◌else◌, nat_key, text_key, keep_if, find_first, All, ◌∙◌, Bool-cases, inl, inr,
}
use ibkr_auto_trader.Prelude.Dict.{Dict, lookup, keys, contains, Distinct}
use ibkr_auto_trader.Prelude.Int.{ℤ, pos}
use ibkr_auto_trader.Store.{
  Row, StateStore, has_id, is_legacy, next_id, update_row, upsert_position, quantity_of, position,
  positions_of, all_positions,
}

-- The quantity that a dict has for an id, none counting as zero.
abbrev pub held_in : Dict ℕ ℤ → ℕ → ℤ
held_in d n = elim (lookup n d) [ none ↦ pos 0 | some q ↦ q ]

-- `all_positions` has the quantity that `position` reads, for every id.
pub all_positions-position :
    (st : StateStore) (n : ℕ) → held_in (all_positions st) n ≡ position st n
unfolding all_positions position positions_of
all_positions-position st n = go st.rows
  where
    go : (rs : List Row) → held_in (positions_of rs) n ≡ quantity_of (find_first (has_id n) rs)
    go [] = refl
    go (r ∷ rs) = ground (arith, go rs)

find-map :
    (n m : ℕ) (s : String) (q : ℤ) (rs : List Row)
    → quantity_of (find_first (has_id m) (map (update_row n s q) rs))
      ≡ (if any (has_id n) rs && n == m then q else quantity_of (find_first (has_id m) rs))
find-map n m s q [] = refl
find-map n m s q (r ∷ rs) = ground (arith, find-map n m s q rs)

find-append :
    (n m : ℕ) (r : Row) (rs : List Row)
    → any (has_id n) rs ≡ false
    → r.con_id ≡ some n
    → quantity_of (find_first (has_id m) (rs ++ r ∷ []))
      ≡ (if n == m then r.quantity else quantity_of (find_first (has_id m) rs))
find-append n m r [] none_held e = ground arith
find-append n m r (x ∷ rs) none_held e = ground (arith, find-append n m r rs)

-- Rows without an id are not found by one.
find-keep_if :
    (m : ℕ) (s : String) (rs : List Row)
    → find_first (has_id m) (keep_if (λ r. not (is_legacy s r)) rs) ≡ find_first (has_id m) rs
find-keep_if m s [] = refl
find-keep_if m s (r ∷ rs) = ground (arith, find-keep_if m s rs)

-- A write sets the quantity of its own id and of no other, whatever the symbols are.
pub position-upsert_position :
    (st : StateStore) (n m : ℕ) (s : String) (q : ℤ)
    → position (upsert_position st n s q) m ≡ (if n == m then q else position st m)
unfolding position upsert_position
position-upsert_position st n m s q =
    let kept = keep_if (λ r. not (is_legacy s r)) st.rows in
    elim (Bool-cases (any (has_id n) kept)) [
      | inl held ↦ ground (arith, find-map n m s q kept, find-keep_if m s st.rows)
      | inr fresh ↦ ground (
        arith,
        find-append n m
            (record { row_id = next_id kept; con_id = some n; symbol = s; quantity = q }) kept,
        find-keep_if m s st.rows,
      )
    ]

-- `con_id INTEGER UNIQUE`, over the rows that have one.
abbrev pub HasUniqueIds : StateStore → Type 0
HasUniqueIds st = Distinct (keys (all_positions st))

keys-map :
    (n : ℕ) (s : String) (q : ℤ) (rs : List Row)
    → keys (positions_of (map (update_row n s q) rs)) ≡ keys (positions_of rs)
unfolding positions_of
keys-map n s q [] = refl
keys-map n s q (r ∷ rs) = ground (arith, keys-map n s q rs)

keys-keep_if :
    (s : String) (rs : List Row)
    → keys (positions_of (keep_if (λ r. not (is_legacy s r)) rs)) ≡ keys (positions_of rs)
unfolding positions_of
keys-keep_if s [] = refl
keys-keep_if s (r ∷ rs) = ground (arith, keys-keep_if s rs)

contains-any : (n : ℕ) (rs : List Row) → contains n (keys (positions_of rs)) ≡ any (has_id n) rs
unfolding positions_of
contains-any n [] = refl
contains-any n (r ∷ rs) = ground (arith, contains-any n rs)

keys-append :
    (n : ℕ) (r : Row) (rs : List Row)
    → r.con_id ≡ some n
    → keys (positions_of (rs ++ r ∷ [])) ≡ keys (positions_of rs) ++ n ∷ []
unfolding positions_of
keys-append n r [] e = ground arith
keys-append n r (x ∷ rs) e = ground (arith, keys-append n r rs e)

All-append : (k n : ℕ) (ks : List ℕ) → All (λ j. k ≢ j) ks → k ≢ n → All (λ j. k ≢ j) (ks ++ n ∷ [])
All-append k n [] a e = (e, tt)
All-append k n (j ∷ ks) a e = (a.0, All-append k n ks a.1 e)

Distinct-append :
    (n : ℕ) (ks : List ℕ) → contains n ks ≡ false → Distinct ks → Distinct (ks ++ n ∷ [])
Distinct-append n [] c d = (tt, tt)
Distinct-append n (k ∷ ks) c d =
    (All-append k n ks d.0 (ground arith), Distinct-append n ks (ground arith) d.1)

-- The UNIQUE constraint is never broken by a write.
-- The ids are unique before.
pub upsert_position-HasUniqueIds :
    (st : StateStore) (n : ℕ) (s : String) (q : ℤ)
    → HasUniqueIds st
    → HasUniqueIds (upsert_position st n s q)
unfolding upsert_position all_positions
upsert_position-HasUniqueIds st n s q h =
    let kept = keep_if (λ r. not (is_legacy s r)) st.rows in
    let d : Distinct (keys (positions_of kept)) = rw (keys-keep_if s st.rows) h in
    elim (Bool-cases (any (has_id n) kept)) [
      | inl held ↦ rw (held, keys-map) d
      | inr fresh ↦
          rw
            (
              fresh,
              keys-append n
                  (record { row_id = next_id kept; con_id = some n; symbol = s; quantity = q }) kept
                  refl,
            )
            (Distinct-append n (keys (positions_of kept)) (contains-any n kept ∙ fresh) d)
    ]
