-- ===== src/Handoff/Race/Turns.antt =====
-- The turns of processes that claim one handoff: collab/tools/lib/handoff_core.py, `_transition`.
use mathlib.Core.Path.{subst}
use ibkr_auto_trader.Prelude.{
  ℕ, zero, suc, ◌≤◌, ◌<◌, ◌≡◌, ◌⊎◌, inl, inr, refl, sym, ap, ◌∙◌, Bool, true, false, Option, none,
  some, List, [], ◌∷◌, if◌then◌else◌, ◌==◌, arith, All, length, Bool-cases,
}
use ibkr_auto_trader.Handoff.{
  pending, claimed, done, archive, Action, claim, Files, Progress, globs, compares, drops, finds,
  links, compares_loser, wipes, unlinks, won, lost, step, step_at, race, starts,
}
use ibkr_auto_trader.Handoff.Race.{board, IsClaiming}
use ibkr_auto_trader.Handoff.Race.Winner.{
  IsOpen, IsTaken, IsFinished, raced, claimants, claimants_lem, step_at-IsOpen, step_at-IsTaken,
  winners, claim_has_winner, raced_lem,
}

-- The turns that a process has before it at most.
abbrev pub remaining : Progress → ℕ
remaining (globs false pending seen) = 20
remaining (globs false claimed seen) = 19
remaining (globs false done seen) = 18
remaining (globs false archive seen) = 17
remaining (compares false (s ∷ todo) best) = 16
remaining (drops false s todo best) = 15
remaining (compares false [] best) = 14
remaining finds = 10
remaining (globs true pending seen) = 9
remaining (globs true claimed seen) = 8
remaining (globs true done seen) = 7
remaining (globs true archive seen) = 6
remaining (compares true (s ∷ todo) best) = 5
remaining (drops true s todo best) = 4
remaining (compares true [] best) = 3
remaining links = 4
remaining compares_loser = 2
remaining wipes = 1
remaining unlinks = 1
remaining won = 0
remaining (lost e) = 0

IsFinished-of : (q : Progress) → remaining q ≡ 0 → IsFinished q
IsFinished-of won h = tt
IsFinished-of (lost e) h = tt
IsFinished-of (globs true pending seen) h = absurd (omega arith)
IsFinished-of (globs true claimed seen) h = absurd (omega arith)
IsFinished-of (globs true done seen) h = absurd (omega arith)
IsFinished-of (globs true archive seen) h = absurd (omega arith)
IsFinished-of (globs false pending seen) h = absurd (omega arith)
IsFinished-of (globs false claimed seen) h = absurd (omega arith)
IsFinished-of (globs false done seen) h = absurd (omega arith)
IsFinished-of (globs false archive seen) h = absurd (omega arith)
IsFinished-of (compares true [] best) h = absurd (omega arith)
IsFinished-of (compares true (s ∷ todo) best) h = absurd (omega arith)
IsFinished-of (compares false [] best) h = absurd (omega arith)
IsFinished-of (compares false (s ∷ todo) best) h = absurd (omega arith)
IsFinished-of (drops true s todo best) h = absurd (omega arith)
IsFinished-of (drops false s todo best) h = absurd (omega arith)
IsFinished-of q h = absurd (omega arith)

-- A step that is not a process's last takes it nearer to its end.
remaining-step :
    (i : ℕ) (b c : Bool) (q : Progress)
    → IsClaiming c q
    → (remaining (step claim (board i b c) q).1 < remaining q)
      ⊎ (remaining (step claim (board i b c) q).1 ≡ 0)
unfolding step
remaining-step i b c won h = inr refl
remaining-step i b c (lost e) h = inr refl
remaining-step i true c (globs true pending []) h = inl (omega arith)
remaining-step i false c (globs true pending []) h = inl (omega arith)
remaining-step i b true (globs true claimed []) h = inl (omega arith)
remaining-step i b false (globs true claimed []) h = absurd (ground arith)
remaining-step i b true (globs true claimed (pending ∷ [])) h = inl (omega arith)
remaining-step i b false (globs true claimed (pending ∷ [])) h = inl (omega arith)
remaining-step i b c (globs true done (pending ∷ [])) h = inl (omega arith)
remaining-step i b c (globs true archive (pending ∷ [])) h = inl (omega arith)
remaining-step i b c (globs true done (claimed ∷ [])) h = inl (omega arith)
remaining-step i b c (globs true archive (claimed ∷ [])) h = inl (omega arith)
remaining-step i b c (globs true done (pending ∷ claimed ∷ [])) h = inl (omega arith)
remaining-step i b c (globs true archive (pending ∷ claimed ∷ [])) h = inl (omega arith)
remaining-step i b c (compares true [] claimed) h = inl (omega arith)
remaining-step i true true (compares true (pending ∷ []) claimed) h =
    (let e : (i == i) ≡ true = ground arith in rw e (inl (omega arith)))
remaining-step i false c (compares true (pending ∷ []) claimed) h = inl (omega arith)
remaining-step i true false (compares true (pending ∷ []) claimed) h = absurd (ground arith)
remaining-step i b c (drops true pending [] claimed) h = inl (omega arith)
remaining-step i true c (globs false pending []) h = inl (omega arith)
remaining-step i false c (globs false pending []) h = inl (omega arith)
remaining-step i b true (globs false claimed []) h = inl (omega arith)
remaining-step i b false (globs false claimed []) h = absurd (ground arith)
remaining-step i b true (globs false claimed (pending ∷ [])) h = inl (omega arith)
remaining-step i b false (globs false claimed (pending ∷ [])) h = inl (omega arith)
remaining-step i b c (globs false done (pending ∷ [])) h = inl (omega arith)
remaining-step i b c (globs false archive (pending ∷ [])) h = inl (omega arith)
remaining-step i b c (globs false done (claimed ∷ [])) h = inl (omega arith)
remaining-step i b c (globs false archive (claimed ∷ [])) h = inl (omega arith)
remaining-step i b c (globs false done (pending ∷ claimed ∷ [])) h = inl (omega arith)
remaining-step i b c (globs false archive (pending ∷ claimed ∷ [])) h = inl (omega arith)
remaining-step i b c (compares false [] claimed) h = inl (omega arith)
remaining-step i true true (compares false (pending ∷ []) claimed) h =
    (let e : (i == i) ≡ true = ground arith in rw e (inl (omega arith)))
remaining-step i false c (compares false (pending ∷ []) claimed) h = inl (omega arith)
remaining-step i true false (compares false (pending ∷ []) claimed) h = absurd (ground arith)
remaining-step i b c (drops false pending [] claimed) h = inl (omega arith)
remaining-step i true c finds h = inl (omega arith)
remaining-step i false c finds h = inl (omega arith)
remaining-step i false c links h = inl (omega arith)
remaining-step i true true links h = inl (omega arith)
remaining-step i true false links h = inl (omega arith)
remaining-step i true true compares_loser h =
    (let e : (i == i) ≡ true = ground arith in rw e (inl (omega arith)))
remaining-step i true false compares_loser h = inl (omega arith)
remaining-step i false c compares_loser h = inl (omega arith)
remaining-step i b c wipes h = inl (omega arith)
remaining-step i b c unlinks h = inl (omega arith)
remaining-step i b c q h = absurd h

abbrev pub at_index : ℕ → List Progress → Option Progress
at_index j [] = none
at_index zero (p ∷ ps) = some p
at_index (suc j) (p ∷ ps) = at_index j ps

-- How often a process has its turn.
abbrev pub turns : ℕ → List ℕ → ℕ
turns j [] = 0
turns j (k ∷ is) = let rest = turns j is in if k == j then suc rest else rest

at_index-step_at :
    (j k : ℕ) (a : Action) (f : Files) (ps : List Progress) (p : Progress)
    → at_index j ps ≡ some p
    → at_index j (step_at a k f ps).1 ≡ some (if k == j then (step a f p).1 else p)
unfolding step_at
at_index-step_at j k a f [] p h = absurd (ground arith)
at_index-step_at zero zero a f (x ∷ ps) p h =
    let q : x ≡ p = ground arith in ap (λ y. some (step a f y).1) q
at_index-step_at zero (suc k) a f (x ∷ ps) p h =
    let e : (suc k == 0) ≡ false = ground arith in rw e h
at_index-step_at (suc j) zero a f (x ∷ ps) p h =
    let e : (0 == suc j) ≡ false = ground arith in rw e h
at_index-step_at (suc j) (suc k) a f (x ∷ ps) p h =
    let e : (suc k == suc j) ≡ (k == j) = ground arith in rw e (at_index-step_at j k a f ps p h)

abbrev pub IsRacing : ℕ → ℕ → Files × List Progress → Type 0
IsRacing i n s = IsOpen i n s ⊎ IsTaken i n s

racing_board :
    (i n : ℕ) (f : Files) (ps : List Progress)
    → IsRacing i n (f, ps)
    → (b : Bool) × (c : Bool) × (f ≡ board i b c) × All (IsClaiming c) ps
racing_board i n f ps (inl (e, a, l)) = (true, false, e, a)
racing_board i n f ps (inr ((b, e), a, h, l)) = (b, true, e, a)

IsRacing-step :
    (i n k : ℕ) (f : Files) (ps : List Progress)
    → IsRacing i n (f, ps)
    → IsRacing i n (step_at claim k f ps)
IsRacing-step i n k f ps (inl (e, a, l)) =
    subst (λ m. IsRacing i m (step_at claim k f ps)) l
      (subst (λ g. IsRacing i (length ps) (step_at claim k g ps)) (sym e) (step_at-IsOpen i k ps a))
IsRacing-step i n k f ps (inr ((b, e), a, h, l)) =
    let (g, c, h', l') = step_at-IsTaken i k b ps a in
    subst (λ g. IsRacing i n (step_at claim k g ps)) (sym e) (inr (g, c, h' ∙ h, l' ∙ l))

IsClaiming-at :
    (c : Bool) (j : ℕ) (ps : List Progress) (p : Progress)
    → All (IsClaiming c) ps
    → at_index j ps ≡ some p
    → IsClaiming c p
IsClaiming-at c j [] p a h = absurd (ground arith)
IsClaiming-at c zero (x ∷ ps) p a h = let q : x ≡ p = ground arith in subst (IsClaiming c) q a.0
IsClaiming-at c (suc j) (x ∷ ps) p a h = IsClaiming-at c j ps p a.1 h

-- A turn that a process has is one that it needs no more.
fewer :
    (j k : ℕ) (is : List ℕ) (p q : Progress)
    → remaining p ≤ turns j (k ∷ is)
    → (remaining q < remaining p) ⊎ (remaining q ≡ 0)
    → remaining (if k == j then q else p) ≤ turns j is
fewer j k is p q m near = elim (Bool-cases (k == j)) [
  | inl e ↦
      rw e (
        fewer_of near (subst (λ t. remaining p ≤ (if t then suc (turns j is) else turns j is)) e m))
  | inr e ↦ rw e (subst (λ t. remaining p ≤ (if t then suc (turns j is) else turns j is)) e m)
]
  where
    fewer_of :
        (remaining q < remaining p) ⊎ (remaining q ≡ 0)
        → remaining p ≤ suc (turns j is)
        → remaining q ≤ turns j is
    fewer_of (inl l) h = omega arith
    fewer_of (inr z) h = omega arith

race_finishes :
    (i n : ℕ) (is : List ℕ) (f : Files) (ps : List Progress)
    → IsRacing i n (f, ps)
    → (j : ℕ) (p : Progress) → at_index j ps ≡ some p
    → remaining p ≤ turns j is
    → (q : Progress) × (at_index j (race claim is f ps).1 ≡ some q) × IsFinished q
unfolding race
race_finishes i n [] f ps r j p h m = (p, h, IsFinished-of p (omega arith))
race_finishes i n (k ∷ is) f ps r j p h m =
    let (b, c, e, a) = racing_board i n f ps r in
    let s = step_at claim k f ps in
    let near =
      subst (λ g. (remaining (step claim g p).1 < remaining p) ⊎ (remaining (step claim g p).1 ≡ 0))
        (sym e) (remaining-step i b c p (IsClaiming-at c j ps p a h)) in
    race_finishes i n is s.0 s.1 (IsRacing-step i n k f ps r) j
      (if k == j then (step claim f p).1 else p) (at_index-step_at j k claim f ps p h)
      (fewer j k is p (step claim f p).1 m near)

at_index-claimants : (j n : ℕ) → j < n → at_index j (claimants n) ≡ some starts
at_index-claimants j zero h = absurd (omega arith)
at_index-claimants zero (suc n) h = refl
at_index-claimants (suc j) (suc n) h = at_index-claimants j n (omega arith)

All-IsFinished :
    (ps : List Progress)
    → ((j : ℕ) → j < length ps → (q : Progress) × (at_index j ps ≡ some q) × IsFinished q)
    → All IsFinished ps
All-IsFinished [] h = tt
All-IsFinished (p ∷ ps) h =
    let (q, e, f) = h 0 (omega arith) in
    let w : q ≡ p = ground arith in
    (subst IsFinished w f, All-IsFinished ps (λ j l. h (suc j) (omega arith)))

length_of : (i n : ℕ) (s : Files × List Progress) → IsRacing i n s → length s.1 ≡ n
length_of i n (f, ps) (inl (e, a, l)) = l
length_of i n (f, ps) (inr (b, a, h, l)) = l

-- Any number of processes, at least one, claim one pending handoff, their calls on the file system
-- interleaved in any way that gives each of them 20 turns: then all of them come to their end,
-- exactly one has won, and the handoff's file is linked under claimed.
pub claim_comes_to_one_winner :
    (i n : ℕ) (is : List ℕ)
    → 1 ≤ n
    → ((j : ℕ) → j < n → 20 ≤ turns j is)
    → All IsFinished (race claim is (board i true false) (claimants n)).1
      × (winners (race claim is (board i true false) (claimants n)).1 ≡ 1)
      × ((race claim is (board i true false) (claimants n)).0.in_claimed ≡ some i)
claim_comes_to_one_winner i n is m t =
    let (a, l) = claimants_lem n in
    let start : IsRacing i n (board i true false, claimants n) = inl (refl, a, l) in
    let r = raced i n is in
    let f = All-IsFinished r.1 (λ j h.
      race_finishes i n is (board i true false) (claimants n) start j starts
        (at_index-claimants j n (let q = length_of i n r (raced_lem i n is) in omega arith))
        (t j (let q = length_of i n r (raced_lem i n is) in omega arith))) in
    let (w, c) = claim_has_winner i n is m f in (f, w, c)
