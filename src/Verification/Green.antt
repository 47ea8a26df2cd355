-- ===== src/Verification/Green.antt =====
-- Green receipts, and runs that leave them: collab/tools/lib/verification.py.
use ibkr_auto_trader.Prelude.{
  ◌≡◌, ◌≢◌, ◌⊎◌, refl, ◌↔◌, Bool, true, false, Option, none, some, String, List, [], ◌∷◌, arith,
  map, text_key, Bool-cases, Option-cases, inl, inr, sym, ap, ◌∙◌, All,
}
use ibkr_auto_trader.Prelude.Int.{ℤ, pos, ◌==ℤ◌, eq_of_parts}
use ibkr_auto_trader.Verification.{
  authoritative_argv, Kind, authoritative, Label, green_label, authoritative_fail, Argv, Given,
  argv_of, run_normalized, is_zero, Checkout, Receipt, truthy, same_option, same_list, of_texts,
  Outcome, exits, fails, normalize_argv, is_canonical_command, norm_root, stable, receipt, run,
  rejected, unverified, run_authoritative, run_pytest_only, is_bound_to_git, is_green,
  matches_checkout, clean_tokens,
}

pub same_list-eq : (xs ys : List String) → same_list xs ys ≡ true → xs ≡ ys
same_list-eq [] [] h = refl
same_list-eq [] (b ∷ ys) h = cc
same_list-eq (a ∷ xs) [] h = cc
same_list-eq (a ∷ xs) (b ∷ ys) h = ground (arith, same_list-eq xs ys, text_key.same_iff a b)

pub same_option-eq : (a b : Option String) → same_option a b ≡ true → a ≡ b
same_option-eq none none h = refl
same_option-eq none (some b) h = cc
same_option-eq (some a) none h = cc
same_option-eq (some a) (some b) h = ground (arith, text_key.same_iff a b)

-- The identity of a tree: a repository, a commit, and the same tree before and after.
abbrev pub HoldsStill :
    (resolve : String → Option String) (clean : String → String) → Checkout → Checkout → Type 0
HoldsStill resolve clean start end =
    (truthy start.sha ≡ true)
    × (truthy start.root ≡ true)
    × (truthy end.root ≡ true)
    × (start.sha ≡ end.sha)
    × (norm_root clean resolve start.root ≡ norm_root clean resolve end.root)
    × (start.status ≡ end.status)

same_option_refl : (a : Option String) → same_option a a ≡ true
same_option_refl none = refl
same_option_refl (some a) = ground (arith, text_key.same_iff a a)

same_option_of-eq : (a b : Option String) → a ≡ b → same_option a b ≡ true
same_option_of-eq a b e = ap (same_option a) (sym e) ∙ same_option_refl a

abbrev same_some : (List String → Bool) → Option (List String) → Bool
same_some f none = false
same_some f (some xs) = f xs

is_zero-eq : (e : Option ℤ) → is_zero e ≡ true → e ≡ some (pos 0)
is_zero-eq none h = cc
is_zero-eq (some e) h = ap some (eq_of_parts e (pos 0) (ground arith))

module _ (clean : String → String) (resolve : String → Option String)
    (canonical_clean : All (λ t. clean t ≡ t) authoritative_argv) where
  clean_tokens-map :
      (ts : List String)
      → All (λ t. (clean t ≡ t) × (text_key.same t "" ≡ false)) ts
      → clean_tokens clean resolve (map some ts) ≡ some ts
  unfolding clean_tokens
  clean_tokens-map [] a = refl
  clean_tokens-map (t ∷ ts) a = rw (a.0.0, a.0.1, clean_tokens-map ts a.1) (rw a.0.0)

  normalize-canonical :
      normalize_argv clean resolve (of_texts authoritative_argv) ≡ some authoritative_argv
  unfolding normalize_argv
  normalize-canonical =
      let c = canonical_clean in
      clean_tokens-map authoritative_argv (
        (c.0, refl),
        ((c.1.0, refl), ((c.1.1.0, refl), ((c.1.1.1.0, refl), ((c.1.1.1.1.0, refl), tt)))),
      )

  stable_iff :
      (start end : Checkout)
      → (stable clean resolve start end ≡ true) ↔ HoldsStill resolve clean start end
  unfolding stable
  stable_iff start end =
      let na = norm_root clean resolve start.root in
      let nb = norm_root clean resolve end.root in
      (
        λ h. (
          ground arith,
          ground arith,
          ground arith,
          same_option-eq start.sha end.sha (ground arith),
          same_option-eq na nb (ground arith),
          ground (arith, text_key.same_iff start.status end.status),
        ),
        λ (s, r, r', e, n, t). ground (
          arith,
          same_option_of-eq start.sha end.sha e,
          same_option_of-eq na nb n,
          text_key.same_iff start.status end.status,
          ap truthy e,
        ),
      )

  bound_when_stable :
      (kind : Kind) (label : Label) (command : Argv) (start end : Checkout)
      → stable clean resolve start end ≡ true
      → is_bound_to_git clean resolve
          (receipt clean resolve kind label true command (pos 0) start end)
        ≡ true
  unfolding is_bound_to_git
  bound_when_stable kind label command start end h =
      let (s, r, r', e, n, t) = (stable_iff start end).0 h in
      ground (
        arith,
        same_option_of-eq start.sha end.sha e,
        same_option_of-eq (some start.status) (some end.status) (ap some t),
        ap truthy e,
      )

  zero_of : (code : ℤ) → (code ==ℤ pos 0) ≡ true → code ≡ pos 0
  zero_of code h = eq_of_parts code (pos 0) (ground arith)

  -- What a run of the command leaves: green exactly on exit 0 over a tree that held still.
  run_green_iff :
      (outcome : Outcome) (start end : Checkout)
      → let r =
          run clean resolve authoritative green_label authoritative_fail authoritative_argv start
            outcome end in
        ((is_green clean resolve (some r) ≡ true)
          ↔ ((outcome ≡ exits (pos 0)) × (stable clean resolve start end ≡ true)))
        × ((r.label ≡ green_label) ↔ (is_green clean resolve (some r) ≡ true))
  unfolding run is_green is_canonical_command
  run_green_iff fails start end = (
    (λ h. absurd (ground arith), λ h. absurd (ground arith)),
    (λ h. absurd (ground arith), λ h. absurd (ground arith)),
  )
  run_green_iff (exits code) start end =
      let canonical = normalize-canonical in
      let b = bound_when_stable authoritative green_label (of_texts authoritative_argv) start end in
      elim (Bool-cases (code ==ℤ pos 0)) [
        | inr failed ↦ (
          (λ h. absurd (ground arith), λ h. absurd (ground arith)),
          (λ h. absurd (ground arith), λ h. absurd (ground arith)),
        )
        | inl passed ↦ elim (Bool-cases (stable clean resolve start end)) [
          | inr moved ↦ (
            (λ h. absurd (ground arith), λ h. absurd (ground arith)),
            (λ h. absurd (ground arith), λ h. absurd (ground arith)),
          )
          | inl still ↦
              (let e = zero_of code passed in
                let g = b still in
                (
                  (λ h. (ap exits e, still), λ h. ground arith),
                  (λ h. ground arith, λ h. ground arith),
                ))
        ]
      ]

  same_list-canonical : same_list authoritative_argv authoritative_argv ≡ true
  same_list-canonical = refl

  not_canonical_argv :
      (ts : List String)
      → same_list ts authoritative_argv ≡ false
      → some ts ≢ some authoritative_argv
  not_canonical_argv ts s h =
      let q : false ≡ true = sym s ∙ ap (same_some (λ x. same_list x authoritative_argv)) h in
      absurd (ground arith)

  rejected-not_green :
      (argv : Argv)
      → (is_green clean resolve (some (rejected clean resolve argv)) ≡ false)
        × ((rejected clean resolve argv).label ≢ green_label)
  unfolding is_green rejected
  rejected-not_green argv = (refl, λ h. cc)

  run_authoritative_cases :
      (argv : Given) (start end : Checkout) (outcome : Outcome)
      → ((normalize_argv clean resolve (argv_of clean resolve argv) ≡ some authoritative_argv)
          × (run_authoritative clean resolve argv start outcome end
              ≡ run clean resolve authoritative green_label authoritative_fail authoritative_argv
                  start outcome end))
        ⊎ ((normalize_argv clean resolve (argv_of clean resolve argv) ≢ some authoritative_argv)
            × (run_authoritative clean resolve argv start outcome end
                ≡ rejected clean resolve (argv_of clean resolve argv)))
  unfolding run_authoritative
  run_authoritative_cases argv start end outcome =
      let f = run_normalized clean resolve (argv_of clean resolve argv) start outcome end in
      elim (Option-cases (normalize_argv clean resolve (argv_of clean resolve argv))) [
        | inl e ↦ inr (λ h. absurd (ground arith), ap f e)
        | inr (ts, e) ↦ elim (Bool-cases (same_list ts authoritative_argv)) [
          | inl s ↦
              (let q = same_list-eq ts authoritative_argv s in
                inl (e ∙ ap some q, ap f (e ∙ ap some q) ∙ refl))
          | inr s ↦ inr (λ h. not_canonical_argv ts s (sym e ∙ h), ap f e ∙ rw s refl)
        ]
      ]

  -- The receipt of an authoritative run is green exactly if the command given is the canonical one
  -- but for its spelling, it exited with 0, and the checkout held still; and it is labelled green
  -- exactly if it is green. Cleaning leaves the tokens of the canonical command as they are.
  pub run_authoritative_iff :
      (argv : Given) (start end : Checkout) (outcome : Outcome)
      → let r = run_authoritative clean resolve argv start outcome end in
        ((is_green clean resolve (some r) ≡ true) ↔ (
          (normalize_argv clean resolve (argv_of clean resolve argv) ≡ some authoritative_argv)
          × (outcome ≡ exits (pos 0))
          × HoldsStill resolve clean start end))
        × ((r.label ≡ green_label) ↔ (is_green clean resolve (some r) ≡ true))
  run_authoritative_iff argv start end outcome =
      elim (run_authoritative_cases argv start end outcome) [
        | inl (n, e) ↦
            (let g = run_green_iff outcome start end in
              let s = stable_iff start end in
              rw e ((λ h. (n, (g.0.0 h).0, s.0 (g.0.0 h).1), λ (n', o, w). g.0.1 (o, s.1 w)), g.1))
        | inr (n, e) ↦
            (let (f, l) = rejected-not_green (argv_of clean resolve argv) in
              rw (e, f)
                (
                  (λ h. absurd (ground arith), λ (n', o, w). absurd (n n')),
                  (λ h. absurd (l h), λ h. absurd (ground arith)),
                ))
      ]

  -- A run of a single test path is never green, whatever it exits with and wherever it ran.
  run_pytest_only-not_green :
      (test_path python : String) (start end : Checkout) (outcome : Outcome)
      → is_green clean resolve
          (some (run_pytest_only clean resolve test_path python start outcome end))
        ≡ false
  unfolding run_pytest_only run unverified is_green
  run_pytest_only-not_green test_path python start end (exits code) = ground arith
  run_pytest_only-not_green test_path python start end fails = ground arith

  -- A green receipt that matches the checkout at hand names its repository, its commit and the
  -- tree it has, and that tree is the one the run began with; the run exited with 0.
  pub matches_checkout_lem :
      (r : Receipt) (now : Checkout)
      → is_green clean resolve (some r) ≡ true
      → matches_checkout clean resolve (some r) now ≡ true
      → (norm_root clean resolve r.repo_root ≡ norm_root clean resolve now.root)
        × (r.end_sha ≡ now.sha)
        × (r.start_sha ≡ now.sha)
        × (r.start_status ≡ some now.status)
        × (r.exit_code ≡ some (pos 0))
        × (truthy now.sha ≡ true)
  unfolding matches_checkout is_green is_bound_to_git
  matches_checkout_lem r now g m =
      let root =
        same_option-eq (norm_root clean resolve r.repo_root) (norm_root clean resolve now.root)
          (ground arith) in
      let sha = same_option-eq r.end_sha now.sha (ground arith) in
      let kept = same_option-eq r.start_sha r.end_sha (ground arith) in
      let tree = same_option-eq r.end_status (some now.status) (ground arith) in
      let still = same_option-eq r.start_status r.end_status (ground arith) in
      (root, sha, kept ∙ sha, still ∙ tree, is_zero-eq r.exit_code (ground arith), ground arith)
