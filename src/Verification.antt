-- ===== src/Verification.antt =====
-- collab/tools/lib/verification.py: which receipts say that a checkout passed. What git and the
-- command answer is handed in; cleaning a token of an argv (`strip` and the slashes) and resolving
-- a repository root to its canonical form are parameters. Time stamps and the run's id are left out.
pub mod Green
use Prim.Native.Nat.{ℕ}
use ibkr_auto_trader.Prelude.{
  Bool, true, false, ◌&&◌, ◌||◌, Option, none, some, String, List, [], ◌∷◌, not, if◌then◌else◌, Key,
  text_key, map,
}
use ibkr_auto_trader.Prelude.Int.{ℤ, pos, negsuc, ◌==ℤ◌}

-- `AUTHORITATIVE_ARGV`
abbrev pub authoritative_argv : List String
authoritative_argv = "uv" ∷ "run" ∷ "--locked" ∷ "python" ∷ "scripts/verify.py" ∷ []

pub data Kind : Type 0 where
  authoritative pytest_only : Kind

pub data Label : Type 0 where
  green_label authoritative_fail pytest_label pytest_fail unverified_label : Label
  checkout_moved not_canonical no_git : Label
  runner_error : Label → Label

-- A value that may be no list, of tokens that may be no text.
abbrev pub Argv : Type 0
Argv = Option (List (Option String))

pub data Given : Type 0 where
  omitted : Given
  given : Argv → Given

pub record Checkout : Type 0 where
  pub root : Option String
  pub sha : Option String
  pub status : String

pub record Receipt : Type 0 where
  pub kind : Option Kind
  pub label : Label
  pub passed : Option Bool
  pub is_authoritative : Bool
  pub command : Argv
  pub exit_code : Option ℤ
  pub repo_root : Option String
  pub start_sha : Option String
  pub end_sha : Option String
  pub start_status : Option String
  pub end_status : Option String
  pub checkout_stable : Option Bool

-- Python's truth of a text that may be absent.
abbrev pub truthy : Option String → Bool
truthy none = false
truthy (some s) = not (text_key.same s "")

abbrev pub same_option : Option String → Option String → Bool
same_option none none = true
same_option (some a) (some b) = text_key.same a b
same_option _ _ = false

abbrev pub same_list : List String → List String → Bool
same_list [] [] = true
same_list (a ∷ xs) (b ∷ ys) = text_key.same a b && same_list xs ys
same_list _ _ = false

abbrev pub is_true : Option Bool → Bool
is_true (some b) = b
is_true none = false

abbrev pub is_zero : Option ℤ → Bool
is_zero none = false
is_zero (some e) = e ==ℤ pos 0

abbrev pub is_authoritative_kind : Option Kind → Bool
is_authoritative_kind (some authoritative) = true
is_authoritative_kind _ = false

abbrev pub of_texts : List String → Argv
of_texts ts = some (map some ts)

-- What a subprocess does: it exits with a code, or the runner fails.
pub data Outcome : Type 0 where
  exits : ℤ → Outcome
  fails : Outcome

module _ (clean : String → String) (resolve : String → Option String) where
  -- The tokens, all of them texts that are not blank; none if one is not.
  clean_tokens : List (Option String) → Option (List String)
  clean_tokens [] = some []
  clean_tokens (none ∷ ts) = none
  clean_tokens (some t ∷ ts) =
      let rest = clean_tokens ts in
      if text_key.same (clean t) ""
      then none
      else elim rest [ none ↦ none | some cs ↦ some (clean t ∷ cs) ]

  unfoldable pub normalize_argv : Argv → Option (List String)
  unfolding clean_tokens
  normalize_argv none = none
  normalize_argv (some []) = none
  normalize_argv (some (t ∷ ts)) = clean_tokens (t ∷ ts)

  unfoldable pub is_canonical_command : Argv → Bool
  is_canonical_command argv = elim (normalize_argv argv) [
    | none ↦ false
    | some ts ↦ same_list ts authoritative_argv
  ]

  abbrev pub norm_root : Option String → Option String
  norm_root none = none
  norm_root (some r) = if text_key.same r "" then none else resolve r

  -- `_stable`
  unfoldable pub stable : Checkout → Checkout → Bool
  stable start end =
      truthy start.sha
      && truthy end.sha
      && truthy start.root
      && truthy end.root
      && same_option start.sha end.sha
      && same_option (norm_root start.root) (norm_root end.root)
      && text_key.same start.status end.status

  -- `_record`
  abbrev pub receipt : Kind → Label → Bool → Argv → ℤ → Checkout → Checkout → Receipt
  receipt kind label passed command exit_code start end = record {
    kind = some kind;
    label = label;
    passed = some passed;
    is_authoritative = is_authoritative_kind (some kind);
    command = command;
    exit_code = some exit_code;
    repo_root = start.root;
    start_sha = start.sha;
    end_sha = end.sha;
    start_status = some start.status;
    end_status = some end.status;
    checkout_stable = some (stable start end);
  }

  -- The label of an exit with 0 over a checkout that did not hold still.
  abbrev pub void_label : Checkout → Label
  void_label start = if truthy start.sha && truthy start.root then checkout_moved else no_git

  abbrev pub exit_receipt : Kind → Label → Label → List String → ℤ → Checkout → Checkout → Receipt
  exit_receipt kind pass fail argv code start end =
      if code ==ℤ pos 0
      then (if stable start end
          then receipt kind pass true (of_texts argv) code start end
          else receipt kind (void_label start) false (of_texts argv) code start end)
      else receipt kind fail false (of_texts argv) code start end

  -- `_run`
  unfoldable pub run : Kind → Label → Label → List String → Checkout → Outcome → Checkout → Receipt
  run kind pass fail argv start (exits code) end = exit_receipt kind pass fail argv code start end
  run kind pass fail argv start fails end =
      receipt kind (runner_error fail) false (of_texts argv) (negsuc 0) start end

  unfoldable pub rejected : Argv → Receipt
  rejected argv = record {
    kind = none;
    label = not_canonical;
    passed = some false;
    is_authoritative = false;
    command = argv;
    exit_code = none;
    repo_root = none;
    start_sha = none;
    end_sha = none;
    start_status = none;
    end_status = none;
    checkout_stable = some false;
  }

  unfoldable pub unverified : Receipt
  unverified = record {
    kind = none;
    label = unverified_label;
    passed = none;
    is_authoritative = false;
    command = some [];
    exit_code = none;
    repo_root = none;
    start_sha = none;
    end_sha = none;
    start_status = none;
    end_status = none;
    checkout_stable = none;
  }

  abbrev pub argv_of : Given → Argv
  argv_of omitted = of_texts authoritative_argv
  argv_of (given argv) = argv

  abbrev pub run_normalized : Argv → Checkout → Outcome → Checkout → Option (List String) → Receipt
  run_normalized argv start outcome end none = rejected argv
  run_normalized argv start outcome end (some ts) =
      if same_list ts authoritative_argv
      then run authoritative green_label authoritative_fail ts start outcome end
      else rejected argv

  -- A command that is not the canonical one is refused before it runs.
  unfoldable pub run_authoritative : Given → Checkout → Outcome → Checkout → Receipt
  unfolding run rejected
  run_authoritative argv start outcome end =
      run_normalized (argv_of argv) start outcome end (normalize_argv (argv_of argv))

  unfoldable pub run_pytest_only : String → String → Checkout → Outcome → Checkout → Receipt
  unfolding run unverified
  run_pytest_only test_path python start outcome end =
      if text_key.same test_path ""
      then unverified
      else run pytest_only pytest_label pytest_fail
          (python ∷ "-m" ∷ "pytest" ∷ test_path ∷ "-q" ∷ []) start outcome end

  unfoldable pub is_bound_to_git : Receipt → Bool
  is_bound_to_git r =
      truthy r.repo_root
      && truthy r.start_sha
      && truthy r.end_sha
      && same_option r.start_sha r.end_sha
      && same_option r.start_status r.end_status
      && is_true r.checkout_stable

  unfoldable pub is_green : Option Receipt → Bool
  unfolding is_canonical_command is_bound_to_git
  is_green none = false
  is_green (some r) =
      is_authoritative_kind r.kind
      && r.is_authoritative
      && is_canonical_command r.command
      && is_zero r.exit_code
      && is_true r.passed
      && is_bound_to_git r

  unfoldable pub matches_checkout : Option Receipt → Checkout → Bool
  matches_checkout none now = false
  matches_checkout (some r) now =
      truthy now.root
      && truthy now.sha
      && truthy r.repo_root
      && truthy r.end_sha
      && same_option (norm_root r.repo_root) (norm_root now.root)
      && same_option r.end_sha now.sha
      && same_option r.end_status (some now.status)
