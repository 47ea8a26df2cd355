-- ===== src/Handoff.antt =====
-- collab/tools/lib/handoff_core.py: where a handoff is, and how it is moved. The files are those of one
-- handoff, which carry one name, by the directory; a hard link is the number of its inode. A process is
-- broken into its calls on the file system - a glob of one directory, a comparison of two files, a
-- link, an unlink - and each of these is one step, so that other processes' steps may fall between.
-- Creating a missing directory, the provenance and the history of a move are not part of it.
pub mod Race
pub mod Solo
use ibkr_auto_trader.Prelude.{
  ℕ, zero, suc, Bool, true, false, Option, none, some, List, [], ◌∷◌, ◌++◌, if◌then◌else◌, ◌==◌,
}

pub data State : Type 0 where
  pending claimed done archive : State

pub data Action : Type 0 where
  claim finish put_away reclaim : Action

-- `_TRANSITIONS`
abbrev pub from_state : Action → State
from_state claim = pending
from_state finish = claimed
from_state put_away = done
from_state reclaim = claimed

abbrev pub to_state : Action → State
to_state claim = claimed
to_state finish = done
to_state put_away = archive
to_state reclaim = pending

pub record Files : Type 0 where
  pub in_pending : Option ℕ
  pub in_claimed : Option ℕ
  pub in_done : Option ℕ
  pub in_archive : Option ℕ

abbrev pub file_at : State → Files → Option ℕ
file_at pending f = f.in_pending
file_at claimed f = f.in_claimed
file_at done f = f.in_done
file_at archive f = f.in_archive

abbrev pub put_file : State → Option ℕ → Files → Files
put_file pending x f = record f { in_pending = x }
put_file claimed x f = record f { in_claimed = x }
put_file done x f = record f { in_done = x }
put_file archive x f = record f { in_archive = x }

-- The order of `STATES`.
abbrev pub next_state : State → Option State
next_state pending = some claimed
next_state claimed = some done
next_state done = some archive
next_state archive = none

pub data HandoffError : Type 0 where
  not_found corruption : HandoffError
  conflict : HandoffError

-- `_same_file`, which a file that is gone is not.
abbrev pub same_file : Option ℕ → Option ℕ → Bool
same_file (some a) (some b) = a == b
same_file _ _ = false

-- Where a process is in `_transition`. The flag says that `_reconcile` is called for the second time.
pub data Progress : Type 0 where
  globs : Bool → State → List State → Progress
  compares : Bool → List State → State → Progress
  drops : Bool → State → List State → State → Progress
  finds links compares_loser wipes unlinks won : Progress
  lost : HandoffError → Progress

-- What follows on what `_reconcile` answers.
abbrev pub concluded : Bool → Option State → Progress
concluded false s = finds
concluded true none = lost not_found
concluded true (some s) = lost conflict

abbrev pub all_but_last : State → List State → List State
all_but_last s [] = []
all_but_last s (t ∷ ts) = s ∷ all_but_last t ts

abbrev pub last_of : State → List State → State
last_of s [] = s
last_of s (t ∷ ts) = last_of t ts

-- The matches are in the order of the states: the last one is the most advanced.
abbrev pub matched : Bool → List State → Progress
matched again [] = concluded again none
matched again (s ∷ []) = concluded again (some s)
matched again (s ∷ t ∷ ts) = compares again (all_but_last s (t ∷ ts)) (last_of s (t ∷ ts))

abbrev pub with_match : Option ℕ → State → List State → List State
with_match none s seen = seen
with_match (some i) s seen = seen ++ s ∷ []

abbrev pub after_glob : Bool → Option State → List State → Progress
after_glob again none seen = matched again seen
after_glob again (some s) seen = globs again s seen

abbrev pub after_find : Option ℕ → Progress
after_find none = globs true pending []
after_find (some i) = links

-- `os.link(src, dst)`: only if the source is there, and the destination is not.
abbrev pub link_file : State → Option ℕ → Option ℕ → Files → Files × Progress
link_file to none target f = (f, lost conflict)
link_file to (some i) none f = (put_file to (some i) f, unlinks)
link_file to (some i) (some j) f = (f, compares_loser)

-- One call on the file system.
unfoldable pub step : Action → Files → Progress → Files × Progress
step a f (globs again s seen) =
    (f, after_glob again (next_state s) (with_match (file_at s f) s seen))
step a f (compares again [] best) = (f, concluded again (some best))
step a f (compares again (s ∷ todo) best) = (
  f,
  if same_file (file_at s f) (file_at best f) then drops again s todo best else lost corruption,
)
step a f (drops again s todo best) = (put_file s none f, compares again todo best)
step a f finds = (f, after_find (file_at (from_state a) f))
step a f links = link_file (to_state a) (file_at (from_state a) f) (file_at (to_state a) f) f
step a f compares_loser = (
  f,
  if same_file (file_at (from_state a) f) (file_at (to_state a) f) then wipes else lost conflict,
)
step a f wipes = (put_file (from_state a) none f, lost conflict)
step a f unlinks = (put_file (from_state a) none f, won)
step a f won = (f, won)
step a f (lost e) = (f, lost e)

abbrev pub starts : Progress
starts = globs false pending []

-- The processes, and the one whose turn it is.
unfoldable pub step_at : Action → ℕ → Files → List Progress → Files × List Progress
step_at a i f [] = (f, [])
step_at a zero f (p ∷ ps) = let r = step a f p in (r.0, r.1 ∷ ps)
step_at a (suc i) f (p ∷ ps) = let r = step_at a i f ps in (r.0, p ∷ r.1)

-- The steps of several processes, in the order of a schedule.
unfoldable pub race : Action → List ℕ → Files → List Progress → Files × List Progress
race a [] f ps = (f, ps)
race a (i ∷ is) f ps = let r = step_at a i f ps in race a is r.0 r.1
