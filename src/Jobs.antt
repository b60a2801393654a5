-- ===== src/Jobs.antt =====
-- src/bqemulator/jobs/state_machine.py: the states of a job.
use bqemulator.Prelude.{
  ℕ, ◌<◌, ◌≤◌, ◌+◌, Option-cases, length, ◌∙◌, sym, ◌≡◌, inl, inr, refl, Option, none, some, arith,
  List, [], ◌∷◌,
}

pub data JobState : Type 0 where
  pending running finished : JobState

pub data JobTransition : Type 0 where
  start complete fail cancel complete_sync : JobTransition

-- advance_job with _VALID_TRANSITIONS: `none` is the InternalError.
unfoldable pub advance_job : JobState → JobTransition → Option JobState
advance_job pending start = some running
advance_job pending cancel = some finished
advance_job pending complete_sync = some finished
advance_job running complete = some finished
advance_job running fail = some finished
advance_job running cancel = some finished
advance_job _ _ = none

-- How far a job has come.
abbrev pub rank : JobState → ℕ
rank pending = 0
rank running = 1
rank finished = 2

abbrev pub then_advance : Option JobState → JobTransition → Option JobState
then_advance none t = none
then_advance (some s) t = advance_job s t

-- The transitions one after another.
unfoldable pub advance_all : Option JobState → List JobTransition → Option JobState
advance_all s [] = s
advance_all s (t ∷ ts) = advance_all (then_advance s t) ts

-- A transition that is accepted moves the job on, so that a job that is done stays so.
advance_job-rank :
    (s s' : JobState) (t : JobTransition) → advance_job s t ≡ some s' → rank s < rank s'
unfolding advance_job
advance_job-rank s s' t h = ground arith

advance_all-none : (ts : List JobTransition) → advance_all none ts ≡ none
unfolding advance_all
advance_all-none [] = refl
advance_all-none (t ∷ ts) = advance_all-none ts

-- Transitions that are all accepted number at most the difference of the two states' ranks, so that a
-- job that is done accepts none and no job accepts three.
pub advance_all-length :
    (s s' : JobState) (ts : List JobTransition)
    → advance_all (some s) ts ≡ some s'
    → rank s + length ts ≤ rank s'
unfolding advance_all
advance_all-length s s' [] h = ground arith
advance_all-length s s' (t ∷ ts) h = elim (Option-cases (advance_job s t)) [
  | inl none_left ↦ cc (sym (advance_all-none ts) ∙ (rw none_left at h))
  | inr (m, go) ↦ omega (arith, advance_job-rank s m t go, advance_all-length m s' ts (rw go at h))
]
