-- ===== src/Jobs/Lifecycle.antt =====
-- A job in a terminal state stays in it; the fingerprint of two different requests may agree.
use Prim.Native.String.{◌++◌ as join}
use speaker_attributed_stt.Prelude.{
  String, ◌≡◌, refl, ap, true, List, [], ◌∷◌, arith, Bool-cases, inl, inr,
}
use text.Mathlib.TextLemmas.{append_assoc}
use speaker_attributed_stt.Errors.{Result, ok, err}
use speaker_attributed_stt.Jobs.{
  JobState, JobRecord, is_job_state, is_terminal, job_transition, idempotency_fingerprint,
}

pub is_job_state-eq : (a b : JobState) → is_job_state a b ≡ true → a ≡ b
unfolding is_job_state
is_job_state-eq a b h = ground arith

-- Any number of requests for another state; a refused one leaves the job as it is.
abbrev after : JobRecord → Result JobRecord → JobRecord
after job (ok next) = next
after job (err e) = job

pub transition_all : JobRecord → List JobState → JobRecord
transition_all job [] = job
transition_all job (s ∷ rest) = transition_all (after job (job_transition job s)) rest

pub job_transition-terminal :
    (job : JobRecord) (s : JobState)
    → is_terminal job.state ≡ true
    → after job (job_transition job s) ≡ job
unfolding job_transition
job_transition-terminal job s h = elim (Bool-cases (is_job_state s job.state)) [
  | inl same ↦ rw (h, same) (ap (λ t. record job { state = t }) (is_job_state-eq s job.state same))
  | inr other ↦ rw (h, other) refl
]

-- Once a job is terminal, no sequence of transitions, refused ones included, changes it.
pub terminal_absorbs :
    (job : JobRecord) (requests : List JobState)
    → is_terminal job.state ≡ true
    → transition_all job requests ≡ job
unfolding transition_all
terminal_absorbs job [] h = refl
terminal_absorbs job (s ∷ rest) h =
    rw (job_transition-terminal job s h) (terminal_absorbs job rest h)

-- Where a tenant or a key may hold the separator, two different requests have one fingerprint:
-- moving the separator from the key into the tenant does not change the hashed text.
pub fingerprint_collision :
    (hexdigest : String → String) (tenant part key input_hash : String)
    → idempotency_fingerprint hexdigest (join tenant (join "|" part)) key input_hash
      ≡ idempotency_fingerprint hexdigest tenant (join part (join "|" key)) input_hash
unfolding idempotency_fingerprint
fingerprint_collision hexdigest tenant part key input_hash = ap hexdigest (simp append_assoc)
