-- ===== src/Persistence/JobStore/Tenants.antt =====
-- A tenant's jobs and keys are out of the reach of the other tenants.
use speaker_attributed_stt.Prelude.{
  String, ◌≡◌, ◌≢◌, refl, sym, subst, ◌∙◌, Bool-cases, Option-cases, inl, inr, ◌⊎◌, Option, none,
  some, List, [], ◌∷◌, arith, str_eq, eq_iff, if◌then◌else◌,
}
use speaker_attributed_stt.Prelude.Dict.{put_lem}
use speaker_attributed_stt.Errors.{Result, ok, err, tenant_access_denied_error, Result-cases}
use speaker_attributed_stt.Jobs.{JobState, JobRecord, job_transition}
use speaker_attributed_stt.Persistence.JobStore.{
  JobStore, Request, new_job, put_key, with_job, return_existing, get, write, create_or_get,
  update_state, set_error,
}

-- A call of a method that can change the store, with the id that `new_id` gives.
pub data Call : Type 0 where
  creates : Request → String → Call
  moves : String → String → JobState → Call
  marks : String → String → String → Call

unfoldable pub caller : Call → String
caller (creates r fresh) = r.tenant_id
caller (moves tenant id state) = tenant
caller (marks tenant id code) = tenant

-- The store after the call: an exception leaves it as it was.
abbrev left_by : {A : Type 0} → JobStore → Result (A × JobStore) → JobStore
left_by s (ok (answer, t)) = t
left_by s (err error) = s

unfoldable pub after : JobStore → Call → JobStore
after s (creates r fresh) = left_by s (create_or_get s r fresh)
after s (moves tenant id state) = left_by s (update_state s tenant id state)
after s (marks tenant id code) = left_by s (set_error s tenant id code)

unfoldable pub after_all : JobStore → List Call → JobStore
after_all s [] = s
after_all s (call ∷ calls) = after_all (after s call) calls

-- The id of a new job is not in use.
abbrev pub IsFresh : JobStore → Call → Type 0
IsFresh s (creates r fresh) = s.jobs fresh ≡ none
IsFresh s _ = Unit

-- The calls come from other tenants.
abbrev pub AreForeign : String → JobStore → List Call → Type 0
AreForeign tenant s [] = Unit
AreForeign tenant s (call ∷ calls) =
    (caller call ≢ tenant) × IsFresh s call × AreForeign tenant (after s call) calls

get-missing :
    (s : JobStore) (tenant id : String)
    → s.jobs id ≡ none
    → get s tenant id ≡ err tenant_access_denied_error
unfolding get
get-missing s tenant id missing = rw missing refl

get-foreign :
    (s : JobStore) (tenant id : String) (job : JobRecord)
    → s.jobs id ≡ some job
    → job.tenant_id ≢ tenant
    → get s tenant id ≡ err tenant_access_denied_error
unfolding get
get-foreign s tenant id job stored foreign = rw stored (ground (arith, eq_iff job.tenant_id tenant))

get-same :
    (s t : JobStore) (tenant id : String)
    → t.jobs id ≡ s.jobs id
    → get t tenant id ≡ get s tenant id
unfolding get
get-same s t tenant id same = rw same refl

-- What a tenant reads is its own, under the id it asked for.
pub get-own :
    (s : JobStore) (tenant id : String) (job : JobRecord)
    → get s tenant id ≡ ok job
    → (job.tenant_id ≡ tenant) × (s.jobs id ≡ some job)
unfolding get
get-own s tenant id job h = (ground (arith, eq_iff job.tenant_id tenant), ground arith)

module _ (tenant : String) where
  -- The tenant reads the same jobs, and its keys name the same jobs.
  pub record SeesSame (s t : JobStore) : Type 0 where
    pub same_jobs : (id : String) → get t tenant id ≡ get s tenant id
    pub same_keys : (key : String) → t.by_key tenant key ≡ s.by_key tenant key

  SeesSame-refl : (s : JobStore) → SeesSame s s
  SeesSame-refl s = record { same_jobs = λ id. refl; same_keys = λ key. refl }

  -- Another tenant's record takes the place of what the tenant cannot read.
  put-hidden :
      (s t : JobStore) (key : String) (new : JobRecord)
      → get s tenant key ≡ err tenant_access_denied_error
      → new.tenant_id ≢ tenant
      → ((id : String) → t.jobs id ≡ (if str_eq key id then some new else s.jobs id))
      → (id : String) → get t tenant id ≡ get s tenant id
  put-hidden s t key new hidden foreign puts id = elim (Bool-cases (str_eq key id)) [
    | inl e ↦
        let same : key ≡ id = (eq_iff key id).0 e in
        get-foreign t tenant id new (puts id ∙ rw e refl) foreign
        ∙ sym (subst (λ k. get s tenant k ≡ err tenant_access_denied_error) same hidden)
    | inr e ↦ get-same s t tenant id (puts id ∙ rw e refl)
  ]

  -- Writing back a record that another tenant read and changed.
  write-SeesSame :
      (s : JobStore) (other key : String) (job new : JobRecord)
      → other ≢ tenant
      → get s other key ≡ ok job
      → new.tenant_id ≡ job.tenant_id
      → SeesSame s (write s key new)
  write-SeesSame s other key job new foreign found same =
      let (own, stored) = get-own s other key job found in
      let strange : job.tenant_id ≢ tenant = λ e. foreign (sym own ∙ e) in
      record {
        same_jobs =
            put-hidden s (write s key new) key new (get-foreign s tenant key job stored strange)
              (λ e. strange (sym same ∙ e)) (put_lem s.jobs key new);
        same_keys = λ k. refl;
      }

  job_transition-tenant :
      (job moved : JobRecord) (state : JobState)
      → job_transition job state ≡ ok moved
      → moved.tenant_id ≡ job.tenant_id
  unfolding job_transition
  job_transition-tenant job moved state h = ground arith

  update_state-SeesSame :
      (s : JobStore) (other id : String) (state : JobState)
      → other ≢ tenant
      → SeesSame s (left_by s (update_state s other id state))
  unfolding update_state
  update_state-SeesSame s other id state foreign = elim (Result-cases (get s other id)) [
    | inl (error, failed) ↦ rw failed (SeesSame-refl s)
    | inr (job, found) ↦ elim (Result-cases (job_transition job state)) [
      | inl (error, failed) ↦ rw (found, failed) (SeesSame-refl s)
      | inr (moved, made) ↦
          rw (found, made)
            (write-SeesSame s other id job moved foreign found
              (job_transition-tenant job moved state made))
    ]
  ]

  set_error-SeesSame :
      (s : JobStore) (other id code : String)
      → other ≢ tenant
      → SeesSame s (left_by s (set_error s other id code))
  unfolding set_error
  set_error-SeesSame s other id code foreign = elim (Result-cases (get s other id)) [
    | inl (error, failed) ↦ rw failed (SeesSame-refl s)
    | inr (job, found) ↦
        rw found
          (write-SeesSame s other id job (record job { error_code = some code }) foreign found refl)
  ]

  put_key-other :
      (d : String → String → Option String) (other key id k : String)
      → other ≢ tenant
      → put_key d other key id tenant k ≡ d tenant k
  unfolding put_key
  put_key-other d other key id k foreign = ground (arith, eq_iff other tenant)

  with_job-SeesSame :
      (s : JobStore) (r : Request) (fresh : String)
      → r.tenant_id ≢ tenant
      → s.jobs fresh ≡ none
      → SeesSame s (with_job s r fresh)
  unfolding with_job
  with_job-SeesSame s r fresh foreign unused =
      let job : JobRecord =
        new_job fresh r.tenant_id r.idempotency_key r.input_hash r.config_version in
      record {
        same_jobs =
            put-hidden s (with_job s r fresh) fresh job (get-missing s tenant fresh unused) foreign
              (put_lem s.jobs fresh job);
        same_keys = λ k. put_key-other s.by_key r.tenant_id r.idempotency_key fresh k foreign;
      }

  -- `create_or_get` makes a job or leaves the store as it was.
  create_or_get-left :
      (s : JobStore) (r : Request) (fresh : String)
      → (left_by s (create_or_get s r fresh) ≡ s)
        ⊎ (left_by s (create_or_get s r fresh) ≡ with_job s r fresh)
  unfolding create_or_get return_existing
  create_or_get-left s r fresh = elim (Option-cases (s.by_key r.tenant_id r.idempotency_key)) [
    | inl free ↦ inr (rw free refl)
    | inr (id, taken) ↦ inl (ground (arith, taken))
  ]

  after-SeesSame :
      (s : JobStore) (call : Call)
      → caller call ≢ tenant
      → IsFresh s call
      → SeesSame s (after s call)
  unfolding after caller
  after-SeesSame s (creates r fresh) foreign unused = elim (create_or_get-left s r fresh) [
    | inl same ↦ subst (SeesSame s) (sym same) (SeesSame-refl s)
    | inr made ↦ subst (SeesSame s) (sym made) (with_job-SeesSame s r fresh foreign unused)
  ]
  after-SeesSame s (moves other id state) foreign unused =
      update_state-SeesSame s other id state foreign
  after-SeesSame s (marks other id code) foreign unused = set_error-SeesSame s other id code foreign

  -- Whatever calls the other tenants make, failing ones included, a tenant reads under every id what
  -- it would have read without them, and its idempotency keys name the jobs that they named. Each
  -- job that the calls make gets an id that is not in use.
  pub after_all-SeesSame :
      (s : JobStore) (calls : List Call)
      → AreForeign tenant s calls
      → SeesSame s (after_all s calls)
  unfolding after_all
  after_all-SeesSame s [] h = SeesSame-refl s
  after_all-SeesSame s (call ∷ calls) (foreign, unused, rest) =
      let first = after-SeesSame s call foreign unused in
      let others = after_all-SeesSame (after s call) calls rest in
      record {
        same_jobs = λ id. others.same_jobs id ∙ first.same_jobs id;
        same_keys = λ key. others.same_keys key ∙ first.same_keys key;
      }
