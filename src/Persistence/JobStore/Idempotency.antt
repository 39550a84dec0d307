-- ===== src/Persistence/JobStore/Idempotency.antt =====
-- One idempotency key names one job, whatever happens to the store in between.
use text.Mathlib.TextPositions.{eq_refl}
use speaker_attributed_stt.Prelude.{
  String, ◌≡◌, ◌≢◌, refl, sym, ap, subst, ◌∙◌, true, false, inl, inr, Option, none, some, arith,
  str_eq, eq_iff, if◌then◌else◌, Option-cases, Bool-cases,
}
use speaker_attributed_stt.Prelude.Dict.{put_lem, put_self}
use speaker_attributed_stt.Errors.{ok, err, idempotency_conflict_error, >>=-eq-ok}
use speaker_attributed_stt.Jobs.{JobState, JobRecord, job_transition}
use speaker_attributed_stt.Persistence.JobStore.{
  JobStore, Request, new_job, put_key, job_at, with_job, return_existing, create_or_get, get, write,
  update_state, set_error,
}

-- A method that succeeded. A new job's id was not in use; that is what `new_id` is relied on for.
pub data Step (s : JobStore) (t : JobStore) : Type 0 where
  created :
      (r : Request) (fresh : String) (job : JobRecord)
      → s.jobs fresh ≡ none
      → create_or_get s r fresh ≡ ok ((job, true), t)
      → Step s t
  updated :
      (tenant id : String) (state : JobState) (job : JobRecord)
      → update_state s tenant id state ≡ ok (job, t)
      → Step s t
  errored :
      (tenant id code : String) (job : JobRecord)
      → set_error s tenant id code ≡ ok (job, t)
      → Step s t

pub data Steps (s : JobStore) : JobStore → Type 0 where
  here : Steps s s
  next : {t u : JobStore} → Steps s t → Step t u → Steps s u

-- The key names the job, which was made for this input.
pub record Names (r : Request) (id : String) (s : JobStore) : Type 0 where
  pub indexed : s.by_key r.tenant_id r.idempotency_key ≡ some id
  pub job : JobRecord
  pub stored : s.jobs id ≡ some job
  pub input : job.input_hash ≡ r.input_hash
  pub same_id : job.job_id ≡ id

-- What the two mutating methods do to the record that they write.
write-Names :
    (r : Request) (id : String) (s : JobStore) (key : String) (old new : JobRecord)
    → s.jobs key ≡ some old
    → new.input_hash ≡ old.input_hash
    → new.job_id ≡ old.job_id
    → Names r id s
    → Names r id (write s key new)
write-Names r id s key old new at same also n = elim (Bool-cases (str_eq key id)) [
  | inl e ↦
      let same_job : some old ≡ some n.job = sym at ∙ ap s.jobs ((eq_iff key id).0 e) ∙ n.stored in
      let kept_id : new.job_id ≡ id = cc in
      let same_input : new.input_hash ≡ r.input_hash = cc in
      record {
        indexed = n.indexed;
        job = new;
        stored = put_lem s.jobs key new id ∙ rw e refl;
        input = same_input;
        same_id = kept_id;
      }
  | inr e ↦ record {
    indexed = n.indexed;
    job = n.job;
    stored = put_lem s.jobs key new id ∙ rw e n.stored;
    input = n.input;
    same_id = n.same_id;
  }
]

get-stored :
    (s : JobStore) (tenant id : String) (job : JobRecord)
    → get s tenant id ≡ ok job
    → s.jobs id ≡ some job
unfolding get
get-stored s tenant id job h = ground arith

job_transition-input :
    (job moved : JobRecord) (state : JobState)
    → job_transition job state ≡ ok moved
    → (moved.input_hash ≡ job.input_hash) × (moved.job_id ≡ job.job_id)
unfolding job_transition
job_transition-input job moved state h = ground arith

update_state-Names :
    (r : Request) (id : String) (s t : JobStore) (tenant key : String) (state : JobState)
    (out : JobRecord)
    → update_state s tenant key state ≡ ok (out, t)
    → Names r id s
    → Names r id t
unfolding update_state
update_state-Names r id s t tenant key state out h n =
    let (job, found, rest) = >>=-eq-ok (get s tenant key) _ h in
    let (moved, made, written) = >>=-eq-ok (job_transition job state) _ rest in
    let same : t ≡ write s key moved = cc in
    subst (Names r id) (sym same) (
      write-Names r id s key job moved (get-stored s tenant key job found)
        (job_transition-input job moved state made).0 (job_transition-input job moved state made).1
        n)

set_error-Names :
    (r : Request) (id : String) (s t : JobStore) (tenant key code : String) (out : JobRecord)
    → set_error s tenant key code ≡ ok (out, t)
    → Names r id s
    → Names r id t
unfolding set_error
set_error-Names r id s t tenant key code out h n =
    let (job, found, written) = >>=-eq-ok (get s tenant key) _ h in
    let same : t ≡ write s key (record job { error_code = some code }) = cc in
    subst (Names r id) (sym same) (
      write-Names r id s key job (record job { error_code = some code })
        (get-stored s tenant key job found) refl refl n)

put_key_lem :
    (d : String → String → Option String) (tenant key id t k : String)
    → put_key d tenant key id t k
      ≡ (if str_eq tenant t then (if str_eq key k then some id else d t k) else d t k)
unfolding put_key
put_key_lem d tenant key id t k = refl

-- A successful call that made a job found the key free, and made this one.
created-eq :
    (s t : JobStore) (r : Request) (fresh : String) (job : JobRecord)
    → create_or_get s r fresh ≡ ok ((job, true), t)
    → (s.by_key r.tenant_id r.idempotency_key ≡ none)
      × (job ≡ new_job fresh r.tenant_id r.idempotency_key r.input_hash r.config_version)
      × (t ≡ with_job s r fresh)
unfolding create_or_get return_existing
created-eq s t r fresh job h = elim (Option-cases (s.by_key r.tenant_id r.idempotency_key)) [
  | inl free ↦ (free, ground arith, ground arith)
  | inr (id, taken) ↦ absurd (ground arith)
]

kept_index :
    (r q : Request) (id fresh : String) (s : JobStore)
    → s.by_key q.tenant_id q.idempotency_key ≡ none
    → s.by_key r.tenant_id r.idempotency_key ≡ some id
    → (if str_eq q.tenant_id r.tenant_id
        then (if str_eq q.idempotency_key r.idempotency_key
            then some fresh
            else s.by_key r.tenant_id r.idempotency_key)
        else s.by_key r.tenant_id r.idempotency_key)
      ≡ some id
kept_index r q id fresh s free taken = elim (Bool-cases (str_eq q.tenant_id r.tenant_id)) [
  | inl e ↦ elim (Bool-cases (str_eq q.idempotency_key r.idempotency_key)) [
    | inl f ↦
        let same_tenant = (eq_iff q.tenant_id r.tenant_id).0 e in
        let same_key = (eq_iff q.idempotency_key r.idempotency_key).0 f in cc
    | inr f ↦ rw (e, f) taken
  ]
  | inr e ↦ rw e taken
]

kept_job :
    (s : JobStore) (fresh id : String) (job new : JobRecord)
    → s.jobs fresh ≡ none
    → s.jobs id ≡ some job
    → (if str_eq fresh id then some new else s.jobs id) ≡ some job
kept_job s fresh id job new unused stored = elim (Bool-cases (str_eq fresh id)) [
  | inl e ↦ let same = (eq_iff fresh id).0 e in cc
  | inr e ↦ rw e stored
]

-- A new job leaves the keys that name a job alone.
created-Names :
    (r q : Request) (id fresh : String) (s : JobStore)
    → s.jobs fresh ≡ none
    → s.by_key q.tenant_id q.idempotency_key ≡ none
    → Names r id s
    → Names r id (with_job s q fresh)
unfolding with_job
created-Names r q id fresh s unused free n = record {
  indexed =
      put_key_lem s.by_key q.tenant_id q.idempotency_key fresh _ _
      ∙ kept_index r q id fresh s free n.indexed;
  job = n.job;
  stored = put_lem s.jobs fresh _ id ∙ kept_job s fresh id n.job _ unused n.stored;
  input = n.input;
  same_id = n.same_id;
}

-- The call that makes a job, and one that finds it, both leave the key naming it.
pub create_or_get-Names :
    (s t : JobStore) (r : Request) (fresh : String) (job : JobRecord)
    → create_or_get s r fresh ≡ ok ((job, true), t)
    → Names r fresh t
create_or_get-Names s t r fresh job h =
    let (_, _, made) = created-eq s t r fresh job h in
    subst (Names r fresh) (sym made) (
      unfold with_job in
      record {
        indexed = put_key_lem s.by_key r.tenant_id r.idempotency_key fresh _ _ ∙ simp eq_refl;
        job = new_job fresh r.tenant_id r.idempotency_key r.input_hash r.config_version;
        stored = put_self s.jobs fresh _;
        input = refl;
        same_id = refl;
      })

Step-Names : (r : Request) (id : String) {s t : JobStore} → Step s t → Names r id s → Names r id t
Step-Names r id {s} {t} (created q fresh job unused h) n =
    let (free, _, made) = created-eq s t q fresh job h in
    subst (Names r id) (sym made) (created-Names r q id fresh s unused free n)
Step-Names r id {s} {t} (updated tenant key state job h) n =
    update_state-Names r id s t tenant key state job h n
Step-Names r id {s} {t} (errored tenant key code job h) n =
    set_error-Names r id s t tenant key code job h n

Steps-Names : (r : Request) (id : String) {s t : JobStore} → Steps s t → Names r id s → Names r id t
Steps-Names r id here n = n
Steps-Names r id (next steps step) n = Step-Names r id step (Steps-Names r id steps n)

ne→str_eq : (a b : String) → a ≢ b → str_eq a b ≡ false
ne→str_eq a b h = ground (arith, eq_iff a b)

-- Where the key names a job, a call with the same input returns it and makes none, and a call with
-- another input is a conflict.
pub Names-create_or_get :
    (r : Request) (id fresh hash : String) (s : JobStore) (n : Names r id s)
    → create_or_get s (record r { input_hash = hash }) fresh ≡ (
        if str_eq r.input_hash hash then ok ((n.job, false), s) else err idempotency_conflict_error)
unfolding create_or_get return_existing job_at
Names-create_or_get r id fresh hash s n = rw (n.indexed, n.stored) (rw n.input (ground arith))

-- After a call has made a job, and whatever methods have succeeded on the store since, the same call
-- returns the same job, makes none and changes nothing, while the key with another input is a
-- conflict. Each job made since got an id that was not in use.
pub create_or_get_idempotent :
    (s t u : JobStore) (r : Request) (fresh other hash : String) (job : JobRecord)
    → create_or_get s r fresh ≡ ok ((job, true), t)
    → Steps t u
    → r.input_hash ≢ hash
    → (again : JobRecord) × (create_or_get u r other ≡ ok ((again, false), u))
      × (again.job_id ≡ fresh)
      × (create_or_get u (record r { input_hash = hash }) other ≡ err idempotency_conflict_error)
create_or_get_idempotent s t u r fresh other hash job h steps differs =
    let n = Steps-Names r fresh steps (create_or_get-Names s t r fresh job h) in
    (
      n.job,
      Names-create_or_get r fresh other r.input_hash u n ∙ simp eq_refl,
      n.same_id,
      Names-create_or_get r fresh other hash u n ∙ rw (ne→str_eq r.input_hash hash differs) refl,
    )
