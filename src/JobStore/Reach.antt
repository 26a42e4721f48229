-- ===== src/JobStore/Reach.antt =====
-- The operations as a step relation, and what holds of every reachable store.
use stellar_batch_pay.Base.{
  ℕ, suc, zero, ◌≡◌, refl, subst, String, arith, Option-cases, inl, inr, Bool-cases, ok, ltb, ◌==◌,
}
use stellar_batch_pay.JobStore.{
  JobArgs, JobPatch, Store, empty, IdempotentRequest, IdempotentJobResult, find_job, create_job,
  create_idempotent_job, claim_job_for_processing, update_job, update_from, changes, at_version,
  increment_completed_batches, increment_from, bumped,
}
use stellar_batch_pay.JobStore.Claims.{alone}
use stellar_batch_pay.JobStore.Invariant.{
  IsWellFormed, empty-IsWellFormed, create_job-IsWellFormed, create_idempotent_job-IsWellFormed,
  claim-IsWellFormed, update_job_once-IsWellFormed, update_where-IsWellFormed,
}

-- One operation of the store; the writes of other processes come between operations.
pub data Step (s : Store) : Store → Type 0 where
  creates :
      (now : ℕ) (id : String) (args : JobArgs) {s' : Store}
      → create_job now id args s ≡ ok s'
      → Step s s'
  requests :
      (now : ℕ) (id : String) (req : IdempotentRequest) (res : IdempotentJobResult) {s' : Store}
      → create_idempotent_job now id req s ≡ ok (res, s')
      → Step s s'
  claims :
      (lease now : ℕ) (id : String) {s' : Store}
      → (claim_job_for_processing lease now id s).1 ≡ s'
      → Step s s'
  updates :
      (locked now : ℕ) (id : String) (p : JobPatch) {s' : Store}
      → update_job locked now id p s ≡ ok s'
      → Step s s'
  progresses :
      (now : ℕ) (id : String) {s' : Store}
      → (increment_completed_batches alone now id s).1 ≡ s'
      → Step s s'

pub data Reach : Store → Type 0 where
  start : Reach empty
  next : {s s' : Store} → Reach s → Step s s' → Reach s'

update_from-IsWellFormed :
    (left locked now : ℕ) (id : String) (p : JobPatch) (s s' : Store)
    → IsWellFormed s
    → update_from left locked now id p s ≡ ok s'
    → IsWellFormed s'
unfolding update_from
update_from-IsWellFormed zero locked now id p s s' w e = cc
update_from-IsWellFormed (suc left) zero now id p s s' w e =
    update_job_once-IsWellFormed now id p s s' w e
update_from-IsWellFormed (suc left) (suc locked) now id p s s' w e =
    update_from-IsWellFormed left locked now id p s s' w (ground arith)

increment_from-IsWellFormed :
    (left now : ℕ) (id : String) (s : Store)
    → IsWellFormed s
    → IsWellFormed (increment_from alone left now id s).1
unfolding increment_from bumped
increment_from-IsWellFormed zero now id s w = w
increment_from-IsWellFormed (suc left) now id s w = elim (Option-cases (find_job id s.jobs)) [
  | inl e ↦ rw (e, increment_from) w
  | inr (r, e) ↦ elim (Bool-cases (ltb 0 (changes (at_version id r.version) s.jobs))) [
    | inl hit ↦
        rw (e, increment_from)
          (rw hit
            (update_where-IsWellFormed (at_version id r.version) (bumped now) (λ q. refl) s w))
    | inr miss ↦ elim (Bool-cases (left == 0)) [
      | inl last ↦ rw (e, increment_from) (rw (miss, last) w)
      | inr more ↦
          rw (e, increment_from) (rw (miss, more) (increment_from-IsWellFormed left now id s w))
    ]
  ]
]

Step-IsWellFormed : {s s' : Store} → Step s s' → IsWellFormed s → IsWellFormed s'
unfolding update_job increment_completed_batches
Step-IsWellFormed {s} {s'} (creates now id args e) w = create_job-IsWellFormed now id args s s' w e
Step-IsWellFormed {s} {s'} (requests now id req res e) w =
    create_idempotent_job-IsWellFormed now id req s s' res w e
Step-IsWellFormed {s} {s'} (claims lease now id e) w =
    subst IsWellFormed e (claim-IsWellFormed lease now id s w)
Step-IsWellFormed {s} {s'} (updates locked now id p e) w =
    update_from-IsWellFormed 2 locked now id p s s' w e
Step-IsWellFormed {s} {s'} (progresses now id e) w =
    subst IsWellFormed e (increment_from-IsWellFormed 3 now id s w)

-- In every store that the operations reach from empty tables, no two rows have one id or one key, and
-- the job of every stored idempotency key is stored.
pub Reach-IsWellFormed : {s : Store} → Reach s → IsWellFormed s
Reach-IsWellFormed start = empty-IsWellFormed
Reach-IsWellFormed (next r st) = Step-IsWellFormed st (Reach-IsWellFormed r)
