-- ===== src/Worker/Jobs/Finish.antt =====
-- lib/stellar/batch-worker.ts: how a claimed job ends.
use stellar_batch_pay.Base.{
  ℕ, ◌+◌, ◌≤◌, ◌<◌, Bool, false, ◌≡◌, refl, ◌∙◌, String, List, [], ◌∷◌, arith, ok, Result, length,
}
use stellar_batch_pay.JobStore.{JobRow, JobPatch, Store, update_job}
use stellar_batch_pay.JobStore.Progress.{
  LeavesJob, Holds, progress_row, increment-Holds, update_job-Holds, patch_row,
}
use stellar_batch_pay.Worker.{Tally, untallied}
use stellar_batch_pay.Worker.Jobs.{
  Surroundings, Task, progressing, started, update, progressed, batch_loop, flow,
}

-- The tally of a loop, from the round `i` on.
abbrev pub steps {ℓ} : {A : Type ℓ} → (ℕ → A → Tally → Tally) → ℕ → List A → Tally → Tally
steps step i [] t = t
steps step i (b ∷ bs) t = steps step (i + 1) bs (step i b t)

-- A row after `n` more batches.
pub record IsAdvanced (n : ℕ) (r r' : JobRow) : Type 0 where
  pub batches : r'.completed_batches ≡ r.completed_batches + n
  pub total : r'.total_batches ≡ r.total_batches
  pub status : r'.status ≡ r.status
  pub result : r'.result ≡ r.result
  pub error : r'.error ≡ r.error

module _ (around : Surroundings) (task : Task)
    (quiet : (i left : ℕ) → LeavesJob task.job_id (around.others i left)) where
  -- The progress after the first `n` batches does not find the database locked.
  abbrev pub IsCalm : ℕ → Type 0
  IsCalm n = (i : ℕ) → i < n → around.busy (progressing i) ≡ false

  progressed-Holds :
      (i : ℕ) (s : Store) (r : JobRow)
      → around.busy (progressing i) ≡ false
      → Holds task.job_id r s
      → (s' : Store) × (progressed around task i s ≡ (ok tt, s'))
        × Holds task.job_id (progress_row (around.clock (i + 2)) r) s'
  unfolding progressed
  progressed-Holds i s r calm h =
      let (s', e, h') =
        increment-Holds (around.clock (i + 2)) task.job_id s r (around.others i) (quiet i) h in
      (s', rw (e, calm) refl, h')

  batch_loop_next {ℓ} :
      {A : Type ℓ} (awaited : A → Bool) (step : ℕ → A → Tally → Tally) (i : ℕ) (b : A) (bs : List A)
      (t : Tally) (s s1 : Store)
      → progressed around task i s ≡ (ok tt, s1)
      → batch_loop around task awaited step i (b ∷ bs) t s
        ≡ batch_loop around task awaited step (i + 1) bs (step i b t) s1
  unfolding batch_loop
  batch_loop_next awaited step i b bs t s s1 e = ground arith

  batch_loop-Holds {ℓ} :
      {A : Type ℓ} (awaited : A → Bool) (step : ℕ → A → Tally → Tally) (i : ℕ) (bs : List A)
      (t : Tally) (s : Store) (r : JobRow)
      → IsCalm (i + length bs)
      → Holds task.job_id r s
      → (s' : Store) × (r' : JobRow) × (batch_loop around task awaited step i bs t s
          ≡ (ok (steps step i bs t), s'))
        × Holds task.job_id r' s'
        × IsAdvanced (length bs) r r'
  unfolding batch_loop
  batch_loop-Holds awaited step i [] t s r calm h = (
    s,
    r,
    refl,
    h,
    record { batches = omega arith; total = refl; status = refl; result = refl; error = refl },
  )
  batch_loop-Holds awaited step i (b ∷ bs) t s r calm h =
      let (s1, e, h1) = progressed-Holds i s r (calm i (omega arith)) h in
      let (s', r', e', h', a) =
        batch_loop-Holds awaited step (i + 1) bs (step i b t) s1
          (progress_row (around.clock (i + 2)) r) (λ j l. calm j (omega (arith, l))) h1 in
      (
        s',
        r',
        batch_loop_next awaited step i b bs t s s1 e ∙ e',
        h',
        record {
          batches = omega (arith, a.batches);
          total = a.total;
          status = a.status;
          result = a.result;
          error = a.error;
        },
      )

  update_ok :
      (i : ℕ) (p : JobPatch) (s s' : Store)
      → update_job (around.locked i) (around.clock i) task.job_id p s ≡ ok s'
      → update around task i p s ≡ (ok tt, s')
  unfolding update
  update_ok i p s s' e = rw (e, update) refl

  pub update-Holds :
      (i : ℕ) (p : JobPatch) (s : Store) (r : JobRow)
      → around.locked i ≤ 1
      → Holds task.job_id r s
      → (s' : Store) × (update around task i p s ≡ (ok tt, s'))
        × Holds task.job_id (patch_row (around.clock i) p r) s'
  update-Holds i p s r few h =
      let (s', e, h') =
        update_job-Holds (around.clock i) task.job_id s r p (around.locked i) few h in
      (s', update_ok i p s s' e, h')

  pub flow-Holds {ℓ} :
      {A : Type ℓ} (setup : Result String (Unit {0})) (awaited : A → Bool)
      (step : ℕ → A → Tally → Tally) (bs : List A) (total : Result String String) (amount : String)
      (patch : String → Tally → JobPatch) (s : Store) (r : JobRow)
      → setup ≡ ok tt
      → total ≡ ok amount
      → IsCalm (length bs)
      → around.locked 1 ≤ 1
      → around.locked (length bs + 2) ≤ 1
      → Holds task.job_id r s
      → (s' : Store) × (r' : JobRow) × (flow around task setup awaited step bs total patch s
          ≡ (ok tt, s'))
        × Holds task.job_id
            (patch_row (around.clock (length bs + 2)) (patch amount (steps step 0 bs untallied)) r')
            s'
        × IsAdvanced (length bs) (patch_row (around.clock 1) (started (length bs)) r) r'
  unfolding flow
  flow-Holds setup awaited step bs total amount patch s r e1 e2 calm few few' h =
      let (s1, u1, h1) = update-Holds 1 (started (length bs)) s r few h in
      let (s2, r2, e3, h2, adv) =
        batch_loop-Holds awaited step 0 bs untallied s1
          (patch_row (around.clock 1) (started (length bs)) r) (λ i l. calm i (omega (arith, l)))
          h1 in
      let t = steps step 0 bs untallied in
      let (s3, u3, h3) = update-Holds (length bs + 2) (patch amount t) s2 r2 few' h2 in
      (s3, r2, ground (arith, e1, e2, u1, e3, u3), h3, adv)
