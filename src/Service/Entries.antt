-- ===== src/Service/Entries.antt =====
-- What a transaction's results say of its payments.
use stellar_batch_pay.Base.{
  All, length, ◌+◌, ℕ, ◌≡◌, String, refl, ◌∙◌, ◌⊎◌, inl, inr, Bool, true, false, ◌&&◌, Option, some,
  List, [], ◌∷◌, ◌++◌, map, if◌then◌else◌, arith, Bool-cases,
}
use stellar_batch_pay.Types.{PaymentStatus, PaymentInstruction, PaymentResult, failure}
use stellar_batch_pay.Reconciliation.{SubmitError}
use stellar_batch_pay.Service.{
  count_status, is_failure, is_unknown, World, Config, Account, Submission, accepted, rejected,
  failed_result, results_of, any_added, mark, is_success, place, settle, submit_built,
  reconciled_status,
}

-- Two lists whose elements are related one by one.
pub data Each {A B : Type 0} (R : A → B → Type 0) : List A → List B → Type 0 where
  each_none : Each R [] []
  each_more :
      {a : A} {b : B} {xs : List A} {ys : List B} → R a b → Each R xs ys → Each R (a ∷ xs) (b ∷ ys)

pub Each-append :
    {A B : Type 0} {R : A → B → Type 0} {xs zs : List A} {ys ws : List B}
    → Each R xs ys
    → Each R zs ws
    → Each R (xs ++ zs) (ys ++ ws)
Each-append each_none f = f
Each-append (each_more r e) f = each_more r (Each-append e f)

pub submission-cases :
    (s : Submission)
    → ((h : Option String) × (s ≡ accepted h)) ⊎ ((e : SubmitError) × (s ≡ rejected e))
submission-cases (accepted h) = inl (h, refl)
submission-cases (rejected e) = inr (e, refl)

pub count_all :
    (rs : List PaymentResult)
    → count_status is_success rs + (count_status is_failure rs + count_status is_unknown rs)
      ≡ length rs
unfolding count_status
count_all [] = refl
count_all (r ∷ rs) = ground (arith, count_all rs)

pub count_status-append :
    (test : PaymentStatus → Bool) (rs ss : List PaymentResult)
    → count_status test (rs ++ ss) ≡ count_status test rs + count_status test ss
unfolding count_status
count_status-append test [] ss = omega arith
count_status-append test (r ∷ rs) ss = omega (arith, count_status-append test rs ss)

-- Results of one status, all or none of which are counted.
pub count_same :
    (test : PaymentStatus → Bool) (s : PaymentStatus) (rs : List PaymentResult)
    → All (λ r. r.status ≡ s) rs
    → count_status test rs ≡ (if test s then length rs else 0)
unfolding count_status
count_same test s [] h = ground arith
count_same test s (r ∷ rs) (e, h) = ground (arith, e, count_same test s rs h)

-- A result names its payment.
pub record Names (p : PaymentInstruction) (r : PaymentResult) : Type 0 where
  pub recipient_of : r.recipient ≡ p.address
  pub amount_of : r.amount ≡ p.amount
  pub asset_of : r.asset ≡ p.asset
  pub row_of : r.row_index ≡ p.row_index

pub Each-map :
    {A B : Type 0} {R S : A → B → Type 0} {xs : List A} {ys : List B}
    → ((a : A) (b : B) → R a b → S a b)
    → Each R xs ys
    → Each S xs ys
Each-map f each_none = each_none
Each-map f (each_more {a} {b} r e) = each_more (f a b r) (Each-map f e)

module _ (world : World) (config : Config) where
  -- A result names its payment. It says success exactly where the payment was added and the transaction
  -- went through; one that was not added keeps its own result, and one that failed the validation the
  -- validation's error.
  pub record Reports (submitted : Bool) (p : PaymentInstruction) (r : PaymentResult) : Type 0 where
    pub names : Names p r
    pub paid : is_success r.status ≡ ((place world config p).added && submitted)
    pub unadded : (place world config p).added ≡ false → r ≡ (place world config p).result
    pub unvalidated :
        (e : String)
        → world.validate_payment_instruction p ≡ some e
        → (r.status ≡ failure) × (r.error ≡ some e)

  -- A change of a result that leaves what names its payment, and sets whether it succeeded.
  abbrev pub Marks : Bool → (PaymentResult → PaymentResult) → Type 0
  Marks submitted f =
      (r : PaymentResult)
      → ((f r).recipient ≡ r.recipient)
        × ((f r).amount ≡ r.amount)
        × ((f r).asset ≡ r.asset)
        × ((f r).row_index ≡ r.row_index)
        × (is_success (f r).status ≡ submitted)

  place-Names : (p : PaymentInstruction) → Names p (place world config p).result
  unfolding place failed_result
  place-Names p = record {
    recipient_of = ground arith;
    amount_of = ground arith;
    asset_of = ground arith;
    row_of = ground arith;
  }

  place-failure : (p : PaymentInstruction) → (place world config p).result.status ≡ failure
  unfolding place failed_result
  place-failure p = ground arith

  place_unvalidated :
      (p : PaymentInstruction) (e : String)
      → world.validate_payment_instruction p ≡ some e
      → ((place world config p).added ≡ false)
        × ((place world config p).result.status ≡ failure)
        × ((place world config p).result.error ≡ some e)
  unfolding place failed_result
  place_unvalidated p e v = (ground (arith, v), ground (arith, v), ground (arith, v))

  unadded-Reports :
      (submitted : Bool) (p : PaymentInstruction)
      → (place world config p).added ≡ false
      → Reports submitted p (place world config p).result
  unadded-Reports submitted p n = record {
    names = place-Names p;
    paid = ground (arith, n, place-failure p);
    unadded = λ e. refl;
    unvalidated = λ e v. let (n, f, t) = place_unvalidated p e v in (f, t);
  }

  marked-Reports :
      (submitted : Bool) (f : PaymentResult → PaymentResult) (p : PaymentInstruction)
      → Marks submitted f
      → Reports submitted p (
          if (place world config p).added
          then f (place world config p).result
          else (place world config p).result)
  marked-Reports submitted f p k =
      let r = place-Names p in
      let x = (place world config p).result in
      elim (Bool-cases (place world config p).added) [
        | inl y ↦ rw (y) (record {
          names = record {
            recipient_of = (k x).0 ∙ r.recipient_of;
            amount_of = (k x).1 ∙ r.amount_of;
            asset_of = (k x).2 ∙ r.asset_of;
            row_of = (k x).3 ∙ r.row_of;
          };
          paid = ground (arith, y, (k x).4);
          unadded = λ n. cc (y, n);
          unvalidated = λ e v. cc (y, (place_unvalidated p e v).0);
        })
        | inr n ↦ rw (n) (unadded-Reports submitted p n)
      ]

  mark-Reports :
      (submitted : Bool) (f : PaymentResult → PaymentResult) (ps : List PaymentInstruction)
      → Marks submitted f
      → Each (Reports submitted) ps (mark f (map (place world config) ps))
  unfolding mark
  mark-Reports submitted f [] k = each_none
  mark-Reports submitted f (p ∷ ps) k =
      each_more (marked-Reports submitted f p k) (mark-Reports submitted f ps k)

  unmarked-Reports :
      (ps : List PaymentInstruction)
      → any_added (map (place world config) ps) ≡ false
      → Each (Reports false) ps (results_of (map (place world config) ps))
  unmarked-Reports [] h = each_none
  unmarked-Reports (p ∷ ps) h =
      each_more (unadded-Reports false p (ground (arith, h)))
        (unmarked-Reports ps (ground (arith, h)))

  settle-Reports :
      (n : ℕ) (ps : List PaymentInstruction) (account : Account)
      → (let o = (settle world config n ps account).0 in Each (Reports o.submitted) ps o.results)
  unfolding settle
  settle-Reports n ps account = elim (submission-cases (world.submit_transaction n)) [
    | inl (h, e) ↦ rw (e, settle) (mark-Reports true _ ps (λ r. (refl, refl, refl, refl, refl)))
    | inr (error, e) ↦
        rw (e, settle)
          (mark-Reports (is_success (reconciled_status world config n error)) _ ps
            (λ r. (refl, refl, refl, refl, refl)))
  ]

  -- A transaction's results are those of its payments, one by one.
  pub submit_built-Reports :
      (n : ℕ) (ps : List PaymentInstruction) (account : Account)
      → (let o = (submit_built world config n ps account).0 in
          Each (Reports o.submitted) ps o.results)
  unfolding submit_built
  submit_built-Reports n ps account = elim (Bool-cases (any_added (map (place world config) ps))) [
    | inl y ↦ rw (y, submit_built) (settle-Reports n ps account)
    | inr z ↦ rw (z, submit_built) (unmarked-Reports ps z)
  ]
