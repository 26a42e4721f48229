-- ===== src/RateLimit/Window.antt =====
-- How many requests a window lets through.
use stellar_batch_pay.Base.{
  ℕ, suc, ◌+◌, ◌-◌, ◌≤◌, ◌<◌, max, ◌≡◌, ◌∙◌, ap, ◌≢◌, inl, inr, some, List, [], ◌∷◌, arith, min,
  leb, if◌then◌else◌, Bool-cases,
}
use stellar_batch_pay.RateLimit.{Bucket, new_bucket, Args, find_bucket, consume_sqlite}
use stellar_batch_pay.RateLimit.Spec.{
  consume, consume_spent, consume_left, consume_opens, alone, consume_sqlite-Implements,
}

-- A request for the key, at a time, or one for another key.
pub data Call : Type 0 where
  ours : ℕ → Call
  theirs : ℕ → Args → Call

module _ (args : Args) where
  -- How many of our requests the SQLite backend lets through.
  pub granted : List Call → List Bucket → ℕ
  granted [] bs = 0
  granted (ours now ∷ calls) bs =
      let (state, bs') = consume_sqlite alone now args bs in
      (if state.blocked then 0 else 1) + granted calls bs'
  granted (theirs now other ∷ calls) bs = granted calls (consume_sqlite alone now other bs).1

  abbrev pub our_count : List Call → ℕ
  our_count [] = 0
  our_count (ours now ∷ calls) = suc (our_count calls)
  our_count (theirs now other ∷ calls) = our_count calls

  -- Our requests come before the window's end; the others have other keys.
  abbrev pub Within : ℕ → List Call → Type 0
  Within end [] = Unit
  Within end (ours now ∷ calls) = (now < end) × Within end calls
  Within end (theirs now other ∷ calls) = (args.key ≢ other.key) × Within end calls

  granted_open :
      (calls : List Call) (bs : List Bucket) (b : Bucket)
      → find_bucket args.key bs ≡ some b
      → Within b.reset_at calls
      → granted calls bs ≡ min (our_count calls) b.remaining
  unfolding granted
  granted_open [] bs b e w = omega arith
  granted_open (theirs now other ∷ calls) bs b e (ne, w) =
      granted_open calls (consume_sqlite alone now other bs).1 b
        ((consume_sqlite-Implements now other bs).others_kept args.key ne ∙ e) w
  granted_open (ours now ∷ calls) bs b e (before, w) =
      let i = consume_sqlite-Implements now args bs in
      let bs' = (consume_sqlite alone now args bs).1 in
      elim (Bool-cases (leb b.remaining 0)) [
        | inl z ↦
            let (a, f) = consume_spent now args b before z in
            let rest =
              granted_open calls bs' b (i.same_bucket ∙ ap (λ o. (consume now args o).1) e ∙ f) w in
            ground (arith, i.same_answer, a, e, rest)
        | inr p ↦
            let (a, f) = consume_left now args b before p in
            let rest =
              granted_open calls bs' (record b { remaining = b.remaining - 1 })
                (i.same_bucket ∙ ap (λ o. (consume now args o).1) e ∙ f) w in
            ground (arith, i.same_answer, a, e, rest)
      ]

  -- From a request that finds no open window until that window ends, whatever comes for other keys, the
  -- SQLite backend, where no other process writes between its two statements, lets through all requests
  -- for the key up to the limit, and one where the limit is 0.
  pub granted_window :
      (now : ℕ) (calls : List Call) (bs : List Bucket)
      → ((b : Bucket) → find_bucket args.key bs ≡ some b → b.reset_at ≤ now)
      → Within (now + args.window_ms) calls
      → granted (ours now ∷ calls) bs ≡ min (suc (our_count calls)) (max 1 args.limit)
  unfolding granted new_bucket
  granted_window now calls bs shut w =
      let i = consume_sqlite-Implements now args bs in
      let (a, f) = consume_opens now args (find_bucket args.key bs) shut in
      let rest =
        granted_open calls (consume_sqlite alone now args bs).1 (new_bucket now args)
          (i.same_bucket ∙ f) w in
      ground (arith, i.same_answer, a, rest)
