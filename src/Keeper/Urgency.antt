-- ===== src/Keeper/Urgency.antt =====
-- The order in which a keeper extends the entries.
use stellar_batch_pay.Base.{
  ℕ, ◌≡◌, refl, ◌∙◌, ap, inl, inr, Bool, true, false, Option, none, some, List, [], ◌∷◌, ◌==◌,
  if◌then◌else◌, arith, All, All-map, Bool-cases,
}
use stellar_batch_pay.Keeper.{
  TtlSnapshot, should_bump_for_ttl, in_window, not_after, insert, sort, prioritize_recipients,
  recipients_of, select_urgent_recipients,
}

-- Each snapshot's ledger is not after those that follow.
abbrev pub Sorted : List TtlSnapshot → Type 0
Sorted [] = Unit
Sorted (s ∷ ss) = All (λ t. not_after s.live_until_ledger t.live_until_ledger ≡ true) ss × Sorted ss

abbrev pub same_ledger : Option ℕ → Option ℕ → Bool
same_ledger none none = true
same_ledger none (some b) = false
same_ledger (some a) none = false
same_ledger (some a) (some b) = a == b

-- The snapshots of one ledger, in order.
pub at_ledger : Option ℕ → List TtlSnapshot → List TtlSnapshot
at_ledger l [] = []
at_ledger l (s ∷ ss) =
    let rest = at_ledger l ss in if same_ledger s.live_until_ledger l then s ∷ rest else rest

not_after_trans :
    (a b c : Option ℕ) → not_after a b ≡ true → not_after b c ≡ true → not_after a c ≡ true
unfolding not_after
not_after_trans none b c h k = refl
not_after_trans (some a) none c h k = ground (arith, h)
not_after_trans (some a) (some b) none h k = ground (arith, k)
not_after_trans (some a) (some b) (some c) h k = ground (arith, h, k)

not_after_total : (a b : Option ℕ) → not_after a b ≡ false → not_after b a ≡ true
unfolding not_after
not_after_total none b h = ground (arith, h)
not_after_total (some a) none h = refl
not_after_total (some a) (some b) h = ground (arith, h)

after-same_ledger :
    (a b l : Option ℕ) → not_after a b ≡ false → same_ledger a l ≡ true → same_ledger b l ≡ false
unfolding not_after
after-same_ledger none b l h k = ground (arith, h)
after-same_ledger (some a) none none h k = ground (arith, k)
after-same_ledger (some a) none (some l) h k = refl
after-same_ledger (some a) (some b) none h k = refl
after-same_ledger (some a) (some b) (some l) h k = ground (arith, h, k)

insert-All :
    (P : TtlSnapshot → Type 0) (s : TtlSnapshot) (ts : List TtlSnapshot)
    → P s
    → All P ts
    → All P (insert s ts)
unfolding insert
insert-All P s [] p h = (p, tt)
insert-All P s (t ∷ ts) p (q, h) =
    elim (Bool-cases (not_after s.live_until_ledger t.live_until_ledger)) [
      | inl y ↦ rw (y, insert) (p, (q, h))
      | inr z ↦ rw (z, insert) (q, insert-All P s ts p h)
    ]

insert-Sorted : (s : TtlSnapshot) (ts : List TtlSnapshot) → Sorted ts → Sorted (insert s ts)
unfolding insert
insert-Sorted s [] h = (tt, tt)
insert-Sorted s (t ∷ ts) (a, h) =
    elim (Bool-cases (not_after s.live_until_ledger t.live_until_ledger)) [
      | inl y ↦
          rw (y, insert)
            (
              (
                y,
                All-map
                    (λ u k.
                      not_after_trans s.live_until_ledger t.live_until_ledger u.live_until_ledger y
                        k)
                    ts a,
              ),
              (a, h),
            )
      | inr z ↦
          rw (z, insert)
            (
              insert-All _ s ts (not_after_total s.live_until_ledger t.live_until_ledger z) a,
              insert-Sorted s ts h,
            )
    ]

at_ledger-insert :
    (l : Option ℕ) (s : TtlSnapshot) (ts : List TtlSnapshot)
    → at_ledger l (insert s ts) ≡ at_ledger l (s ∷ ts)
unfolding insert at_ledger
at_ledger-insert l s [] = refl
at_ledger-insert l s (t ∷ ts) =
    elim (Bool-cases (not_after s.live_until_ledger t.live_until_ledger)) [
      | inl y ↦ ground (arith, y)
      | inr z ↦ ground (
        arith,
        z,
        at_ledger-insert l s ts,
        after-same_ledger s.live_until_ledger t.live_until_ledger l z,
      )
    ]

sort-Sorted : (ss : List TtlSnapshot) → Sorted (sort ss)
unfolding sort
sort-Sorted [] = tt
sort-Sorted (s ∷ ss) = insert-Sorted s (sort ss) (sort-Sorted ss)

at_ledger-sort : (l : Option ℕ) (ss : List TtlSnapshot) → at_ledger l (sort ss) ≡ at_ledger l ss
unfolding sort at_ledger
at_ledger-sort l [] = refl
at_ledger-sort l (s ∷ ss) = at_ledger-insert l s (sort ss) ∙ ground (arith, at_ledger-sort l ss)

ledger_of_same : (a l : Option ℕ) → same_ledger a l ≡ true → a ≡ l
ledger_of_same none none h = refl
ledger_of_same none (some l) h = ground (arith, h)
ledger_of_same (some a) none h = ground (arith, h)
ledger_of_same (some a) (some l) h = ground (arith, h)

at_ledger-in_window :
    (current threshold : ℕ) (l : Option ℕ) (ss : List TtlSnapshot)
    → at_ledger l (in_window current threshold ss)
      ≡ (if should_bump_for_ttl current threshold l then at_ledger l ss else [])
unfolding in_window at_ledger
at_ledger-in_window current threshold l [] = ground arith
at_ledger-in_window current threshold l (s ∷ ss) =
    let rest = at_ledger-in_window current threshold l ss in
    elim (Bool-cases (same_ledger s.live_until_ledger l)) [
      | inl y ↦
          let e =
            ap (should_bump_for_ttl current threshold) (ledger_of_same s.live_until_ledger l y) in
          ground (arith, y, e, rest)
      | inr z ↦ ground (arith, z, rest)
    ]

-- The keeper's list is ordered by the ledgers until which the entries live, the unknown ones first; it
-- has the snapshots of each ledger that is unknown or inside the window, all of them and in the given
-- order, and none of the others.
pub record Prioritized (current threshold : ℕ) (ss result : List TtlSnapshot) : Type 0 where
  pub sorted : Sorted result
  pub chosen :
      (l : Option ℕ)
      → at_ledger l result
        ≡ (if should_bump_for_ttl current threshold l then at_ledger l ss else [])

-- `prioritizeRecipients` orders the snapshots by the ledgers until which the entries live, the unknown
-- ones first; it keeps the snapshots of each ledger that is unknown or inside the window, all of them
-- and in the given order, and none of the others.
pub prioritize_recipients-Prioritized :
    (current threshold : ℕ) (ss : List TtlSnapshot)
    → Prioritized current threshold ss (prioritize_recipients current threshold ss)
unfolding prioritize_recipients
prioritize_recipients-Prioritized current threshold ss = record {
  sorted = sort-Sorted (in_window current threshold ss);
  chosen = λ l.
      at_ledger-sort l (in_window current threshold ss)
      ∙ at_ledger-in_window current threshold l ss;
}

in_window_twice :
    (current threshold : ℕ) (ss : List TtlSnapshot)
    → in_window current threshold (in_window current threshold ss) ≡ in_window current threshold ss
unfolding in_window
in_window_twice current threshold [] = refl
in_window_twice current threshold (s ∷ ss) = ground (arith, in_window_twice current threshold ss)

-- `selectUrgentRecipients`, which filters before the call that filters again, gives the recipients that
-- `prioritizeRecipients` chooses.
pub select_urgent-recipients_of :
    (current threshold : ℕ) (ss : List TtlSnapshot)
    → select_urgent_recipients current threshold ss
      ≡ recipients_of (prioritize_recipients current threshold ss)
unfolding select_urgent_recipients prioritize_recipients
select_urgent-recipients_of current threshold ss =
    ap (λ ts. recipients_of (sort ts)) (in_window_twice current threshold ss)
