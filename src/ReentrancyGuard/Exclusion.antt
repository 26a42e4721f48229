-- ===== src/ReentrancyGuard/Exclusion.antt =====
-- lib/stellar/reentrancy-guard.ts: a lock keeps other holders out, in every tab that shares the
-- storage.
use stellar_batch_pay.Base.{
  ℕ, ◌<◌, ◌≡◌, ap, String, ◌&&◌, true, false, some, List, [], ◌∷◌, arith, str_eq, str_eq_iff,
  delete_entry, entry-set_entry, Bool-cases, inl, inr, All, ok, str_eq_refl, entry, set_entry, ◌≢◌,
  err, ◌+◌, sym,
}
use stellar_batch_pay.ReentrancyGuard.{
  LockRecord, Stored, lock_text, Guard, set_storage_item, remember, forget, get_active_lock,
  web_unlock, Request, request_key, make_guard_key, new_lock, take_lock, acquire_nested,
  acquire_after_mutex, release_last, release_guard, WebLocks, acquire_guard, release, in_progress,
}
use stellar_batch_pay.ReentrancyGuard.Storage.{
  IsStored, get_active_lock_stored, get_active_lock_other, remove_storage_item-IsStored, IsWritable,
  get_active_lock-IsWritable,
}

-- What a tab does in one turn of its event loop.
pub data Act : Type 0 where
  look : ℕ → String → Act
  ask : ℕ → Request → Act
  take : ℕ → ℕ → Request → Act
  leave : ℕ → String → String → String → Act

pub act : Act → Guard → Guard
unfolding get_active_lock acquire_nested acquire_after_mutex release_guard
act (look now key) g = (get_active_lock now key g).1
act (ask now q) g = (acquire_nested now q g).1
act (take now later q) g = (acquire_after_mutex now later q g).1
act (leave now public_key operation holder) g = release_guard now public_key operation holder g

-- The storage after the acts of tabs that share it, each with its own maps.
pub share : List (String × Stored) → List (Guard × Act) → List (String × Stored)
unfolding act
share s [] = s
share s ((tab, a) ∷ acts) = share (act a (record tab { storage = s })).storage acts

-- An act before the expiry of `r`, by a holder other than that of `r` where it is for its key.
abbrev pub IsForeign : String → LockRecord → Act → Type 0
IsForeign key r (look now k) = now < r.expires_at
IsForeign key r (ask now q) = now < r.expires_at
IsForeign key r (take now later q) =
    (later < r.expires_at)
    × ((str_eq (request_key q) key && str_eq r.holder_id q.holder_id) ≡ false)
IsForeign key r (leave now public_key operation holder) =
    (now < r.expires_at)
    × ((str_eq (make_guard_key public_key operation) key && str_eq r.holder_id holder) ≡ false)

module _ (key : String) (r : LockRecord) where
  look-IsStored :
      (now : ℕ) (k : String) (g : Guard)
      → now < r.expires_at
      → IsStored key r g
      → IsStored key r (get_active_lock now k g).1
  unfolding remember
  look-IsStored now k g live h = elim (Bool-cases (str_eq k key)) [
    | inl same ↦
        ground (arith, str_eq_iff k key, ap (λ p. p.1) (get_active_lock_stored key r now g h live))
    | inr other ↦ get_active_lock_other key r now k g other h
  ]

  -- The lock found for its own key is `r`.
  found :
      (now : ℕ) (k : String) (g : Guard)
      → now < r.expires_at
      → IsStored key r g
      → str_eq k key ≡ true
      → (get_active_lock now k g).0 ≡ some r
  found now k g live h same =
      ground (arith, str_eq_iff k key, ap (λ p. p.0) (get_active_lock_stored key r now g h live))

  ask-IsStored :
      (now : ℕ) (q : Request) (g : Guard)
      → now < r.expires_at
      → IsStored key r g
      → IsStored key r (acquire_nested now q g).1
  unfolding acquire_nested
  ask-IsStored now q g live h = ground (arith, look-IsStored now (request_key q) g live h)

  take_lock_other :
      (now : ℕ) (q : Request) (g : Guard)
      → str_eq (request_key q) key ≡ false
      → IsStored key r g
      → IsStored key r (take_lock now q g)
  unfolding take_lock remember set_storage_item
  take_lock_other now q g other h =
      ground (arith, entry-set_entry (request_key q) key (lock_text (new_lock now q)) g.storage)

  take-IsStored :
      (now later : ℕ) (q : Request) (g : Guard)
      → IsForeign key r (take now later q)
      → IsStored key r g
      → IsStored key r (acquire_after_mutex now later q g).1
  unfolding acquire_after_mutex web_unlock
  take-IsStored now later q g (live, foreign) h =
      let seen = look-IsStored later (request_key q) g live h in
      ground (
        arith,
        seen,
        found later (request_key q) g live h,
        take_lock_other now q (get_active_lock later (request_key q) g).1,
      )

  release_last-IsStored :
      (now : ℕ) (k holder : String) (g : Guard)
      → now < r.expires_at
      → (str_eq k key && str_eq r.holder_id holder) ≡ false
      → IsStored key r g
      → IsStored key r (release_last now k holder g)
  unfolding release_last web_unlock forget
  release_last-IsStored now k holder g live foreign h =
      let g0 = record g { local_ref_counts = delete_entry k g.local_ref_counts } in
      ground (
        arith,
        look-IsStored now k g0 live h,
        found now k g0 live h,
        remove_storage_item-IsStored key r k (forget k (get_active_lock now k g0).1),
      )

  leave-IsStored :
      (now : ℕ) (public_key operation holder : String) (g : Guard)
      → IsForeign key r (leave now public_key operation holder)
      → IsStored key r g
      → IsStored key r (release_guard now public_key operation holder g)
  unfolding release_guard
  leave-IsStored now public_key operation holder g (live, foreign) h =
      let k = make_guard_key public_key operation in
      let last = release_last-IsStored now k holder g live foreign h in ground arith

  act-IsStored :
      (a : Act) (g : Guard) → IsForeign key r a → IsStored key r g → IsStored key r (act a g)
  unfolding act
  act-IsStored (look now k) g f h = look-IsStored now k g f h
  act-IsStored (ask now q) g f h = ask-IsStored now q g f h
  act-IsStored (take now later q) g f h = take-IsStored now later q g f h
  act-IsStored (leave now p o holder) g f h = leave-IsStored now p o holder g f h

share-IsStored :
    (key : String) (r : LockRecord) (s : List (String × Stored)) (acts : List (Guard × Act))
    → All (λ (p : Guard × Act). (p.0.storage_available ≡ true) × IsForeign key r p.1) acts
    → entry key s ≡ some (lock_text r)
    → entry key (share s acts) ≡ some (lock_text r)
unfolding share
share-IsStored key r s [] f e = e
share-IsStored key r s ((tab, a) ∷ acts) ((on, f), fs) e =
    let kept = act-IsStored key r a (record tab { storage = s }) f (on, e) in
    share-IsStored key r (act a (record tab { storage = s })).storage acts fs kept.1

-- Taking a lock stores it.
take_lock-IsStored :
    (now : ℕ) (q : Request) (g : Guard)
    → IsWritable g
    → IsStored (request_key q) (new_lock now q) (take_lock now q g)
unfolding take_lock remember set_storage_item
take_lock-IsStored now q g w = ground (
  arith,
  entry-set_entry (request_key q) (request_key q) (lock_text (new_lock now q)) g.storage,
  str_eq_refl (request_key q),
)

acquire_after_mutex-IsStored :
    (now later : ℕ) (q : Request) (g : Guard)
    → IsWritable g
    → (acquire_after_mutex now later q g).0 ≡ ok release
    → IsStored (request_key q) (new_lock now q) (acquire_after_mutex now later q g).1
unfolding acquire_after_mutex
acquire_after_mutex-IsStored now later q g w e =
    let w' = get_active_lock-IsWritable later (request_key q) g w in
    let stored = take_lock-IsStored now q (get_active_lock later (request_key q) g).1 w' in
    ground arith

pub acquire_guard-IsStored :
    (web : WebLocks) (meanwhile : Guard → Guard) (now later : ℕ) (q : Request) (g : Guard)
    → ((x : Guard) → IsWritable x → IsWritable (meanwhile x))
    → IsWritable g
    → (acquire_guard web meanwhile now later q g).0 ≡ ok release
    → IsStored (request_key q) (new_lock now q) (acquire_guard web meanwhile now later q g).1
unfolding acquire_guard acquire_nested
acquire_guard-IsStored web meanwhile now later q g keeps w e =
    let w' = get_active_lock-IsWritable now (request_key q) g w in
    let g' = (get_active_lock now (request_key q) g).1 in
    let locked = record g' {
      web_lock_releases = set_entry (request_key q) tt g'.web_lock_releases;
    } in
    ground (
      arith,
      acquire_after_mutex-IsStored now later q g' w',
      acquire_after_mutex-IsStored now later q (meanwhile locked) (keeps locked w'),
    )

refused :
    (q : Request) (now : ℕ) (g : Guard) (web : WebLocks) (meanwhile : Guard → Guard) (later : ℕ)
    (r : LockRecord)
    → (get_active_lock now (request_key q) g).0 ≡ some r
    → r.holder_id ≢ q.holder_id
    → (acquire_guard web meanwhile now later q g).0 ≡ err (in_progress q.public_key q.operation)
unfolding acquire_guard acquire_nested
refused q now g web meanwhile later r e other = elim (Bool-cases (str_eq r.holder_id q.holder_id)) [
  | inl same ↦ absurd (other ((str_eq_iff r.holder_id q.holder_id).0 same))
  | inr differs ↦ ground arith
]

-- After a tab has taken a lock, and whatever other holders do until it expires, in any tab on the
-- same storage (looking, asking, taking and releasing, for any key), a request of another holder for
-- the same account and operation before the expiry is refused.
pub acquire_guard-Excludes :
    (web : WebLocks) (meanwhile : Guard → Guard) (now later : ℕ) (q : Request) (g : Guard)
    → ((x : Guard) → IsWritable x → IsWritable (meanwhile x))
    → IsWritable g
    → (acquire_guard web meanwhile now later q g).0 ≡ ok release
    → (acts : List (Guard × Act))
    → All
        (λ (p : Guard × Act).
          (p.0.storage_available ≡ true) × IsForeign (request_key q) (new_lock now q) p.1)
        acts
    → (web' : WebLocks) (meanwhile' : Guard → Guard) (now' later' : ℕ) (rival : Request)
      (tab : Guard)
    → tab.storage_available ≡ true
    → request_key rival ≡ request_key q
    → rival.holder_id ≢ q.holder_id
    → now' < now + q.ttl_ms
    → (acquire_guard web' meanwhile' now' later' rival (record tab {
      storage = share (acquire_guard web meanwhile now later q g).1.storage acts;
    })).0
      ≡ err (in_progress rival.public_key rival.operation)
acquire_guard-Excludes web meanwhile now later q g keeps w e acts fs web' meanwhile' now' later'
      rival tab on same other live =
    let stored = acquire_guard-IsStored web meanwhile now later q g keeps w e in
    let s = share (acquire_guard web meanwhile now later q g).1.storage acts in
    let kept =
      share-IsStored (request_key q) (new_lock now q)
        (acquire_guard web meanwhile now later q g).1.storage acts fs stored.1 in
    let seen =
      ap (λ p. p.0)
        (get_active_lock_stored (request_key q) (new_lock now q) now' (record tab { storage = s })
          (on, kept) live) in
    refused rival now' (record tab { storage = s }) web' meanwhile' later' (new_lock now q)
      (rw same seen) (λ h. other (sym h))
