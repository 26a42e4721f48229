-- ===== src/ReentrancyGuard/Nesting.antt =====
-- lib/stellar/reentrancy-guard.ts: nested locks of one holder, and the last release.
use stellar_batch_pay.Base.{
  ℕ, zero, suc, ◌+◌, ◌<◌, ◌≡◌, refl, Option, none, some, arith, str_eq_iff, str_eq_refl, entry,
  delete_entry, set_entry, entry-delete_entry, entry-set_entry, List, [], ◌∷◌, All, ok, ap,
}
use stellar_batch_pay.ReentrancyGuard.{
  LockRecord, Guard, get_storage_item, remove_storage_item, remember, forget, memory_lock,
  get_active_lock, web_unlock, acquire_guard, acquire_nested, acquire_after_mutex, WebLocks,
  missing, Request, request_key, release, release_guard, release_last, take_lock, new_lock,
  set_storage_item,
}
use stellar_batch_pay.ReentrancyGuard.Storage.{IsStored, get_active_lock_stored, IsWritable}
use stellar_batch_pay.ReentrancyGuard.Exclusion.{acquire_guard-IsStored}

-- The lock of `q`, taken `depth` times.
abbrev pub IsHeld : Request → LockRecord → ℕ → Guard → Type 0
IsHeld q r depth g =
    IsStored (request_key q) r g
    × (r.holder_id ≡ q.holder_id)
    × (entry (request_key q) g.local_ref_counts ≡ some depth)

-- What the holder does, and when.
pub data Turn : Type 0 where
  enter leave : ℕ → Turn

pub turn : Request → Turn → Guard → Guard
unfolding acquire_guard release_guard
turn q (enter t) g = (acquire_guard missing (λ x. x) t t q g).1
turn q (leave t) g = release_guard t q.public_key q.operation q.holder_id g

pub turns : Request → List Turn → Guard → Guard
unfolding turn
turns q [] g = g
turns q (t ∷ ts) g = turns q ts (turn q t g)

-- How often the lock is held afterwards, unless it is given up on the way.
abbrev pub depth_after : List Turn → ℕ → Option ℕ
depth_after [] c = some c
depth_after (enter t ∷ ts) c = depth_after ts (suc c)
depth_after (leave t ∷ ts) (suc (suc c)) = depth_after ts (suc c)
depth_after (leave t ∷ ts) (suc zero) = none
depth_after (leave t ∷ ts) zero = none

abbrev pub at : Turn → ℕ
at (enter t) = t
at (leave t) = t

module _ (q : Request) (r : LockRecord) where
  enter-IsHeld :
      (t c : ℕ) (g : Guard)
      → t < r.expires_at
      → IsHeld q r c g
      → IsHeld q r (suc c) (turn q (enter t) g)
  unfolding turn acquire_guard acquire_nested remember
  enter-IsHeld t c g live (stored, same, count) =
      let seen = get_active_lock_stored (request_key q) r t g stored live in
      ground (
        arith,
        seen,
        str_eq_iff r.holder_id q.holder_id,
        entry-set_entry (request_key q) (request_key q) (c + 1) g.local_ref_counts,
        str_eq_refl (request_key q),
      )

  leave-IsHeld :
      (t c : ℕ) (g : Guard) → IsHeld q r (suc (suc c)) g → IsHeld q r (suc c) (turn q (leave t) g)
  unfolding turn release_guard request_key
  leave-IsHeld t c g (stored, same, count) = ground (
    arith,
    entry-set_entry (request_key q) (request_key q) (suc c) g.local_ref_counts,
    str_eq_refl (request_key q),
  )

  pub turns-IsHeld :
      (ts : List Turn) (c d : ℕ) (g : Guard)
      → All (λ (t : Turn). at t < r.expires_at) ts
      → depth_after ts c ≡ some d
      → IsHeld q r c g
      → IsHeld q r d (turns q ts g)
  unfolding turns
  turns-IsHeld [] c d g live e h = ground arith
  turns-IsHeld (enter t ∷ ts) c d g (now, live) e h =
      turns-IsHeld ts (suc c) d (turn q (enter t) g) live e (enter-IsHeld t c g now h)
  turns-IsHeld (leave t ∷ ts) (suc (suc c)) d g (now, live) e h =
      turns-IsHeld ts (suc c) d (turn q (leave t) g) live e (leave-IsHeld t c g h)
  turns-IsHeld (leave t ∷ ts) (suc zero) d g live e h = cc
  turns-IsHeld (leave t ∷ ts) zero d g live e h = cc

  -- The last release leaves no lock behind.
  release_last_own :
      (t : ℕ) (g : Guard)
      → t < r.expires_at
      → IsStored (request_key q) r g
      → r.holder_id ≡ q.holder_id
      → let g' = release_last t (request_key q) q.holder_id g in
        (get_storage_item (request_key q) g' ≡ none)
        × (entry (request_key q) g'.memory_lock_store ≡ none)
  unfolding release_last get_storage_item remove_storage_item forget web_unlock
  release_last_own t g live stored same =
      let k = request_key q in
      let g0 = record g { local_ref_counts = delete_entry k g.local_ref_counts } in
      ground (
        arith,
        get_active_lock_stored k r t g0 stored live,
        str_eq_iff r.holder_id q.holder_id,
        entry-delete_entry k k g.storage,
        entry-delete_entry k k (remember k r g0).memory_lock_store,
        str_eq_refl k,
      )

  leave_last :
      (t later : ℕ) (g : Guard)
      → t < r.expires_at
      → IsHeld q r 1 g
      → (get_active_lock later (request_key q) (turn q (leave t) g)).0 ≡ none
  unfolding turn release_guard request_key get_active_lock memory_lock
  leave_last t later g live (stored, same, count) =
      let gone = release_last_own t g live stored same in ground arith

take_lock-local_ref_counts :
    (now : ℕ) (q : Request) (g : Guard)
    → entry (request_key q) (take_lock now q g).local_ref_counts ≡ some 1
unfolding take_lock remember set_storage_item
take_lock-local_ref_counts now q g = ground (
  arith,
  entry-set_entry (request_key q) (request_key q) 1 g.local_ref_counts,
  str_eq_refl (request_key q),
)

acquire_after_mutex-local_ref_counts :
    (now later : ℕ) (q : Request) (g : Guard)
    → (acquire_after_mutex now later q g).0 ≡ ok release
    → entry (request_key q) (acquire_after_mutex now later q g).1.local_ref_counts ≡ some 1
unfolding acquire_after_mutex
acquire_after_mutex-local_ref_counts now later q g e =
    let counts = take_lock-local_ref_counts now q (get_active_lock later (request_key q) g).1 in
    ground arith

acquire_guard-IsHeld :
    (web : WebLocks) (meanwhile : Guard → Guard) (now later : ℕ) (q : Request) (g : Guard)
    → ((x : Guard) → IsWritable x → IsWritable (meanwhile x))
    → IsWritable g
    → (acquire_guard web meanwhile now later q g).0 ≡ ok release
    → IsHeld q (new_lock now q) 1 (acquire_guard web meanwhile now later q g).1
unfolding acquire_guard acquire_nested
acquire_guard-IsHeld web meanwhile now later q g keeps w e =
    let g' = (get_active_lock now (request_key q) g).1 in
    let locked = record g' {
      web_lock_releases = set_entry (request_key q) tt g'.web_lock_releases;
    } in
    (
      acquire_guard-IsStored web meanwhile now later q g keeps w e,
      refl,
      ground (
        arith,
        acquire_after_mutex-local_ref_counts now later q g',
        acquire_after_mutex-local_ref_counts now later q (meanwhile locked),
      ),
    )

abbrev pub leaves : ℕ → ℕ → List Turn
leaves t zero = []
leaves t (suc n) = leave t ∷ leaves t n

turns-leaves :
    (q : Request) (r : LockRecord) (t later n : ℕ) (g : Guard)
    → t < r.expires_at
    → IsHeld q r (suc n) g
    → (get_active_lock later (request_key q) (turns q (leaves t (suc n)) g)).0 ≡ none
unfolding turns
turns-leaves q r t later zero g live h = leave_last q r t later g live h
turns-leaves q r t later (suc n) g live h =
    turns-leaves q r t later n (turn q (leave t) g) live (leave-IsHeld q r t n g h)

-- A tab takes a lock, and before it expires requests it again and releases it, any number of times
-- and in any order, so that no release is the last one. Then until its expiry the lock is still the
-- one that was taken, and just as many releases as it is held times leave no lock at all.
pub acquire_guard-Nests :
    (web : WebLocks) (meanwhile : Guard → Guard) (now later : ℕ) (q : Request) (g : Guard)
    → ((x : Guard) → IsWritable x → IsWritable (meanwhile x))
    → IsWritable g
    → (acquire_guard web meanwhile now later q g).0 ≡ ok release
    → (ts : List Turn) (depth t after : ℕ) → All (λ (x : Turn). at x < now + q.ttl_ms) ts
    → depth_after ts 1 ≡ some (suc depth)
    → t < now + q.ttl_ms
    → let held = turns q ts (acquire_guard web meanwhile now later q g).1 in
      ((get_active_lock t (request_key q) held).0 ≡ some (new_lock now q))
      × ((get_active_lock after (request_key q) (turns q (leaves t (suc depth)) held)).0 ≡ none)
acquire_guard-Nests web meanwhile now later q g keeps w e ts depth t after live d soon =
    let start = (acquire_guard web meanwhile now later q g).1 in
    let held =
      turns-IsHeld q (new_lock now q) ts 1 (suc depth) start live d
        (acquire_guard-IsHeld web meanwhile now later q g keeps w e) in
    (
      ap (λ p. p.0)
          (get_active_lock_stored (request_key q) (new_lock now q) t (turns q ts start) held.0
            soon),
      turns-leaves q (new_lock now q) t after depth (turns q ts start) soon held,
    )
