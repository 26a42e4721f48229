-- ===== src/ReentrancyGuard/Locks.antt =====
-- lib/stellar/reentrancy-guard.ts: what `getActiveLock` gives, and when a lock no longer blocks.
use stellar_batch_pay.Base.{
  ℕ, ◌≤◌, ◌≡◌, refl, String, Option, none, some, arith, ltb, str_eq_refl, if◌then◌else◌,
  entry-delete_entry, List,
}
use stellar_batch_pay.ReentrancyGuard.{
  LockRecord, Stored, lock_text, unreadable, Guard, get_storage_item, remove_storage_item, remember,
  forget, memory_lock, get_active_lock,
}

-- The lock, unless it has expired by `t`.
abbrev pub while_live : ℕ → Option LockRecord → Option LockRecord
while_live t none = none
while_live t (some r) = if ltb t r.expires_at then some r else none

memory_lock_again :
    (now t : ℕ) (key : String) (g : Guard)
    → now ≤ t
    → (memory_lock t key (memory_lock now key g).1).0 ≡ while_live t (memory_lock now key g).0
unfolding memory_lock forget while_live
memory_lock_again now t key g le =
    ground (arith, entry-delete_entry key key g.memory_lock_store, str_eq_refl key)

forgotten :
    (now : ℕ) (key : String) (g : Guard) → memory_lock now key (forget key g) ≡ (none, forget key g)
unfolding memory_lock forget
forgotten now key g =
    ground (arith, entry-delete_entry key key g.memory_lock_store, str_eq_refl key)

storage-memory_lock :
    (now : ℕ) (key : String) (g : Guard)
    → get_storage_item key (memory_lock now key g).1 ≡ get_storage_item key g
unfolding memory_lock get_storage_item forget
storage-memory_lock now key g = ground arith

storage_removed :
    (key : String) (g : Guard)
    → get_storage_item key (forget key (remove_storage_item key g)) ≡ none
unfolding get_storage_item forget remove_storage_item
storage_removed key g = ground (arith, entry-delete_entry key key g.storage, str_eq_refl key)

storage-remember :
    (key : String) (r : LockRecord) (g : Guard)
    → get_storage_item key (remember key r g) ≡ get_storage_item key g
unfolding get_storage_item remember
storage-remember key r g = refl

again_stored :
    (now t : ℕ) (key : String) (g : Guard) (s : Option Stored)
    → get_storage_item key g ≡ s
    → now ≤ t
    → (get_active_lock t key (get_active_lock now key g).1).0
      ≡ while_live t (get_active_lock now key g).0
unfolding get_active_lock while_live
again_stored now t key g none e le =
    ground (arith, memory_lock_again now t key g le, storage-memory_lock now key g)
again_stored now t key g (some unreadable) e le = ground (
  arith,
  storage_removed key g,
  forgotten now key (remove_storage_item key g),
  forgotten t key (remove_storage_item key g),
)
again_stored now t key g (some (lock_text r)) e le = ground (
  arith,
  storage_removed key g,
  storage-remember key r g,
  forgotten now key (remove_storage_item key g),
  forgotten t key (remove_storage_item key g),
  forgotten t key (remove_storage_item key (remember key r g)),
)

-- A second look, at a later time, gives the lock of the first look if that has not expired, and none
-- otherwise.
pub get_active_lock_again :
    (now t : ℕ) (key : String) (g : Guard)
    → now ≤ t
    → (get_active_lock t key (get_active_lock now key g).1).0
      ≡ while_live t (get_active_lock now key g).0
get_active_lock_again now t key g le = again_stored now t key g (get_storage_item key g) refl le

-- The mutex plays no part in a look.
pub look-web_lock_releases :
    (t : ℕ) (key : String) (g : Guard) (w : List (String × Unit {0}))
    → (get_active_lock t key (record g { web_lock_releases = w })).0 ≡ (get_active_lock t key g).0
unfolding get_active_lock memory_lock get_storage_item forget remove_storage_item
look-web_lock_releases t key g w = ground arith
