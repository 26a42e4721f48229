-- ===== src/ReentrancyGuard/Storage.antt =====
-- lib/stellar/reentrancy-guard.ts: what the helpers leave of a lock that is in the storage.
use stellar_batch_pay.Base.{
  ℕ, ◌<◌, ◌≡◌, String, true, false, none, some, arith, ltb, lt→ltb, str_eq, str_eq_refl, entry,
  entry-delete_entry,
}
use stellar_batch_pay.ReentrancyGuard.{
  LockRecord, lock_text, Guard, get_storage_item, remove_storage_item, remember, forget,
  memory_lock, get_active_lock,
}

-- `r` is the lock stored for `key`.
abbrev pub IsStored : String → LockRecord → Guard → Type 0
IsStored key r g = (g.storage_available ≡ true) × (entry key g.storage ≡ some (lock_text r))

module _ (key : String) (r : LockRecord) where
  pub get_active_lock_stored :
      (now : ℕ) (g : Guard)
      → IsStored key r g
      → now < r.expires_at
      → get_active_lock now key g ≡ (some r, remember key r g)
  unfolding get_active_lock get_storage_item
  get_active_lock_stored now g (a, e) live = ground (arith, lt→ltb now r.expires_at live)

  pub get_active_lock_expired :
      (now : ℕ) (g : Guard)
      → IsStored key r g
      → ltb now r.expires_at ≡ false
      → (get_active_lock now key g).0 ≡ none
  unfolding get_active_lock get_storage_item memory_lock forget remove_storage_item
  get_active_lock_expired now g (a, e) dead =
      ground (arith, entry-delete_entry key key g.memory_lock_store, str_eq_refl key)

  pub remove_storage_item-IsStored :
      (k : String) (g : Guard)
      → str_eq k key ≡ false
      → IsStored key r g
      → IsStored key r (remove_storage_item k g)
  unfolding remove_storage_item
  remove_storage_item-IsStored k g other (a, e) = ground (arith, entry-delete_entry k key g.storage)

  memory_lock-IsStored :
      (now : ℕ) (k : String) (g : Guard) → IsStored key r g → IsStored key r (memory_lock now k g).1
  unfolding memory_lock forget
  memory_lock-IsStored now k g h = ground arith

  -- A look at another key keeps the lock.
  pub get_active_lock_other :
      (now : ℕ) (k : String) (g : Guard)
      → str_eq k key ≡ false
      → IsStored key r g
      → IsStored key r (get_active_lock now k g).1
  unfolding get_active_lock forget remember
  get_active_lock_other now k g other h =
      let removed = remove_storage_item-IsStored k g other h in
      let cleaned = memory_lock-IsStored now k (forget k (remove_storage_item k g)) removed in
      let kept = memory_lock-IsStored now k g h in ground arith

-- The tab can read and write the storage.
abbrev pub IsWritable : Guard → Type 0
IsWritable g = (g.storage_available ≡ true) × (g.can_store ≡ true)

memory_lock-IsWritable :
    (now : ℕ) (key : String) (g : Guard) → IsWritable g → IsWritable (memory_lock now key g).1
unfolding memory_lock forget
memory_lock-IsWritable now key g w = ground arith

pub get_active_lock-IsWritable :
    (now : ℕ) (key : String) (g : Guard) → IsWritable g → IsWritable (get_active_lock now key g).1
unfolding get_active_lock forget remember remove_storage_item
get_active_lock-IsWritable now key g w = ground (
  arith,
  memory_lock-IsWritable now key g,
  memory_lock-IsWritable now key (forget key (remove_storage_item key g)),
)
