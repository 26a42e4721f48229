-- ===== src/ReentrancyGuard/Tests.antt =====
-- Runs of the reentrancy guard, and the theorems at these inputs.
use stellar_batch_pay.Base.{
  ◌≡◌, ◌≢◌, refl, arith, String, true, none, some, [], ◌∷◌, ok, err, entry, set_entry, delete_entry,
  str_eq_iff, false,
}
use stellar_batch_pay.ReentrancyGuard.{
  Guard, Request, granted, acquire_guard, acquire_nested, acquire_after_mutex, get_active_lock,
  get_storage_item, memory_lock, request_key, in_progress, new_lock, release, default_lock_ttl_ms,
  lock_text, call_release, release_guard, release_last, release_nested,
}
use stellar_batch_pay.ReentrancyGuard.Browser.{
  Browser, acquire_in_browser, acquire_in_browser_expired,
}
use stellar_batch_pay.ReentrancyGuard.Exclusion.{acquire_guard-Excludes, look, take, share}
use stellar_batch_pay.ReentrancyGuard.Nesting.{
  leave as leave_at, acquire_guard-Nests, enter, turns, leaves,
}

abbrev tab : Guard
tab = record {
  memory_lock_store = [];
  local_ref_counts = [];
  web_lock_releases = [];
  storage_available = true;
  can_store = true;
  storage = [];
  sent = [];
  unlocked = [];
}

abbrev deposit : Request
deposit = record {
  public_key = "GA";
  operation = "deposit";
  holder_id = "tab_1";
  ttl_ms = default_lock_ttl_ms;
}

abbrev rival : Request
rival = record deposit { holder_id = "tab_2" }

abbrev taken : Guard
taken = (acquire_guard granted (λ x. x) 1000 1001 deposit tab).1

taken_lem : (acquire_guard granted (λ x. x) 1000 1001 deposit tab).0 ≡ ok release
unfolding acquire_guard acquire_nested acquire_after_mutex get_active_lock memory_lock
    get_storage_item entry set_entry delete_entry
taken_lem = refl

abbrev stored : Guard
stored = record tab { storage = (request_key deposit, lock_text (new_lock 1000 deposit)) ∷ [] }

stored_lem : entry (request_key deposit) stored.storage ≡ some (lock_text (new_lock 1000 deposit))
unfolding entry request_key
stored_lem = refl

abbrev browser : Browser
browser = record { supported = true; held = "GB:deposit" ∷ [] }

acquire_in_browser_expired_example :
    (acquire_in_browser browser (λ x. x) 200000 200001 rival stored).0 ≡ ok release
unfolding request_key
acquire_in_browser_expired_example =
    acquire_in_browser_expired (λ x. x) 200000 200001 rival stored browser (request_key deposit)
      (new_lock 1000 deposit) (refl, stored_lem) refl (omega arith) (omega arith) (λ x e. e)

other_tab : ◌≢◌ {A = String} "tab_2" "tab_1"
other_tab = ground (arith, str_eq_iff "tab_2" "tab_1")

acquire_guard-Excludes_example :
    (acquire_guard granted
      (λ x. x)
      5000
      5001
      rival
      (record tab {
        storage =
            share taken.storage ((tab, look 2000 "GA:deposit") ∷ (tab, take 3000 3001 rival) ∷ []);
      })).0
    ≡ err (in_progress "GA" "deposit")
unfolding request_key
acquire_guard-Excludes_example =
    acquire_guard-Excludes granted (λ x. x) 1000 1001 deposit tab (λ x w. w) (refl, refl) taken_lem
      ((tab, look 2000 "GA:deposit") ∷ (tab, take 3000 3001 rival) ∷ [])
      ((refl, omega arith), ((refl, (omega arith, ground (arith, str_eq_iff "tab_1" "tab_2"))), tt))
      granted (λ x. x) 5000 5001 rival tab refl refl other_tab (omega arith)

acquire_guard-Nests_example :
    ((get_active_lock 7000
        (request_key deposit)
        (turns deposit (enter 2000 ∷ enter 3000 ∷ leave_at 4000 ∷ []) taken)).0
      ≡ some (new_lock 1000 deposit))
    × ((get_active_lock 9000 (request_key deposit) (
          turns deposit
            (leaves 7000 2)
            (turns deposit (enter 2000 ∷ enter 3000 ∷ leave_at 4000 ∷ []) taken))).0
        ≡ none)
acquire_guard-Nests_example =
    acquire_guard-Nests granted (λ x. x) 1000 1001 deposit tab (λ x w. w) (refl, refl) taken_lem
      (enter 2000 ∷ enter 3000 ∷ leave_at 4000 ∷ []) 1 7000 9000
      (omega arith, (omega arith, (omega arith, tt))) refl (omega arith)

abbrev nested : Guard
nested = (acquire_guard granted (λ x. x) 2000 2000 deposit taken).1

-- A second call of the function of a nested lock frees the outer lock,
release_nested_twice :
    (get_active_lock 5000
      (request_key deposit)
      (call_release 4000 release_nested deposit
        (call_release 3000 release_nested deposit (false, nested))).1).0
    ≡ none
unfolding call_release release_guard release_last acquire_guard acquire_nested acquire_after_mutex
    get_active_lock memory_lock get_storage_item entry set_entry delete_entry request_key
release_nested_twice = refl

-- and a second call of that of the outer one does nothing.
release_twice :
    (call_release 4000 release deposit (call_release 3000 release deposit (false, nested)))
    ≡ call_release 3000 release deposit (false, nested)
unfolding call_release
release_twice = refl
