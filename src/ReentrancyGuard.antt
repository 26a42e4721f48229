-- ===== src/ReentrancyGuard.antt =====
-- lib/stellar/reentrancy-guard.ts: the lock of an account and operation, kept in `localStorage` and
-- in the memory of a tab. A state is what one tab sees: its own maps and the shared storage. A time
-- is `Date.now()` at a call, in milliseconds. The entries of the storage are those with the prefix
-- `sbp_lock:`, by what follows it; what `JSON.parse` gives back for a stored record is that record.
-- `navigator.locks` is a service: its answer to a request is an argument, which
-- ReentrancyGuard/Browser takes from the mutexes that tabs hold.
pub mod Storage
pub mod Locks
pub mod Exclusion
pub mod Nesting
pub mod Browser
mod Tests
use stellar_batch_pay.Base.{
  ℕ, ◌+◌, ◌-◌, String, Bool, true, false, ◌&&◌, not, Option, none, some, List, [], ◌∷◌, ◌++◌, ltb,
  if◌then◌else◌, str_eq, Result, ok, err, entry, set_entry, delete_entry,
}
use Prim.Native.String

pub record LockRecord : Type 0 where
  pub key : String
  pub holder_id : String
  pub acquired_at : ℕ
  pub expires_at : ℕ
  pub operation : String
  pub public_key : String

pub record ReentrancyError : Type 0 where
  pub message : String
  pub operation : String

abbrev pub default_lock_ttl_ms : ℕ
default_lock_ttl_ms = 120000

-- A stored text: that of a lock, or one that `JSON.parse` refuses.
pub data Stored : Type 0 where
  lock_text : LockRecord → Stored
  unreadable : Stored

pub data Message : Type 0 where
  lock_acquired : LockRecord → Message
  lock_released : String → String → Message
  clear_all : Message

-- `can_store`: `setItem` does not throw. `unlocked`: the web locks whose release was called.
pub record Guard : Type 0 where
  pub memory_lock_store : List (String × LockRecord)
  pub local_ref_counts : List (String × ℕ)
  pub web_lock_releases : List (String × Unit {0})
  pub storage_available : Bool
  pub can_store : Bool
  pub storage : List (String × Stored)
  pub sent : List Message
  pub unlocked : List String

pub get_storage_item : String → Guard → Option Stored
get_storage_item key g = if g.storage_available then entry key g.storage else none

pub set_storage_item : String → Stored → Guard → Guard
set_storage_item key value g =
    if g.storage_available && g.can_store
    then record g { storage = set_entry key value g.storage }
    else g

pub remove_storage_item : String → Guard → Guard
remove_storage_item key g =
    if g.storage_available then record g { storage = delete_entry key g.storage } else g

pub remember : String → LockRecord → Guard → Guard
remember key r g = record g { memory_lock_store = set_entry key r g.memory_lock_store }

pub forget : String → Guard → Guard
forget key g = record g { memory_lock_store = delete_entry key g.memory_lock_store }

abbrev pub broadcast : Message → Guard → Guard
broadcast m g = record g { sent = m ∷ g.sent }

-- `broadcastChannel.onmessage`
pub on_message : Message → Guard → Guard
unfolding remember forget
on_message (lock_acquired r) g = remember r.key r g
on_message (lock_released key holder) g = forget key g
on_message clear_all g = record g { memory_lock_store = [] }

-- The listener of `storage` events: the key and its new value.
pub on_storage : String → Option Stored → Guard → Guard
unfolding remember forget
on_storage key none g = forget key g
on_storage key (some (lock_text r)) g = remember key r g
on_storage key (some unreadable) g = forget key g

pub make_guard_key : String → String → String
make_guard_key public_key operation = String.◌++◌ public_key (String.◌++◌ ":" operation)

-- The look into the memory, after the storage gave no lock.
pub memory_lock : ℕ → String → Guard → Option LockRecord × Guard
unfolding forget
memory_lock now key g = elim (entry key g.memory_lock_store) [
  | none ↦ (none, g)
  | some r ↦ if ltb now r.expires_at then (some r, g) else (none, forget key g)
]

pub get_active_lock : ℕ → String → Guard → Option LockRecord × Guard
unfolding memory_lock get_storage_item remove_storage_item remember forget
get_active_lock now key g = elim (get_storage_item key g) [
  | none ↦ memory_lock now key g
  | some unreadable ↦ memory_lock now key (forget key (remove_storage_item key g))
  | some (lock_text r) ↦
      if ltb now r.expires_at
      then (some r, remember key r g)
      else memory_lock now key (forget key (remove_storage_item key g))
]

pub is_locked : ℕ → String → String → Guard → Bool × Guard
unfolding get_active_lock make_guard_key
is_locked now public_key operation g =
    let (lock, g') = get_active_lock now (make_guard_key public_key operation) g in
    (elim lock [ none ↦ false | some r ↦ true ], g')

-- The two kinds of function that `acquireGuard` returns.
pub data Release : Type 0 where
  release_nested release : Release

abbrev pub in_progress : String → String → ReentrancyError
in_progress public_key operation = record {
  message = String.◌++◌ "A " (
      String.◌++◌ operation (
        String.◌++◌ " call for " (
          String.◌++◌ public_key
            " is already in progress in another tab or action. Please wait for it to confirm or complete before submitting another.")));
  operation = operation;
}

pub record Request : Type 0 where
  pub public_key : String
  pub operation : String
  pub holder_id : String
  pub ttl_ms : ℕ

pub request_key : Request → String
unfolding make_guard_key
request_key q = make_guard_key q.public_key q.operation

-- `acquireGuard` as far as the request for the mutex: `none` where it goes on to that.
pub acquire_nested : ℕ → Request → Guard → Result ReentrancyError (Option Release) × Guard
unfolding get_active_lock request_key
acquire_nested now q g =
    let (lock, g') = get_active_lock now (request_key q) g in
    elim lock [
      | none ↦ (ok none, g')
      | some r ↦
          if str_eq r.holder_id q.holder_id
          then (
            ok (some release_nested),
            record g' {
              local_ref_counts =
                  set_entry (request_key q)
                    ((elim (entry (request_key q) g'.local_ref_counts) [ none ↦ 1 | some n ↦ n ])
                      + 1)
                    g'.local_ref_counts;
            },
          )
          else (err (in_progress q.public_key q.operation), g')
    ]

-- `webLockReleases.get(key)?.()` and the deletion of its entry.
pub web_unlock : String → Guard → Guard
web_unlock key g = elim (entry key g.web_lock_releases) [
  | none ↦ g
  | some t ↦ record g {
    web_lock_releases = delete_entry key g.web_lock_releases;
    unlocked = key ∷ g.unlocked;
  }
]

abbrev pub new_lock : ℕ → Request → LockRecord
new_lock now q = record {
  key = request_key q;
  holder_id = q.holder_id;
  acquired_at = now;
  expires_at = now + q.ttl_ms;
  operation = q.operation;
  public_key = q.public_key;
}

-- The writes of a lock that is free, by the time `now` at which the call began.
pub take_lock : ℕ → Request → Guard → Guard
unfolding remember set_storage_item request_key
take_lock now q g =
    let g' = remember (request_key q) (new_lock now q) g in
    let counted = record g' {
      local_ref_counts = set_entry (request_key q) 1 g'.local_ref_counts;
    } in
    broadcast (lock_acquired (new_lock now q))
      (set_storage_item (request_key q) (lock_text (new_lock now q)) counted)

-- `acquireGuard` after the mutex; `later` is the time of the second look.
pub acquire_after_mutex : ℕ → ℕ → Request → Guard → Result ReentrancyError Release × Guard
unfolding get_active_lock request_key web_unlock take_lock
acquire_after_mutex now later q g =
    let (lock, g') = get_active_lock later (request_key q) g in
    let taken : Result ReentrancyError Release × Guard = (ok release, take_lock now q g') in
    elim lock [
      | none ↦ taken
      | some r ↦
          if str_eq r.holder_id q.holder_id
          then taken
          else (err (in_progress q.public_key q.operation), web_unlock (request_key q) g')
    ]

-- What `navigator.locks` does: it is missing, or the request is refused or granted.
pub data WebLocks : Type 0 where
  missing refused granted : WebLocks

-- `meanwhile`: what happens while the request is awaited.
pub acquire_guard :
    WebLocks → (Guard → Guard) → ℕ → ℕ → Request → Guard → Result ReentrancyError Release × Guard
unfolding acquire_nested acquire_after_mutex
acquire_guard web meanwhile now later q g =
    let (first, g') = acquire_nested now q g in
    elim first [
      | err e ↦ (err e, g')
      | ok (some nested) ↦ (ok nested, g')
      | ok none ↦ elim web [
        | missing ↦ acquire_after_mutex now later q g'
        | refused ↦ (err (in_progress q.public_key q.operation), meanwhile g')
        | granted ↦ acquire_after_mutex now later q (
            meanwhile
              (record g' { web_lock_releases = set_entry (request_key q) tt g'.web_lock_releases }))
      ]
    ]

-- The end of `releaseGuard`, for the last of the nested locks.
pub release_last : ℕ → String → String → Guard → Guard
unfolding get_active_lock forget remove_storage_item web_unlock
release_last now key holder g =
    let (lock, g') =
      get_active_lock now key
        (record g { local_ref_counts = delete_entry key g.local_ref_counts }) in
    let freed = broadcast (lock_released key holder) (remove_storage_item key (forget key g')) in
    elim lock [
      | none ↦ freed
      | some r ↦ if str_eq r.holder_id holder then web_unlock key freed else g'
    ]

pub release_guard : ℕ → String → String → String → Guard → Guard
unfolding make_guard_key release_last
release_guard now public_key operation holder g =
    let key = make_guard_key public_key operation in
    let last = release_last now key holder g in
    elim (entry key g.local_ref_counts) [
      | none ↦ last
      | some n ↦
          if ltb 1 n
          then record g { local_ref_counts = set_entry key (n - 1) g.local_ref_counts }
          else last
    ]

-- A call of the function that `acquireGuard` returned, and its `released`.
pub call_release : ℕ → Release → Request → Bool × Guard → Bool × Guard
unfolding release_guard
call_release now release_nested q (released, g) =
    (released, release_guard now q.public_key q.operation q.holder_id g)
call_release now release q (released, g) =
    if released then (true, g) else (true, release_guard now q.public_key q.operation q.holder_id g)

released_keys : List (String × Unit {0}) → List String
released_keys [] = []
released_keys ((k, t) ∷ ks) = k ∷ released_keys ks

pub clear_all_guards : Guard → Guard
unfolding released_keys
clear_all_guards g = broadcast clear_all (record g {
  unlocked = released_keys g.web_lock_releases ++ g.unlocked;
  web_lock_releases = [];
  memory_lock_store = [];
  local_ref_counts = [];
  storage = if g.storage_available then [] else g.storage;
})
