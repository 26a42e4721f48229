-- ===== src/ReentrancyGuard/Browser.antt =====
-- lib/stellar/reentrancy-guard.ts: `acquireGuard` in a browser, whose mutexes are asked for with
-- `ifAvailable` and stay with a tab until their release is called or the tab is gone.
use stellar_batch_pay.Base.{
  ℕ, ◌≤◌, ◌≡◌, refl, ◌∙◌, ap, sym, subst, String, Bool, true, false, ◌&&◌, ◌||◌, List, [], ◌∷◌,
  str_eq, str_eq_refl, if◌then◌else◌, Result, ok, err, none, arith, set_entry, Bool-cases, inl, inr,
}
use stellar_batch_pay.ReentrancyGuard.{
  Guard, LockRecord, ReentrancyError, Request, request_key, Release, release, in_progress, WebLocks,
  missing, refused, granted, get_active_lock, acquire_nested, acquire_after_mutex, acquire_guard,
}
use stellar_batch_pay.ReentrancyGuard.Storage.{IsStored, get_active_lock_expired}
use stellar_batch_pay.ReentrancyGuard.Locks.{
  while_live, get_active_lock_again, look-web_lock_releases,
}

-- Whether there is `navigator.locks`, and the mutexes that tabs hold, by their key.
pub record Browser : Type 0 where
  pub supported : Bool
  pub held : List String

abbrev pub is_held : String → List String → Bool
is_held key [] = false
is_held key (k ∷ ks) = str_eq k key || is_held key ks

-- `navigator.locks.request(…, { ifAvailable: true }, …)`
abbrev pub mutex_answer : Browser → String → WebLocks
mutex_answer b key =
    if b.supported then (if is_held key b.held then refused else granted) else missing

-- The mutexes after a call. Where it ends with a `ReentrancyError`, a mutex that it got is given back.
abbrev pub held_after :
    WebLocks → String → Result ReentrancyError Release → List String → List String
held_after granted key (ok release) held = key ∷ held
held_after web key r held = held

pub acquire_in_browser :
    Browser
    → (Guard → Guard)
    → ℕ
    → ℕ
    → Request
    → Guard
    → Result ReentrancyError Release × (Guard × Browser)
unfolding acquire_guard request_key
acquire_in_browser b meanwhile now later q g =
    let web = mutex_answer b (request_key q) in
    let (r, g') = acquire_guard web meanwhile now later q g in
    (r, (g', record b { held = held_after web (request_key q) r b.held }))

-- What happens while the request is awaited puts no live lock where there was none.
abbrev pub IsQuiet : ℕ → String → (Guard → Guard) → Type 0
IsQuiet t key meanwhile =
    (x : Guard)
    → (get_active_lock t key x).0 ≡ none
    → (get_active_lock t key (meanwhile x)).0 ≡ none

module _ (meanwhile : Guard → Guard) (now later : ℕ) (q : Request) (g : Guard) where
  acquire_guard_free :
      (web : WebLocks)
      → IsQuiet later (request_key q) meanwhile
      → (get_active_lock now (request_key q) g).0 ≡ none
      → (get_active_lock later (request_key q) (get_active_lock now (request_key q) g).1).0 ≡ none
      → (acquire_guard web meanwhile now later q g).0
        ≡ (elim web [ refused ↦ err (in_progress q.public_key q.operation) | _ ↦ ok release ])
  unfolding acquire_guard acquire_nested acquire_after_mutex
  acquire_guard_free missing quiet e e' = ground arith
  acquire_guard_free refused quiet e e' = ground arith
  acquire_guard_free granted quiet e e' =
      let g' = (get_active_lock now (request_key q) g).1 in
      let asked = record g' {
        web_lock_releases = set_entry (request_key q) tt g'.web_lock_releases;
      } in
      let free : (get_active_lock later (request_key q) asked).0 ≡ none =
        look-web_lock_releases later (request_key q) g'
          (set_entry (request_key q) tt g'.web_lock_releases)
        ∙ e' in
      let awaited = quiet asked free in ground (arith, awaited)

  expired_answer :
      (key : String) (r : LockRecord) (web : WebLocks)
      → IsStored key r g
      → request_key q ≡ key
      → r.expires_at ≤ now
      → now ≤ later
      → IsQuiet later (request_key q) meanwhile
      → (acquire_guard web meanwhile now later q g).0
        ≡ (elim web [ refused ↦ err (in_progress q.public_key q.operation) | _ ↦ ok release ])
  expired_answer key r web stored same dead le quiet =
      let none_now : (get_active_lock now (request_key q) g).0 ≡ none =
        rw same (get_active_lock_expired key r now g stored (ground arith)) in
      acquire_guard_free web quiet none_now
        (get_active_lock_again now later (request_key q) g le ∙ ap (while_live later) none_now)

  -- Where the storage has an expired lock and nobody takes the lock while the mutex is awaited, a request
  -- gets the lock, whatever the tab remembers, unless the browser has Web Locks and some tab still
  -- holds the mutex: then it is refused, however long the lock has expired.
  pub acquire_in_browser_expired :
      (b : Browser) (key : String) (r : LockRecord)
      → IsStored key r g
      → request_key q ≡ key
      → r.expires_at ≤ now
      → now ≤ later
      → IsQuiet later (request_key q) meanwhile
      → (acquire_in_browser b meanwhile now later q g).0 ≡ (
          if b.supported && is_held (request_key q) b.held
          then err (in_progress q.public_key q.operation)
          else ok release)
  unfolding acquire_in_browser
  acquire_in_browser_expired b key r stored same dead le quiet =
      let answered =
        expired_answer key r (mutex_answer b (request_key q)) stored same dead le quiet in
      elim (Bool-cases b.supported) [
        | inl s ↦ elim (Bool-cases (is_held (request_key q) b.held)) [
          | inl h ↦ ground (arith, s, h, answered)
          | inr h ↦ ground (arith, s, h, answered)
        ]
        | inr s ↦ ground (arith, s, answered)
      ]

  -- A tab that got a lock holds its mutex, in a browser with Web Locks.
  got_mutex :
      (b : Browser)
      → b.supported ≡ true
      → (acquire_in_browser b meanwhile now later q g).0 ≡ ok release
      → (acquire_in_browser b meanwhile now later q g).1.1.supported
          && is_held (request_key q) (acquire_in_browser b meanwhile now later q g).1.1.held
        ≡ true
  unfolding acquire_in_browser
  got_mutex b s e = elim (Bool-cases (is_held (request_key q) b.held)) [
    | inl h ↦ ground (arith, s, h, e)
    | inr h ↦ ground (arith, s, h, e, str_eq_refl (request_key q))
  ]

-- In a browser with Web Locks, the lock of a tab that neither releases it nor goes away blocks every tab
-- for good: after its expiry, too, a request for it is refused.
pub acquire_in_browser_kept :
    (b : Browser) (meanwhile meanwhile' : Guard → Guard) (now later now' later' : ℕ)
    (q q' : Request) (g g' : Guard) (r : LockRecord)
    → b.supported ≡ true
    → (acquire_in_browser b meanwhile now later q g).0 ≡ ok release
    → IsStored (request_key q) r g'
    → request_key q' ≡ request_key q
    → r.expires_at ≤ now'
    → now' ≤ later'
    → IsQuiet later' (request_key q') meanwhile'
    → (acquire_in_browser
        (acquire_in_browser b meanwhile now later q g).1.1
        meanwhile'
        now'
        later'
        q'
        g').0
      ≡ err (in_progress q'.public_key q'.operation)
acquire_in_browser_kept b meanwhile meanwhile' now later now' later' q q' g g' r s e stored same
      dead le quiet =
    let b' = (acquire_in_browser b meanwhile now later q g).1.1 in
    let held : b'.supported && is_held (request_key q') b'.held ≡ true =
      subst (λ k. b'.supported && is_held k b'.held ≡ true) (sym same)
        (got_mutex meanwhile now later q g b s e) in
    acquire_in_browser_expired meanwhile' now' later' q' g' b' (request_key q) r stored same dead le
      quiet
    ∙ rw held refl
