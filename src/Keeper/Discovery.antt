-- ===== src/Keeper/Discovery.antt =====
-- The walk over the events' pages.
use stellar_batch_pay.Base.{
  ℕ, zero, suc, ◌+◌, ◌≤◌, ◌≡◌, refl, sym, subst, inl, inr, String, Bool, true, false, ◌||◌, Option,
  none, some, List, [], ◌∷◌, ◌++◌, ltb, ◌==◌, is_empty, length, arith, str_eq, str_eq_iff, All,
  Bool-cases, Option-cases, Result-cases, Result, ok, ok-injective,
}
use stellar_batch_pay.Keeper.{
  RpcEvent, GetEventsPage, GetEventsPageRequest, from_ledger, from_cursor, filled,
  extract_events_cursor, build_get_events_request, contains, last_event, add_recipients,
  same_cursor, Discovered, walk_pages, fetch_active_recipients,
}

-- A request of a later page goes on from a cursor.
pub data FromCursor : GetEventsPageRequest → Type 0 where
  goes_on : (c : String) (limit : ℕ) → FromCursor (from_cursor c limit)

-- A request is that of the first page, with those after it from a cursor each.
abbrev pub Requests : ℕ → ℕ → List GetEventsPageRequest → Type 0
Requests start limit [] = Unit
Requests start limit (r ∷ rs) = (r ≡ from_ledger start limit) × All FromCursor rs

-- No recipient stands twice.
abbrev pub NoDup : List String → Type 0
NoDup [] = Unit
NoDup (r ∷ rs) = (contains r rs ≡ false) × NoDup rs

contains-append :
    (r s : String) (rs : List String) → contains r (rs ++ s ∷ []) ≡ (contains r rs || str_eq s r)
contains-append r s [] = ground arith
contains-append r s (t ∷ rs) = ground (arith, contains-append r s rs)

NoDup-append :
    (r : String) (rs : List String) → NoDup rs → contains r rs ≡ false → NoDup (rs ++ r ∷ [])
NoDup-append r [] h n = (refl, tt)
NoDup-append r (s ∷ rs) (d, h) n = (
  ground (arith, n, d, contains-append s r rs, str_eq_iff r s, str_eq_iff s r),
  NoDup-append r rs h (ground (arith, n)),
)

add_recipients-NoDup :
    (es : List RpcEvent) (rs : List String) → NoDup rs → NoDup (add_recipients es rs)
unfolding add_recipients
add_recipients-NoDup [] rs h = h
add_recipients-NoDup (e ∷ es) rs h = elim (Option-cases (filled e.recipient)) [
  | inl n ↦ rw (n, add_recipients) (add_recipients-NoDup es rs h)
  | inr (r, s) ↦ elim (Bool-cases (contains r rs)) [
    | inl y ↦ rw (s, y, add_recipients) (add_recipients-NoDup es rs h)
    | inr z ↦
        rw (s, z, add_recipients) (add_recipients-NoDup es (rs ++ r ∷ []) (NoDup-append r rs h z))
  ]
]

-- A cursor, where there is one, is not empty.
abbrev pub Usable : Option String → Type 0
Usable cursor = filled cursor ≡ cursor

filled-Usable : (o : Option String) → Usable (filled o)
filled-Usable none = refl
filled-Usable (some s) = elim (Bool-cases (str_eq s "")) [
  | inl y ↦ ground (arith, y)
  | inr z ↦ ground (arith, z)
]

extract_events_cursor-Usable : (page : GetEventsPage) → Usable (extract_events_cursor page)
unfolding extract_events_cursor
extract_events_cursor-Usable page = elim (Option-cases (filled page.cursor)) [
  | inr (c, e) ↦ let u = filled-Usable page.cursor in ground (arith, e, u)
  | inl n ↦ elim (Option-cases (last_event page.events)) [
    | inl m ↦ ground (arith, n, m)
    | inr (x, m) ↦ elim (Option-cases (filled x.id)) [
      | inr (i, e) ↦ let u = filled-Usable x.id in ground (arith, n, m, e, u)
      | inl k ↦ let u = filled-Usable x.paging_token in ground (arith, n, m, k, u)
    ]
  ]
]

module _ (start limit : ℕ)
    (get_events : ℕ → GetEventsPageRequest → Result String GetEventsPage) where
  -- The requests from a cursor on, or from the first page where there is none.
  abbrev pub Asked : Option String → List GetEventsPageRequest → Type 0
  Asked none rs = Requests start limit rs
  Asked (some c) rs = All FromCursor rs

  from_request :
      (cursor : Option String) (rest : List GetEventsPageRequest)
      → Usable cursor
      → All FromCursor rest
      → Asked cursor (build_get_events_request start cursor limit ∷ rest)
  unfolding build_get_events_request
  from_request none rest u h = (refl, h)
  from_request (some c) rest u h = (rw (u, build_get_events_request) (goes_on c limit), h)

  -- What a walk of `left` pages from the page `count` on gives.
  pub record Walked (left count : ℕ) (cursor : Option String) (d : Discovered) : Type 0 where
    pub distinct : NoDup d.recipients
    pub bounded : length d.requests ≤ left
    pub counted : d.page_count ≤ count + left
    pub stopped : d.stopped_early ≡ true → d.page_count ≡ count + left
    pub asked : Asked cursor d.requests

  -- A walk that ends with the page it is at.
  last_page :
      (left count : ℕ) (cursor : Option String) (rs : List String) (k : ℕ) (early : Bool)
      → Usable cursor
      → NoDup rs
      → k ≤ count + 1
      → (early ≡ true → k ≡ count + suc left)
      → Walked (suc left) count cursor (record {
        recipients = rs;
        page_count = k;
        stopped_early = early;
        requests = build_get_events_request start cursor limit ∷ [];
      })
  last_page left count cursor rs k early u n b s = record {
    distinct = n;
    bounded = omega arith;
    counted = omega (arith, b);
    stopped = s;
    asked = from_request cursor [] u tt;
  }

  -- A walk that goes on from a cursor.
  more_pages :
      (left count : ℕ) (cursor : Option String) (c : String) (d : Discovered)
      → Usable cursor
      → Walked left (count + 1) (some c) d
      → Walked
          (suc left)
          count
          cursor
          (record d { requests = build_get_events_request start cursor limit ∷ d.requests })
  more_pages left count cursor c d u w = record {
    distinct = w.distinct;
    bounded = omega (arith, w.bounded);
    counted = omega (arith, w.counted);
    stopped = λ e. omega (arith, w.stopped e);
    asked = from_request cursor d.requests u w.asked;
  }

  walk_pages-Walked :
      (left count : ℕ) (cursor : Option String) (rs : List String) (d : Discovered)
      → Usable cursor
      → (Asked cursor [])
      → NoDup rs
      → walk_pages start limit get_events left count cursor rs ≡ ok d
      → Walked left count cursor d
  unfolding walk_pages
  walk_pages-Walked zero count cursor rs d u a n h =
      subst (Walked zero count cursor) (ok-injective h) (record {
        distinct = n;
        bounded = omega arith;
        counted = omega arith;
        stopped = λ e. ground (arith, e);
        asked = a;
      })
  walk_pages-Walked (suc left) count cursor rs d u a n h =
      let request = build_get_events_request start cursor limit in
      elim (Result-cases (get_events count request)) [
        | inl (e, g) ↦ ground (arith, h, g)
        | inr (page, g) ↦
            let rs' = add_recipients page.events rs in
            let n' = add_recipients-NoDup page.events rs n in
            let W = Walked (suc left) count cursor in
            elim (Bool-cases (is_empty page.events)) [
              | inl y ↦ subst W (ok-injective (rw (g, y, walk_pages) at h)) (
                  last_page left count cursor rs count false u n (omega arith)
                    (λ e. ground (arith, e)))
              | inr z ↦ elim (Option-cases (extract_events_cursor page)) [
                | inl m ↦ subst W (ok-injective (rw (g, z, m, walk_pages) at h)) (
                    last_page left count cursor rs' (count + 1) false u n' (omega arith)
                      (λ e. ground (arith, e)))
                | inr (c, m) ↦
                    elim (Bool-cases (same_cursor c cursor || ltb (length page.events) limit)) [
                      | inl t ↦ subst W (ok-injective (rw (g, z, m, t, walk_pages) at h)) (
                          last_page left count cursor rs' (count + 1) false u n' (omega arith)
                            (λ e. ground (arith, e)))
                      | inr f ↦ elim (Bool-cases (left == 0)) [
                        | inl l ↦ subst W (ok-injective (rw (g, z, m, f, l, walk_pages) at h)) (
                            last_page left count cursor rs' (count + 1) true u n' (omega arith)
                              (λ e. ground (arith, l)))
                        | inr l ↦
                            let next = extract_events_cursor page in
                            elim (Result-cases
                              (walk_pages start limit get_events left (count + 1) next rs')) [
                                | inl (e, w) ↦ ground (arith, h, g, z, m, f, l, w)
                                | inr (d', w) ↦
                                    let q : record d' { requests = request ∷ d'.requests } ≡ d =
                                      ground (arith, h, g, z, m, f, l, w) in
                                    let later =
                                      walk_pages-Walked left (count + 1) next rs' d'
                                        (extract_events_cursor-Usable page)
                                        (subst (λ o. Asked o []) (sym m) tt) n' w in
                                    subst W q (
                                      more_pages left count cursor c d' u
                                        (subst (λ o. Walked left (count + 1) o d') m later))
                              ]
                      ]
                    ]
              ]
            ]
      ]

  -- A discovery that returns made one request for each of `max_pages` at most, the first from the start
  -- ledger and each later one from a cursor; it names no recipient twice, and says that it stopped early
  -- only after all `max_pages` pages.
  pub fetch_active_recipients-Walked :
      (max_pages : ℕ) (d : Discovered)
      → fetch_active_recipients start limit get_events max_pages ≡ ok d
      → Walked max_pages 0 none d
  unfolding fetch_active_recipients
  fetch_active_recipients-Walked max_pages d h =
      walk_pages-Walked max_pages 0 none [] d refl tt tt h
