-- ===== src/Keeper.antt =====
-- lib/keeper/threshold.ts, schedule.ts, state.ts, events-pagination.ts and discovery.ts: the recipients
-- whose entries a keeper extends, and the walk over the contract's events that finds them. What the
-- RPC answers is a parameter. `readPositiveIntEnv`, `daysToLedgers` and the reads of entries are not
-- modelled.
pub mod Urgency
pub mod Discovery
mod Tests
use stellar_batch_pay.Base.{
  ℕ, zero, suc, ◌+◌, ◌-◌, max, String, Bool, true, false, ◌||◌, Option, none, some, List, [], ◌∷◌,
  ◌++◌, map, ltb, leb, ◌==◌, if◌then◌else◌, length, is_empty, str_eq, Result, ok, err,
}

-- A ledger of `none` is the source's `null`.
pub record TtlSnapshot : Type 0 where
  pub recipient : String
  pub live_until_ledger : Option ℕ

-- `remaining <= threshold`, where the remaining ledgers may be below 0.
pub should_bump_for_ttl : ℕ → ℕ → Option ℕ → Bool
should_bump_for_ttl current threshold none = true
should_bump_for_ttl current threshold (some live) = leb live (current + threshold)

pub in_window : ℕ → ℕ → List TtlSnapshot → List TtlSnapshot
unfolding should_bump_for_ttl
in_window current threshold [] = []
in_window current threshold (s ∷ ss) =
    let rest = in_window current threshold ss in
    if should_bump_for_ttl current threshold s.live_until_ledger then s ∷ rest else rest

-- The comparator's answer is not above 0: an unknown ledger stands for `-Infinity`.
pub not_after : Option ℕ → Option ℕ → Bool
not_after none b = true
not_after (some a) none = false
not_after (some a) (some b) = leb a b

-- `Array.prototype.sort`, which is stable.
pub insert : TtlSnapshot → List TtlSnapshot → List TtlSnapshot
unfolding not_after
insert s [] = s ∷ []
insert s (t ∷ ts) =
    let rest = insert s ts in
    if not_after s.live_until_ledger t.live_until_ledger then s ∷ t ∷ ts else t ∷ rest

pub sort : List TtlSnapshot → List TtlSnapshot
unfolding insert
sort [] = []
sort (s ∷ ss) = insert s (sort ss)

pub prioritize_recipients : ℕ → ℕ → List TtlSnapshot → List TtlSnapshot
unfolding in_window sort
prioritize_recipients current threshold ss = sort (in_window current threshold ss)

abbrev pub recipients_of : List TtlSnapshot → List String
recipients_of [] = []
recipients_of (s ∷ ss) = s.recipient ∷ recipients_of ss

pub select_urgent_recipients : ℕ → ℕ → List TtlSnapshot → List String
unfolding prioritize_recipients
select_urgent_recipients current threshold ss =
    recipients_of (prioritize_recipients current threshold (in_window current threshold ss))

-- An event of the RPC: its id and paging token, where they are texts, and the recipient that
-- `recipientFromRpcEvent` reads off it.
pub record RpcEvent : Type 0 where
  pub id : Option String
  pub paging_token : Option String
  pub recipient : Option String

pub record GetEventsPage : Type 0 where
  pub events : List RpcEvent
  pub cursor : Option String

pub data GetEventsPageRequest : Type 0 where
  from_ledger : ℕ → ℕ → GetEventsPageRequest
  from_cursor : String → ℕ → GetEventsPageRequest

-- A text that is not empty.
abbrev pub filled : Option String → Option String
filled none = none
filled (some s) = if str_eq s "" then none else some s

abbrev pub last_event : List RpcEvent → Option RpcEvent
last_event [] = none
last_event (e ∷ []) = some e
last_event (e ∷ f ∷ es) = last_event (f ∷ es)

pub extract_events_cursor : GetEventsPage → Option String
extract_events_cursor page = elim (filled page.cursor) [
  | some c ↦ some c
  | none ↦ elim (last_event page.events) [
    | none ↦ none
    | some e ↦ elim (filled e.id) [ some i ↦ some i | none ↦ filled e.paging_token ]
  ]
]

pub build_get_events_request : ℕ → Option String → ℕ → GetEventsPageRequest
build_get_events_request start_ledger cursor limit = elim (filled cursor) [
  | some c ↦ from_cursor c limit
  | none ↦ from_ledger start_ledger limit
]

-- For a latest ledger of one at least.
pub start_ledger_for_lookback : ℕ → ℕ → ℕ
start_ledger_for_lookback latest lookback = max 1 (latest - lookback)

abbrev pub contains : String → List String → Bool
contains r [] = false
contains r (s ∷ ss) = str_eq s r || contains r ss

-- `recipients.add`: a `Set` keeps the order of the first additions. An empty recipient is none.
pub add_recipients : List RpcEvent → List String → List String
add_recipients [] rs = rs
add_recipients (e ∷ es) rs =
    add_recipients es (elim (filled e.recipient) [
      | none ↦ rs
      | some r ↦ if contains r rs then rs else rs ++ r ∷ []
    ])

-- `nextCursor === cursor`
abbrev pub same_cursor : String → Option String → Bool
same_cursor c none = false
same_cursor c (some d) = str_eq c d

pub record Discovered : Type 0 where
  pub recipients : List String
  pub page_count : ℕ
  pub stopped_early : Bool
  pub requests : List GetEventsPageRequest

module _ (start_ledger page_limit : ℕ)
    (get_events : ℕ → GetEventsPageRequest → Result String GetEventsPage) where
  -- The loop for `left` pages, from the page `count` on. A rejected fetch ends it with the error.
  pub walk_pages : ℕ → ℕ → Option String → List String → Result String Discovered
  unfolding add_recipients extract_events_cursor build_get_events_request
  walk_pages zero count cursor rs =
      ok (record { recipients = rs; page_count = count; stopped_early = false; requests = [] })
  walk_pages (suc left) count cursor rs =
      let request = build_get_events_request start_ledger cursor page_limit in
      elim (get_events count request) [
        | err e ↦ err e
        | ok page ↦
            let rs' = add_recipients page.events rs in
            let next = extract_events_cursor page in
            let done : Bool → Result String Discovered = λ early. ok (record {
              recipients = rs';
              page_count = count + 1;
              stopped_early = early;
              requests = request ∷ [];
            }) in
            let more : Result String Discovered = elim (walk_pages left (count + 1) next rs') [
              | err e ↦ err e
              | ok d ↦ ok (record d { requests = request ∷ d.requests })
            ] in
            if is_empty page.events
            then ok (record {
              recipients = rs;
              page_count = count;
              stopped_early = false;
              requests = request ∷ [];
            })
            else elim next [
              | none ↦ done false
              | some c ↦
                  if same_cursor c cursor || ltb (length page.events) page_limit
                  then done false
                  else if left == 0
                  then done true
                  else more
            ]
      ]

  pub fetch_active_recipients : ℕ → Result String Discovered
  unfolding walk_pages
  fetch_active_recipients max_pages = walk_pages max_pages 0 none []
