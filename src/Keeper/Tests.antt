-- ===== src/Keeper/Tests.antt =====
-- Runs of the keeper, and the theorems at these inputs.
use stellar_batch_pay.Base.{
  ℕ, ◌≡◌, refl, String, none, some, Option, List, [], ◌∷◌, ok, Result, true, ◌==◌, if◌then◌else◌,
}
use stellar_batch_pay.Keeper.{
  TtlSnapshot, should_bump_for_ttl, in_window, not_after, insert, sort, prioritize_recipients,
  select_urgent_recipients, RpcEvent, GetEventsPage, GetEventsPageRequest, from_ledger, from_cursor,
  Discovered, walk_pages, fetch_active_recipients, add_recipients, extract_events_cursor,
  build_get_events_request,
}
use stellar_batch_pay.Keeper.Urgency.{Prioritized, prioritize_recipients-Prioritized}
use stellar_batch_pay.Keeper.Discovery.{Walked, fetch_active_recipients-Walked}

abbrev snapshot : String → Option ℕ → TtlSnapshot
snapshot r l = record { recipient = r; live_until_ledger = l }

abbrev snapshots : List TtlSnapshot
snapshots =
    snapshot "GA" (some 130)
    ∷ snapshot "GB" (some 900)
    ∷ snapshot "GC" (some 90)
    ∷ snapshot "GD" none
    ∷ []

urgent : select_urgent_recipients 100 50 snapshots ≡ "GD" ∷ "GC" ∷ "GA" ∷ []
unfolding select_urgent_recipients prioritize_recipients in_window should_bump_for_ttl sort insert
    not_after
urgent = refl

prioritize_recipients-Prioritized_example :
    Prioritized 100 50 snapshots (prioritize_recipients 100 50 snapshots)
prioritize_recipients-Prioritized_example = prioritize_recipients-Prioritized 100 50 snapshots

abbrev event : String → RpcEvent
event r = record { id = some "e"; paging_token = none; recipient = some r }

-- Full pages, each with a cursor of its own.
abbrev pages : ℕ → GetEventsPageRequest → Result String GetEventsPage
pages n request = ok (record {
  events = event "GA" ∷ event (if n == 0 then "GB" else "GC") ∷ [];
  cursor = some (if n == 0 then "c0" else "c1");
})

abbrev walked : Discovered
walked = record {
  recipients = "GA" ∷ "GB" ∷ "GC" ∷ [];
  page_count = 2;
  stopped_early = true;
  requests = from_ledger 7 2 ∷ from_cursor "c0" 2 ∷ [];
}

walked_by : fetch_active_recipients 7 2 pages 2 ≡ ok walked
unfolding fetch_active_recipients walk_pages add_recipients extract_events_cursor
    build_get_events_request
walked_by = refl

fetch_active_recipients-Walked_example : Walked 7 2 pages 2 0 none walked
fetch_active_recipients-Walked_example = fetch_active_recipients-Walked 7 2 pages 2 walked walked_by
