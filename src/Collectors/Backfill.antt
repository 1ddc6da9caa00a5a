-- ===== src/Collectors/Backfill.antt =====
-- The backfill of collectors/backfill.rs: chunks of a time window (models/queue.rs), the cursor that
-- walks a window page by page, the jobs, and what the worker does with the result of a page. An
-- instant is a number of nanoseconds since the epoch.
pub mod Walk
pub mod Enqueue
pub mod Jobs
pub mod Finalize
use crypto_collector.Prelude.{
  filter_by, ℕ, ◌+◌, ◌*◌, ◌-◌, ◌/◌, ◌%◌, ◌^◌, max, min, String, Bool, true, false, Option, some,
  none, List, [], ◌∷◌, ◌++◌, refl, ◌&&◌, any, ltb, leb, str_eq, if◌then◌else◌,
}
use crypto_collector.Prelude.Int.{ℤ, pos, negsuc, pos_part}
use crypto_collector.Interval.{ApiInterval, from_str, secs}
use crypto_collector.Table.{update, nat_key}
use crypto_collector.Collectors.Lease.{Lease, fresh, complete_chunk, fenced, is_owner, second}
use crypto_collector.Collectors.Work.{
  LeaseRow, on_row, set_lease, fail_or_retry_row, release_row, fail_permanent_row,
}
use crypto_collector.Collectors.Retry.{DispatchError, transient, permanent}
use crypto_collector.Collectors.Queue.{Dispatched, ok, err, logged}
use crypto_collector.Collectors.LeaseWorker.{LeaseCycleOutcome, continue, pause_before_next_claim}

abbrev pub day : ℕ
day = 86_400 * second

-- A nanosecond past the cursor, or the start of the window.
unfoldable pub resume_start : Option ℕ → Option ℕ → Option ℕ
resume_start (some cursor) range_start = some (cursor + 1)
resume_start none range_start = range_start

-- Whole days, at least one, cast to 32 bits; an inverted window has none.
unfoldable pub range_to_days : Option ℕ → Option ℕ → ℕ → ℕ
range_to_days (some start) (some end) max_days = min (max ((end - start) / day) 1 % 2 ^ 32) max_days
range_to_days _ _ max_days = max_days

-- config.rs: the interval of a coin, where the parser of the stored text gives a positive number.
unfoldable pub effective_candle_interval_secs : (String → Option ℕ) → Option String → ℤ → ℤ
effective_candle_interval_secs pg_interval_to_secs none global_secs = global_secs
effective_candle_interval_secs pg_interval_to_secs (some text) global_secs =
    elim (pg_interval_to_secs text) [
      | none ↦ global_secs
      | some v ↦ if ltb 0 v then pos v else global_secs
    ]

abbrev pub parsed_secs : Option String → Option ℕ
parsed_secs none = none
parsed_secs (some iv) = elim (from_str iv) [ none ↦ none | some i ↦ some (secs i) ]

unfoldable pub resolve_interval_secs : (String → Option ℕ) → Option String → Option String → ℤ → ℤ
resolve_interval_secs pg_interval_to_secs chunk_interval live_poll_interval global_secs =
    elim (parsed_secs chunk_interval) [
      | some v ↦ pos v
      | none ↦ effective_candle_interval_secs pg_interval_to_secs live_poll_interval global_secs
    ]

unfoldable pub should_use_range_path : Option ℕ → Option ℕ → Bool
should_use_range_path (some start) (some end) = true
should_use_range_path _ _ = false

-- `range_end.is_none_or(|end| ts >= end)`
abbrev pub reaches : Option ℕ → ℕ → Bool
reaches none ts = true
reaches (some end) ts = leb end ts

-- `page_span_secs.max(1)` of a signed span.
unfoldable pub next_cursor_for_page : Option ℕ → Option ℕ → Option ℕ → ℤ → Option ℕ × Bool
next_cursor_for_page resume range_end (some ts) page_span_secs = (some ts, reaches range_end ts)
next_cursor_for_page (some start) (some end) none page_span_secs =
    let advanced = min (start + max (pos_part page_span_secs) 1 * second) end in
    (some advanced, leb end advanced)
next_cursor_for_page _ _ none page_span_secs = (none, true)

pub record Chunk : Type 0 where
  pub job_id : ℕ
  pub coin_id : String
  pub dataset : String
  pub interval : Option String
  pub range_start : Option ℕ
  pub range_end : Option ℕ
  pub cursor : Option ℕ
  pub lease : Lease
  pub created_at : ℕ

instance abbrev pub chunk_row : LeaseRow Chunk
chunk_row = record {
  lease = λ a. a.lease;
  with_lease = λ l a. record a { lease = l };
  queued_at = λ a. a.created_at;
  lease_with_lease = λ l a. refl;
}

abbrev pub Chunks : Type 0
Chunks = List (ℕ × Chunk)

-- cursor = $3 under the fence, with the time stamp.
unfoldable pub cursor_row : ℕ → String → ℕ → Chunk → Option Chunk
cursor_row now who cursor a =
    if is_owner who a.lease.claimed_by
    then some (record a { cursor = some cursor; lease = record (a.lease) { updated_at = now } })
    else none

unfoldable pub advance_cursor : ℕ → ℕ → String → ℕ → Chunks → Chunks
advance_cursor now id who cursor t = (update id (cursor_row now who cursor) t).0

-- The completion also moves the cursor to the end of the window.
unfoldable pub complete_row : ℕ → String → Chunk → Option Chunk
complete_row now who a =
    if is_owner who a.lease.claimed_by
    then some (record a { cursor = a.range_end; lease = complete_chunk now a.lease })
    else none

unfoldable pub complete_backfill_chunk : ℕ → ℕ → String → Chunks → Chunks
complete_backfill_chunk now id who t = (update id (complete_row now who) t).0

pub data ChunkOutcome : Type 0 where
  progress : Option ℕ → ℤ → ChunkOutcome
  soft_skip : ChunkOutcome

abbrev pub empty_page_skip_candles : ℕ
empty_page_skip_candles = 1000

-- `interval_secs.max(1) * EMPTY_PAGE_SKIP_CANDLES`
abbrev pub page_span : ℤ → ℤ
page_span interval_secs = pos (max (pos_part interval_secs) 1 * empty_page_skip_candles)

-- The candles of a page that lie in the window of the chunk, by their instants.
abbrev pub in_window : Option ℕ → Option ℕ → ℕ → Bool
in_window (some start) (some end) ts = leb start ts && ltb ts end
in_window (some start) none ts = leb start ts
in_window none (some end) ts = ltb ts end
in_window none none ts = true

abbrev pub latest : List ℕ → Option ℕ
latest [] = none
latest (ts ∷ rest) = elim (latest rest) [ none ↦ some ts | some best ↦ some (max ts best) ]

-- The newest instant of the kept candles of a page, as `process_chunk` reports it.
unfoldable pub page_max_ts : Option ℕ → Option ℕ → List ℕ → Option ℕ
page_max_ts start range_end page = latest (filter_by (in_window start range_end) page)

-- Whether each statement of one finalisation gets to the database; an error is logged and dropped.
pub record Reached : Type 0 where
  pub cursor_reached : Bool
  pub settle_reached : Bool

abbrev pub store_cursor : Bool → ℕ → ℕ → String → Option ℕ → Chunks → Chunks
store_cursor reached now id who none t = t
store_cursor reached now id who (some cursor) t =
    logged reached (advance_cursor now id who cursor) t

-- The `finalize` closure of `run_backfill_worker`, for the chunk as it was claimed.
unfoldable pub finalize_chunk :
    Reached
    → ℕ
    → String
    → ℕ
    → ℕ
    → Chunk
    → Dispatched ChunkOutcome
    → Chunks
    → Chunks × LeaseCycleOutcome
finalize_chunk d now who max_attempts id chunk (ok (progress max_ts interval_secs)) t =
    let start = resume_start chunk.cursor chunk.range_start in
    let (next_cursor, done) =
      next_cursor_for_page start chunk.range_end max_ts (page_span interval_secs) in
    let t' = store_cursor d.cursor_reached now id who next_cursor t in
    (
      if done
          then logged d.settle_reached (complete_backfill_chunk now id who) t'
          else logged d.settle_reached (release_row now id who) t',
      continue,
    )
finalize_chunk d now who max_attempts id chunk (ok soft_skip) t =
    (logged d.settle_reached (release_row now id who) t, pause_before_next_claim)
finalize_chunk d now who max_attempts id chunk (err (permanent msg)) t =
    (logged d.settle_reached (fail_permanent_row now id who msg) t, continue)
finalize_chunk d now who max_attempts id chunk (err (transient msg)) t = (
  logged d.settle_reached (fail_or_retry_row now id who max_attempts msg) t,
  pause_before_next_claim,
)
