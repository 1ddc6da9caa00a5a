-- ===== src/Tests/Backfill.antt =====
-- Witnesses for the properties of the backfill and of the interval spellings.
use crypto_collector.Prelude.{
  ℕ, ◌+◌, ◌-◌, ◌≤◌, ◌↔◌, true, false, some, none, List, [], ◌∷◌, ◌≡◌, refl, arith, any,
}
use crypto_collector.Prelude.Int.{pos}
use crypto_collector.Interval.{h2, as_str, from_str}
use crypto_collector.Interval.Spelling.{from_str_iff}
use crypto_collector.Collectors.Backfill.Enqueue.{
  Backfills, same_job, enqueue_backfill_job, created, db_error,
}
use crypto_collector.Collectors.Backfill.{
  Chunk, Chunks, progress, finalize_chunk, resume_start, page_span, next_cursor_for_page,
  page_max_ts,
}
use crypto_collector.Table.{find, nat_key}
use crypto_collector.Collectors.Lease.{claim, fresh, is_owner}
use crypto_collector.Collectors.LeaseWorker.{continue}
use crypto_collector.Collectors.Queue.{ok}
use crypto_collector.Collectors.Backfill.Finalize.{
  page_cursor, page_status, page_attempts, finalize_chunk_lem,
}
use crypto_collector.Collectors.Backfill.Walk.{or_cursor, next_cursor-forward, walk, walk_total}
use crypto_collector.Collectors.Backfill.Jobs.{
  Call, after_calls, chunks_of, enqueue_backfill_job-lost,
}

from_str_iff_example : (from_str "2h" ≡ some h2) ↔ (as_str h2 ≡ "2h")
from_str_iff_example = from_str_iff "2h" h2

next_cursor-forward_example :
    (c : ℕ) × ((next_cursor_for_page
        (some 5)
        (some 9)
        (page_max_ts (some 5) (some 9) (3 ∷ 7 ∷ 12 ∷ []))
        (pos 60)).0
      ≡ some c)
    × (5 ≤ c)
    × (c ≤ 9)
    × (((next_cursor_for_page
            (some 5)
            (some 9)
            (page_max_ts (some 5) (some 9) (3 ∷ 7 ∷ 12 ∷ []))
            (pos 60)).1
          ≡ true)
        ↔ (c ≡ 9))
next_cursor-forward_example = next_cursor-forward 5 9 (3 ∷ 7 ∷ 12 ∷ []) (pos 60) (omega arith)

walk_total_example :
    walk (9 - 5 + 1) (λ n. n ∷ 6 ∷ []) (pos 60) none (some 5) (some 9) ≡ some (some 9)
walk_total_example = walk_total (λ n. n ∷ 6 ∷ []) (pos 60) 5 9 (omega arith)

abbrev empty_backfills : Backfills
empty_backfills = record { jobs = []; chunks = []; next_job = 1; next_chunk = 1 }

-- Two calls behind the lost one: for the same job, and for another dataset of the coin.
abbrev later_calls : List Call
later_calls =
    record {
      job_reached = true;
      chunk_reached = true;
      now = 3;
      coin_id = "btc";
      dataset = "candles";
      interval = none;
      range_start = some 1;
      range_end = some 9;
    }
    ∷ record {
      job_reached = true;
      chunk_reached = true;
      now = 4;
      coin_id = "btc";
      dataset = "market";
      interval = none;
      range_start = none;
      range_end = none;
    }
    ∷ []

enqueue_backfill_job-lost_example :
    let (s', answer) =
      enqueue_backfill_job true false 0 "btc" "candles" none (some 1) (some 9) empty_backfills in
    let t = after_calls later_calls s' in
    let again = enqueue_backfill_job true true 5 "btc" "candles" none (some 2) (some 8) t in
    (answer ≡ db_error)
    × (any (same_job "btc" "candles") t.jobs ≡ true)
    × (chunks_of "btc" "candles" t ≡ chunks_of "btc" "candles" empty_backfills)
    × (again.1 ≡ created false)
    × (again.0.chunks ≡ t.chunks)
enqueue_backfill_job-lost_example =
    enqueue_backfill_job-lost 0 "btc" "candles" none (some 1) (some 9) empty_backfills later_calls
      true 5 none (some 2) (some 8) refl

abbrev chunk_row_3 : Chunk
chunk_row_3 = record {
  job_id = 1;
  coin_id = "btc";
  dataset = "candles";
  interval = some "1h";
  range_start = some 5;
  range_end = some 90;
  cursor = some 20;
  lease = claim 10 "a" 60 (fresh 0);
  created_at = 0;
}

abbrev chunk_table : Chunks
chunk_table = (3, chunk_row_3) ∷ []

chunk_found : find 3 chunk_table ≡ some chunk_row_3
unfolding find
chunk_found = refl

chunk_owned : is_owner "a" chunk_row_3.lease.claimed_by ≡ true
unfolding claim fresh
chunk_owned = refl

finalize_chunk_lem_example :
    let page =
      next_cursor_for_page
        (resume_start (some 20) (some 5))
        (some 90)
        (some 44)
        (page_span (pos 3600)) in
    let (t', outcome) =
      finalize_chunk
        (record { cursor_reached = true; settle_reached = true })
        50
        "a"
        5
        3
        chunk_row_3
        (ok (progress (some 44) (pos 3600)))
        chunk_table in
    (b : Chunk) × (find 3 t' ≡ some b)
    × (b.cursor ≡ page_cursor page.1 (some 90) (or_cursor page.0 (some 20)))
    × (b.lease.status ≡ page_status page.1)
    × (b.lease.attempts ≡ page_attempts page.1 chunk_row_3.lease.attempts)
    × (outcome ≡ continue)
finalize_chunk_lem_example =
    finalize_chunk_lem 50 3 5 "a" (some 44) (pos 3600) chunk_table chunk_row_3 chunk_found
      chunk_owned
