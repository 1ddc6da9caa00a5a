-- ===== src/Collectors/Backfill/Enqueue.antt =====
-- The enqueue of a backfill job with its first chunk (collectors/backfill.rs).
use crypto_collector.Prelude.{
  ℕ, ◌+◌, String, Bool, true, false, Option, none, List, [], ◌∷◌, ◌++◌, ◌&&◌, any, str_eq,
  if◌then◌else◌,
}
use crypto_collector.Collectors.Lease.{fresh}
use crypto_collector.Collectors.Backfill.{Chunks}

-- The tables of the backfill, and the next values of their sequences.
pub record Backfills : Type 0 where
  pub jobs : List (String × String)
  pub chunks : Chunks
  pub next_job : ℕ
  pub next_chunk : ℕ

abbrev pub same_job : String → String → String × String → Bool
same_job coin_id dataset job = str_eq job.0 coin_id && str_eq job.1 dataset

pub data Enqueued : Type 0 where
  created : Bool → Enqueued
  db_error : Enqueued

-- `enqueue_backfill_job`: two statements with no transaction around them; each may fail to reach the
-- database. A refused INSERT draws a value of the sequence all the same.
unfoldable pub enqueue_backfill_job :
    Bool
    → Bool
    → ℕ
    → String
    → String
    → Option String
    → Option ℕ
    → Option ℕ
    → Backfills
    → Backfills × Enqueued
enqueue_backfill_job job_reached chunk_reached now coin_id dataset interval range_start range_end
      s =
    if job_reached
    then (if any (same_job coin_id dataset) s.jobs
        then (record s { next_job = s.next_job + 1 }, created false)
        else (let s' = record s {
          jobs = s.jobs ++ (coin_id, dataset) ∷ [];
          next_job = s.next_job + 1;
        } in
            if chunk_reached
            then (
              record s {
                jobs = s.jobs ++ (coin_id, dataset) ∷ [];
                next_job = s.next_job + 1;
                chunks =
                    s.chunks
                    ++ (
                      s.next_chunk,
                      record {
                        job_id = s.next_job;
                        coin_id = coin_id;
                        dataset = dataset;
                        interval = interval;
                        range_start = range_start;
                        range_end = range_end;
                        cursor = none;
                        lease = fresh now;
                        created_at = now;
                      },
                    )
                      ∷ [];
                next_chunk = s.next_chunk + 1;
              },
              created true,
            )
            else (s', db_error)))
    else (s, db_error)
