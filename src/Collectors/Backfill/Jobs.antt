-- ===== src/Collectors/Backfill/Jobs.antt =====
-- The jobs of collectors/backfill.rs: enqueueing twice makes one chunk, and what a lost second
-- statement leaves behind.
use crypto_collector.Prelude.{
  any-append, ℕ, String, Bool, true, false, Option, none, List, [], ◌∷◌, ◌≡◌, ◌∙◌, sym, subst, refl,
  arith, any, str_eq_iff, filter_by, filter_by-append, append_empty, Bool-cases, inl, inr,
}
use crypto_collector.Collectors.Backfill.Enqueue.{
  Backfills, Enqueued, same_job, enqueue_backfill_job, created, db_error,
}
use crypto_collector.Collectors.Lease.{fresh}
use crypto_collector.Collectors.Backfill.{Chunk, Chunks}

same_job_self : (coin_id dataset : String) → same_job coin_id dataset (coin_id, dataset) ≡ true
same_job_self coin_id dataset =
    ground (arith, (str_eq_iff coin_id coin_id).1 refl, (str_eq_iff dataset dataset).1 refl)

-- After any call that reached the database with its first statement, whatever became of the second,
-- the job is there: a later call for the same coin and dataset reports that it exists and adds no
-- chunk and no job.
pub enqueue_backfill_job-again :
    (chunk_reached later_reached : Bool) (now later : ℕ) (coin_id dataset : String)
    (interval interval' : Option String) (start end start' end' : Option ℕ) (s : Backfills)
    → let s' =
        (enqueue_backfill_job true chunk_reached now coin_id dataset interval start end s).0 in
      let again =
        enqueue_backfill_job true later_reached later coin_id dataset interval' start' end' s' in
      (again.1 ≡ created false) × (again.0.chunks ≡ s'.chunks) × (again.0.jobs ≡ s'.jobs)
unfolding enqueue_backfill_job
enqueue_backfill_job-again chunk_reached later_reached now later coin_id dataset interval interval'
      start end start' end' s =
    elim (Bool-cases (any (same_job coin_id dataset) s.jobs)) [
      | inl there ↦ ground arith
      | inr absent ↦ ground (
        arith,
        any-append (same_job coin_id dataset) s.jobs ((coin_id, dataset) ∷ []),
        same_job_self coin_id dataset,
      )
    ]

-- A call of `enqueue_backfill_job`, with which of its statements reach the database.
pub record Call : Type 0 where
  pub job_reached : Bool
  pub chunk_reached : Bool
  pub now : ℕ
  pub coin_id : String
  pub dataset : String
  pub interval : Option String
  pub range_start : Option ℕ
  pub range_end : Option ℕ

abbrev enqueue_call : Call → Backfills → Backfills × Enqueued
enqueue_call c s =
    enqueue_backfill_job c.job_reached c.chunk_reached c.now c.coin_id c.dataset c.interval
      c.range_start c.range_end s

-- The tables after one call after the other.
abbrev pub after_calls : List Call → Backfills → Backfills
after_calls [] s = s
after_calls (c ∷ cs) s = after_calls cs (enqueue_call c s).0

abbrev is_chunk_of : String → String → ℕ × Chunk → Bool
is_chunk_of coin_id dataset e = same_job coin_id dataset (e.1.coin_id, e.1.dataset)

-- The chunks of a coin's dataset.
abbrev pub chunks_of : String → String → Backfills → Chunks
chunks_of coin_id dataset s = filter_by (is_chunk_of coin_id dataset) s.chunks

other_job :
    (coin_id dataset : String) (c : Call) (s : Backfills)
    → any (same_job coin_id dataset) s.jobs ≡ true
    → any (same_job c.coin_id c.dataset) s.jobs ≡ false
    → same_job coin_id dataset (c.coin_id, c.dataset) ≡ false
other_job coin_id dataset c s there absent =
    elim (Bool-cases (same_job coin_id dataset (c.coin_id, c.dataset))) [
      | inr other ↦ other
      | inl same ↦
          let coin : c.coin_id ≡ coin_id =
            (str_eq_iff c.coin_id coin_id).0 (ground (arith, same)) in
          let kind : c.dataset ≡ dataset =
            (str_eq_iff c.dataset dataset).0 (ground (arith, same)) in
          let found : any (same_job c.coin_id c.dataset) s.jobs ≡ true =
            subst (λ d. any (same_job c.coin_id d) s.jobs ≡ true) (sym kind)
              (subst (λ x. any (same_job x dataset) s.jobs ≡ true) (sym coin) there) in
          absurd (ground (arith, found, absent))
    ]

abbrev new_chunk : Call → Backfills → Chunk
new_chunk c s = record {
  job_id = s.next_job;
  coin_id = c.coin_id;
  dataset = c.dataset;
  interval = c.interval;
  range_start = c.range_start;
  range_end = c.range_end;
  cursor = none;
  lease = fresh c.now;
  created_at = c.now;
}

-- A call keeps a job that is there, and adds no chunk to it.
enqueue_call-kept :
    (coin_id dataset : String) (c : Call) (s : Backfills)
    → any (same_job coin_id dataset) s.jobs ≡ true
    → let s' = (enqueue_call c s).0 in
      (any (same_job coin_id dataset) s'.jobs ≡ true)
      × (chunks_of coin_id dataset s' ≡ chunks_of coin_id dataset s)
unfolding enqueue_call enqueue_backfill_job
enqueue_call-kept coin_id dataset c s there =
    elim (Bool-cases (any (same_job c.coin_id c.dataset) s.jobs)) [
      | inl known ↦ ground (arith, known)
      | inr absent ↦
          let other = other_job coin_id dataset c s there absent in
          ground (
            arith,
            absent,
            any-append (same_job coin_id dataset) s.jobs ((c.coin_id, c.dataset) ∷ []),
            filter_by-append (is_chunk_of coin_id dataset) s.chunks
                ((s.next_chunk, new_chunk c s) ∷ []),
            append_empty (chunks_of coin_id dataset s),
          )
    ]

after_calls-kept :
    (coin_id dataset : String) (cs : List Call) (s : Backfills)
    → any (same_job coin_id dataset) s.jobs ≡ true
    → (any (same_job coin_id dataset) (after_calls cs s).jobs ≡ true)
      × (chunks_of coin_id dataset (after_calls cs s) ≡ chunks_of coin_id dataset s)
unfolding after_calls
after_calls-kept coin_id dataset [] s there = (there, refl)
after_calls-kept coin_id dataset (c ∷ cs) s there =
    let (kept, same) = enqueue_call-kept coin_id dataset c s there in
    let (last, all) = after_calls-kept coin_id dataset cs (enqueue_call c s).0 kept in
    (last, all ∙ same)

lost_lem :
    (now : ℕ) (coin_id dataset : String) (interval : Option String) (start end : Option ℕ)
    (s : Backfills)
    → any (same_job coin_id dataset) s.jobs ≡ false
    → let (s', answer) = enqueue_backfill_job true false now coin_id dataset interval start end s in
      (answer ≡ db_error)
      × (any (same_job coin_id dataset) s'.jobs ≡ true)
      × (chunks_of coin_id dataset s' ≡ chunks_of coin_id dataset s)
unfolding enqueue_backfill_job
lost_lem now coin_id dataset interval start end s absent = ground (
  arith,
  any-append (same_job coin_id dataset) s.jobs ((coin_id, dataset) ∷ []),
  same_job_self coin_id dataset,
)

-- If the insert of the chunk is lost after the insert of a new job, the call fails, and no sequence of
-- later calls, for this or other jobs and whatever becomes of their statements, gives the coin's
-- dataset a chunk that it did not have: the job stays, and a call for it that reaches the database
-- reports that it exists and adds no chunk at all.
pub enqueue_backfill_job-lost :
    (now : ℕ) (coin_id dataset : String) (interval : Option String) (start end : Option ℕ)
    (s : Backfills) (calls : List Call) (later_reached : Bool) (later : ℕ)
    (interval' : Option String) (start' end' : Option ℕ)
    → any (same_job coin_id dataset) s.jobs ≡ false
    → let (s', answer) = enqueue_backfill_job true false now coin_id dataset interval start end s in
      let t = after_calls calls s' in
      let again =
        enqueue_backfill_job true later_reached later coin_id dataset interval' start' end' t in
      (answer ≡ db_error)
      × (any (same_job coin_id dataset) t.jobs ≡ true)
      × (chunks_of coin_id dataset t ≡ chunks_of coin_id dataset s)
      × (again.1 ≡ created false)
      × (again.0.chunks ≡ t.chunks)
unfolding enqueue_backfill_job
enqueue_backfill_job-lost now coin_id dataset interval start end s calls later_reached later
      interval' start' end' absent =
    let s' = (enqueue_backfill_job true false now coin_id dataset interval start end s).0 in
    let (failed, there, unchunked) = lost_lem now coin_id dataset interval start end s absent in
    let (kept, same) = after_calls-kept coin_id dataset calls s' there in
    (failed, kept, same ∙ unchunked, ground (arith, kept), ground (arith, kept))
