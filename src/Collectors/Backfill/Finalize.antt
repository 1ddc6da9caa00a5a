-- ===== src/Collectors/Backfill/Finalize.antt =====
-- What the finalisation of a page leaves in the row of a chunk (collectors/backfill.rs).
use crypto_collector.Prelude.{
  ℕ, ◌-◌, String, Bool, true, false, Option, some, none, ◌≡◌, refl, arith, ◌∙◌, ap, if◌then◌else◌,
}
use crypto_collector.Prelude.Int.{ℤ}
use crypto_collector.Table.{find, update_taken, nat_key}
use crypto_collector.Collectors.Lease.{Status, is_owner, fenced, release, complete_chunk}
use crypto_collector.Collectors.Work.{set_lease, release_row}
use crypto_collector.Collectors.LeaseWorker.{continue}
use crypto_collector.Collectors.Queue.{ok, logged}
use crypto_collector.Collectors.Backfill.{
  Chunk, Chunks, chunk_row, progress, finalize_chunk, store_cursor, advance_cursor, cursor_row,
  complete_backfill_chunk, complete_row, next_cursor_for_page, resume_start, page_span,
}
use crypto_collector.Collectors.Backfill.Walk.{or_cursor}

-- A row that differs from `a` at most by its cursor, which is `next`, and by its time stamp.
record Moved (a : Chunk) (next : Option ℕ) (b : Chunk) : Type 0 where
  cursor : b.cursor ≡ next
  holder : b.lease.claimed_by ≡ a.lease.claimed_by
  attempts : b.lease.attempts ≡ a.lease.attempts
  range_end : b.range_end ≡ a.range_end

cursor_stored :
    (now id : ℕ) (who : String) (next : Option ℕ) (t : Chunks) (a : Chunk)
    → find id t ≡ some a
    → is_owner who a.lease.claimed_by ≡ true
    → (b : Chunk) × (find id (store_cursor true now id who next t) ≡ some b)
      × Moved a (or_cursor next a.cursor) b
unfolding advance_cursor cursor_row
cursor_stored now id who none t a found own =
    (a, found, record { cursor = refl; holder = refl; attempts = refl; range_end = refl })
cursor_stored now id who (some c) t a found own = (
  record a { cursor = some c; lease = record (a.lease) { updated_at = now } },
  (update_taken id (cursor_row now who c) t found (ground arith)).1,
  record { cursor = refl; holder = refl; attempts = refl; range_end = refl },
)

-- What is left in the row, by whether the page was the last.
abbrev pub page_cursor : Bool → Option ℕ → Option ℕ → Option ℕ
page_cursor done range_end cursor = if done then range_end else cursor

abbrev pub page_status : Bool → Status
page_status done = if done then Status.done else Status.pending

abbrev pub page_attempts : Bool → ℕ → ℕ
page_attempts done attempts = if done then attempts else attempts - 1

page_settled :
    (done : Bool) (now id : ℕ) (who : String) (t : Chunks) (a : Chunk)
    → find id t ≡ some a
    → is_owner who a.lease.claimed_by ≡ true
    → (b : Chunk) × (find id (
          if done
          then logged true (complete_backfill_chunk now id who) t
          else logged true (release_row now id who) t)
        ≡ some b)
      × (b.cursor ≡ page_cursor done a.range_end a.cursor)
      × (b.lease.status ≡ page_status done)
      × (b.lease.attempts ≡ page_attempts done a.lease.attempts)
unfolding complete_backfill_chunk complete_row release_row release complete_chunk
page_settled true now id who t a found own = (
  record a { cursor = a.range_end; lease = complete_chunk now a.lease },
  (update_taken id (complete_row now who) t found (ground arith)).1,
  refl,
  refl,
  refl,
)
page_settled false now id who t a found own = (
  record a { lease = release now a.lease },
  (update_taken id (set_lease (fenced who (release now))) t found (ground arith)).1,
  refl,
  refl,
  refl,
)

-- A page that made progress, finalised by the holder of the chunk with the database reached: the last
-- page of the window sets the chunk done with its cursor at the end of the window; any other page
-- stores the new cursor and leaves the chunk pending with its attempt given back, so progress never
-- uses up attempts. The loop goes on without a pause.
pub finalize_chunk_lem :
    (now id max_attempts : ℕ) (who : String) (max_ts : Option ℕ) (interval_secs : ℤ) (t : Chunks)
    (a : Chunk)
    → find id t ≡ some a
    → is_owner who a.lease.claimed_by ≡ true
    → let page =
        next_cursor_for_page
          (resume_start a.cursor a.range_start)
          a.range_end
          max_ts
          (page_span interval_secs) in
      let (t', outcome) =
        finalize_chunk
          (record { cursor_reached = true; settle_reached = true })
          now
          who
          max_attempts
          id
          a
          (ok (progress max_ts interval_secs))
          t in
      (b : Chunk) × (find id t' ≡ some b)
      × (b.cursor ≡ page_cursor page.1 a.range_end (or_cursor page.0 a.cursor))
      × (b.lease.status ≡ page_status page.1)
      × (b.lease.attempts ≡ page_attempts page.1 a.lease.attempts)
      × (outcome ≡ continue)
unfolding finalize_chunk
finalize_chunk_lem now id max_attempts who max_ts interval_secs t a found own =
    let page =
      next_cursor_for_page (resume_start a.cursor a.range_start) a.range_end max_ts
        (page_span interval_secs) in
    let (m, stored, moved) = cursor_stored now id who page.0 t a found own in
    let (b, kept, cursor, status, attempts) =
      page_settled page.1 now id who (store_cursor true now id who page.0 t) m stored
        (ap (is_owner who) (moved.holder) ∙ own) in
    (
      b,
      kept,
      cursor ∙ rw (moved.range_end, moved.cursor) refl,
      status,
      attempts ∙ ap (page_attempts page.1) (moved.attempts),
      refl,
    )
