-- ===== src/Collectors/Backfill/Walk.antt =====
-- The walk of a backfill chunk over its window (collectors/backfill.rs): the cursor only moves
-- forward, stays in the window, and every walk ends.
use crypto_collector.Prelude.{
  ℕ, zero, suc, ◌+◌, ◌*◌, ◌-◌, ◌≤◌, ◌<◌, max, min, true, Option, some, none, List, [], ◌∷◌, ◌≡◌,
  ◌↔◌, refl, arith, filter_by, Option-cases, inl, inr, if◌then◌else◌,
}
use crypto_collector.Prelude.Int.{ℤ, pos_part}
use native.Mathlib.Decide.{ℕ_discrete}
use crypto_collector.Collectors.Lease.{second}
use crypto_collector.Collectors.Backfill.{
  resume_start, next_cursor_for_page, page_max_ts, in_window, latest,
}

latest-in_window :
    (start end : ℕ) (page : List ℕ) {ts : ℕ}
    → latest (filter_by (in_window (some start) (some end)) page) ≡ some ts
    → (start ≤ ts) × (ts < end)
latest-in_window start end [] h = absurd (ground arith)
latest-in_window start end (x ∷ page) {ts} h =
    elim (Option-cases (latest (filter_by (in_window (some start) (some end)) page))) [
      | inl empty ↦ ground arith
      | inr (best, found) ↦ ground (arith, latest-in_window start end page found)
    ]

-- One page of the range path moves the cursor forward: the new cursor is at or past the start of the
-- page and not past the end of the window, and the chunk is done exactly when it is at the end.
pub next_cursor-forward :
    (start end : ℕ) (page : List ℕ) (span : ℤ)
    → start ≤ end
    → (c : ℕ) × ((next_cursor_for_page
          (some start)
          (some end)
          (page_max_ts (some start) (some end) page)
          span).0
        ≡ some c)
      × (start ≤ c)
      × (c ≤ end)
      × (((next_cursor_for_page
              (some start)
              (some end)
              (page_max_ts (some start) (some end) page)
              span).1
            ≡ true)
          ↔ (c ≡ end))
unfolding next_cursor_for_page page_max_ts
next_cursor-forward start end page span h =
    elim (Option-cases (latest (filter_by (in_window (some start) (some end)) page))) [
      | inl empty ↦ (
        min (start + max (pos_part span) 1 * second) end,
        ground arith,
        ground arith,
        ground arith,
        ground arith,
      )
      | inr (ts, found) ↦
          let (low, high) = latest-in_window start end page found in
          (ts, ground arith, low, ground arith, ground arith)
    ]

abbrev pub or_cursor : Option ℕ → Option ℕ → Option ℕ
or_cursor none cursor = cursor
or_cursor (some next) cursor = some next

-- The rounds of a chunk, each claimed with the cursor that the round before stored, until one is
-- done. The page of a round is whatever the providers answer; `none` means that the fuel ran out.
unfoldable pub walk : ℕ → (ℕ → List ℕ) → ℤ → Option ℕ → Option ℕ → Option ℕ → Option (Option ℕ)
walk zero pages span cursor range_start range_end = none
walk (suc f) pages span cursor range_start range_end =
    let start = resume_start cursor range_start in
    let (next, done) =
      next_cursor_for_page start range_end (page_max_ts start range_end (pages f)) span in
    let rest = walk f pages span (or_cursor next cursor) range_start range_end in
    if done then some (or_cursor next cursor) else rest

walk_from :
    (f : ℕ) (pages : ℕ → List ℕ) (span : ℤ) (cursor range_start : Option ℕ) (start end : ℕ)
    → resume_start cursor range_start ≡ some start
    → start ≤ end
    → end < start + f
    → walk f pages span cursor range_start (some end) ≡ some (some end)
unfolding walk
walk_from zero pages span cursor range_start start end r h fuel = absurd (omega arith)
walk_from (suc f) pages span cursor range_start start end r h fuel =
    let (c, next, low, high, done) = next_cursor-forward start end (pages f) span h in
    elim (ℕ_discrete c end) [
      | yes last ↦ rw r (ground (arith, done.1 last))
      | no more ↦
          let again =
            walk_from f pages span (some c) range_start (c + 1) end (unfold resume_start in refl)
              (omega arith) (omega arith) in
          rw (r, next) (ground (arith, again))
    ]

-- Whatever pages the providers answer, empty, partial or out of the window, the rounds of a chunk
-- whose window is not inverted end, at the latest after as many rounds as the window has instants,
-- and they end with the cursor at the end of the window.
pub walk_total :
    (pages : ℕ → List ℕ) (span : ℤ) (start end : ℕ)
    → start ≤ end
    → walk (end - start + 1) pages span none (some start) (some end) ≡ some (some end)
walk_total pages span start end h =
    walk_from (end - start + 1) pages span none (some start) start end (unfold resume_start in refl)
      h (omega arith)
