-- ===== src/Alarm/Health/Restarts.antt =====
-- The restart events of alarm/registry.rs: what the pruning keeps is enough for the window.
use crypto_collector.Prelude.{
  ℕ, ◌-◌, ◌≤◌, ◌%◌, ◌^◌, String, List, [], ◌∷◌, ◌++◌, ◌≡◌, refl, arith, ltb, filter_by, length,
  str_eq_iff, Option-cases, inl, inr,
}
use mathlib.Core.Option.{get_or}
use crypto_collector.Table.{find, find-upsert, string_key}
use crypto_collector.Alarm.Health.{
  HealthRegistry, new_registry, record_worker_restart, push_restart, worker_restart_retention,
  in_last, worker_restart_count_in_window,
}

-- The registry after restarts of one worker, the latest first.
abbrev pub after_restarts : String → List ℕ → HealthRegistry
after_restarts worker [] = new_registry
after_restarts worker (t ∷ ts) = record_worker_restart t worker (after_restarts worker ts)

-- No restart comes after `now`, nor before an older one.
abbrev pub Descending : ℕ → List ℕ → Type 0
Descending now [] = Unit {0}
Descending now (t ∷ ts) = (t ≤ now) × Descending t ts

abbrev kept : List ℕ → List ℕ
kept [] = []
kept (t ∷ ts) = push_restart t (kept ts)

count_in : ℕ → ℕ → List ℕ → ℕ
count_in now window ts = length (filter_by (in_last now window) ts)

count_in-append :
    (now window : ℕ) (ts : List ℕ) (t : ℕ)
    → count_in now window (ts ++ t ∷ []) ≡ count_in now window (t ∷ ts)
unfolding count_in
count_in-append now window [] t = refl
count_in-append now window (x ∷ ts) t = ground (arith, count_in-append now window ts t)

-- Pruning at an earlier instant drops nothing that a window within the retention still sees.
count_in-pruned :
    (now past window : ℕ) (ts : List ℕ)
    → past ≤ now
    → window ≤ worker_restart_retention
    → count_in now window (filter_by (λ t. ltb (past - t) worker_restart_retention) ts)
      ≡ count_in now window ts
unfolding count_in
count_in-pruned now past window [] h w = refl
count_in-pruned now past window (x ∷ ts) h w =
    ground (arith, count_in-pruned now past window ts h w)

Descending-weaken :
    (now past : ℕ) (ts : List ℕ) → past ≤ now → Descending past ts → Descending now ts
Descending-weaken now past [] h d = tt
Descending-weaken now past (t ∷ ts) h d = (omega (arith, d.0), d.1)

count_in-kept :
    (now window : ℕ) (ts : List ℕ)
    → window ≤ worker_restart_retention
    → Descending now ts
    → count_in now window (kept ts) ≡ count_in now window ts
unfolding push_restart count_in
count_in-kept now window [] w d = refl
count_in-kept now window (t ∷ ts) w d =
    let earlier = count_in-kept now window ts w (Descending-weaken now t ts d.0 d.1) in
    ground (
      arith,
      count_in-pruned now t window (kept ts ++ t ∷ []) d.0 w,
      count_in-append now window (kept ts) t,
      earlier,
    )

restarts-kept :
    (worker : String) (ts : List ℕ)
    → get_or (find worker (after_restarts worker ts).worker_restarts) [] ≡ kept ts
unfolding record_worker_restart find
restarts-kept worker [] = ground arith
restarts-kept worker (t ∷ ts) = ground (
  arith,
  find-upsert worker worker [] (push_restart t) (after_restarts worker ts).worker_restarts,
  (str_eq_iff worker worker).1 refl,
  restarts-kept worker ts,
)

-- Within any window up to the retention of a day, the count of a worker is the number of all its
-- restarts in the window: the pruning on each restart loses none of them. The count is cast to 32
-- bits.
pub worker_restart_count-after_restarts :
    (worker : String) (now window : ℕ) (ts : List ℕ)
    → window ≤ worker_restart_retention
    → Descending now ts
    → worker_restart_count_in_window worker now window (after_restarts worker ts)
      ≡ length (filter_by (in_last now window) ts) % 2 ^ 32
unfolding worker_restart_count_in_window count_in
worker_restart_count-after_restarts worker now window ts w d =
    let stored = restarts-kept worker ts in
    let counted = count_in-kept now window ts w d in
    elim (Option-cases (find worker (after_restarts worker ts).worker_restarts)) [
      | inl absent ↦ ground (arith, counted, stored, absent)
      | inr (events, found) ↦ ground (arith, counted, stored, found)
    ]
