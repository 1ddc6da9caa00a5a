-- ===== src/CycleOverlay/Overlay/Days.antt =====
-- The points of one cycle of `compute_overlay` (collectors/cycle_overlay.rs), by the days of that
-- cycle in the order of their dates.
use crypto_collector.Prelude.{
  ℕ, ◌+◌, inl, inr, Bool, true, Option, some, none, List, [], ◌∷◌, ◌≡◌, ◌∙◌, refl, ap, sym, arith,
  leb, ◌==◌, sort_by, All, filter_by, IsSorted, sort_by-IsSorted, if_of_cases, subst,
}
use crypto_collector.CycleOverlay.{CycleAssignment, assign_cycle}
use crypto_collector.CycleOverlay.Cycles.{window_of, assign_cycle_lem}
use crypto_collector.CycleOverlay.Overlay.{CycleDay, by_date, by_offset, cycle_of, assign_all}

-- A day stands at its offset behind the halving of its cycle.
pub record IsAssigned {D : Type 0} (d : CycleDay D) : Type 0 where
  pub next : Option ℕ
  pub window : window_of d.assigned.cycle_number ≡ some (d.assigned.halving_date, next)
  pub offset : d.date ≡ d.assigned.halving_date + d.assigned.days_since_halving

module _ {D : Type 0} where
  abbrev by_day : CycleDay D → CycleDay D → Bool
  by_day a b = leb a.date b.date

  assigned_day :
      (date : ℕ) (price : D) (a : CycleAssignment)
      → assign_cycle date ≡ some a
      → IsAssigned (record { assigned = a; date = date; price = price })
  assigned_day date price a h = elim (assign_cycle_lem date) [
    | inl (early, _) ↦ absurd (ground arith)
    | inr (b, next, e, w, _, o, _) ↦
        let same : b ≡ a = ground arith in
        record {
          next = next;
          window = subst (λ c. window_of c.cycle_number ≡ some (c.halving_date, next)) same w;
          offset = subst (λ c. date ≡ c.halving_date + c.days_since_halving) same o;
        }
  ]

  -- What holds of the list with and without a day that may have no cycle.
  either_way :
      (P : List (CycleDay D) → Type 0) (date : ℕ) (price : D) (o : Option CycleAssignment)
      (rest : List (CycleDay D))
      → P rest
      → ((a : CycleAssignment)
          → o ≡ some a
          → P (record { assigned = a; date = date; price = price } ∷ rest))
      → P (elim o [
        | none ↦ rest
        | some a ↦ record { assigned = a; date = date; price = price } ∷ rest
      ])
  either_way P date price none rest h k = h
  either_way P date price (some a) rest h k = k a refl

  assign_all-IsAssigned : (daily : List (ℕ × D)) → All IsAssigned (assign_all daily)
  unfolding assign_all
  assign_all-IsAssigned [] = tt
  assign_all-IsAssigned ((date, price) ∷ daily) =
      either_way (All IsAssigned) date price (assign_cycle date) (assign_all daily)
        (assign_all-IsAssigned daily)
        (λ a e. (assigned_day date price a e, assign_all-IsAssigned daily))

  assign_all-All :
      (P : ℕ → Type 0) (daily : List (ℕ × D))
      → All (λ e. P e.0) daily
      → All (λ d. P d.date) (assign_all daily)
  unfolding assign_all
  assign_all-All P [] h = tt
  assign_all-All P ((date, price) ∷ daily) h =
      either_way (All (λ d. P d.date)) date price (assign_cycle date) (assign_all daily)
        (assign_all-All P daily h.1) (λ a e. (h.0, assign_all-All P daily h.1))

  assign_all-IsSorted :
      (daily : List (ℕ × D)) → IsSorted by_date daily → IsSorted by_day (assign_all daily)
  unfolding assign_all
  assign_all-IsSorted [] s = tt
  assign_all-IsSorted ((date, price) ∷ daily) s =
      either_way (IsSorted by_day) date price (assign_cycle date) (assign_all daily)
        (assign_all-IsSorted daily s.1)
        (λ a e. (assign_all-All (λ t. leb date t ≡ true) daily s.0, assign_all-IsSorted daily s.1))

  -- The days of a cycle, in the order of their dates.
  abbrev pub days_of : ℕ → List (ℕ × D) → List (CycleDay D)
  days_of k daily = filter_by (λ d. cycle_of d == k) (assign_all (sort_by by_date daily))

  -- In one cycle the later day has the greater offset.
  later_offset :
      (k : ℕ) (d e : CycleDay D)
      → IsAssigned d
      → IsAssigned e
      → cycle_of d ≡ k
      → cycle_of e ≡ k
      → by_day d e ≡ true
      → by_offset d e ≡ true
  later_offset k d e a b at_k also_at_k h =
      let same : d.assigned.halving_date ≡ e.assigned.halving_date =
        same_window (ap window_of at_k ∙ sym (ap window_of also_at_k)) in
      ground (arith, a.offset, b.offset)
    where
      same_window :
          window_of d.assigned.cycle_number ≡ window_of e.assigned.cycle_number
          → d.assigned.halving_date ≡ e.assigned.halving_date
      same_window w = cc (sym a.window ∙ w ∙ b.window)

  later_offsets :
      (k : ℕ) (d : CycleDay D) (days : List (CycleDay D))
      → IsAssigned d
      → cycle_of d ≡ k
      → All IsAssigned days
      → All (λ e. by_day d e ≡ true) days
      → All (λ e. by_offset d e ≡ true) (filter_by (λ e. cycle_of e == k) days)
  later_offsets k d [] a at_k b h = tt
  later_offsets k d (e ∷ days) a at_k b h =
      if_of_cases (All (λ e. by_offset d e ≡ true)) (cycle_of e == k)
        (e ∷ filter_by (λ e. cycle_of e == k) days) (filter_by (λ e. cycle_of e == k) days)
        (λ same.
          (later_offset k d e a b.0 at_k (ground arith) h.0, later_offsets k d days a at_k b.1 h.1))
        (λ other. later_offsets k d days a at_k b.1 h.1)

  IsSorted-offsets :
      (k : ℕ) (days : List (CycleDay D))
      → All IsAssigned days
      → IsSorted by_day days
      → IsSorted by_offset (filter_by (λ d. cycle_of d == k) days)
  IsSorted-offsets k [] a s = tt
  IsSorted-offsets k (d ∷ days) a s =
      if_of_cases (IsSorted by_offset) (cycle_of d == k) (d ∷ filter_by (λ e. cycle_of e == k) days)
        (filter_by (λ e. cycle_of e == k) days)
        (λ same.
          (later_offsets k d days a.0 (ground arith) a.1 s.0, IsSorted-offsets k days a.1 s.1))
        (λ other. IsSorted-offsets k days a.1 s.1)

  pub days_of-IsSorted : (k : ℕ) (daily : List (ℕ × D)) → IsSorted by_offset (days_of k daily)
  days_of-IsSorted k daily =
      IsSorted-offsets k (assign_all (sort_by by_date daily))
        (assign_all-IsAssigned (sort_by by_date daily))
        (assign_all-IsSorted (sort_by by_date daily)
          (sort_by-IsSorted by_date (λ x y h. ground arith) (λ x y z h k. ground arith) daily))
