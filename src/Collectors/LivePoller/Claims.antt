-- ===== src/Collectors/LivePoller/Claims.antt =====
-- The claim of collectors/live_poller.rs: which coins it takes, and how long they stay taken.
use crypto_collector.Prelude.{
  ℕ, zero, suc, ◌+◌, ◌*◌, ◌≤◌, ◌≡◌, ◌⊎◌, refl, ap, subst, Bool, true, false, not, ◌&&◌, Option,
  some, none, List, [], ◌∷◌, ◌++◌, map, length, take, arith, inl, inr, All, All-map, All-take,
  All-sort_by, filter_by, filter_by-holds, sort_by, IsSorted, sort_by-IsSorted, length-take,
}
use crypto_collector.Candles.{second}
use crypto_collector.Collectors.LivePoller.{
  PolledCoin, is_claimable, polled_before, most_overdue, select_due, with_marker, claim_due_coins,
}

most_overdue_total : (a b : PolledCoin) → most_overdue a b ≡ false → most_overdue b a ≡ true
most_overdue_total a b = by_polled a.last_polled_at b.last_polled_at
  where
    by_polled : (x y : Option ℕ) → polled_before x y ≡ false → polled_before y x ≡ true
    by_polled none y h = absurd (cc)
    by_polled (some x) none h = refl
    by_polled (some x) (some y) h = ground arith

most_overdue_trans :
    (a b c : PolledCoin)
    → most_overdue a b ≡ true
    → most_overdue b c ≡ true
    → most_overdue a c ≡ true
most_overdue_trans a b c = by_polled a.last_polled_at b.last_polled_at c.last_polled_at
  where
    by_polled :
        (x y z : Option ℕ)
        → polled_before x y ≡ true
        → polled_before y z ≡ true
        → polled_before x z ≡ true
    by_polled none y z h k = refl
    by_polled (some x) none z h k = absurd (cc)
    by_polled (some x) (some y) none h k = absurd (cc)
    by_polled (some x) (some y) (some z) h k = ground arith

All-behind : (P : PolledCoin → Type 0) (xs ys : List PolledCoin) → All P (xs ++ ys) → All P ys
All-behind P [] ys h = h
All-behind P (x ∷ xs) ys h = All-behind P xs ys h.1

-- The rows of a sorted list behind its first `n`, and the first `n` before all of them.
split_sorted :
    (n : ℕ) (rows : List PolledCoin)
    → IsSorted most_overdue rows
    → (rest : List PolledCoin) × (rows ≡ take n rows ++ rest)
      × All (λ c. All (λ r. most_overdue c r ≡ true) rest) (take n rows)
      × ((rest ≡ []) ⊎ (length (take n rows) ≡ n))
split_sorted zero rows s = (rows, refl, tt, inr refl)
split_sorted (suc n) [] s = ([], refl, tt, inl refl)
split_sorted (suc n) (x ∷ rows) s =
    let (rest, whole, before, full) = split_sorted n rows s.1 in
    (
      rest,
      ap (λ t. x ∷ t) whole,
      (
        All-behind (λ r. most_overdue x r ≡ true) (take n rows) rest
            (subst (All (λ r. most_overdue x r ≡ true)) whole s.0),
        before,
      ),
      elim full [ inl done ↦ inl done | inr e ↦ inr (omega (arith, e)) ],
    )

module _ (now global_interval_secs claim_ttl_secs batch_limit : ℕ) (locked : PolledCoin → Bool)
    (rows : List PolledCoin) where
  abbrev free : PolledCoin → Bool
  free r = is_claimable now global_interval_secs r && not (locked r)

  abbrev taken : List PolledCoin
  taken = select_due now global_interval_secs batch_limit locked rows

  -- A claim takes coins that are due and that no other transaction holds, at most the limit of a
  -- batch, the longest unpolled first: whatever it leaves waiting is left only by a full batch and
  -- was polled no earlier than any coin it takes. Each taken coin is returned with its marker.
  pub claim_due_coins_lem :
      (waiting : List PolledCoin) × ((claim_due_coins now global_interval_secs claim_ttl_secs
          batch_limit locked rows).0
        ≡ map (with_marker (now + claim_ttl_secs * second)) taken)
      × (sort_by most_overdue (filter_by free rows) ≡ taken ++ waiting)
      × All (λ c. (is_claimable now global_interval_secs c ≡ true) × (locked c ≡ false)) taken
      × All (λ c. All (λ r. most_overdue c r ≡ true) waiting) taken
      × ((waiting ≡ []) ⊎ (length taken ≡ batch_limit))
      × (length taken ≤ batch_limit)
  unfolding claim_due_coins select_due
  claim_due_coins_lem =
      let sorted = sort_by most_overdue (filter_by free rows) in
      let (waiting, whole, before, full) = split_sorted batch_limit sorted (
        sort_by-IsSorted most_overdue most_overdue_total most_overdue_trans
          (filter_by free rows)) in
      let due : All (λ c. free c ≡ true) (take batch_limit sorted) =
        All-take (λ c. free c ≡ true) batch_limit sorted
          (All-sort_by (λ c. free c ≡ true) most_overdue (filter_by free rows)
            (filter_by-holds free rows)) in
      (
        waiting,
        refl,
        whole,
        All-map (λ c. free c ≡ true)
            (λ c. (is_claimable now global_interval_secs c ≡ true) × (locked c ≡ false))
            (λ c h. (ground arith, ground arith)) (take batch_limit sorted) due,
        before,
        full,
        omega (arith, length-take batch_limit sorted),
      )
