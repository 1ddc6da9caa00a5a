-- ===== src/Database/Coverage/Spans.antt =====
-- What the loose index scan of db/candles.rs finds.
use crypto_collector.Prelude.{
  ℕ, zero, suc, ◌≤◌, ◌≡◌, refl, ap, sym, subst, String, Bool, true, false, some, List, [], ◌∷◌,
  length, str_eq, str_eq_iff, filter_by, arith, inl, inr, Bool-cases, Option-cases, Elem, All-Elem,
}
use crypto_collector.Candles.{CoinCandle, IntervalCoverage}
use crypto_collector.Database.Coverage.{
  Collation, in_pair, by_interval, earlier, later, skip_scan, of_interval, span_of, spans,
  interval_coverage,
}
use crypto_collector.Database.Coverage.Rows.{
  first_by_lem, Elem-filter_by, Elem-of_filter_by, length_strictly, Elem-short,
}

module _ ⦃collation : Collation⦄ where
  lt_asym : (a b : String) → collation.lt a b ≡ true → collation.lt b a ≡ false
  lt_asym a b h = elim (Bool-cases (collation.lt b a)) [
    | inl k ↦ ground (arith, collation.lt_trans a b a h k, collation.lt_irrefl a)
    | inr k ↦ k
  ]

  lt-not_trans :
      (a b c : String)
      → collation.lt a b ≡ false
      → collation.lt b c ≡ false
      → collation.lt a c ≡ false
  lt-not_trans a b c h k = elim (Bool-cases (collation.lt a c)) [
    | inr r ↦ r
    | inl r ↦ elim (Bool-cases (collation.lt b a)) [
      | inl m ↦ ground (arith, collation.lt_trans b a c m r, k)
      | inr m ↦ subst (λ x. collation.lt x c ≡ false) (sym (collation.lt_total a b h m)) k
    ]
  ]

  -- Of a non-empty part of the rows that holds every row beyond its own, the scan
  -- with as much fuel as there are rows in it lists the interval of each of them.
  skip_scan_complete :
      {D : Type 0}
      → (fuel : ℕ) (rows : List (CoinCandle D)) (p : CoinCandle D → Bool)
      → ((a b : CoinCandle D) → p a ≡ true → by_interval a b ≡ true → p b ≡ true)
      → length (filter_by p rows) ≤ fuel
      → (c : CoinCandle D) → Elem c (filter_by p rows)
      → Elem c.interval (skip_scan fuel rows (filter_by p rows))
  unfolding skip_scan
  skip_scan_complete zero rows p up enough c h = absurd (Elem-short c (filter_by p rows) enough h)
  skip_scan_complete (suc fuel) rows p up enough c h =
      elim (first_by_lem by_interval (λ a b. lt_asym a.interval b.interval)
        (λ a b d. lt-not_trans a.interval b.interval d.interval) (filter_by p rows)) [
          | inl (e, nothing) ↦ absurd (subst (Elem c) nothing h)
          | inr (m, e, among, least) ↦
              let (there, holds) = Elem-of_filter_by p m rows among in
              let fewer =
                length_strictly (λ x. collation.lt m.interval x.interval) p (λ x k. up m x holds k)
                  m rows there holds (collation.lt_irrefl m.interval) in
              rw (e, skip_scan, Elem)
                (elim (Bool-cases (collation.lt m.interval c.interval)) [
                  | inl k ↦ inr (
                      skip_scan_complete fuel rows (λ x. collation.lt m.interval x.interval)
                        (λ a b. collation.lt_trans m.interval a.interval b.interval)
                        (omega (arith, fewer, enough)) c
                        (Elem-filter_by (λ x. collation.lt m.interval x.interval) c rows
                          (let (stored, _) = Elem-of_filter_by p c rows h in stored) k))
                  | inr k ↦ inl (
                      collation.lt_total m.interval c.interval k
                        (All-Elem (λ x. by_interval x m ≡ false) c (filter_by p rows) least h))
                ])
        ]

module _ ⦃collation : Collation⦄ where
  spans-Elem :
      {D : Type 0}
      → (rows : List (CoinCandle D)) (i : String) (s : IntervalCoverage) → span_of rows i ≡ some s
      → (intervals : List String) → Elem i intervals
      → Elem s (spans rows intervals)
  spans-Elem rows i s found [] h = absurd h
  spans-Elem rows i s found (x ∷ xs) (inl e) =
      let here : span_of rows x ≡ some s = subst (λ y. span_of rows y ≡ some s) (sym e) found in
      rw (here, spans, Elem) (inl refl)
  spans-Elem rows i s found (x ∷ xs) (inr h) =
      let rest = spans-Elem rows i s found xs h in
      elim (Option-cases (span_of rows x)) [
        | inl n ↦ rw (n, spans, Elem) rest
        | inr (t, y) ↦ rw (y, spans, Elem) (inr rest)
      ]

  span_of_lem :
      {D : Type 0}
      → (rows : List (CoinCandle D)) (c : CoinCandle D) → Elem c rows
      → (s : IntervalCoverage) × (span_of rows c.interval ≡ some s)
        × (s.interval ≡ c.interval)
        × (s.earliest ≤ c.ts)
        × (c.ts ≤ s.latest)
  unfolding span_of
  span_of_lem {D = D} rows c h =
      let mine : List (CoinCandle D) = of_interval c.interval rows in
      let among : Elem c mine =
        Elem-filter_by (λ x. str_eq x.interval c.interval) c rows h
          ((str_eq_iff c.interval c.interval).1 refl) in
      elim (first_by_lem earlier (λ a b k. ground (arith, k)) (λ a b d k l. ground (arith, k, l))
        mine) [
          | inl (e, nothing) ↦ absurd (subst (Elem c) nothing among)
          | inr (a, e, at, least) ↦
              elim (first_by_lem later (λ a b k. ground (arith, k))
                (λ a b d k l. ground (arith, k, l)) mine) [
                  | inl (e', nothing) ↦ absurd (subst (Elem c) nothing among)
                  | inr (b, e', at', greatest) ↦ (
                    record { interval = c.interval; earliest = a.ts; latest = b.ts },
                    rw (e, e', span_of) refl,
                    refl,
                    ground (arith, All-Elem (λ x. earlier x a ≡ false) c mine least among),
                    ground (arith, All-Elem (λ x. later x b ≡ false) c mine greatest among),
                  )
                ]
        ]

  filter_by-all : {A : Type 0} → (xs : List A) → filter_by (λ _. true) xs ≡ xs
  filter_by-all [] = refl
  filter_by-all (x ∷ xs) = ap (λ ys. x ∷ ys) (filter_by-all xs)

  -- Every stored candle of a pair lies within a span that `interval_coverage` answers
  -- for the candle's interval, whatever the collation.
  pub interval_coverage_lem :
      {D : Type 0}
      → (candles : List (CoinCandle D)) (coin_id vs_currency : String) (c : CoinCandle D)
      → Elem c candles
      → in_pair coin_id vs_currency c ≡ true
      → (s : IntervalCoverage) × Elem s (interval_coverage candles coin_id vs_currency)
        × (s.interval ≡ c.interval)
        × (s.earliest ≤ c.ts)
        × (c.ts ≤ s.latest)
  unfolding interval_coverage
  interval_coverage_lem {D = D} candles coin_id vs_currency c stored mine =
      let rows : List (CoinCandle D) = filter_by (in_pair coin_id vs_currency) candles in
      let among : Elem c rows =
        Elem-filter_by (in_pair coin_id vs_currency) c candles stored mine in
      let same = filter_by-all rows in
      let listed : Elem c.interval (skip_scan (length rows) rows (filter_by (λ _. true) rows)) =
        skip_scan_complete (length rows) rows (λ _. true) (λ a b h k. refl)
          (subst (λ xs. length xs ≤ length rows) (sym same) (omega arith)) c
          (subst (Elem c) (sym same) among) in
      let (s, found, named, after, before) = span_of_lem rows c among in
      (
        s,
        spans-Elem rows c.interval s found (skip_scan (length rows) rows rows)
            (subst (λ xs. Elem c.interval (skip_scan (length rows) rows xs)) same listed),
        named,
        after,
        before,
      )
