-- ===== src/Database/Coverage.antt =====
-- The loose index scan of db/candles.rs on coin_candles. The order of texts is that of the database.
pub mod Rows
pub mod Spans
use crypto_collector.Prelude.{
  ℕ, zero, suc, String, Bool, true, false, ◌&&◌, ◌≡◌, Option, some, none, List, [], ◌∷◌, map,
  length, ltb, str_eq, if◌then◌else◌, filter_by,
}
use crypto_collector.Candles.{CoinCandle, IntervalCoverage}

-- The collation of the database, a strict total order of texts.
pub record Collation : Type 0 where
  pub lt : String → String → Bool
  pub lt_irrefl : (a : String) → lt a a ≡ false
  pub lt_trans : (a b c : String) → lt a b ≡ true → lt b c ≡ true → lt a c ≡ true
  pub lt_total : (a b : String) → lt a b ≡ false → lt b a ≡ false → a ≡ b

-- `ORDER BY … LIMIT 1` by an order of keys: the first of those that nothing precedes.
abbrev pub first_by : {A : Type 0} → (A → A → Bool) → List A → Option A
first_by before [] = none
first_by before (x ∷ xs) = elim (first_by before xs) [
  | none ↦ some x
  | some y ↦ if before y x then some y else some x
]

module _ {D : Type 0} ⦃collation : Collation⦄ where
  abbrev pub in_pair : String → String → CoinCandle D → Bool
  in_pair coin_id vs_currency c = str_eq c.coin_id coin_id && str_eq c.vs_currency vs_currency

  abbrev pub by_interval : CoinCandle D → CoinCandle D → Bool
  by_interval a b = collation.lt a.interval b.interval

  abbrev pub earlier : CoinCandle D → CoinCandle D → Bool
  earlier a b = ltb a.ts b.ts

  abbrev pub later : CoinCandle D → CoinCandle D → Bool
  later a b = ltb b.ts a.ts

  -- `interval > ivs.interval`, on the rows of the pair.
  abbrev pub beyond : String → List (CoinCandle D) → List (CoinCandle D)
  beyond interval rows = filter_by (λ c. collation.lt interval c.interval) rows

  -- The recursion of the CTE from the next interval on; NULL ends it.
  unfoldable pub skip_scan : ℕ → List (CoinCandle D) → List (CoinCandle D) → List String
  skip_scan zero rows rest = []
  skip_scan (suc fuel) rows rest = elim (first_by by_interval rest) [
    | none ↦ []
    | some c ↦ c.interval ∷ skip_scan fuel rows (beyond c.interval rows)
  ]

  abbrev pub of_interval : String → List (CoinCandle D) → List (CoinCandle D)
  of_interval interval rows = filter_by (λ c. str_eq c.interval interval) rows

  -- The two endpoint seeks of an interval; without a row they are NULL, which is no answer.
  unfoldable pub span_of : List (CoinCandle D) → String → Option IntervalCoverage
  span_of rows interval = elim (first_by earlier (of_interval interval rows)) [
    | none ↦ none
    | some a ↦ elim (first_by later (of_interval interval rows)) [
      | none ↦ none
      | some b ↦ some (record { interval = interval; earliest = a.ts; latest = b.ts })
    ]
  ]

  abbrev pub spans : List (CoinCandle D) → List String → List IntervalCoverage
  spans rows [] = []
  spans rows (interval ∷ intervals) =
      let rest = spans rows intervals in
      elim (span_of rows interval) [ none ↦ rest | some s ↦ s ∷ rest ]

  -- A pair has at most as many intervals as rows.
  unfoldable pub interval_coverage : List (CoinCandle D) → String → String → List IntervalCoverage
  interval_coverage candles coin_id vs_currency =
      let rows = filter_by (in_pair coin_id vs_currency) candles in
      spans rows (skip_scan (length rows) rows rows)
