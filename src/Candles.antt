-- ===== src/Candles.antt =====
-- The candle aggregation of api/candles_agg.rs. An instant is a number of nanoseconds since the
-- epoch, a bucket is named by its first second. `Decimal` of the crate rust_decimal is a type `D`
-- with the operations that the code uses and the laws of their order.
pub mod Buckets
pub mod Fold
pub mod Output
pub mod Members
pub mod Below
pub mod Source
use crypto_collector.Prelude.{
  ℕ, ◌+◌, ◌*◌, ◌-◌, ◌/◌, ◌%◌, String, Bool, true, false, Option, some, none, List, [], ◌∷◌, ◌++◌,
  ◌≡◌, map, ltb, leb, ◌==◌, ◌&&◌, ◌||◌, if◌then◌else◌, length, first_least, sort_by, str_append,
}
use crypto_collector.Interval.{from_str, secs}

abbrev pub second : ℕ
second = 1_000_000_000

-- What the code uses of rust_decimal: a strict total order, a sum and a zero.
pub record Decimals (D : Type 0) : Type 0 where
  pub lt : D → D → Bool
  pub add : D → D → D
  pub zero_decimal : D
  pub lt_irrefl : (a : D) → lt a a ≡ false
  pub lt_asym : (a b : D) → lt a b ≡ true → lt b a ≡ false
  pub not_lt_trans : (a b c : D) → lt b a ≡ false → lt c b ≡ false → lt c a ≡ false

-- models/quote.rs
pub record CoinCandle (D : Type 0) : Type 0 where
  pub coin_id : String
  pub vs_currency : String
  pub interval : String
  pub ts : ℕ
  pub open_price : D
  pub high : D
  pub low : D
  pub close : D
  pub volume : Option D
  pub source : String

unfoldable pub interval_secs : String → Option ℕ
interval_secs interval = elim (from_str interval) [ none ↦ none | some i ↦ some (secs i) ]

pub record IntervalCoverage : Type 0 where
  pub interval : String
  pub earliest : ℕ
  pub latest : ℕ

-- The stored intervals that are shorter than the target and divide it, with their seconds.
abbrev pub divides : ℕ → ℕ → Bool
divides target_secs secs = ltb secs target_secs && (target_secs % secs == 0)

unfoldable pub divisors : ℕ → List IntervalCoverage → List (ℕ × IntervalCoverage)
divisors target_secs [] = []
divisors target_secs (c ∷ stored) =
    let rest = divisors target_secs stored in
    elim (interval_secs c.interval) [
      | none ↦ rest
      | some secs ↦ if divides target_secs secs then (secs, c) ∷ rest else rest
    ]

-- The score in whole seconds; both misses are cut off at zero.
unfoldable pub score : ℕ → ℕ → ℕ × IntervalCoverage → ℕ
score floor now (secs, c) = (c.earliest - floor) / second + (now - c.latest) / second

-- The order of the keys `(score, Reverse(secs))`.
unfoldable pub better : ℕ → ℕ → ℕ × IntervalCoverage → ℕ × IntervalCoverage → Bool
better floor now a b =
    ltb (score floor now a) (score floor now b)
    || (score floor now a == score floor now b) && ltb b.0 a.0

abbrev pub earliest_of : List (ℕ × IntervalCoverage) → Option ℕ
earliest_of [] = none
earliest_of (d ∷ ds) = elim (earliest_of ds) [
  | none ↦ some (d.1.earliest)
  | some best ↦ some (if leb (d.1.earliest) best then d.1.earliest else best)
]

-- The start of the window, or the deepest history of a divisor.
abbrev pub floor_of : Option ℕ → ℕ → List (ℕ × IntervalCoverage) → ℕ
floor_of (some start) now ds = start
floor_of none now ds = elim (earliest_of ds) [ none ↦ now | some e ↦ e ]

unfoldable pub select_source_interval : List IntervalCoverage → ℕ → Option ℕ → ℕ → Option String
select_source_interval stored target_secs window_start now =
    let ds = divisors target_secs stored in
    elim (first_least (better (floor_of window_start now ds) now) ds) [
      | none ↦ none
      | some d ↦ some (d.1.interval)
    ]

-- The first second of the bucket of an instant.
unfoldable pub bucket_start : ℕ → ℕ → ℕ
bucket_start ts target_secs = let epoch_secs = ts / second in epoch_secs - epoch_secs % target_secs

-- What every candle of one call shares.
pub record Labels : Type 0 where
  pub coin_id : String
  pub vs_currency : String
  pub interval : String
  pub source : String

module _ {D : Type 0} ⦃dec : Decimals D⦄ where
  -- `Iterator::sum` of the volumes that are there, if all are.
  abbrev pub sum_from : D → List (Option D) → Option D
  sum_from total [] = some total
  sum_from total (none ∷ vs) = none
  sum_from total (some v ∷ vs) = sum_from (dec.add total v) vs

  unfoldable pub fold_volume : List (Option D) → Option D
  fold_volume volumes = sum_from dec.zero_decimal volumes

  -- `Iterator::max` keeps the last of the greatest, `Iterator::min` the first of the least.
  abbrev pub max_from : D → List D → D
  max_from best [] = best
  max_from best (x ∷ xs) = max_from (if dec.lt x best then best else x) xs

  abbrev pub min_from : D → List D → D
  min_from best [] = best
  min_from best (x ∷ xs) = min_from (if dec.lt x best then x else best) xs

  abbrev pub last_from : CoinCandle D → List (CoinCandle D) → CoinCandle D
  last_from c [] = c
  last_from c (d ∷ ds) = last_from d ds

  -- `bucket_map.entry(bs).or_default().push(c)`, in a map with ascending keys.
  abbrev pub push :
      ℕ → CoinCandle D → List (ℕ × List (CoinCandle D)) → List (ℕ × List (CoinCandle D))
  push bs c [] = (bs, c ∷ []) ∷ []
  push bs c ((key, members) ∷ m) =
      let rest = push bs c m in
      if bs == key
      then (key, members ++ c ∷ []) ∷ m
      else if ltb bs key
      then (bs, c ∷ []) ∷ (key, members) ∷ m
      else (key, members) ∷ rest

  -- The loop over the sorted source.
  abbrev pub group_from :
      ℕ → List (CoinCandle D) → List (ℕ × List (CoinCandle D)) → List (ℕ × List (CoinCandle D))
  group_from target_secs [] m = m
  group_from target_secs (c ∷ cs) m =
      group_from target_secs cs (push (bucket_start c.ts target_secs) c m)

  -- The candle of a bucket whose first member is `first`.
  unfoldable pub fold_bucket : Labels → ℕ → CoinCandle D → List (CoinCandle D) → CoinCandle D
  fold_bucket l bs first rest = record {
    coin_id = l.coin_id;
    vs_currency = l.vs_currency;
    interval = l.interval;
    ts = bs * second;
    open_price = first.open_price;
    high = max_from first.high (map (λ c. c.high) rest);
    low = min_from first.low (map (λ c. c.low) rest);
    close = (last_from first rest).close;
    volume = fold_volume (first.volume ∷ map (λ c. c.volume) rest);
    source = l.source;
  }

  -- A closed bucket with too few members is dropped.
  abbrev pub is_dropped : ℕ → ℕ → ℕ → ℕ → List (CoinCandle D) → Bool
  is_dropped target_secs n now bs members =
      leb (bs + target_secs) (now / second) && ltb (length members) n

  unfoldable pub emit : Labels → ℕ → ℕ → ℕ → ℕ → List (CoinCandle D) → Option (CoinCandle D)
  emit l target_secs n now bs [] = none
  emit l target_secs n now bs (first ∷ rest) =
      if is_dropped target_secs n now bs (first ∷ rest)
      then none
      else some (fold_bucket l bs first rest)

  abbrev pub emit_all : Labels → ℕ → ℕ → ℕ → List (ℕ × List (CoinCandle D)) → List (CoinCandle D)
  emit_all l target_secs n now [] = []
  emit_all l target_secs n now ((bs, members) ∷ m) =
      let rest = emit_all l target_secs n now m in
      elim (emit l target_secs n now bs members) [ none ↦ rest | some c ↦ c ∷ rest ]

  abbrev pub by_ts : CoinCandle D → CoinCandle D → Bool
  by_ts a b = leb a.ts b.ts

  abbrev pub by_ts_desc : CoinCandle D → CoinCandle D → Bool
  by_ts_desc a b = leb b.ts a.ts

  -- The labels of a call: the first candle in time gives the coin and the currency.
  abbrev pub labels_of : CoinCandle D → String → String → Labels
  labels_of first source_interval_label target_interval = record {
    coin_id = first.coin_id;
    vs_currency = first.vs_currency;
    interval = target_interval;
    source = str_append "aggregated:" source_interval_label;
  }

  -- After the sort of the source.
  abbrev pub aggregate_sorted :
      ℕ → ℕ → ℕ → String → String → List (CoinCandle D) → List (CoinCandle D)
  aggregate_sorted target_secs source_secs now label target_interval [] = []
  aggregate_sorted target_secs source_secs now label target_interval (first ∷ rest) =
      sort_by by_ts_desc (
        emit_all (labels_of first label target_interval) target_secs (target_secs / source_secs) now
          (group_from target_secs (first ∷ rest) []))

  unfoldable pub aggregate_candles :
      List (CoinCandle D) → ℕ → ℕ → ℕ → String → String → List (CoinCandle D)
  aggregate_candles source target_secs source_secs now label target_interval =
      aggregate_sorted target_secs source_secs now label target_interval (sort_by by_ts source)
