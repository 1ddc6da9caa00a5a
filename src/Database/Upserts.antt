-- ===== src/Database/Upserts.antt =====
-- The candle upserts of db/upserts.rs on the table coin_candles, a list of rows. The channel of
-- NOTIFY is the list of the candles that are announced.
pub mod Batches
pub mod Natives
use crypto_collector.Prelude.{
  ℕ, String, Bool, true, false, ◌&&◌, Option, some, none, List, [], ◌∷◌, ◌++◌, ◌==◌, str_eq, any,
  if◌then◌else◌,
}
use crypto_collector.Prelude.Digits.{codes}
use crypto_collector.Candles.{CoinCandle}

pub data CandleConflictPolicy : Type 0 where
  native_overwrite : CandleConflictPolicy
  rollup_guarded : CandleConflictPolicy

pub data CandleNotifyPolicy : Type 0 where
  per_event : CandleNotifyPolicy
  silent : CandleNotifyPolicy

abbrev pub starts_with : List ℕ → List ℕ → Bool
starts_with [] s = true
starts_with (p ∷ ps) [] = false
starts_with (p ∷ ps) (c ∷ s) = (p == c) && starts_with ps s

-- `source LIKE 'rollup:%'`.
unfoldable pub is_rollup : String → Bool
is_rollup source = starts_with (codes "rollup:") (codes source)

-- The table and the events of the channel.
pub record Written (D : Type 0) : Type 0 where
  pub rows : List (CoinCandle D)
  pub events : List (CoinCandle D)

module _ {D : Type 0} where
  -- `ON CONFLICT (coin_id, vs_currency, interval, ts)`.
  unfoldable pub same_key : CoinCandle D → CoinCandle D → Bool
  same_key a b =
      str_eq a.coin_id b.coin_id
      && str_eq a.vs_currency b.vs_currency
      && str_eq a.interval b.interval
      && (a.ts == b.ts)

  -- `DO UPDATE SET …`: the key of the row stays.
  unfoldable pub overwrite : CoinCandle D → CoinCandle D → CoinCandle D
  overwrite row c = record row {
    open_price = c.open_price;
    high = c.high;
    low = c.low;
    close = c.close;
    volume = c.volume;
    source = c.source;
  }

  -- The guard of the policy on the row that is there.
  unfoldable pub may_update : CandleConflictPolicy → CoinCandle D → Bool
  may_update native_overwrite row = true
  may_update rollup_guarded row = is_rollup row.source

  abbrev pub resolve : CandleConflictPolicy → CoinCandle D → CoinCandle D → CoinCandle D
  resolve policy row c = if may_update policy row then overwrite row c else row

  -- One row of a statement with a policy.
  unfoldable pub upsert_row :
      CandleConflictPolicy → CoinCandle D → List (CoinCandle D) → List (CoinCandle D)
  upsert_row policy c [] = c ∷ []
  upsert_row policy c (row ∷ rows) =
      let rest = upsert_row policy c rows in
      if same_key row c then resolve policy row c ∷ rows else row ∷ rest

  -- The statement and the NOTIFY, in one transaction.
  unfoldable pub upsert_coin_candle : CoinCandle D → Written D → Written D
  upsert_coin_candle c w = record {
    rows = upsert_row native_overwrite c w.rows;
    events = w.events ++ c ∷ [];
  }

  abbrev pub find_key : CoinCandle D → List (CoinCandle D) → Option (CoinCandle D)
  find_key c [] = none
  find_key c (row ∷ rows) = if same_key row c then some row else find_key c rows

  abbrev pub has_key : CoinCandle D → List (CoinCandle D) → Bool
  has_key c rows = any (λ row. same_key row c) rows

  -- Whether the statement writes the row of the candle: it inserts one or updates the one there.
  abbrev pub writes : CandleConflictPolicy → Option (CoinCandle D) → Bool
  writes policy none = true
  writes policy (some row) = may_update policy row

  -- The rows of one INSERT in their order. `touched` are the candles whose rows the statement has
  -- inserted or updated: PostgreSQL refuses to affect such a row a second time, and none is that
  -- error.
  unfoldable pub upsert_all :
      CandleConflictPolicy
      → List (CoinCandle D)
      → List (CoinCandle D)
      → List (CoinCandle D)
      → Option (List (CoinCandle D))
  upsert_all policy touched [] rows = some rows
  upsert_all policy touched (c ∷ candles) rows =
      let touched' = if writes policy (find_key c rows) then c ∷ touched else touched in
      let rest = upsert_all policy touched' candles (upsert_row policy c rows) in
      if has_key c touched then none else rest

  abbrev pub announced : CandleNotifyPolicy → List (CoinCandle D) → List (CoinCandle D)
  announced per_event candles = candles
  announced silent candles = []

  -- None is the error of the statement, which rolls the transaction back.
  unfoldable pub batched_upsert_coin_candles :
      List (CoinCandle D)
      → CandleConflictPolicy
      → CandleNotifyPolicy
      → Written D
      → Option (Written D)
  batched_upsert_coin_candles [] conflict notify w = some w
  batched_upsert_coin_candles (c ∷ candles) conflict notify w =
      elim (upsert_all conflict [] (c ∷ candles) w.rows) [
        | none ↦ none
        | some rows ↦
            some (record { rows = rows; events = w.events ++ announced notify (c ∷ candles) })
      ]
