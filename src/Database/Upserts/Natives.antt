-- ===== src/Database/Upserts/Natives.antt =====
-- The native rows of coin_candles under the batch of a rollup (db/upserts.rs).
use crypto_collector.Prelude.{false, some, List, [], ◌∷◌, ◌++◌, ◌≡◌, arith}
use crypto_collector.Candles.{CoinCandle}
use crypto_collector.Database.Upserts.{
  rollup_guarded, CandleNotifyPolicy, is_rollup, same_key, overwrite, may_update, upsert_row,
  Written, find_key, announced, batched_upsert_coin_candles,
}
use crypto_collector.Database.Upserts.Batches.{AreDistinct, upsert_each, batched_of_distinct}

module _ {D : Type 0} where
  native_kept :
      (c k native : CoinCandle D) (rows : List (CoinCandle D))
      → is_rollup native.source ≡ false
      → find_key k rows ≡ some native
      → find_key k (upsert_row rollup_guarded c rows) ≡ some native
  unfolding upsert_row may_update same_key overwrite
  native_kept c k native [] n h = absurd (cc)
  native_kept c k native (row ∷ rows) n h = ground (arith, n, h, native_kept c k native rows)

  natives_kept :
      (candles : List (CoinCandle D)) (k native : CoinCandle D) (rows : List (CoinCandle D))
      → is_rollup native.source ≡ false
      → find_key k rows ≡ some native
      → find_key k (upsert_each rollup_guarded candles rows) ≡ some native
  natives_kept [] k native rows n h = h
  natives_kept (c ∷ candles) k native rows n h =
      natives_kept candles k native (upsert_row rollup_guarded c rows) n
        (native_kept c k native rows n h)

  -- The batch of a rollup goes through where its candles have different keys, and leaves every row
  -- of a native source as it is, whatever candles it carries.
  pub batched_upsert_coin_candles_keeps_native :
      (candles : List (CoinCandle D)) (notify : CandleNotifyPolicy) (w : Written D)
      (k native : CoinCandle D)
      → AreDistinct candles
      → is_rollup native.source ≡ false
      → find_key k w.rows ≡ some native
      → (after : Written D) × (batched_upsert_coin_candles candles rollup_guarded notify w
          ≡ some after)
        × (find_key k after.rows ≡ some native)
  batched_upsert_coin_candles_keeps_native candles notify w k native d n h = (
    record {
      rows = upsert_each rollup_guarded candles w.rows;
      events = w.events ++ announced notify candles;
    },
    batched_of_distinct candles rollup_guarded notify w d,
    natives_kept candles k native w.rows n h,
  )
