-- ===== src/Rollup/Windows.antt =====
-- The windows of collectors/rollup.rs never split a bucket: folding window by window gives the candles
-- of the whole series.
use crypto_collector.Prelude.{
  ℕ, ◌+◌, ◌*◌, ◌/◌, ◌%◌, ◌≤◌, ◌<◌, String, Bool, true, List, [], ◌∷◌, ◌≡◌, refl, arith, leb, ltb,
  ◌&&◌, filter_by, sort_by, All, find_by, str_append, sym, ap, subst, ◌∙◌, All-sort_by,
  filter_by-sort_by, All-filter_by, ◌⊎◌, inl, inr,
}
use crypto_collector.Candles.{
  Labels, Decimals, CoinCandle, aggregate_candles, bucket_start, second, by_ts, emit, labels_of,
}
use crypto_collector.Candles.Buckets.{in_bucket}
use crypto_collector.Candles.Output.{at_bucket, aggregate_candles-find, emit-empty}
use crypto_collector.Rollup.{week_secs, chunk}

-- The rows of a window, as its query selects them.
abbrev pub in_window_of : {D : Type 0} → ℕ → ℕ → CoinCandle D → Bool
in_window_of start end c = leb start c.ts && ltb c.ts end

abbrev pub OfCoin : {D : Type 0} → String → String → CoinCandle D → Type 0
OfCoin coin_id vs_currency c = (c.coin_id ≡ coin_id) × (c.vs_currency ≡ vs_currency)

abbrev pub coin_labels : String → String → String → String → Labels
coin_labels coin_id vs_currency label target_interval = record {
  coin_id = coin_id;
  vs_currency = vs_currency;
  interval = target_interval;
  source = str_append "aggregated:" label;
}

-- What a bucket start says of an instant.
bucket_start-bounds :
    (ts target_secs : ℕ)
    → 1 ≤ target_secs
    → (bucket_start ts target_secs * second ≤ ts)
      × (ts < (bucket_start ts target_secs + target_secs) * second)
unfolding bucket_start
bucket_start-bounds ts target_secs h = grind arith

filter_by-filter_by {ℓ} :
    {A : Type ℓ}
    → (p q : A → Bool) → ((x : A) → p x ≡ true → q x ≡ true)
    → (xs : List A) → filter_by p (filter_by q xs) ≡ filter_by p xs
filter_by-filter_by p q h [] = refl
filter_by-filter_by p q h (x ∷ xs) = ground (arith, h x, filter_by-filter_by p q h xs)

module _ {D : Type 0} ⦃dec : Decimals D⦄ where
  find-OfCoin :
      (source : List (CoinCandle D)) (target_secs source_secs now bs : ℕ)
      (coin_id vs_currency label target_interval : String)
      → All (OfCoin coin_id vs_currency) source
      → find_by
          (at_bucket bs)
          (aggregate_candles source target_secs source_secs now label target_interval)
        ≡ emit
            (coin_labels coin_id vs_currency label target_interval)
            target_secs
            (target_secs / source_secs)
            now
            bs
            (filter_by (in_bucket target_secs bs) (sort_by by_ts source))
  unfolding aggregate_candles
  find-OfCoin source target_secs source_secs now bs coin_id vs_currency label target_interval
        of_coin =
      by_sorted (sort_by by_ts source) refl
        (All-sort_by (OfCoin coin_id vs_currency) by_ts source of_coin)
    where
      by_sorted :
          (cs : List (CoinCandle D))
          → sort_by by_ts source ≡ cs
          → All (OfCoin coin_id vs_currency) cs
          → find_by
              (at_bucket bs)
              (aggregate_candles source target_secs source_secs now label target_interval)
            ≡ emit
                (coin_labels coin_id vs_currency label target_interval)
                target_secs
                (target_secs / source_secs)
                now
                bs
                (filter_by (in_bucket target_secs bs) (sort_by by_ts source))
      by_sorted [] h all = rw h (
          sym (
            emit-empty (coin_labels coin_id vs_currency label target_interval) target_secs
              (target_secs / source_secs) now bs))
      by_sorted (c ∷ cs) h all =
          let same : labels_of c label target_interval
              ≡ coin_labels coin_id vs_currency label target_interval =
            ground (arith, all.0.0, all.0.1) in
          aggregate_candles-find source target_secs source_secs now bs label target_interval c cs h
          ∙ ap
              (λ l.
                emit l target_secs (target_secs / source_secs) now bs
                  (filter_by (in_bucket target_secs bs) (sort_by by_ts source)))
              same

  in_bucket-in_window :
      (target_secs bs start : ℕ) (c : CoinCandle D)
      → (target_secs ≡ 86_400) ⊎ (target_secs ≡ 604_800)
      → start % week_secs ≡ 0
      → bs % target_secs ≡ 0
      → start ≤ bs
      → bs * second < start * second + chunk
      → in_bucket target_secs bs c ≡ true
      → in_window_of (start * second) (start * second + chunk) c ≡ true
  in_bucket-in_window target_secs bs start c (inl day) a b low high h =
      let bounds = bucket_start-bounds c.ts target_secs (omega arith) in
      let at : bucket_start c.ts target_secs ≡ bs = ground arith in
      let aligned : bs % 86_400 ≡ 0 = subst (λ t. bs % t ≡ 0) day b in
      let inside : (start * second ≤ c.ts) × (c.ts < start * second + chunk) =
        (omega (arith, bounds, at), omega (arith, bounds, at, aligned)) in
      ground (arith, inside)
  in_bucket-in_window target_secs bs start c (inr week) a b low high h =
      let bounds = bucket_start-bounds c.ts target_secs (omega arith) in
      let at : bucket_start c.ts target_secs ≡ bs = ground arith in
      let aligned : bs % 604_800 ≡ 0 = subst (λ t. bs % t ≡ 0) week b in
      let inside : (start * second ≤ c.ts) × (c.ts < start * second + chunk) =
        (omega (arith, bounds, at), omega (arith, bounds, at, aligned)) in
      ground (arith, inside)

  -- Folding only the rows of one week-aligned window gives, for each daily or weekly bucket that starts
  -- in the window, exactly the candle that the whole series of the coin gives: no bucket straddles
  -- the edge of a window.
  pub aggregate_candles-window :
      (source : List (CoinCandle D)) (target_secs source_secs now bs start : ℕ)
      (coin_id vs_currency label target_interval : String)
      → All (OfCoin coin_id vs_currency) source
      → (target_secs ≡ 86_400) ⊎ (target_secs ≡ 604_800)
      → start % week_secs ≡ 0
      → bs % target_secs ≡ 0
      → start ≤ bs
      → bs * second < start * second + chunk
      → find_by (at_bucket bs) (
          aggregate_candles
            (filter_by (in_window_of (start * second) (start * second + chunk)) source)
            target_secs
            source_secs
            now
            label
            target_interval)
        ≡ find_by
            (at_bucket bs)
            (aggregate_candles source target_secs source_secs now label target_interval)
  aggregate_candles-window source target_secs source_secs now bs start coin_id vs_currency label
        target_interval of_coin width a b low high =
      let inside = λ (c : CoinCandle D). in_window_of (start * second) (start * second + chunk) c in
      let here =
        find-OfCoin (filter_by inside source) target_secs source_secs now bs coin_id vs_currency
          label target_interval
          (All-filter_by (OfCoin coin_id vs_currency) inside source of_coin) in
      let whole =
        find-OfCoin source target_secs source_secs now bs coin_id vs_currency label target_interval
          of_coin in
      let members : filter_by (in_bucket target_secs bs) (sort_by by_ts (filter_by inside source))
          ≡ filter_by (in_bucket target_secs bs) (sort_by by_ts source) =
        ap (filter_by (in_bucket target_secs bs)) (
          sym (
            filter_by-sort_by by_ts inside (λ x y h. ground arith) (λ x y z h k. ground arith)
              source))
        ∙ filter_by-filter_by (in_bucket target_secs bs) inside
            (λ c h. in_bucket-in_window target_secs bs start c width a b low high h)
            (sort_by by_ts source) in
      here
      ∙ ap
          (emit (coin_labels coin_id vs_currency label target_interval) target_secs
            (target_secs / source_secs) now bs)
          members
      ∙ sym whole
