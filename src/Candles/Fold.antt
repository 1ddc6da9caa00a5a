-- ===== src/Candles/Fold.antt =====
-- The candle of a bucket of api/candles_agg.rs against its members.
use crypto_collector.Prelude.{
  ℕ, Bool, true, false, List, [], ◌∷◌, ◌≡◌, refl, All, map, if◌then◌else◌,
}
use crypto_collector.Candles.{
  Decimals, CoinCandle, Labels, max_from, min_from, last_from, fold_bucket,
}

module _ {D : Type 0} ⦃dec : Decimals D⦄ where
  abbrev pub le : D → D → Type 0
  le a b = dec.lt b a ≡ false

  -- Prices of a candle in their order: the low at most, and the high at least, what it opens and
  -- closes with.
  pub record IsValid (c : CoinCandle D) : Type 0 where
    pub low_open : le c.low c.open_price
    pub low_close : le c.low c.close
    pub open_high : le c.open_price c.high
    pub close_high : le c.close c.high

  max_step :
      (x best : D) (b : Bool)
      → dec.lt x best ≡ b
      → le best (if b then best else x) × le x (if b then best else x)
  max_step x best true h = (dec.lt_irrefl best, dec.lt_asym x best h)
  max_step x best false h = (h, dec.lt_irrefl x)

  min_step :
      (x best : D) (b : Bool)
      → dec.lt x best ≡ b
      → le (if b then x else best) best × le (if b then x else best) x
  min_step x best true h = (dec.lt_asym x best h, dec.lt_irrefl x)
  min_step x best false h = (dec.lt_irrefl best, h)

  le_max_from :
      (xs : List D) (best : D) → le best (max_from best xs) × All (λ x. le x (max_from best xs)) xs
  le_max_from [] best = (dec.lt_irrefl best, tt)
  le_max_from (x ∷ xs) best =
      let (a, b) = max_step x best (dec.lt x best) refl in
      let (h, k) = le_max_from xs (if dec.lt x best then best else x) in
      (dec.not_lt_trans _ _ _ a h, (dec.not_lt_trans _ _ _ b h, k))

  pub min_from_le :
      (xs : List D) (best : D) → le (min_from best xs) best × All (λ x. le (min_from best xs) x) xs
  min_from_le [] best = (dec.lt_irrefl best, tt)
  min_from_le (x ∷ xs) best =
      let (a, b) = min_step x best (dec.lt x best) refl in
      let (h, k) = min_from_le xs (if dec.lt x best then x else best) in
      (dec.not_lt_trans _ _ _ h a, (dec.not_lt_trans _ _ _ h b, k))

  All-of_map :
      (f : CoinCandle D → D) (P : D → Type 0) (cs : List (CoinCandle D))
      → All P (map f cs)
      → All (λ c. P (f c)) cs
  All-of_map f P [] h = tt
  All-of_map f P (c ∷ cs) h = (h.0, All-of_map f P cs h.1)

  -- The high of a bucket is at least, and its low at most, those of every member.
  pub fold_bucket-bounds :
      (l : Labels) (bs : ℕ) (first : CoinCandle D) (rest : List (CoinCandle D))
      → All (λ c. le c.high (fold_bucket l bs first rest).high) (first ∷ rest)
        × All (λ c. le (fold_bucket l bs first rest).low c.low) (first ∷ rest)
  unfolding fold_bucket
  fold_bucket-bounds l bs first rest =
      let (a, b) = le_max_from (map (λ c. c.high) rest) first.high in
      let (d, e) = min_from_le (map (λ c. c.low) rest) first.low in
      ((a, All-of_map (λ c. c.high) _ rest b), (d, All-of_map (λ c. c.low) _ rest e))

  All-last_from :
      (P : CoinCandle D → Type 0) (rest : List (CoinCandle D)) (first : CoinCandle D)
      → All P (first ∷ rest)
      → P (last_from first rest)
  All-last_from P [] first h = h.0
  All-last_from P (c ∷ rest) first h = All-last_from P rest c h.1

  -- A bucket of valid candles is a valid candle.
  pub fold_bucket-IsValid :
      (l : Labels) (bs : ℕ) (first : CoinCandle D) (rest : List (CoinCandle D))
      → All IsValid (first ∷ rest)
      → IsValid (fold_bucket l bs first rest)
  unfolding fold_bucket
  fold_bucket-IsValid l bs first rest v =
      let (highs, lows) = fold_bucket-bounds l bs first rest in
      let last_valid = All-last_from IsValid rest first v in
      let last_high = All-last_from _ rest first highs in
      let last_low = All-last_from _ rest first lows in
      record {
        low_open = dec.not_lt_trans _ _ _ lows.0 (v.0).low_open;
        low_close = dec.not_lt_trans _ _ _ last_low last_valid.low_close;
        open_high = dec.not_lt_trans _ _ _ (v.0).open_high highs.0;
        close_high = dec.not_lt_trans _ _ _ last_valid.close_high last_high;
      }
