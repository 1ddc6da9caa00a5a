-- ===== src/Candles/Members.antt =====
-- The candles of `aggregate_candles` (api/candles_agg.rs) described by their members, without the
-- folds of the code.
use crypto_collector.Prelude.{
  ℕ, ◌+◌, ◌*◌, ◌/◌, ◌≤◌, ◌<◌, ◌⊎◌, inl, inr, String, Bool, true, false, some, none, List, [], ◌∷◌,
  ◌≡◌, refl, arith, All, Elem, map, last?, length, filter_by, find_by, sort_by, Bool-cases,
  if◌then◌else◌, ◌∙◌,
}
use crypto_collector.Candles.{
  Decimals, CoinCandle, Labels, second, emit, fold_bucket, fold_volume, is_dropped, last_from,
  max_from, min_from, by_ts, labels_of, aggregate_candles,
}
use crypto_collector.Candles.Buckets.{in_bucket}
use crypto_collector.Candles.Fold.{le, fold_bucket-bounds}
use crypto_collector.Candles.Output.{at_bucket, aggregate_candles-find}

module _ {D : Type 0} ⦃dec : Decimals D⦄ where
  -- `c` sums up the members: it opens with the first and closes with the last, its high is the
  -- greatest and its low the least of theirs, and its volume is their sum, if all are known.
  pub record SumsUp (first : CoinCandle D) (rest : List (CoinCandle D)) (c : CoinCandle D)
      : Type 0 where
    pub opens : c.open_price ≡ first.open_price
    pub closes : last? (map (λ m. m.close) (first ∷ rest)) ≡ some (c.close)
    pub above : All (λ m. le m.high c.high) (first ∷ rest)
    pub high_reached : Elem c.high (map (λ m. m.high) (first ∷ rest))
    pub below : All (λ m. le c.low m.low) (first ∷ rest)
    pub low_reached : Elem c.low (map (λ m. m.low) (first ∷ rest))
    pub volume : c.volume ≡ fold_volume (map (λ m. m.volume) (first ∷ rest))

  last-last_from :
      (rest : List (CoinCandle D)) (first : CoinCandle D)
      → last? (map (λ m. m.close) (first ∷ rest)) ≡ some ((last_from first rest).close)
  last-last_from [] first = refl
  last-last_from (c ∷ rest) first = last-last_from rest c

  either : (b : Bool) (x y : D) → Elem (if b then x else y) (x ∷ y ∷ [])
  either true x y = inl refl
  either false x y = inr (inl refl)

  Elem-max_from : (xs : List D) (best : D) → Elem (max_from best xs) (best ∷ xs)
  Elem-max_from [] best = inl refl
  Elem-max_from (x ∷ xs) best = elim (Elem-max_from xs (if dec.lt x best then best else x)) [
    | inl same ↦ elim (either (dec.lt x best) best x) [
      | inl left ↦ inl (left ∙ same)
      | inr right ↦ elim right [ inl here ↦ inr (inl (here ∙ same)) | inr nowhere ↦ absurd nowhere ]
    ]
    | inr later ↦ inr (inr later)
  ]

  pub Elem-min_from : (xs : List D) (best : D) → Elem (min_from best xs) (best ∷ xs)
  Elem-min_from [] best = inl refl
  Elem-min_from (x ∷ xs) best = elim (Elem-min_from xs (if dec.lt x best then x else best)) [
    | inl same ↦ elim (either (dec.lt x best) x best) [
      | inl left ↦ inr (inl (left ∙ same))
      | inr right ↦ elim right [ inl here ↦ inl (here ∙ same) | inr nowhere ↦ absurd nowhere ]
    ]
    | inr later ↦ inr (inr later)
  ]

  fold_bucket-SumsUp :
      (l : Labels) (bs : ℕ) (first : CoinCandle D) (rest : List (CoinCandle D))
      → SumsUp first rest (fold_bucket l bs first rest)
  unfolding fold_bucket
  fold_bucket-SumsUp l bs first rest =
      let (highs, lows) = fold_bucket-bounds l bs first rest in
      record {
        opens = refl;
        closes = last-last_from rest first;
        above = highs;
        high_reached = Elem-max_from (map (λ m. m.high) rest) first.high;
        below = lows;
        low_reached = Elem-min_from (map (λ m. m.low) rest) first.low;
        volume = refl;
      }

  -- Why a bucket has no candle: it has no member, or it is closed and has too few.
  abbrev pub IsLeftOut : ℕ → ℕ → ℕ → ℕ → List (CoinCandle D) → Type 0
  IsLeftOut target_secs n now bs members =
      (members ≡ []) ⊎ ((bs + target_secs ≤ now / second) × (length members < n))

  -- A candle of a bucket that is open or has enough members.
  abbrev pub IsCandleOf : ℕ → ℕ → ℕ → ℕ → List (CoinCandle D) → CoinCandle D → Type 0
  IsCandleOf target_secs n now bs members c =
      (first : CoinCandle D) × (rest : List (CoinCandle D)) × (members ≡ first ∷ rest)
      × SumsUp first rest c
      × (c.ts ≡ bs * second)
      × ((now / second < bs + target_secs) ⊎ (n ≤ length members))

  emit-described :
      (l : Labels) (target_secs n now bs : ℕ) (members : List (CoinCandle D))
      → ((emit l target_secs n now bs members ≡ none) × IsLeftOut target_secs n now bs members)
        ⊎ ((c : CoinCandle D) × (emit l target_secs n now bs members ≡ some c)
            × IsCandleOf target_secs n now bs members c)
  unfolding emit
  emit-described l target_secs n now bs [] = inl (refl, inl refl)
  emit-described l target_secs n now bs (first ∷ rest) =
      elim (Bool-cases (is_dropped target_secs n now bs (first ∷ rest))) [
        | inl dropped ↦
            inl (ground (arith, dropped), inr (ground (arith, dropped), ground (arith, dropped)))
        | inr made ↦ inr (
          fold_bucket l bs first rest,
          ground (arith, made),
          (
            first,
            rest,
            refl,
            fold_bucket-SumsUp l bs first rest,
            unfold fold_bucket in refl,
            ground (arith, made),
          ),
        )
      ]

  -- Every bucket of the result, by its members, the source candles of its seconds in the order of time:
  -- the result has no candle for it exactly where it has no member, or is closed with fewer than
  -- target / source of them; else it has one, stamped with the first second of the bucket, that opens
  -- with the first member, closes with the last, spans their prices and adds up their volumes.
  pub aggregate_candles-members :
      (source : List (CoinCandle D)) (target_secs source_secs now bs : ℕ)
      (label target_interval : String) (first : CoinCandle D) (rest : List (CoinCandle D))
      → sort_by by_ts source ≡ first ∷ rest
      → let members = filter_by (in_bucket target_secs bs) (sort_by by_ts source) in
        let found =
          find_by
            (at_bucket bs)
            (aggregate_candles source target_secs source_secs now label target_interval) in
        ((found ≡ none) × IsLeftOut target_secs (target_secs / source_secs) now bs members)
        ⊎ ((c : CoinCandle D) × (found ≡ some c)
            × IsCandleOf target_secs (target_secs / source_secs) now bs members c)
  aggregate_candles-members source target_secs source_secs now bs label target_interval first rest
        h =
      let same =
        aggregate_candles-find source target_secs source_secs now bs label target_interval first
          rest h in
      elim (emit-described (labels_of first label target_interval) target_secs
        (target_secs / source_secs) now bs
        (filter_by (in_bucket target_secs bs) (sort_by by_ts source))) [
          | inl (nothing, why) ↦ inl (same ∙ nothing, why)
          | inr (c, made, described) ↦ inr (c, same ∙ made, described)
        ]
