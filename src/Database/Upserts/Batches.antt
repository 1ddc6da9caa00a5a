-- ===== src/Database/Upserts/Batches.antt =====
-- The batch of db/upserts.rs against the single upserts.
use crypto_collector.Prelude.{
  ◌⊎◌, true, false, ◌||◌, Option, some, none, List, [], ◌∷◌, ◌++◌, ◌≡◌, ◌∙◌, refl, ap, sym, arith,
  if◌then◌else◌, inl, inr, Bool-cases, All, append_single, append_empty,
}
use crypto_collector.Candles.{CoinCandle}
use crypto_collector.Database.Upserts.{
  CandleConflictPolicy, native_overwrite, CandleNotifyPolicy, per_event, silent, same_key,
  may_update, upsert_row, Written, upsert_coin_candle, find_key, has_key, writes, upsert_all,
  announced, batched_upsert_coin_candles,
}

module _ {D : Type 0} where
  -- No two candles of a batch have the same key.
  abbrev pub AreDistinct : List (CoinCandle D) → Type 0
  AreDistinct [] = Unit {0}
  AreDistinct (c ∷ candles) =
      All {A = CoinCandle D} (λ d. same_key c d ≡ false) candles × AreDistinct candles

  -- One upsert after the other.
  abbrev pub upsert_each :
      CandleConflictPolicy → List (CoinCandle D) → List (CoinCandle D) → List (CoinCandle D)
  upsert_each policy [] rows = rows
  upsert_each policy (c ∷ candles) rows = upsert_each policy candles (upsert_row policy c rows)

  abbrev pub store_each : List (CoinCandle D) → Written D → Written D
  store_each [] w = w
  store_each (c ∷ candles) w = store_each candles (upsert_coin_candle c w)

  store_each-rows :
      (candles : List (CoinCandle D)) (w : Written D)
      → store_each candles w ≡ record {
        rows = upsert_each native_overwrite candles w.rows;
        events = w.events ++ candles;
      }
  unfolding upsert_coin_candle
  store_each-rows [] w = ap (λ e. record { rows = w.rows; events = e }) (append_empty w.events)
  store_each-rows (c ∷ candles) w =
      store_each-rows candles (upsert_coin_candle c w)
      ∙ ap
          (λ e. record {
            rows = upsert_each native_overwrite candles (upsert_row native_overwrite c w.rows);
            events = e;
          })
          (append_single w.events candles c)

  upsert_all_of_distinct :
      (policy : CandleConflictPolicy) (touched candles rows : List (CoinCandle D))
      → All (λ c. has_key c touched ≡ false) candles
      → AreDistinct candles
      → upsert_all policy touched candles rows ≡ some (upsert_each policy candles rows)
  unfolding upsert_all
  upsert_all_of_distinct policy touched [] rows free d = refl
  upsert_all_of_distinct policy touched (c ∷ candles) rows free d =
      elim (Bool-cases (writes policy (find_key c rows))) [
        | inl b ↦ ground (
          arith,
          b,
          free.0,
          upsert_all_of_distinct policy (c ∷ touched) candles (upsert_row policy c rows)
              (still_free candles free.1 d.0) d.1,
        )
        | inr b ↦ ground (
          arith,
          b,
          free.0,
          upsert_all_of_distinct policy touched candles (upsert_row policy c rows) free.1 d.1,
        )
      ]
    where
      still_free :
          (ds : List (CoinCandle D))
          → All (λ d. has_key d touched ≡ false) ds
          → All (λ d. same_key c d ≡ false) ds
          → All (λ d. has_key d (c ∷ touched) ≡ false) ds
      still_free [] f a = tt
      still_free (d ∷ ds) f a = (ground (arith, f.0, a.0), still_free ds f.1 a.1)

  none_touched : (candles : List (CoinCandle D)) → All (λ c. has_key c [] ≡ false) candles
  none_touched [] = tt
  none_touched (c ∷ candles) = (refl, none_touched candles)

  -- A batch of candles with different keys, in the order of the policy.
  pub batched_of_distinct :
      (candles : List (CoinCandle D)) (policy : CandleConflictPolicy) (notify : CandleNotifyPolicy)
      (w : Written D)
      → AreDistinct candles
      → batched_upsert_coin_candles candles policy notify w
        ≡ some (record {
          rows = upsert_each policy candles w.rows;
          events = w.events ++ announced notify candles;
        })
  unfolding batched_upsert_coin_candles
  batched_of_distinct [] policy per_event w d =
      ap (λ e. some (record { rows = w.rows; events = e })) (append_empty w.events)
  batched_of_distinct [] policy silent w d =
      ap (λ e. some (record { rows = w.rows; events = e })) (append_empty w.events)
  batched_of_distinct (c ∷ candles) policy notify w d =
      rw
        (
          upsert_all_of_distinct policy [] (c ∷ candles) w.rows (none_touched (c ∷ candles)) d,
          batched_upsert_coin_candles,
        )
        refl

  refused :
      (touched pre : List (CoinCandle D)) (d : CoinCandle D) (post rows : List (CoinCandle D))
      → (has_key d pre || has_key d touched) ≡ true
      → upsert_all native_overwrite touched (pre ++ d ∷ post) rows ≡ none
  unfolding upsert_all may_update
  refused touched [] d post rows h = ground (arith, h)
  refused touched (c ∷ pre) d post rows h =
      let later =
        refused (c ∷ touched) pre d post (upsert_row native_overwrite c rows) (ground (arith, h)) in
      elim (Bool-cases (has_key c touched)) [
        | inl b ↦ ground (arith, b)
        | inr b ↦ rw b (
            ap
              (λ t.
                upsert_all native_overwrite t (pre ++ d ∷ post)
                  (upsert_row native_overwrite c rows))
              (written c (find_key c rows) touched)
            ∙ later)
      ]
    where
      written :
          (c : CoinCandle D) (o : Option (CoinCandle D)) (touched : List (CoinCandle D))
          → (if writes native_overwrite o then c ∷ touched else touched) ≡ c ∷ touched
      written c none touched = refl
      written c (some row) touched = refl

  -- A candle that comes with its key again behind it.
  abbrev Repeats : List (CoinCandle D) → Type 0
  Repeats candles =
      (pre : List (CoinCandle D)) × (d : CoinCandle D) × (post : List (CoinCandle D)) × (candles
        ≡ pre ++ d ∷ post)
      × (has_key d pre ≡ true)

  same_or_apart :
      (c : CoinCandle D) (ds : List (CoinCandle D))
      → All (λ d. same_key c d ≡ false) ds
        ⊎ ((pre : List (CoinCandle D)) × (d : CoinCandle D) × (post : List (CoinCandle D)) × (ds
              ≡ pre ++ d ∷ post)
            × (same_key c d ≡ true))
  same_or_apart c [] = inl tt
  same_or_apart c (d ∷ ds) = elim (Bool-cases (same_key c d)) [
    | inl b ↦ inr ([], d, ds, refl, b)
    | inr b ↦ elim (same_or_apart c ds) [
      | inl a ↦ inl (b, a)
      | inr (pre, e, post, whole, k) ↦ inr (d ∷ pre, e, post, ap (λ t. d ∷ t) whole, k)
    ]
  ]

  distinct_or_Repeats : (candles : List (CoinCandle D)) → AreDistinct candles ⊎ Repeats candles
  distinct_or_Repeats [] = inl tt
  distinct_or_Repeats (c ∷ candles) = elim (distinct_or_Repeats candles) [
    | inr (pre, d, post, whole, k) ↦
        inr (c ∷ pre, d, post, ap (λ t. c ∷ t) whole, ground (arith, k))
    | inl distinct ↦ elim (same_or_apart c candles) [
      | inl a ↦ inl (a, distinct)
      | inr (pre, d, post, whole, k) ↦
          inr (c ∷ pre, d, post, ap (λ t. c ∷ t) whole, ground (arith, k))
    ]
  ]

  batched_refused :
      (pre : List (CoinCandle D)) (d : CoinCandle D) (post : List (CoinCandle D))
      (notify : CandleNotifyPolicy) (w : Written D)
      → has_key d pre ≡ true
      → batched_upsert_coin_candles (pre ++ d ∷ post) native_overwrite notify w ≡ none
  unfolding batched_upsert_coin_candles
  batched_refused [] d post notify w k = absurd (cc)
  batched_refused (c ∷ pre) d post notify w k =
      rw (refused [] (c ∷ pre) d post w.rows (ground (arith, k)), batched_upsert_coin_candles) refl

  -- A batch of the live path stores and announces exactly what single upserts of its candles, one
  -- after the other, store and announce, if no two of them have the same key. A batch in which two
  -- have is refused as a whole: nothing is stored or announced.
  pub batched_upsert_coin_candles_lem :
      (candles : List (CoinCandle D)) (w : Written D)
      → (AreDistinct candles
          × (batched_upsert_coin_candles candles native_overwrite per_event w
              ≡ some (store_each candles w)))
        ⊎ (((pre : List (CoinCandle D)) × (d : CoinCandle D) × (post : List (CoinCandle D))
              × (candles ≡ pre ++ d ∷ post)
              × (has_key d pre ≡ true))
            × (batched_upsert_coin_candles candles native_overwrite per_event w ≡ none))
  batched_upsert_coin_candles_lem candles w = elim (distinct_or_Repeats candles) [
    | inl d ↦ inl (
      d,
      batched_of_distinct candles native_overwrite per_event w d
          ∙ ap some (sym (store_each-rows candles w)),
    )
    | inr (pre, d, post, whole, k) ↦ inr (
      (pre, d, post, whole, k),
      ap (λ cs. batched_upsert_coin_candles cs native_overwrite per_event w) whole
          ∙ batched_refused pre d post per_event w k,
    )
  ]
