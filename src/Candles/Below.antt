-- ===== src/Candles/Below.antt =====
-- The stamps of `aggregate_candles` (api/candles_agg.rs) against an upper bound of the source.
use crypto_collector.Prelude.{
  ℕ, ◌*◌, ◌/◌, ◌<◌, ◌≤◌, ◌≡◌, refl, String, Option, some, none, List, [], ◌∷◌, ◌++◌, ◌==◌, arith,
  ltb, if◌then◌else◌, sort_by, All, All-sort_by, if_of_both,
}
use crypto_collector.Candles.{
  Decimals, CoinCandle, Labels, second, bucket_start, push, group_from, emit, emit_all, by_ts,
  by_ts_desc, aggregate_candles, aggregate_sorted, labels_of, fold_bucket,
}

-- A candle before an instant.
abbrev pub IsBelow : {D : Type 0} → ℕ → CoinCandle D → Type 0
IsBelow bound c = c.ts < bound

pub bucket_start-le : (ts target_secs : ℕ) → bucket_start ts target_secs * second ≤ ts
unfolding bucket_start
bucket_start-le ts target_secs = omega arith

module _ {D : Type 0} ⦃dec : Decimals D⦄ (bound : ℕ) where
  abbrev StartsBelow : ℕ × List (CoinCandle D) → Type 0
  StartsBelow b = b.0 * second < bound

  push-StartsBelow :
      (bs : ℕ) (c : CoinCandle D) (m : List (ℕ × List (CoinCandle D)))
      → bs * second < bound
      → All StartsBelow m
      → All StartsBelow (push bs c m)
  push-StartsBelow bs c [] h a = (h, tt)
  push-StartsBelow bs c ((key, members) ∷ m) h a =
      if_of_both (All StartsBelow) (bs == key) ((key, members ++ c ∷ []) ∷ m)
        (if ltb bs key then (bs, c ∷ []) ∷ (key, members) ∷ m else (key, members) ∷ push bs c m) a
        (if_of_both (All StartsBelow) (ltb bs key) ((bs, c ∷ []) ∷ (key, members) ∷ m)
          ((key, members) ∷ push bs c m) (h, a) (a.0, push-StartsBelow bs c m h a.1))

  group_from-StartsBelow :
      (target_secs : ℕ) (cs : List (CoinCandle D)) (m : List (ℕ × List (CoinCandle D)))
      → All (IsBelow bound) cs
      → All StartsBelow m
      → All StartsBelow (group_from target_secs cs m)
  group_from-StartsBelow target_secs [] m h a = a
  group_from-StartsBelow target_secs (c ∷ cs) m h a =
      group_from-StartsBelow target_secs cs (push (bucket_start c.ts target_secs) c m) h.1 (
        push-StartsBelow (bucket_start c.ts target_secs) c m
          (omega (arith, bucket_start-le c.ts target_secs, h.0)) a)

  emit-IsBelow :
      (l : Labels) (target_secs n now bs : ℕ) (members : List (CoinCandle D)) (c : CoinCandle D)
      → bs * second < bound
      → emit l target_secs n now bs members ≡ some c
      → IsBelow bound c
  unfolding emit fold_bucket
  emit-IsBelow l target_secs n now bs [] c h e = absurd (cc)
  emit-IsBelow l target_secs n now bs (first ∷ rest) c h e = ground arith

  one_more :
      (o : Option (CoinCandle D)) (rest : List (CoinCandle D))
      → ((c : CoinCandle D) → o ≡ some c → IsBelow bound c)
      → All (IsBelow bound) rest
      → All (IsBelow bound) (elim o [ none ↦ rest | some c ↦ c ∷ rest ])
  one_more none rest h a = a
  one_more (some c) rest h a = (h c refl, a)

  emit_all-IsBelow :
      (l : Labels) (target_secs n now : ℕ) (m : List (ℕ × List (CoinCandle D)))
      → All StartsBelow m
      → All (IsBelow bound) (emit_all l target_secs n now m)
  emit_all-IsBelow l target_secs n now [] a = tt
  emit_all-IsBelow l target_secs n now ((bs, members) ∷ m) a =
      one_more (emit l target_secs n now bs members) (emit_all l target_secs n now m)
        (λ c e. emit-IsBelow l target_secs n now bs members c a.0 e)
        (emit_all-IsBelow l target_secs n now m a.1)

  sorted-IsBelow :
      (target_secs source_secs now : ℕ) (label interval : String) (source : List (CoinCandle D))
      → All (IsBelow bound) source
      → All (IsBelow bound) (aggregate_sorted target_secs source_secs now label interval source)
  sorted-IsBelow target_secs source_secs now label interval [] h = tt
  sorted-IsBelow target_secs source_secs now label interval (first ∷ rest) h =
      let l = labels_of first label interval in
      let n = target_secs / source_secs in
      let m = group_from target_secs (first ∷ rest) [] in
      All-sort_by (IsBelow bound) by_ts_desc (emit_all l target_secs n now m) (
        emit_all-IsBelow l target_secs n now m
          (group_from-StartsBelow target_secs (first ∷ rest) [] h tt))

  -- Of source candles before an instant every aggregated candle is stamped before it.
  pub aggregate_candles-IsBelow :
      (source : List (CoinCandle D)) (target_secs source_secs now : ℕ) (label interval : String)
      → All (IsBelow bound) source
      → All (IsBelow bound) (aggregate_candles source target_secs source_secs now label interval)
  unfolding aggregate_candles
  aggregate_candles-IsBelow source target_secs source_secs now label interval h =
      sorted-IsBelow target_secs source_secs now label interval (sort_by by_ts source)
        (All-sort_by (IsBelow bound) by_ts source h)
