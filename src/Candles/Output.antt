-- ===== src/Candles/Output.antt =====
-- What `aggregate_candles` of api/candles_agg.rs returns, against the definition by buckets.
use crypto_collector.Prelude.{
  ℕ, ◌*◌, ◌/◌, String, Bool, Option, some, none, List, [], ◌∷◌, ◌≡◌, refl, arith, All, filter_by,
  find_by, find_by-sort_by, sort_by, IsSorted, sort_by-IsSorted, All-sort_by, Option-cases, inl,
  inr, ◌==◌, All-append, if_of_both, ltb, ◌++◌, ◌∙◌, subst,
}
use crypto_collector.Candles.{
  Decimals, CoinCandle, Labels, second, emit, emit_all, fold_bucket, by_ts, by_ts_desc, labels_of,
  aggregate_candles, aggregate_sorted, group_from, push, bucket_start,
}
use crypto_collector.Candles.Buckets.{
  in_bucket, bucket_of, IsAscending, KeysAbove-bucket_of, group_from-IsAscending,
  bucket_of-group_from,
}
use crypto_collector.Candles.Fold.{IsValid, fold_bucket-IsValid}

abbrev pub at_bucket : {D : Type 0} → ℕ → CoinCandle D → Bool
at_bucket bs c = c.ts == bs * second

module _ {D : Type 0} ⦃dec : Decimals D⦄ where
  emit-ts :
      (l : Labels) (target_secs n now bs : ℕ) (members : List (CoinCandle D)) {c : CoinCandle D}
      → emit l target_secs n now bs members ≡ some c
      → c.ts ≡ bs * second
  unfolding emit fold_bucket
  emit-ts l target_secs n now bs [] h = absurd (ground arith)
  emit-ts l target_secs n now bs (first ∷ rest) h = ground arith

  pub emit-empty :
      (l : Labels) (target_secs n now bs : ℕ) → emit {D = D} l target_secs n now bs [] ≡ none
  unfolding emit
  emit-empty l target_secs n now bs = refl

  find-emit_all :
      (l : Labels) (target_secs n now bs : ℕ) (m : List (ℕ × List (CoinCandle D)))
      → IsAscending m
      → find_by (at_bucket bs) (emit_all l target_secs n now m)
        ≡ emit l target_secs n now bs (bucket_of bs m)
  find-emit_all l target_secs n now bs [] s = ground (arith, emit-empty l target_secs n now bs)
  find-emit_all l target_secs n now bs ((key, members) ∷ m) s =
      let later = find-emit_all l target_secs n now bs m s.1 in
      elim (Option-cases (emit l target_secs n now key members)) [
        | inl dropped ↦
            ground
              (arith, later, KeysAbove-bucket_of bs key m s.0, emit-empty l target_secs n now bs)
        | inr (c, made) ↦ ground (arith, later, emit-ts l target_secs n now key members made)
      ]

  -- The candle of every bucket: looking up the first second of a bucket in the result gives the fold
  -- of exactly the source candles that lie in the bucket, in the order of time, and gives nothing
  -- where there are none, or where the bucket is closed and has fewer than target / source members.
  pub aggregate_candles-find :
      (source : List (CoinCandle D)) (target_secs source_secs now bs : ℕ)
      (label target_interval : String) (first : CoinCandle D) (rest : List (CoinCandle D))
      → sort_by by_ts source ≡ first ∷ rest
      → find_by
          (at_bucket bs)
          (aggregate_candles source target_secs source_secs now label target_interval)
        ≡ emit
            (labels_of first label target_interval)
            target_secs
            (target_secs / source_secs)
            now
            bs
            (filter_by (in_bucket target_secs bs) (sort_by by_ts source))
  unfolding aggregate_candles
  aggregate_candles-find source target_secs source_secs now bs label target_interval first rest h =
      let l = labels_of first label target_interval in
      let m = group_from target_secs (first ∷ rest) [] in
      let ascending = group_from-IsAscending target_secs (first ∷ rest) [] tt in
      let grouped = bucket_of-group_from target_secs bs (first ∷ rest) [] tt in
      let out = emit_all l target_secs (target_secs / source_secs) now m in
      rw h (
        find_by-sort_by by_ts_desc (at_bucket bs) (λ x y a b. ground arith) out
        ∙ find-emit_all l target_secs (target_secs / source_secs) now bs m ascending
        ∙ rw grouped)

  -- The candles come in descending order of time.
  pub aggregate_candles-IsSorted :
      (source : List (CoinCandle D)) (target_secs source_secs now : ℕ)
      (label target_interval : String)
      → IsSorted by_ts_desc
          (aggregate_candles source target_secs source_secs now label target_interval)
  unfolding aggregate_candles
  aggregate_candles-IsSorted source target_secs source_secs now label target_interval =
      sorted_of target_secs source_secs now label target_interval (sort_by by_ts source)
    where
      sorted_of :
          (target_secs source_secs now : ℕ) (label target_interval : String)
          (cs : List (CoinCandle D))
          → IsSorted by_ts_desc
              (aggregate_sorted target_secs source_secs now label target_interval cs)
      sorted_of target_secs source_secs now label target_interval [] = tt
      sorted_of target_secs source_secs now label target_interval (c ∷ cs) =
          sort_by-IsSorted by_ts_desc (λ x y h. ground arith) (λ x y z h k. ground arith) _

  -- Every member of every bucket is valid.
  abbrev AllBuckets : List (ℕ × List (CoinCandle D)) → Type 0
  AllBuckets m = All (λ e. All IsValid e.1) m

  push-AllBuckets :
      (bs : ℕ) (c : CoinCandle D) (m : List (ℕ × List (CoinCandle D)))
      → IsValid c
      → AllBuckets m
      → AllBuckets (push bs c m)
  push-AllBuckets bs c [] v h = ((v, tt), tt)
  push-AllBuckets bs c ((key, members) ∷ m) v h =
      if_of_both AllBuckets (bs == key) ((key, members ++ c ∷ []) ∷ m) _
        (All-append IsValid members (c ∷ []) h.0 (v, tt), h.1)
        (if_of_both AllBuckets (ltb bs key) ((bs, c ∷ []) ∷ (key, members) ∷ m)
          ((key, members) ∷ push bs c m) ((v, tt), h) (h.0, push-AllBuckets bs c m v h.1))

  group_from-AllBuckets :
      (target_secs : ℕ) (cs : List (CoinCandle D)) (m : List (ℕ × List (CoinCandle D)))
      → All IsValid cs
      → AllBuckets m
      → AllBuckets (group_from target_secs cs m)
  group_from-AllBuckets target_secs [] m v h = h
  group_from-AllBuckets target_secs (c ∷ cs) m v h =
      group_from-AllBuckets target_secs cs _ v.1
        (push-AllBuckets (bucket_start c.ts target_secs) c m v.0 h)

  emit-IsValid :
      (l : Labels) (target_secs n now bs : ℕ) (members : List (CoinCandle D)) {c : CoinCandle D}
      → All IsValid members
      → emit l target_secs n now bs members ≡ some c
      → IsValid c
  unfolding emit
  emit-IsValid l target_secs n now bs [] v h = absurd (ground arith)
  emit-IsValid l target_secs n now bs (first ∷ rest) {c} v h =
      let same : fold_bucket l bs first rest ≡ c = ground arith in
      subst IsValid same (fold_bucket-IsValid l bs first rest v)

  emit_all-IsValid :
      (l : Labels) (target_secs n now : ℕ) (m : List (ℕ × List (CoinCandle D)))
      → AllBuckets m
      → All IsValid (emit_all l target_secs n now m)
  emit_all-IsValid l target_secs n now [] h = tt
  emit_all-IsValid l target_secs n now ((bs, members) ∷ m) h =
      emitted (emit l target_secs n now bs members)
        (λ c k. emit-IsValid l target_secs n now bs members h.0 k)
        (emit_all-IsValid l target_secs n now m h.1)
    where
      emitted :
          (o : Option (CoinCandle D))
          → ((c : CoinCandle D) → o ≡ some c → IsValid c)
          → All IsValid (emit_all l target_secs n now m)
          → All IsValid (elim o [
            | none ↦ emit_all l target_secs n now m
            | some c ↦ c ∷ emit_all l target_secs n now m
          ])
      emitted none k later = later
      emitted (some c) k later = (k c refl, later)

  -- Of source candles with ordered prices every aggregated candle has ordered prices.
  pub aggregate_candles-IsValid :
      (source : List (CoinCandle D)) (target_secs source_secs now : ℕ)
      (label target_interval : String)
      → All IsValid source
      → All IsValid (aggregate_candles source target_secs source_secs now label target_interval)
  unfolding aggregate_candles
  aggregate_candles-IsValid source target_secs source_secs now label target_interval v =
      valid_of target_secs source_secs now label target_interval (sort_by by_ts source)
        (All-sort_by IsValid by_ts source v)
    where
      valid_of :
          (target_secs source_secs now : ℕ) (label target_interval : String)
          (cs : List (CoinCandle D))
          → All IsValid cs
          → All IsValid (aggregate_sorted target_secs source_secs now label target_interval cs)
      valid_of target_secs source_secs now label target_interval [] v = tt
      valid_of target_secs source_secs now label target_interval (c ∷ cs) v =
          All-sort_by IsValid by_ts_desc _ (
            emit_all-IsValid _ target_secs _ now _
              (group_from-AllBuckets target_secs (c ∷ cs) [] v tt))
