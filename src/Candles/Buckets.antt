-- ===== src/Candles/Buckets.antt =====
-- The map of buckets of api/candles_agg.rs: each bucket holds exactly the source candles of its
-- seconds, in their order.
use crypto_collector.Prelude.{
  ℕ, ◌<◌, ◌≤◌, Bool, true, false, List, [], ◌∷◌, ◌++◌, ◌≡◌, append_empty, append_single, refl,
  arith, filter_by, ◌==◌, ltb, if◌then◌else◌, All, if_of_both, if_of_cases, Bool-cases, inl, inr,
}
use crypto_collector.Candles.{Decimals, CoinCandle, bucket_start, push, group_from}

abbrev pub in_bucket : {D : Type 0} → ℕ → ℕ → CoinCandle D → Bool
in_bucket target_secs bs c = bucket_start c.ts target_secs == bs

-- The members of a bucket; none without an entry.
abbrev pub bucket_of : {D : Type 0} → ℕ → List (ℕ × List (CoinCandle D)) → List (CoinCandle D)
bucket_of bs [] = []
bucket_of bs ((key, members) ∷ m) = if key == bs then members else bucket_of bs m

abbrev pub KeysAbove : {D : Type 0} → ℕ → List (ℕ × List (CoinCandle D)) → Type 0
KeysAbove b m = All (λ e. b < e.0) m

-- The keys of a map strictly ascend.
abbrev pub IsAscending : {D : Type 0} → List (ℕ × List (CoinCandle D)) → Type 0
IsAscending [] = Unit {0}
IsAscending (e ∷ m) = KeysAbove (e.0) m × IsAscending m

module _ {D : Type 0} ⦃dec : Decimals D⦄ where
  pub KeysAbove-bucket_of :
      (bs : ℕ) (b : ℕ) (m : List (ℕ × List (CoinCandle D)))
      → KeysAbove b m
      → bs ≤ b
      → bucket_of bs m ≡ []
  KeysAbove-bucket_of bs b [] h le = refl
  KeysAbove-bucket_of bs b ((key, members) ∷ m) h le =
      ground (arith, KeysAbove-bucket_of bs b m h.1 le, h.0)

  KeysAbove-push :
      (b bs : ℕ) (c : CoinCandle D) (m : List (ℕ × List (CoinCandle D)))
      → b < bs
      → KeysAbove b m
      → KeysAbove b (push bs c m)
  KeysAbove-push b bs c [] h k = (h, tt)
  KeysAbove-push b bs c ((key, members) ∷ m) h k =
      if_of_both (KeysAbove b) (bs == key) ((key, members ++ c ∷ []) ∷ m) _ (k.0, k.1)
        (if_of_both (KeysAbove b) (ltb bs key) ((bs, c ∷ []) ∷ (key, members) ∷ m)
          ((key, members) ∷ push bs c m) (h, k) (k.0, KeysAbove-push b bs c m h k.1))

  KeysAbove-weaken :
      (a b : ℕ) (m : List (ℕ × List (CoinCandle D))) → a < b → KeysAbove b m → KeysAbove a m
  KeysAbove-weaken a b [] h k = tt
  KeysAbove-weaken a b (e ∷ m) h k = (omega (arith, k.0), KeysAbove-weaken a b m h k.1)

  push-IsAscending :
      (bs : ℕ) (c : CoinCandle D) (m : List (ℕ × List (CoinCandle D)))
      → IsAscending m
      → IsAscending (push bs c m)
  push-IsAscending bs c [] s = (tt, tt)
  push-IsAscending bs c ((key, members) ∷ m) s =
      let middle : bs == key ≡ false
          → ltb bs key ≡ true
          → IsAscending ((bs, c ∷ []) ∷ (key, members) ∷ m) =
        λ n h. ((ground arith, KeysAbove-weaken bs key m (ground arith) s.0), s) in
      let behind : bs == key ≡ false
          → ltb bs key ≡ false
          → IsAscending ((key, members) ∷ push bs c m) =
        λ n h. (KeysAbove-push key bs c m (ground arith) s.0, push-IsAscending bs c m s.1) in
      if_of_cases IsAscending (bs == key) ((key, members ++ c ∷ []) ∷ m) _ (λ h. s)
        (λ n.
          if_of_cases IsAscending (ltb bs key) ((bs, c ∷ []) ∷ (key, members) ∷ m)
            ((key, members) ∷ push bs c m) (middle n) (behind n))

  bucket_of-push :
      (q bs : ℕ) (c : CoinCandle D) (m : List (ℕ × List (CoinCandle D)))
      → IsAscending m
      → bucket_of q (push bs c m) ≡ (if bs == q then bucket_of q m ++ c ∷ [] else bucket_of q m)
  bucket_of-push q bs c [] s = ground arith
  bucket_of-push q bs c ((key, members) ∷ m) s =
      ground (arith, bucket_of-push q bs c m s.1, KeysAbove-bucket_of bs key m s.0)

  pub group_from-IsAscending :
      (target_secs : ℕ) (cs : List (CoinCandle D)) (m : List (ℕ × List (CoinCandle D)))
      → IsAscending m
      → IsAscending (group_from target_secs cs m)
  group_from-IsAscending target_secs [] m s = s
  group_from-IsAscending target_secs (c ∷ cs) m s =
      group_from-IsAscending target_secs cs _
        (push-IsAscending (bucket_start c.ts target_secs) c m s)

  -- The loop adds to a bucket the candles of its seconds, in the order of the source.
  pub bucket_of-group_from :
      (target_secs q : ℕ) (cs : List (CoinCandle D)) (m : List (ℕ × List (CoinCandle D)))
      → IsAscending m
      → bucket_of q (group_from target_secs cs m)
        ≡ bucket_of q m ++ filter_by (in_bucket target_secs q) cs
  bucket_of-group_from target_secs q [] m s = append_empty (bucket_of q m)
  bucket_of-group_from target_secs q (c ∷ cs) m s =
      let bs = bucket_start c.ts target_secs in
      let later = bucket_of-group_from target_secs q cs (push bs c m) (push-IsAscending bs c m s) in
      elim (Bool-cases (bs == q)) [
        | inl same ↦ rw (later, bucket_of-push q bs c m s, same, append_single (bucket_of q m) _ c)
        | inr other ↦ rw (later, bucket_of-push q bs c m s, other)
      ]
