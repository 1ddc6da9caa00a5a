-- ===== src/Prelude/Groups.antt =====
-- Grouping a list into a map with ascending keys, as `entry(key).or_default().push(x)` on a BTreeMap
-- does.
use Prim.Native.Nat.{ℕ, ◌≤◌, ◌<◌}
use mathlib.Core.Path.{◌≡◌, refl, ap, subst, ◌∙◌}
use mathlib.Core.List.{List, [], ◌∷◌, ◌++◌, append_assoc}
use mathlib.Core.Logic.{inl, inr}
use native.Mathlib.Omega.{arith}
use crypto_collector.Prelude.Tests.{ltb, ◌==◌, if◌then◌else◌, Bool-cases}
use crypto_collector.Prelude.Least.{if_of_both}
use crypto_collector.Prelude.Lists.{filter_by, append_empty}

module _ {ℓ} {A : Type ℓ} where
  abbrev pub push_at : ℕ → A → List (ℕ × List A) → List (ℕ × List A)
  push_at k x [] = (k, x ∷ []) ∷ []
  push_at k x ((key, members) ∷ m) =
      let rest = push_at k x m in
      if k == key
      then (key, members ++ x ∷ []) ∷ m
      else if ltb k key
      then (k, x ∷ []) ∷ (key, members) ∷ m
      else (key, members) ∷ rest

  unfoldable pub group_from : (A → ℕ) → List A → List (ℕ × List A) → List (ℕ × List A)
  group_from key [] m = m
  group_from key (x ∷ xs) m = group_from key xs (push_at (key x) x m)

  abbrev pub members_of : ℕ → List (ℕ × List A) → List A
  members_of k [] = []
  members_of k ((key, members) ∷ m) =
      let rest = members_of k m in if k == key then members else rest

  abbrev pub IsAbove : ℕ → List (ℕ × List A) → Type 0
  IsAbove k [] = Unit {0}
  IsAbove k ((key, members) ∷ m) = (k < key) × IsAbove k m

  abbrev pub IsAscendingMap : List (ℕ × List A) → Type 0
  IsAscendingMap [] = Unit {0}
  IsAscendingMap ((key, members) ∷ m) = IsAbove key m × IsAscendingMap m

  IsAbove-trans : (j k : ℕ) (m : List (ℕ × List A)) → j < k → IsAbove k m → IsAbove j m
  IsAbove-trans j k [] h a = tt
  IsAbove-trans j k ((key, members) ∷ m) h a = (omega (arith, a.0), IsAbove-trans j k m h a.1)

  IsAbove-push_at :
      (j k : ℕ) (x : A) (m : List (ℕ × List A)) → j < k → IsAbove j m → IsAbove j (push_at k x m)
  IsAbove-push_at j k x [] h a = (h, tt)
  IsAbove-push_at j k x ((key, members) ∷ m) h a =
      if_of_both (IsAbove j) (k == key) ((key, members ++ x ∷ []) ∷ m)
        (if ltb k key then (k, x ∷ []) ∷ (key, members) ∷ m else (key, members) ∷ push_at k x m) a
        (if_of_both (IsAbove j) (ltb k key) ((k, x ∷ []) ∷ (key, members) ∷ m)
          ((key, members) ∷ push_at k x m) (h, a) (a.0, IsAbove-push_at j k x m h a.1))

  push_at-IsAscendingMap :
      (k : ℕ) (x : A) (m : List (ℕ × List A)) → IsAscendingMap m → IsAscendingMap (push_at k x m)
  push_at-IsAscendingMap k x [] s = (tt, tt)
  push_at-IsAscendingMap k x ((key, members) ∷ m) s = elim (Bool-cases (k == key)) [
    | inl same ↦ rw same s
    | inr other ↦ elim (Bool-cases (ltb k key)) [
      | inl before ↦
          let below : k < key = ground arith in
          rw (other, before) ((below, IsAbove-trans k key m below s.0), s)
      | inr after ↦
          rw (other, after)
            (IsAbove-push_at key k x m (ground arith) s.0, push_at-IsAscendingMap k x m s.1)
    ]
  ]

  pub group_from-IsAscendingMap :
      (key : A → ℕ) (xs : List A) (m : List (ℕ × List A))
      → IsAscendingMap m
      → IsAscendingMap (group_from key xs m)
  unfolding group_from
  group_from-IsAscendingMap key [] m s = s
  group_from-IsAscendingMap key (x ∷ xs) m s =
      group_from-IsAscendingMap key xs (push_at (key x) x m) (push_at-IsAscendingMap (key x) x m s)

  pub members_of-above :
      (j k : ℕ) (m : List (ℕ × List A)) → j ≤ k → IsAbove k m → members_of j m ≡ []
  members_of-above j k [] h a = refl
  members_of-above j k ((key, members) ∷ m) h a = ground (arith, a.0, members_of-above j k m h a.1)

  members_of-push_at :
      (j k : ℕ) (x : A) (m : List (ℕ × List A))
      → IsAscendingMap m
      → members_of j (push_at k x m) ≡ (if k == j then members_of j m ++ x ∷ [] else members_of j m)
  members_of-push_at j k x [] s = ground arith
  members_of-push_at j k x ((key, members) ∷ m) s =
      ground (arith, members_of-push_at j k x m s.1, members_of-above j key m)

  -- The group of a key has the elements with that key, in their order.
  pub members_of-group_from :
      (key : A → ℕ) (j : ℕ) (xs : List A) (m : List (ℕ × List A))
      → IsAscendingMap m
      → members_of j (group_from key xs m) ≡ members_of j m ++ filter_by (λ x. key x == j) xs
  unfolding group_from
  members_of-group_from key j [] m s = append_empty (members_of j m)
  members_of-group_from key j (x ∷ xs) m s = ground (
    arith,
    members_of-group_from key j xs (push_at (key x) x m) (push_at-IsAscendingMap (key x) x m s),
    members_of-push_at j (key x) x m s,
    append_assoc (members_of j m) (x ∷ []) (filter_by (λ x. key x == j) xs),
  )

  abbrev pub flatten : List (ℕ × List A) → List A
  flatten [] = []
  flatten ((key, members) ∷ m) = members ++ flatten m

  -- Every key of the map is at most `k`.
  abbrev pub IsUpTo : ℕ → List (ℕ × List A) → Type 0
  IsUpTo k [] = Unit {0}
  IsUpTo k ((key, members) ∷ m) = (key ≤ k) × IsUpTo k m

  no_more : (k : ℕ) (m : List (ℕ × List A)) → IsAbove k m → IsUpTo k m → m ≡ []
  no_more k [] a u = refl
  no_more k ((key, members) ∷ m) a u = absurd (omega (arith, a.0, u.0))

  flatten-push_at :
      (k : ℕ) (x : A) (m : List (ℕ × List A))
      → IsAscendingMap m
      → IsUpTo k m
      → flatten (push_at k x m) ≡ flatten m ++ x ∷ []
  flatten-push_at k x [] s u = refl
  flatten-push_at k x ((key, members) ∷ m) s u = elim (Bool-cases (k == key)) [
    | inl same ↦
        let alone : m ≡ [] = no_more k m (subst (λ j. IsAbove j m) (ground arith) s.0) u.1 in
        ground
          (arith, alone, ap flatten alone, append_empty (members ++ x ∷ []), append_empty members)
    | inr other ↦
        ground
          (arith, u.0, flatten-push_at k x m s.1 u.1, append_assoc members (flatten m) (x ∷ []))
  ]

  IsUpTo-push_at : (k : ℕ) (x : A) (m : List (ℕ × List A)) → IsUpTo k m → IsUpTo k (push_at k x m)
  IsUpTo-push_at k x [] u = (omega arith, tt)
  IsUpTo-push_at k x ((key, members) ∷ m) u =
      if_of_both (IsUpTo k) (k == key) ((key, members ++ x ∷ []) ∷ m)
        (if ltb k key then (k, x ∷ []) ∷ (key, members) ∷ m else (key, members) ∷ push_at k x m) u
        (if_of_both (IsUpTo k) (ltb k key) ((k, x ∷ []) ∷ (key, members) ∷ m)
          ((key, members) ∷ push_at k x m) (omega arith, u) (u.0, IsUpTo-push_at k x m u.1))

  IsUpTo-mono : (j k : ℕ) (m : List (ℕ × List A)) → j ≤ k → IsUpTo j m → IsUpTo k m
  IsUpTo-mono j k [] h u = tt
  IsUpTo-mono j k ((key, members) ∷ m) h u = (omega (arith, u.0), IsUpTo-mono j k m h u.1)

  -- The keys of the elements never fall, from `k` on.
  abbrev pub NeverFalls : (A → ℕ) → ℕ → List A → Type 0
  NeverFalls key k [] = Unit {0}
  NeverFalls key k (x ∷ xs) = (k ≤ key x) × NeverFalls key (key x) xs

  -- Groups of elements whose keys never fall keep the order of the list.
  pub flatten-group_from :
      (key : A → ℕ) (k : ℕ) (xs : List A) (m : List (ℕ × List A))
      → IsAscendingMap m
      → IsUpTo k m
      → NeverFalls key k xs
      → flatten (group_from key xs m) ≡ flatten m ++ xs
  unfolding group_from
  flatten-group_from key k [] m s u f = append_empty (flatten m)
  flatten-group_from key k (x ∷ xs) m s u f =
      let u' : IsUpTo (key x) m = IsUpTo-mono k (key x) m f.0 u in
      flatten-group_from key (key x) xs (push_at (key x) x m) (push_at-IsAscendingMap (key x) x m s)
        (IsUpTo-push_at (key x) x m u') f.1
      ∙ ap (λ t. t ++ xs) (flatten-push_at (key x) x m s u')
      ∙ append_assoc (flatten m) (x ∷ []) xs
