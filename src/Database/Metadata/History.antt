-- ===== src/Database/Metadata/History.antt =====
-- What get_metadata of api/metadata.rs reads back from the revisions that db/upserts.rs has written.
pub mod Reads
pub mod AsOf
use crypto_collector.Prelude.{
  ℕ, ◌+◌, ◌≤◌, ◌<◌, ◌≡◌, ◌∙◌, refl, ap, sym, subst, String, Bool, true, false, not, ◌&&◌, ◌||◌,
  Option, some, none, List, [], ◌∷◌, ◌++◌, map, ltb, leb, ◌==◌, ==_iff, str_eq, str_eq_iff,
  if◌then◌else◌, arith, inl, inr, Bool-cases, Option-cases, All, All-map, All-filter_by, filter_by,
  filter_by-append, filter_by_of_All, filter_by-agree,
}
use crypto_collector.Table.{Key}
use crypto_collector.Database.Metadata.{
  eq_option, eq_list, Details, CoinMeta, CoinMetadata, greatest, of_coin, revision_of, seen_from,
  insert_metadata_revision, seen_again, metadata_has_changed, upsert_coin_metadata, select_revision,
}

module _ {A : Type 0} (eq : A → A → Bool) (same : (a b : A) → eq a b ≡ true → a ≡ b) where
  eq_option-same : (a b : Option A) → eq_option eq a b ≡ true → a ≡ b
  eq_option-same none none h = refl
  eq_option-same none (some b) h = absurd (cc)
  eq_option-same (some a) none h = absurd (cc)
  eq_option-same (some a) (some b) h = ap some (same a b h)

  eq_list-same : (xs ys : List A) → eq_list eq xs ys ≡ true → xs ≡ ys
  eq_list-same [] [] h = refl
  eq_list-same [] (y ∷ ys) h = absurd (cc)
  eq_list-same (x ∷ xs) [] h = absurd (cc)
  eq_list-same (x ∷ xs) (y ∷ ys) h =
      let head : x ≡ y = same x y (ground arith) in
      let tail : xs ≡ ys = eq_list-same xs ys (ground arith) in cc

module _ {A : Type 0} (key : A → ℕ) where
  -- Nothing has a greater key.
  pub greatest-above :
      (xs : List A) {g : A} → greatest key xs ≡ some g → All (λ x. key x ≤ key g) xs
  greatest-above [] h = tt
  greatest-above (x ∷ xs) {g = g} h = elim (Option-cases (greatest key xs)) [
    | inl e ↦
        let top : x ≡ g = ground (arith, e, h) in
        (subst (λ y. key x ≤ key y) top (omega arith), empty xs e)
    | inr (y, e) ↦ elim (Bool-cases (ltb (key y) (key x))) [
      | inl b ↦
          let top : x ≡ g = ground (arith, e, b, h) in
          (
            subst (λ z. key x ≤ key z) top (omega arith),
            All-map (λ z. key z ≤ key y) (λ z. key z ≤ key g)
                (λ z k. subst (λ w. key z ≤ key w) top (ground arith)) xs (greatest-above xs e),
          )
      | inr b ↦
          let top : y ≡ g = ground (arith, e, b, h) in
          (
            subst (λ z. key x ≤ key z) top (ground arith),
            subst (λ w. All (λ z. key z ≤ key w) xs) top (greatest-above xs e),
          )
    ]
  ]
    where
      empty : (xs : List A) → greatest key xs ≡ none → All (λ x. key x ≤ key g) xs
      empty [] e = tt
      empty (y ∷ ys) e = elim (Option-cases (greatest key ys)) [
        | inl f ↦ absurd (ground (arith, e, f))
        | inr (z, f) ↦ elim (Bool-cases (ltb (key z) (key y))) [
          | inl b ↦ absurd (ground (arith, e, f, b))
          | inr b ↦ absurd (ground (arith, e, f, b))
        ]
      ]

  pub greatest-append :
      (xs : List A) (x : A) → All (λ y. key y ≤ key x) xs → greatest key (xs ++ x ∷ []) ≡ some x
  greatest-append [] x a = refl
  greatest-append (y ∷ xs) x a = ground (arith, a.0, greatest-append xs x a.1)

  pub greatest-map :
      (f : A → A)
      → ((x : A) → key (f x) ≡ key x)
      → (xs : List A)
      → greatest key (map f xs) ≡ (elim (greatest key xs) [ none ↦ none | some g ↦ some (f g) ])
  greatest-map f same [] = refl
  greatest-map f same (x ∷ xs) = elim (Option-cases (greatest key xs)) [
    | inl e ↦ ground (arith, e, greatest-map f same xs)
    | inr (y, e) ↦ ground (arith, e, same x, same y, greatest-map f same xs)
  ]

split_or : (a b : Bool) → (a || not b) ≡ false → (a ≡ false) × (b ≡ true)
split_or a b h = (ground arith, ground arith)

same_text : (a b : String) → str_eq a b ≡ true → a ≡ b
same_text a b = (str_eq_iff a b).0

-- The upserts of a history, whose latest one is first.
abbrev pub History : Type 0 → Type 0 → Type 0
History D J = List (ℕ × CoinMeta D J)

module _ {D J : Type 0} ⦃decimals : Key D⦄ ⦃jsons : Key J⦄ where
  -- Details that have not changed are the same.
  pub unchanged-same : (a b : Details D J) → metadata_has_changed a b ≡ false → a ≡ b
  unfolding metadata_has_changed
  unchanged-same a b h =
      let (h8, genesis) = split_or _ (eq_option ◌==◌ a.genesis_date b.genesis_date) h in
      let (h7, supply) = split_or _ (eq_option decimals.beq a.max_supply b.max_supply) h8 in
      let (h6, contracts) =
        split_or _ (eq_option jsons.beq a.contract_addresses b.contract_addresses) h7 in
      let (h5, links) = split_or _ (eq_option jsons.beq a.links b.links) h6 in
      let (h4, homepage) = split_or _ (eq_option str_eq a.homepage b.homepage) h5 in
      let (h3, description) = split_or _ (eq_option str_eq a.description b.description) h4 in
      let (h2, categories) = split_or _ (eq_option (eq_list str_eq) a.categories b.categories) h3 in
      let (h1, symbol) = split_or (not (str_eq a.name b.name)) (str_eq a.symbol b.symbol) h2 in
      let name : str_eq a.name b.name ≡ true = ground (arith, h1) in
      let e1 = same_text a.name b.name name in
      let e2 = same_text a.symbol b.symbol symbol in
      let e3 =
        eq_option-same (eq_list str_eq) (eq_list-same str_eq same_text) a.categories b.categories
          categories in
      let e4 = eq_option-same str_eq same_text a.description b.description description in
      let e5 = eq_option-same str_eq same_text a.homepage b.homepage homepage in
      let e6 = eq_option-same jsons.beq (λ x y. (jsons.beq_iff x y).0) a.links b.links links in
      let e7 =
        eq_option-same jsons.beq (λ x y. (jsons.beq_iff x y).0) a.contract_addresses
          b.contract_addresses contracts in
      let e8 =
        eq_option-same decimals.beq (λ x y. (decimals.beq_iff x y).0) a.max_supply b.max_supply
          supply in
      let e9 = eq_option-same ◌==◌ (λ x y. (==_iff x y).0) a.genesis_date b.genesis_date genesis in
      cc (e1, e2, e3, e4, e5, e6, e7, e8, e9)

  abbrev pub collected : History D J → List (CoinMetadata D J)
  collected [] = []
  collected ((now, meta) ∷ history) = upsert_coin_metadata now meta (collected history)

  abbrev pub IsAscending : History D J → Type 0
  IsAscending [] = Unit {0}
  IsAscending ((now, meta) ∷ history) =
      All {A = ℕ × CoinMeta D J} (λ e. e.0 < now) history × IsAscending history

  module _ (coin_id : String) where
    abbrev pub mine : List (CoinMetadata D J) → List (CoinMetadata D J)
    mine rows = filter_by (of_coin coin_id) rows

    -- The upsert, on the rows of its coin.
    abbrev pub upsert_mine : ℕ → CoinMeta D J → List (CoinMetadata D J) → List (CoinMetadata D J)
    upsert_mine now meta rows = elim (greatest revision_of rows) [
      | none ↦ insert_metadata_revision now meta 0 rows
      | some existing ↦
          if metadata_has_changed existing.details meta.details
          then insert_metadata_revision now meta (existing.revision + 1) rows
          else map (seen_again now meta.coin_id existing.revision) rows
    ]

    pub mine-insert :
        (now : ℕ) (meta : CoinMeta D J) (revision : ℕ) (rows : List (CoinMetadata D J))
        → mine (insert_metadata_revision now meta revision rows) ≡ (
            if str_eq meta.coin_id coin_id
            then insert_metadata_revision now meta revision (mine rows)
            else mine rows)
    unfolding insert_metadata_revision
    mine-insert now meta revision [] = ground arith
    mine-insert now meta revision (r ∷ rows) = ground (arith, mine-insert now meta revision rows)

    pub mine-seen_again :
        (now : ℕ) (id : String) (revision : ℕ) (rows : List (CoinMetadata D J))
        → mine (map (seen_again now id revision) rows)
          ≡ map (seen_again now id revision) (mine rows)
    mine-seen_again now id revision [] = refl
    mine-seen_again now id revision (r ∷ rows) =
        ground (arith, mine-seen_again now id revision rows)

    pub seen_again_of_other :
        (now : ℕ) (id : String) (revision : ℕ)
        → str_eq id coin_id ≡ false
        → (rows : List (CoinMetadata D J))
        → map (seen_again now id revision) (mine rows) ≡ mine rows
    seen_again_of_other now id revision other [] = refl
    seen_again_of_other now id revision other (r ∷ rows) = elim (Bool-cases (of_coin coin_id r)) [
      | inr b ↦ ground (arith, b, seen_again_of_other now id revision other rows)
      | inl b ↦ elim (Bool-cases (of_coin id r)) [
        | inl k ↦ absurd (clash ((str_eq_iff r.coin_id id).0 k) b)
        | inr k ↦ ground (arith, b, k, seen_again_of_other now id revision other rows)
      ]
    ]
      where
        clash : r.coin_id ≡ id → str_eq r.coin_id coin_id ≡ true → ⊥
        clash e k =
            let mixed : str_eq id coin_id ≡ true = ap (λ c. str_eq c coin_id) (sym e) ∙ k in cc
