-- ===== src/Database/Metadata/History/Reads.antt =====
-- The reads of a coin's revisions (api/metadata.rs) after any history of upserts (db/upserts.rs).
use crypto_collector.Prelude.{
  ℕ, ◌≤◌, ◌<◌, ◌≡◌, ◌∙◌, refl, ap, sym, String, true, ◌&&◌, Option, some, none, List, [], ◌∷◌, ◌++◌,
  map, leb, ◌==◌, str_eq, if◌then◌else◌, arith, inl, inr, Bool-cases, All, All-map, All-append,
  All-image, All-filter_by, filter_by, filter_by-append, filter_by_of_All, append_empty,
}
use crypto_collector.Api.Lists.{until}
use crypto_collector.Database.Metadata.{
  Details, CoinMeta, CoinMetadata, greatest, of_coin, revision_of, seen_from,
  insert_metadata_revision, seen_again,
}
use crypto_collector.Database.Metadata.History.{History, greatest-append, greatest-map}

module _ {D J : Type 0} where
  -- What a history says was in effect: the last upsert of the coin up to the instant, if one is
  -- given.
  abbrev pub in_effect : String → Option ℕ → History D J → Option (Details D J)
  in_effect coin_id as_of [] = none
  in_effect coin_id as_of ((now, meta) ∷ history) =
      let rest = in_effect coin_id as_of history in
      if str_eq meta.coin_id coin_id && until as_of now then some meta.details else rest

  abbrev pub details_of : Option (CoinMetadata D J) → Option (Details D J)
  details_of none = none
  details_of (some r) = some r.details

  -- A read, on the rows of its coin.
  abbrev pub read : Option ℕ → List (CoinMetadata D J) → Option (CoinMetadata D J)
  read none rows = greatest revision_of rows
  read (some as_of) rows = greatest seen_from (filter_by (λ r. leb r.first_seen_at as_of) rows)

  abbrev pub IsOld : ℕ → CoinMetadata D J → Type 0
  IsOld now r = r.first_seen_at < now

  -- The rows of a coin: the newest by revision is the newest by time.
  abbrev pub IsInStep : List (CoinMetadata D J) → Type 0
  IsInStep rows = greatest seen_from rows ≡ greatest revision_of rows

  -- What an upsert at `now` does to the rows of its coin.
  pub record Steps (now : ℕ) (details : Details D J) (before after : List (CoinMetadata D J))
      : Type 0 where
    pub old : (t : ℕ) → now < t → All (IsOld t) after
    pub in_step : IsInStep after
    pub reads :
        (as_of : Option ℕ)
        → details_of (read as_of after)
          ≡ (if until as_of now then some details else details_of (read as_of before))

  pub insert-Steps :
      (now : ℕ) (meta : CoinMeta D J) (revision : ℕ) (rows : List (CoinMetadata D J))
      → All (IsOld now) rows
      → All (λ r. r.revision ≤ revision) rows
      → Steps now meta.details rows (insert_metadata_revision now meta revision rows)
  unfolding insert_metadata_revision
  insert-Steps now meta revision rows old low =
      let new : CoinMetadata D J = record {
        coin_id = meta.coin_id;
        revision = revision;
        details = meta.details;
        first_seen_at = now;
        last_seen_at = now;
      } in
      let seen : All (λ r. r.first_seen_at ≤ now) rows =
        All-map (IsOld now) (λ r. r.first_seen_at ≤ now) (λ r h. omega (arith, h)) rows old in
      let by_revision : greatest revision_of (rows ++ new ∷ []) ≡ some new =
        greatest-append revision_of rows new low in
      record {
        old = λ t h.
            All-append (IsOld t) rows (new ∷ [])
              (All-map (IsOld now) (IsOld t) (λ r k. omega (arith, h, k)) rows old) (h, tt);
        in_step = greatest-append seen_from rows new seen ∙ sym by_revision;
        reads = elim [
          | none ↦ ap details_of by_revision
          | some as_of ↦
              let early = λ (r : CoinMetadata D J). leb r.first_seen_at as_of in
              let parts = filter_by-append early rows (new ∷ []) in
              elim (Bool-cases (leb now as_of)) [
                | inl b ↦
                    ap (λ rs. details_of (greatest seen_from rs))
                      (parts ∙ ap (λ c. filter_by early rows ++ (if c then new ∷ [] else [])) b)
                    ∙ ap details_of (
                        greatest-append seen_from (filter_by early rows) new
                          (All-filter_by (λ r. r.first_seen_at ≤ now) early rows seen))
                    ∙ ap (λ c. if c then some meta.details else details_of (read (some as_of) rows))
                        (sym b)
                | inr b ↦
                    ap (λ rs. details_of (greatest seen_from rs))
                      (parts
                        ∙ ap (λ c. filter_by early rows ++ (if c then new ∷ [] else [])) b
                        ∙ sym (append_empty (filter_by early rows)))
                    ∙ ap (λ c. if c then some meta.details else details_of (read (some as_of) rows))
                        (sym b)
              ]
        ];
      }

  -- A row that is only seen again keeps what the reads go by.
  again-keeps :
      (now : ℕ) (id : String) (revision : ℕ) (r : CoinMetadata D J)
      → ((seen_again now id revision r).revision ≡ r.revision)
        × ((seen_again now id revision r).first_seen_at ≡ r.first_seen_at)
        × ((seen_again now id revision r).details ≡ r.details)
  again-keeps now id revision r = elim (Bool-cases (of_coin id r && (r.revision == revision))) [
    | inl b ↦ rw b (refl, refl, refl)
    | inr b ↦ rw b (refl, refl, refl)
  ]

  details_of-again :
      (now : ℕ) (id : String) (revision : ℕ) (key : CoinMetadata D J → ℕ)
      → ((r : CoinMetadata D J) → key (seen_again now id revision r) ≡ key r)
      → (rows : List (CoinMetadata D J))
      → details_of (greatest key (map (seen_again now id revision) rows))
        ≡ details_of (greatest key rows)
  details_of-again now id revision key same rows =
      ap details_of (greatest-map key (seen_again now id revision) same rows)
      ∙ kept (greatest key rows)
    where
      kept :
          (o : Option (CoinMetadata D J))
          → details_of (elim o [ none ↦ none | some g ↦ some (seen_again now id revision g) ])
            ≡ details_of o
      kept none = refl
      kept (some g) = ap some (again-keeps now id revision g).2

  filter_by-again :
      (now : ℕ) (id : String) (revision as_of : ℕ) (rows : List (CoinMetadata D J))
      → filter_by (λ r. leb r.first_seen_at as_of) (map (seen_again now id revision) rows)
        ≡ map (seen_again now id revision) (filter_by (λ r. leb r.first_seen_at as_of) rows)
  filter_by-again now id revision as_of [] = refl
  filter_by-again now id revision as_of (r ∷ rows) =
      let f = seen_again now id revision in
      let same : leb (f r).first_seen_at as_of ≡ leb r.first_seen_at as_of =
        ap (λ t. leb t as_of) (again-keeps now id revision r).1 in
      let later = filter_by-again now id revision as_of rows in
      elim (Bool-cases (leb r.first_seen_at as_of)) [
        | inl b ↦ rw (same, b) (ap (λ t. f r ∷ t) later)
        | inr b ↦ rw (same, b) later
      ]

  pub again-Steps :
      (now : ℕ) (id : String) (existing : CoinMetadata D J) (rows : List (CoinMetadata D J))
      → All (IsOld now) rows
      → IsInStep rows
      → greatest revision_of rows ≡ some existing
      → Steps now existing.details rows (map (seen_again now id existing.revision) rows)
  again-Steps now id existing rows old together top =
      let f = seen_again now id existing.revision in
      let by_revision =
        greatest-map revision_of f (λ r. (again-keeps now id existing.revision r).0) rows in
      let by_time =
        greatest-map seen_from f (λ r. (again-keeps now id existing.revision r).1) rows in
      record {
        old = λ t h. All-image f (IsOld t) rows (
            All-map (IsOld now) (λ r. IsOld t (f r))
              (λ r k. omega (arith, h, k, (again-keeps now id existing.revision r).1)) rows old);
        in_step =
            by_time
            ∙ ap (λ o. elim o [ none ↦ none | some g ↦ some (f g) ]) together
            ∙ sym by_revision;
        reads = elim [
          | none ↦
              details_of-again now id existing.revision revision_of
                (λ r. (again-keeps now id existing.revision r).0) rows
              ∙ ap details_of top
          | some as_of ↦
              let early = λ (r : CoinMetadata D J). leb r.first_seen_at as_of in
              let same : details_of (read (some as_of) (map f rows))
                  ≡ details_of (read (some as_of) rows) =
                ap (λ rs. details_of (greatest seen_from rs))
                  (filter_by-again now id existing.revision as_of rows)
                ∙ details_of-again now id existing.revision seen_from
                    (λ r. (again-keeps now id existing.revision r).1) (filter_by early rows) in
              elim (Bool-cases (leb now as_of)) [
                | inl b ↦
                    let all : filter_by early rows ≡ rows = filter_by_of_All early rows (
                      All-map (IsOld now) (λ r. early r ≡ true) (λ r k. ground (arith, b, k)) rows
                        old) in
                    same
                    ∙ ap (λ rs. details_of (greatest seen_from rs)) all
                    ∙ ap details_of (together ∙ top)
                    ∙ ap
                        (λ c.
                          if c then some existing.details else details_of (read (some as_of) rows))
                        (sym b)
                | inr b ↦
                    same
                    ∙ ap
                        (λ c.
                          if c then some existing.details else details_of (read (some as_of) rows))
                        (sym b)
              ]
        ];
      }
