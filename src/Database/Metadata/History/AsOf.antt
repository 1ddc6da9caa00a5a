-- ===== src/Database/Metadata/History/AsOf.antt =====
-- `get_metadata` (api/metadata.rs) as a point-in-time read of the upserts of db/upserts.rs.
use crypto_collector.Prelude.{
  ℕ, ◌+◌, ◌≤◌, ◌<◌, ◌≡◌, ◌∙◌, refl, ap, sym, subst, String, true, false, ◌&&◌, Option, some, none,
  List, [], ◌∷◌, map, leb, str_eq, str_eq_iff, if◌then◌else◌, arith, inl, inr, Bool-cases,
  Option-cases, All, All-map, filter_by,
}
use crypto_collector.Table.{Key}
use crypto_collector.Api.{ApiError, ApiResult, ◌>>=◌}
use crypto_collector.Api.Lists.{TrackedCoin, ensure_coin_exists, until}
use crypto_collector.Database.Metadata.{
  Details, CoinMeta, CoinMetadata, greatest, of_coin, revision_of, seen_from,
  insert_metadata_revision, seen_again, metadata_has_changed, upsert_coin_metadata, select_revision,
  get_metadata,
}
use crypto_collector.Database.Metadata.History.{
  History, IsAscending, collected, mine, upsert_mine, greatest-above, unchanged-same, mine-insert,
  mine-seen_again, seen_again_of_other,
}
use crypto_collector.Database.Metadata.History.Reads.{
  in_effect, details_of, read, IsOld, IsInStep, Steps, insert-Steps, again-Steps,
}

module _ {D J : Type 0} ⦃decimals : Key D⦄ ⦃jsons : Key J⦄ where
  low_of_none :
      (rows : List (CoinMetadata D J))
      → greatest revision_of rows ≡ none
      → All (λ r. r.revision ≤ 0) rows
  low_of_none [] e = tt
  low_of_none (r ∷ rows) e = elim (Option-cases (greatest revision_of rows)) [
    | inl f ↦ absurd (ground (arith, e, f))
    | inr (z, f) ↦ elim (Bool-cases (leb r.revision z.revision)) [
      | inl b ↦ absurd (ground (arith, e, f, b))
      | inr b ↦ absurd (ground (arith, e, f, b))
    ]
  ]

  upsert_mine-Steps :
      (coin_id : String) (now : ℕ) (meta : CoinMeta D J) (rows : List (CoinMetadata D J))
      → All (IsOld now) rows
      → IsInStep rows
      → Steps now meta.details rows (upsert_mine coin_id now meta rows)
  upsert_mine-Steps coin_id now meta rows old together =
      elim (Option-cases (greatest revision_of rows)) [
        | inl e ↦ rw (upsert_mine, e) (insert-Steps now meta 0 rows old (low_of_none rows e))
        | inr (existing, e) ↦
            elim (Bool-cases (metadata_has_changed existing.details meta.details)) [
              | inl b ↦
                  rw (upsert_mine, e, b)
                    (insert-Steps now meta (existing.revision + 1) rows old (
                      All-map (λ r. r.revision ≤ existing.revision)
                        (λ r. r.revision ≤ existing.revision + 1) (λ r h. omega (arith, h)) rows
                        (greatest-above revision_of rows e)))
              | inr b ↦
                  rw (upsert_mine, e, b)
                    (subst
                      (λ d.
                        Steps now d rows (map (seen_again now meta.coin_id existing.revision) rows))
                      (unchanged-same existing.details meta.details b)
                      (again-Steps now meta.coin_id existing rows old together e))
            ]
      ]

  mine-upsert :
      (now : ℕ) (meta : CoinMeta D J) (rows : List (CoinMetadata D J)) (coin_id : String)
      → str_eq meta.coin_id coin_id ≡ true
      → meta.coin_id ≡ coin_id
      → mine coin_id (upsert_coin_metadata now meta rows)
        ≡ upsert_mine coin_id now meta (mine coin_id rows)
  unfolding upsert_coin_metadata
  mine-upsert now meta rows coin_id b e =
      ap (λ c. mine coin_id (written (greatest revision_of (filter_by (of_coin c) rows)) rows)) e
      ∙ by (greatest revision_of (mine coin_id rows))
    where
      written : Option (CoinMetadata D J) → List (CoinMetadata D J) → List (CoinMetadata D J)
      written o rows = elim o [
        | none ↦ insert_metadata_revision now meta 0 rows
        | some existing ↦
            if metadata_has_changed existing.details meta.details
            then insert_metadata_revision now meta (existing.revision + 1) rows
            else map (seen_again now meta.coin_id existing.revision) rows
      ]

      by :
          (o : Option (CoinMetadata D J))
          → mine coin_id (written o rows) ≡ written o (mine coin_id rows)
      by none = ground (arith, b, mine-insert coin_id now meta 0 rows)
      by (some x) = elim (Bool-cases (metadata_has_changed x.details meta.details)) [
        | inl c ↦ ground (arith, b, c, mine-insert coin_id now meta (x.revision + 1) rows)
        | inr c ↦ ground (arith, c, mine-seen_again coin_id now meta.coin_id x.revision rows)
      ]

  mine-upsert_of_other :
      (now : ℕ) (meta : CoinMeta D J) (rows : List (CoinMetadata D J)) (coin_id : String)
      → str_eq meta.coin_id coin_id ≡ false
      → mine coin_id (upsert_coin_metadata now meta rows) ≡ mine coin_id rows
  unfolding upsert_coin_metadata
  mine-upsert_of_other now meta rows coin_id b =
      elim (Option-cases (greatest revision_of (filter_by (of_coin meta.coin_id) rows))) [
        | inl e ↦ ground (arith, b, e, mine-insert coin_id now meta 0 rows)
        | inr (x, e) ↦ elim (Bool-cases (metadata_has_changed x.details meta.details)) [
          | inl c ↦ ground (arith, b, c, e, mine-insert coin_id now meta (x.revision + 1) rows)
          | inr c ↦ ground (
            arith,
            c,
            e,
            mine-seen_again coin_id now meta.coin_id x.revision rows,
            seen_again_of_other coin_id now meta.coin_id x.revision b rows,
          )
        ]
      ]

  -- What holds of the rows of a coin after a history.
  record Follows (coin_id : String) (history : History D J) : Type 0 where
    old : (t : ℕ) → All (λ e. e.0 < t) history → All (IsOld t) (mine coin_id (collected history))
    in_step : IsInStep (mine coin_id (collected history))
    reads :
        (as_of : Option ℕ)
        → details_of (read as_of (mine coin_id (collected history)))
          ≡ in_effect coin_id as_of history

  history-Follows :
      (coin_id : String) (history : History D J) → IsAscending history → Follows coin_id history
  history-Follows coin_id [] a = record {
    old = λ t h. tt;
    in_step = refl;
    reads = elim [ none ↦ refl | some as_of ↦ refl ];
  }
  history-Follows coin_id ((now, meta) ∷ history) a =
      let f = history-Follows coin_id history a.1 in
      let rows = collected history in
      elim (Bool-cases (str_eq meta.coin_id coin_id)) [
        | inl b ↦
            let e = mine-upsert now meta rows coin_id b ((str_eq_iff meta.coin_id coin_id).0 b) in
            let s =
              upsert_mine-Steps coin_id now meta (mine coin_id rows) (f.old now a.0) f.in_step in
            record {
              old = λ t h. subst (All (IsOld t)) (sym e) (s.old t h.0);
              in_step = subst IsInStep (sym e) s.in_step;
              reads = λ as_of.
                  ap (λ rs. details_of (read as_of rs)) e
                  ∙ s.reads as_of
                  ∙ ap (λ d. if until as_of now then some meta.details else d) (f.reads as_of)
                  ∙ ap
                      (λ c.
                        if c && until as_of now
                        then some meta.details
                        else in_effect coin_id as_of history)
                      (sym b);
            }
        | inr b ↦
            let e = mine-upsert_of_other now meta rows coin_id b in
            record {
              old = λ t h. subst (All (IsOld t)) (sym e) (f.old t h.1);
              in_step = subst IsInStep (sym e) f.in_step;
              reads = λ as_of.
                  ap (λ rs. details_of (read as_of rs)) e
                  ∙ f.reads as_of
                  ∙ ap
                      (λ c.
                        if c && until as_of now
                        then some meta.details
                        else in_effect coin_id as_of history)
                      (sym b);
            }
      ]

  filter_both :
      (coin_id : String) (as_of : ℕ) (rows : List (CoinMetadata D J))
      → filter_by (λ r. of_coin coin_id r && leb r.first_seen_at as_of) rows
        ≡ filter_by (λ r. leb r.first_seen_at as_of) (mine coin_id rows)
  filter_both coin_id as_of [] = refl
  filter_both coin_id as_of (r ∷ rows) = ground (arith, filter_both coin_id as_of rows)

  select_revision-read :
      (coin_id : String) (as_of : Option ℕ) (rows : List (CoinMetadata D J))
      → select_revision coin_id as_of rows ≡ read as_of (mine coin_id rows)
  unfolding select_revision
  select_revision-read coin_id none rows = refl
  select_revision-read coin_id (some as_of) rows =
      ap (greatest seen_from) (filter_both coin_id as_of rows)

  -- The details of an answer.
  abbrev pub shown : ApiResult (CoinMetadata D J) → Option (Details D J)
  shown (ApiResult.ok r) = some r.details
  shown (ApiResult.err e) = none

  -- Whatever was collected for whichever coins, at later and later instants: the read of a tracked
  -- coin as of an instant shows exactly what the last upsert of that coin up to the instant carried,
  -- and the read without an instant what the last one carried, also where a value came back after
  -- a change. It is an error exactly if nothing had been collected by then.
  pub get_metadata-collected :
      (coins : List TrackedCoin) (coin_id : String) (as_of : Option ℕ) (history : History D J)
      → ensure_coin_exists coins coin_id ≡ ApiResult.ok tt
      → IsAscending history
      → shown (get_metadata coins (collected history) coin_id as_of)
        ≡ in_effect coin_id as_of history
  unfolding get_metadata
  get_metadata-collected coins coin_id as_of history exists a =
      let f = history-Follows coin_id history a in
      answer (select_revision coin_id as_of (collected history))
      ∙ ap details_of (select_revision-read coin_id as_of (collected history))
      ∙ f.reads as_of
    where
      answer :
          (o : Option (CoinMetadata D J))
          → shown (
              ensure_coin_exists coins coin_id >>= (λ x. elim o [
                | none ↦ ApiResult.err (ApiError.not_found "no metadata found")
                | some m ↦ ApiResult.ok m
              ]))
            ≡ details_of o
      answer none = ground (arith, exists)
      answer (some m) = ground (arith, exists)
