-- ===== src/Database/Metadata.antt =====
-- The revisions of coin_metadata: upsert_coin_metadata of db/upserts.rs and their reader get_metadata
-- of api/metadata.rs. The nine tracked columns are one record; JSON values and decimals have an
-- equality.
pub mod History
use crypto_collector.Prelude.{
  ℕ, ◌+◌, String, Bool, true, false, not, ◌&&◌, ◌||◌, Option, some, none, List, [], ◌∷◌, ◌++◌, map,
  ltb, leb, ◌==◌, str_eq, if◌then◌else◌, filter_by,
}
use crypto_collector.Table.{Key}
use crypto_collector.Api.{ApiError, ApiResult, ◌>>=◌}
use crypto_collector.Api.Lists.{TrackedCoin, ensure_coin_exists, until}

-- `PartialEq` of options and of vectors.
abbrev pub eq_option : {A : Type 0} → (A → A → Bool) → Option A → Option A → Bool
eq_option eq none none = true
eq_option eq none (some b) = false
eq_option eq (some a) none = false
eq_option eq (some a) (some b) = eq a b

abbrev pub eq_list : {A : Type 0} → (A → A → Bool) → List A → List A → Bool
eq_list eq [] [] = true
eq_list eq [] (b ∷ ys) = false
eq_list eq (a ∷ xs) [] = false
eq_list eq (a ∷ xs) (b ∷ ys) = eq a b && eq_list eq xs ys

-- The tracked columns.
pub record Details (D J : Type 0) : Type 0 where
  pub name : String
  pub symbol : String
  pub categories : Option (List String)
  pub description : Option String
  pub homepage : Option String
  pub links : Option J
  pub contract_addresses : Option J
  pub max_supply : Option D
  pub genesis_date : Option ℕ

pub record CoinMeta (D J : Type 0) : Type 0 where
  pub coin_id : String
  pub details : Details D J

-- A row of coin_metadata.
pub record CoinMetadata (D J : Type 0) : Type 0 where
  pub coin_id : String
  pub revision : ℕ
  pub details : Details D J
  pub first_seen_at : ℕ
  pub last_seen_at : ℕ

-- `ORDER BY key DESC LIMIT 1`.
abbrev pub greatest : {A : Type 0} → (A → ℕ) → List A → Option A
greatest key [] = none
greatest key (x ∷ xs) = elim (greatest key xs) [
  | none ↦ some x
  | some y ↦ if ltb (key y) (key x) then some x else some y
]

module _ {D J : Type 0} where
  abbrev pub of_coin : String → CoinMetadata D J → Bool
  of_coin coin_id r = str_eq r.coin_id coin_id

  abbrev pub revision_of : CoinMetadata D J → ℕ
  revision_of r = r.revision

  abbrev pub seen_from : CoinMetadata D J → ℕ
  seen_from r = r.first_seen_at

  unfoldable pub insert_metadata_revision :
      ℕ → CoinMeta D J → ℕ → List (CoinMetadata D J) → List (CoinMetadata D J)
  insert_metadata_revision now meta revision rows =
      rows
      ++ record {
        coin_id = meta.coin_id;
        revision = revision;
        details = meta.details;
        first_seen_at = now;
        last_seen_at = now;
      }
        ∷ []

  -- `SET last_seen_at = now() WHERE coin_id = $1 AND revision = $2`.
  abbrev pub seen_again : ℕ → String → ℕ → CoinMetadata D J → CoinMetadata D J
  seen_again now coin_id revision r =
      if of_coin coin_id r && (r.revision == revision) then record r { last_seen_at = now } else r

  module _ ⦃decimals : Key D⦄ ⦃jsons : Key J⦄ where
    unfoldable pub metadata_has_changed : Details D J → Details D J → Bool
    metadata_has_changed existing new =
        not (str_eq existing.name new.name)
        || not (str_eq existing.symbol new.symbol)
        || not (eq_option (eq_list str_eq) existing.categories new.categories)
        || not (eq_option str_eq existing.description new.description)
        || not (eq_option str_eq existing.homepage new.homepage)
        || not (eq_option jsons.beq existing.links new.links)
        || not (eq_option jsons.beq existing.contract_addresses new.contract_addresses)
        || not (eq_option decimals.beq existing.max_supply new.max_supply)
        || not (eq_option ◌==◌ existing.genesis_date new.genesis_date)

    unfoldable pub upsert_coin_metadata :
        ℕ → CoinMeta D J → List (CoinMetadata D J) → List (CoinMetadata D J)
    upsert_coin_metadata now meta rows =
        elim (greatest revision_of (filter_by (of_coin meta.coin_id) rows)) [
          | none ↦ insert_metadata_revision now meta 0 rows
          | some existing ↦
              if metadata_has_changed existing.details meta.details
              then insert_metadata_revision now meta (existing.revision + 1) rows
              else map (seen_again now meta.coin_id existing.revision) rows
        ]

  -- The two queries of the reader.
  unfoldable pub select_revision :
      String → Option ℕ → List (CoinMetadata D J) → Option (CoinMetadata D J)
  select_revision coin_id none rows = greatest revision_of (filter_by (of_coin coin_id) rows)
  select_revision coin_id (some as_of) rows =
      greatest seen_from (filter_by (λ r. of_coin coin_id r && leb r.first_seen_at as_of) rows)

  unfoldable pub get_metadata :
      List TrackedCoin → List (CoinMetadata D J) → String → Option ℕ → ApiResult (CoinMetadata D J)
  get_metadata coins rows coin_id as_of = do
    _ ← ensure_coin_exists coins coin_id
    elim (select_revision coin_id as_of rows) [
      | none ↦ ApiResult.err (ApiError.not_found "no metadata found")
      | some m ↦ ApiResult.ok m
    ]
