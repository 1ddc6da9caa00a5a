-- ===== src/Api/Coins/Rows.antt =====
-- Reads of tracked_coins behind an insert and an update (api/coins.rs).
use crypto_collector.Prelude.{
  ◌≡◌, String, true, some, none, List, [], ◌∷◌, ◌++◌, arith, inl, inr, Bool-cases,
}
use crypto_collector.Api.Coins.{CoinRow, is_coin, select_coin, update_row}

pub select_coin-append :
    (coin_id : String) (coins : List CoinRow) (row : CoinRow)
    → select_coin coin_id coins ≡ none
    → is_coin coin_id row ≡ true
    → select_coin coin_id (coins ++ row ∷ []) ≡ some row
select_coin-append coin_id [] row h k = ground (arith, k)
select_coin-append coin_id (r ∷ coins) row h k = elim (Bool-cases (is_coin coin_id r)) [
  | inl b ↦ absurd (ground (arith, b, h))
  | inr b ↦
      let behind : select_coin coin_id coins ≡ none = ground (arith, b, h) in
      ground (arith, b, select_coin-append coin_id coins row behind k)
]

pub select_coin-update_row :
    (f : CoinRow → CoinRow) (coin_id : String)
    → ((r : CoinRow) → (f r).coin_id ≡ r.coin_id)
    → (coins : List CoinRow) (row : CoinRow) → select_coin coin_id coins ≡ some row
    → select_coin coin_id (update_row f coin_id coins) ≡ some (f row)
unfolding update_row
select_coin-update_row f coin_id same [] row h = absurd (cc)
select_coin-update_row f coin_id same (r ∷ coins) row h = elim (Bool-cases (is_coin coin_id r)) [
  | inl b ↦ ground (arith, b, same r)
  | inr b ↦
      let behind : select_coin coin_id coins ≡ some row = ground (arith, b, h) in
      ground (arith, b, select_coin-update_row f coin_id same coins row behind)
]
