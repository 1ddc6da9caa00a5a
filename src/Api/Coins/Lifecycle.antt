-- ===== src/Api/Coins/Lifecycle.antt =====
-- A coin from its registration to its deletion (api/coins.rs), with what the live poller
-- (collectors/live_poller.rs) makes of its row.
use crypto_collector.Prelude.{
  ℕ, ◌⊎◌, ◌≡◌, ◌∙◌, refl, ap, String, Bool, false, ◌&&◌, Option, some, none, List, [], ◌∷◌, ◌++◌,
  str_eq, str_eq_iff, arith, inl, inr, Bool-cases, Option-cases,
}
use crypto_collector.Api.{ApiResult, ◌>>=◌}
use crypto_collector.Api.Coins.{
  CoinRow, polled, RegisterCoinRequest, IntervalPatch, absent, null, text, UpdateCoinRequest,
  Bounds, Tables, select_coin, validate_coin_id, requested_interval, parse_interval, new_coin,
  enqueue_initial, Registered, created, existing, insert_coin, register_coin, coalesce, set_status,
  set_interval, update_row, updating, checked_status, patch, update_coin, pause, delete_coin,
}
use crypto_collector.Collectors.LivePoller.{is_claimable, polled_out, unclaimed}
use crypto_collector.Api.Coins.Rows.{select_coin-append, select_coin-update_row}

module _ (now next_id later next : ℕ) (b : Bounds) (req again : RegisterCoinRequest) (t : Tables)
    {interval other : Option ℕ} (valid : validate_coin_id req.coin_id ≡ ApiResult.ok tt)
    (accepted : requested_interval b req.live_poll_interval ≡ ApiResult.ok interval)
    (repeats : again.coin_id ≡ req.coin_id)
    (accepted_again : requested_interval b again.live_poll_interval ≡ ApiResult.ok other) where
  abbrev registered : Registered × Tables
  registered = insert_coin now next_id req interval t

  inserted :
      (row : CoinRow) × ((registered.0 ≡ created row) ⊎ (registered.0 ≡ existing row))
      × (select_coin req.coin_id registered.1.coins ≡ some row)
  unfolding insert_coin
  inserted = elim (Option-cases (select_coin req.coin_id t.coins)) [
    | inl fresh ↦
        let whole : registered ≡ (
          created (new_coin now req interval),
          record {
            coins = t.coins ++ new_coin now req interval ∷ [];
            queue = enqueue_initial now next_id req.coin_id t.queue;
          },
        ) =
          ground (arith, fresh) in
        (
          new_coin now req interval,
          inl (ap (λ p. p.0) whole),
          ap (λ p. select_coin req.coin_id p.1.coins) whole
              ∙ select_coin-append req.coin_id t.coins (new_coin now req interval) fresh
                  ((str_eq_iff req.coin_id req.coin_id).1 refl),
        )
    | inr (row, there) ↦
        let whole : registered ≡ (existing row, t) = ground (arith, there) in
        (row, inr (ap (λ p. p.0) whole), ap (λ p. select_coin req.coin_id p.1.coins) whole ∙ there)
  ]

  -- Registering a coin is idempotent: the first accepted request makes the row or finds it, and any
  -- accepted request for the same coin after it answers with that row and changes nothing, neither
  -- the coins nor the queue, whatever else it asks for.
  pub register_coin_twice :
      (row : CoinRow) × (t' : Tables) × ((register_coin now next_id b req t
          ≡ ApiResult.ok (created row, t'))
        ⊎ (register_coin now next_id b req t ≡ ApiResult.ok (existing row, t')))
      × (register_coin later next b again t' ≡ ApiResult.ok (existing row, t'))
  unfolding register_coin insert_coin
  register_coin_twice =
      let (row, how, found) = inserted in
      let answer : register_coin now next_id b req t ≡ ApiResult.ok registered =
        ground (arith, valid, accepted) in
      let known : select_coin again.coin_id registered.1.coins ≡ some row =
        ap (λ c. select_coin c registered.1.coins) repeats ∙ found in
      let valid_again : validate_coin_id again.coin_id ≡ ApiResult.ok tt =
        ap validate_coin_id repeats ∙ valid in
      (
        row,
        registered.1,
        elim how [
          | inl e ↦ inl (answer ∙ ap (λ r. ApiResult.ok (r, registered.1)) e)
          | inr e ↦ inr (answer ∙ ap (λ r. ApiResult.ok (r, registered.1)) e)
        ],
        ground (arith, valid_again, accepted_again, known),
      )

-- The interval that a PATCH asks for; none leaves it as it is.
abbrev pub asked_interval : Bounds → IntervalPatch → ApiResult (Option (Option ℕ))
asked_interval b absent = ApiResult.ok none
asked_interval b null = ApiResult.ok (some none)
asked_interval b (text iv) = parse_interval b iv >>= (λ secs. ApiResult.ok (some (some secs)))

abbrev pub interval_after : Option (Option ℕ) → Option ℕ → Option ℕ
interval_after none interval = interval
interval_after (some new) interval = new

-- Whether the coin is due at an instant after the PATCH, from its row before it.
abbrev pub due_after_patch : Option (Option ℕ) → UpdateCoinRequest → CoinRow → ℕ → ℕ → Bool
due_after_patch none req row now global_secs =
    is_claimable now global_secs (polled (record row { status = coalesce req.status row.status }))
due_after_patch (some new) req row now global_secs =
    str_eq (coalesce req.status row.status) "active"

-- The instants of the last poll and of the claim after the PATCH; a new interval clears them.
abbrev pub instant_after : Option (Option ℕ) → Option ℕ → Option ℕ
instant_after none at = at
instant_after (some new) at = none

patched : Option (Option ℕ) → UpdateCoinRequest → CoinRow → CoinRow
patched none req row = set_status req row
patched (some new) req row = set_interval new req row

patch_asked :
    (b : Bounds) (req : UpdateCoinRequest) (p : IntervalPatch) {asked : Option (Option ℕ)}
    → asked_interval b p ≡ ApiResult.ok asked
    → patch b req p ≡ ApiResult.ok (patched asked req)
unfolding patched
patch_asked b req absent h = ground (arith, h)
patch_asked b req null h = ground (arith, h)
patch_asked b req (text iv) h = ground (arith, h)

patched-due :
    (asked : Option (Option ℕ)) (req : UpdateCoinRequest) (row : CoinRow) (now global_secs : ℕ)
    → is_claimable now global_secs (polled (patched asked req row))
      ≡ due_after_patch asked req row now global_secs
unfolding patched is_claimable
patched-due none req row now global_secs = refl
patched-due (some new) req row now global_secs = ground arith

patched-interval :
    (asked : Option (Option ℕ)) (req : UpdateCoinRequest) (row : CoinRow)
    → (patched asked req row).live_poll_interval ≡ interval_after asked row.live_poll_interval
unfolding patched
patched-interval none req row = refl
patched-interval (some new) req row = refl

patched-coin_id :
    (asked : Option (Option ℕ)) (req : UpdateCoinRequest) (row : CoinRow)
    → (patched asked req row).coin_id ≡ row.coin_id
unfolding patched
patched-coin_id none req row = refl
patched-coin_id (some new) req row = refl

patched-fields :
    (asked : Option (Option ℕ)) (req : UpdateCoinRequest) (row : CoinRow)
    → ((patched asked req row).status ≡ coalesce req.status row.status)
      × ((patched asked req row).last_polled_at ≡ instant_after asked row.last_polled_at)
      × ((patched asked req row).live_poll_claimed_until
          ≡ instant_after asked row.live_poll_claimed_until)
unfolding patched
patched-fields none req row = (refl, refl, refl)
patched-fields (some new) req row = (refl, refl, refl)

-- An accepted PATCH answers with the row that the table then holds, with the status that it asks for,
-- if any. Without the field the interval, the last poll and the claim of a poller stay as they are,
-- and the coin is due as its row says with that status; with null or a new interval the coin has that
-- interval, the last poll and the claim are cleared, and it is due at once, at any instant and whoever
-- polls it at the moment, exactly if it is active then.
pub update_coin_lem :
    (b : Bounds) (coin_id : String) (req : UpdateCoinRequest) (coins : List CoinRow) (row : CoinRow)
    {asked : Option (Option ℕ)} (now global_secs : ℕ)
    → select_coin coin_id coins ≡ some row
    → checked_status req.status ≡ ApiResult.ok tt
    → asked_interval b req.live_poll_interval ≡ ApiResult.ok asked
    → (row' : CoinRow) × (coins' : List CoinRow) × (update_coin b coin_id req coins
        ≡ ApiResult.ok (row', coins'))
      × (select_coin coin_id coins' ≡ some row')
      × (row'.live_poll_interval ≡ interval_after asked row.live_poll_interval)
      × (row'.status ≡ coalesce req.status row.status)
      × (row'.last_polled_at ≡ instant_after asked row.last_polled_at)
      × (row'.live_poll_claimed_until ≡ instant_after asked row.live_poll_claimed_until)
      × (is_claimable now global_secs (polled row') ≡ due_after_patch asked req row now global_secs)
unfolding update_coin updating
update_coin_lem b coin_id req coins row {asked = asked} now global_secs found status interval =
    let change = patch_asked b req req.live_poll_interval interval in
    let (status_set, last_poll, claim) = patched-fields asked req row in
    (
      patched asked req row,
      update_row (patched asked req) coin_id coins,
      ground (arith, status, change, found),
      select_coin-update_row (patched asked req) coin_id (patched-coin_id asked req) coins row
          found,
      patched-interval asked req row,
      status_set,
      last_poll,
      claim,
      patched-due asked req row now global_secs,
    )

pause-coin_id : (r : CoinRow) → (pause r).coin_id ≡ r.coin_id
pause-coin_id r = ground arith

pause-status : (r : CoinRow) → (pause r).status ≡ "paused"
pause-status r = elim (Bool-cases (str_eq r.status "paused")) [
  | inl b ↦ rw b ((str_eq_iff r.status "paused").0 b)
  | inr b ↦ rw b refl
]

pause-unclaimable :
    (r : CoinRow) (now global_secs : ℕ) → is_claimable now global_secs (polled (pause r)) ≡ false
unfolding is_claimable
pause-unclaimable r now global_secs =
    let row = polled (pause r) in
    ap (λ s. str_eq s "active" && polled_out now global_secs row && unclaimed now row)
      (pause-status r)

-- A deleted coin keeps its row, is never due again, and is not brought back by a registration: that
-- answers with the paused row and changes nothing.
pub delete_coin-register_coin :
    (coin_id : String) (t : Tables) (row : CoinRow) (now global_secs later next : ℕ) (b : Bounds)
    (req : RegisterCoinRequest) {interval : Option ℕ}
    → select_coin coin_id t.coins ≡ some row
    → req.coin_id ≡ coin_id
    → validate_coin_id req.coin_id ≡ ApiResult.ok tt
    → requested_interval b req.live_poll_interval ≡ ApiResult.ok interval
    → (row' : CoinRow) × (coins' : List CoinRow) × (delete_coin coin_id t.coins
        ≡ ApiResult.ok coins')
      × (select_coin coin_id coins' ≡ some row')
      × (is_claimable now global_secs (polled row') ≡ false)
      × (register_coin later next b req (record t { coins = coins' })
          ≡ ApiResult.ok (existing row', record t { coins = coins' }))
unfolding delete_coin register_coin insert_coin
delete_coin-register_coin coin_id t row now global_secs later next b req found named valid
      accepted =
    let coins' = update_row pause coin_id t.coins in
    let after : select_coin coin_id coins' ≡ some (pause row) =
      select_coin-update_row pause coin_id pause-coin_id t.coins row found in
    let known : select_coin req.coin_id coins' ≡ some (pause row) =
      ap (λ c. select_coin c coins') named ∙ after in
    (
      pause row,
      coins',
      ground (arith, found),
      after,
      pause-unclaimable row now global_secs,
      ground (arith, valid, accepted, known),
    )
