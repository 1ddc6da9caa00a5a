-- ===== src/Collectors/LivePoller/Fence.antt =====
-- A claimed coin of collectors/live_poller.rs between its claim and its settlement.
use crypto_collector.Prelude.{
  ℕ, ◌+◌, ◌*◌, ◌<◌, ◌≡◌, ◌∙◌, refl, ap, sym, subst, String, Bool, true, false, not, ◌&&◌, some,
  List, [], ◌∷◌, map, str_eq, str_eq_iff, if◌then◌else◌, arith, inl, inr, Bool-cases, All, All-map,
  All-image, All-take, All-sort_by, filter_by, sort_by,
}
use crypto_collector.Candles.{second}
use crypto_collector.Collectors.LivePoller.{
  PolledCoin, is_claimable, most_overdue, select_due, has_id, with_marker, claim_due_coins,
  update_coin, Settlement, success, clear, defer, settle, polled_at, cleared, deferred,
  mark_coin_poll_success, clear_coin_poll_marker, defer_coin_poll,
}

-- Statements of any pollers before `until`: claims of whatever is due, and settlements of other
-- coins than `coin_id`.
pub data Meanwhile (coin_id : String) (until : ℕ) (rows : List PolledCoin)
    : List PolledCoin → Type 0 where
  starts : Meanwhile coin_id until rows rows
  claims :
      {mid : List PolledCoin} (now global_interval_secs claim_ttl_secs batch_limit : ℕ)
      (locked : PolledCoin → Bool)
      → now < until
      → Meanwhile coin_id until rows mid
      → Meanwhile coin_id until rows
          (claim_due_coins now global_interval_secs claim_ttl_secs batch_limit locked mid).1
  settles :
      {mid : List PolledCoin} (settled_at max_interval_secs : ℕ) (how : Settlement) (other : String)
      → str_eq coin_id other ≡ false
      → Meanwhile coin_id until rows mid
      → Meanwhile coin_id until rows (settle settled_at max_interval_secs how other mid)

module _ (coin_id : String) (until : ℕ) where
  -- Every row of the coin has the marker.
  abbrev pub IsHeldIn : PolledCoin → Type 0
  IsHeldIn r = str_eq r.coin_id coin_id ≡ true → r.live_poll_claimed_until ≡ some until

  abbrev IsOther : PolledCoin → Type 0
  IsOther r = str_eq r.coin_id coin_id ≡ false

  held-unclaimable :
      (now global_interval_secs : ℕ) (r : PolledCoin)
      → now < until
      → r.live_poll_claimed_until ≡ some until
      → is_claimable now global_interval_secs r ≡ false
  unfolding is_claimable
  held-unclaimable now global_interval_secs r h e = ground (arith, e)

  module _ (now global_interval_secs : ℕ) (locked : PolledCoin → Bool) (h : now < until) where
    abbrev free : PolledCoin → Bool
    free r = is_claimable now global_interval_secs r && not (locked r)

    free-IsOther : (rows : List PolledCoin) → All IsHeldIn rows → All IsOther (filter_by free rows)
    free-IsOther [] a = tt
    free-IsOther (r ∷ rows) a =
        let others = free-IsOther rows a.1 in
        elim (Bool-cases (str_eq r.coin_id coin_id)) [
          | inl same ↦
              let passed : free r ≡ false =
                ap (λ b. b && not (locked r))
                  (held-unclaimable now global_interval_secs r h (a.0 same)) in
              subst (All IsOther)
                (ap (λ b. if b then r ∷ filter_by free rows else filter_by free rows) (sym passed))
                others
          | inr other ↦ elim (Bool-cases (free r)) [
            | inl b ↦
                subst (All IsOther)
                  (ap (λ b. if b then r ∷ filter_by free rows else filter_by free rows) (sym b))
                  (other, others)
            | inr b ↦
                subst (All IsOther)
                  (ap (λ b. if b then r ∷ filter_by free rows else filter_by free rows) (sym b))
                  others
          ]
        ]

    taken-IsOther :
        (batch_limit : ℕ) (rows : List PolledCoin)
        → All IsHeldIn rows
        → All IsOther (select_due now global_interval_secs batch_limit locked rows)
    unfolding select_due
    taken-IsOther batch_limit rows a =
        All-take IsOther batch_limit (sort_by most_overdue (filter_by free rows))
          (All-sort_by IsOther most_overdue (filter_by free rows) (free-IsOther rows a))

  has_id-IsOther : (taken : List PolledCoin) → All IsOther taken → has_id taken coin_id ≡ false
  has_id-IsOther [] a = refl
  has_id-IsOther (c ∷ taken) a = ground (arith, a.0, has_id-IsOther taken a.1)

  claim-IsHeldIn :
      (taken : List PolledCoin) (marker : ℕ) (r : PolledCoin)
      → All IsOther taken
      → IsHeldIn r
      → IsHeldIn (if has_id taken r.coin_id then with_marker marker r else r)
  claim-IsHeldIn taken marker r others held = elim (Bool-cases (str_eq r.coin_id coin_id)) [
    | inl same ↦
        let none_taken : has_id taken r.coin_id ≡ false =
          ap (has_id taken) ((str_eq_iff r.coin_id coin_id).0 same) ∙ has_id-IsOther taken others in
        rw none_taken held
    | inr other ↦ elim (Bool-cases (has_id taken r.coin_id)) [
      | inl b ↦ rw b (λ same. absurd (cc))
      | inr b ↦ rw b held
    ]
  ]

  update-IsHeldIn :
      (f : PolledCoin → PolledCoin) (other : String) (rows : List PolledCoin)
      → str_eq coin_id other ≡ false
      → ((r : PolledCoin) → (f r).coin_id ≡ r.coin_id)
      → All IsHeldIn rows
      → All IsHeldIn (update_coin f other rows)
  update-IsHeldIn f other [] e same a = tt
  update-IsHeldIn f other (r ∷ rows) e same a = (
    elim (Bool-cases (str_eq r.coin_id other)) [
      | inl b ↦ rw b (λ k.
          let mine : r.coin_id ≡ coin_id = sym (same r) ∙ (str_eq_iff (f r).coin_id coin_id).0 k in
          let differ : str_eq r.coin_id other ≡ false =
            subst (λ c. str_eq c other ≡ false) (sym mine) e in
          absurd (cc))
      | inr b ↦ rw b a.0
    ],
    update-IsHeldIn f other rows e same a.1,
  )

  settle-IsHeldIn :
      (settled_at max_interval_secs : ℕ) (how : Settlement) (other : String)
      (rows : List PolledCoin)
      → str_eq coin_id other ≡ false
      → All IsHeldIn rows
      → All IsHeldIn (settle settled_at max_interval_secs how other rows)
  unfolding settle mark_coin_poll_success clear_coin_poll_marker defer_coin_poll polled_at cleared
      deferred
  settle-IsHeldIn t m success other rows e a =
      update-IsHeldIn (polled_at t) other rows e (λ r. refl) a
  settle-IsHeldIn t m clear other rows e a = update-IsHeldIn cleared other rows e (λ r. refl) a
  settle-IsHeldIn t m defer other rows e a =
      update-IsHeldIn (deferred t m) other rows e (λ r. refl) a

  -- The marker outlasts whatever the other statements do before it ends.
  meanwhile-IsHeldIn :
      {rows end : List PolledCoin}
      → Meanwhile coin_id until rows end
      → All IsHeldIn rows
      → All IsHeldIn end
  unfolding claim_due_coins
  meanwhile-IsHeldIn starts a = a
  meanwhile-IsHeldIn (claims {mid = mid} now g ttl n locked h before) a =
      let held = meanwhile-IsHeldIn before a in
      let taken = select_due now g n locked mid in
      All-image (λ r. if has_id taken r.coin_id then with_marker (now + ttl * second) r else r)
        IsHeldIn mid
        (All-map IsHeldIn
          (λ r. IsHeldIn (if has_id taken r.coin_id then with_marker (now + ttl * second) r else r))
          (λ r.
            claim-IsHeldIn taken (now + ttl * second) r (taken-IsOther now g locked h n mid held))
          mid held)
  meanwhile-IsHeldIn (settles {mid = mid} t m how other e before) a =
      settle-IsHeldIn t m how other mid e (meanwhile-IsHeldIn before a)

  has_id-with_marker :
      (marker : ℕ) (taken : List PolledCoin)
      → has_id (map (with_marker marker) taken) coin_id ≡ has_id taken coin_id
  has_id-with_marker marker [] = refl
  has_id-with_marker marker (c ∷ taken) = ground (arith, has_id-with_marker marker taken)

  marked :
      (taken : List PolledCoin)
      → has_id taken coin_id ≡ true
      → (rows : List PolledCoin)
      → All IsHeldIn (map (λ r. if has_id taken r.coin_id then with_marker until r else r) rows)
  marked taken h [] = tt
  marked taken h (r ∷ rows) = (
    elim (Bool-cases (has_id taken r.coin_id)) [
      | inl b ↦ rw b (λ k. refl)
      | inr b ↦ rw b (λ k.
          let there : has_id taken r.coin_id ≡ true =
            ap (has_id taken) ((str_eq_iff r.coin_id coin_id).0 k) ∙ h in
          absurd (cc))
    ],
    marked taken h rows,
  )

-- A claimed coin belongs to its poller until the claim ends: whatever is claimed in between and
-- whatever other coins are settled, no claim of any poller before that instant takes it again.
pub claim_due_coins_exclusive :
    (now global_interval_secs claim_ttl_secs batch_limit : ℕ) (locked : PolledCoin → Bool)
    (rows end : List PolledCoin) (coin_id : String)
    → has_id
        (claim_due_coins now global_interval_secs claim_ttl_secs batch_limit locked rows).0
        coin_id
      ≡ true
    → Meanwhile coin_id
        (now + claim_ttl_secs * second)
        (claim_due_coins now global_interval_secs claim_ttl_secs batch_limit locked rows).1
        end
    → (later any_interval_secs any_ttl_secs any_limit : ℕ) (others : PolledCoin → Bool)
    → later < now + claim_ttl_secs * second
    → has_id (claim_due_coins later any_interval_secs any_ttl_secs any_limit others end).0 coin_id
      ≡ false
unfolding claim_due_coins
claim_due_coins_exclusive now g ttl n locked rows end coin_id took between later g' ttl' n' others
      h =
    let until = now + ttl * second in
    let taken = select_due now g n locked rows in
    let mine : has_id taken coin_id ≡ true =
      sym (has_id-with_marker coin_id until until taken) ∙ took in
    let held = meanwhile-IsHeldIn coin_id until between (marked coin_id until taken mine rows) in
    has_id-with_marker coin_id until (later + ttl' * second) (select_due later g' n' others end)
    ∙ has_id-IsOther coin_id until (select_due later g' n' others end)
        (taken-IsOther coin_id until later g' others h n' end held)
