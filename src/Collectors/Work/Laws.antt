-- ===== src/Collectors/Work/Laws.antt =====
-- What a claim takes from a work table of collectors/, and that a replica which lost its lease
-- writes nothing.
use crypto_collector.Prelude.{
  ℕ, ◌≤◌, ◌⊎◌, String, Bool, true, false, Option, some, none, List, [], ◌∷◌, ◌≡◌, refl, arith,
  subst, ◌&&◌, ap, All, Option-cases, Bool-cases, inl, inr, if◌then◌else◌, leb,
}
use crypto_collector.Table.{find, update_refused, update_taken, nat_key}
use crypto_collector.Collectors.Lease.{
  Lease, claim, is_owner, fenced, heartbeat, fail_or_retry, release, fail_permanent,
}
use crypto_collector.Collectors.Work.{
  LeaseRow, is_candidate, earlier, oldest, claim_row, set_lease, heartbeat_row, fail_or_retry_row,
  release_row, fail_permanent_row,
}

module _ {A : Type 0} ⦃row : LeaseRow A⦄ where
  -- `e` is at least as old as every row that could have been claimed.
  abbrev pub IsOldest : (ℕ → Bool) → ℕ → ℕ × A → List (ℕ × A) → Type 0
  IsOldest locked now e t =
      All (λ f. (is_candidate locked now f.0 f.1 ≡ false) ⊎ (row.queued_at e.1 ≤ row.queued_at f.1))
        t

  -- The choice is right: nothing can be claimed, or the oldest row is chosen.
  abbrev pub IsBest : (ℕ → Bool) → ℕ → Option (ℕ × A) → List (ℕ × A) → Type 0
  IsBest locked now none t = All (λ f. is_candidate locked now f.0 f.1 ≡ false) t
  IsBest locked now (some e) t = (is_candidate locked now e.0 e.1 ≡ true) × IsOldest locked now e t

  IsOldest-weaken :
      (locked : ℕ → Bool) (now : ℕ) (t : List (ℕ × A)) (e f : ℕ × A)
      → row.queued_at e.1 ≤ row.queued_at f.1
      → IsOldest locked now f t
      → IsOldest locked now e t
  IsOldest-weaken locked now [] e f le h = tt
  IsOldest-weaken locked now (x ∷ t) e f le h =
      (ground arith, IsOldest-weaken locked now t e f le h.1)

  IsOldest-of_none :
      (locked : ℕ → Bool) (now : ℕ) (t : List (ℕ × A)) (e : ℕ × A)
      → All (λ f. is_candidate locked now f.0 f.1 ≡ false) t
      → IsOldest locked now e t
  IsOldest-of_none locked now [] e h = tt
  IsOldest-of_none locked now (x ∷ t) e h = (inl (h.0), IsOldest-of_none locked now t e h.1)

  the_first :
      (e f : ℕ × A)
      → leb (row.queued_at e.1) (row.queued_at f.1) ≡ true
      → some e ≡ some (earlier e (some f))
  the_first e f h = ground arith

  the_second :
      (e f : ℕ × A)
      → leb (row.queued_at e.1) (row.queued_at f.1) ≡ false
      → some f ≡ some (earlier e (some f))
  the_second e f h = ground arith

  IsBest-cons :
      (locked : ℕ → Bool) (now : ℕ) (e : ℕ × A) (t : List (ℕ × A)) (r : Option (ℕ × A)) (b : Bool)
      → is_candidate locked now e.0 e.1 ≡ b
      → IsBest locked now r t
      → IsBest locked now (if b then some (earlier e r) else r) (e ∷ t)
  IsBest-cons locked now e t none false c h = (c, h)
  IsBest-cons locked now e t (some f) false c h = (h.0, (inl c, h.1))
  IsBest-cons locked now e t none true c h =
      (c, (inr (ground arith), IsOldest-of_none locked now t e h))
  IsBest-cons locked now e t (some f) true c h =
      elim (Bool-cases (leb (row.queued_at e.1) (row.queued_at f.1))) [
        | inl before ↦
            subst (λ o. IsBest locked now o (e ∷ t)) (the_first e f before)
              (c, (inr (ground arith), IsOldest-weaken locked now t e f (ground arith) h.1))
        | inr after ↦
            subst (λ o. IsBest locked now o (e ∷ t)) (the_second e f after)
              (h.0, (inr (ground arith), h.1))
      ]

  oldest-IsBest :
      (locked : ℕ → Bool) (now : ℕ) (t : List (ℕ × A)) → IsBest locked now (oldest locked now t) t
  unfolding oldest
  oldest-IsBest locked now [] = tt
  oldest-IsBest locked now (e ∷ t) =
      IsBest-cons locked now e t (oldest locked now t) (is_candidate locked now e.0 e.1) refl
        (oldest-IsBest locked now t)

  -- The id is the primary key: every row is found under its id.
  abbrev pub IsKeyed : List (ℕ × A) → Type 0
  IsKeyed t = All (λ e. find e.0 t ≡ some e.1) t

  All-oldest :
      (P : ℕ × A → Type 0) (locked : ℕ → Bool) (now : ℕ) (t : List (ℕ × A)) (e : ℕ × A)
      → oldest locked now t ≡ some e
      → All P t
      → P e
  unfolding oldest
  All-oldest P locked now [] e h a = absurd (ground arith)
  All-oldest P locked now (f ∷ t) e h a = elim (Option-cases (oldest locked now t)) [
    | inl empty ↦ let same : f ≡ e = ground arith in subst P same (a.0)
    | inr (g, found) ↦
        elim (Bool-cases
          (is_candidate locked now f.0 f.1 && leb (row.queued_at f.1) (row.queued_at g.1))) [
            | inl own ↦ let same : f ≡ e = ground arith in subst P same (a.0)
            | inr other ↦
                let same : g ≡ e = ground arith in
                subst P same (All-oldest P locked now t g found a.1)
          ]
  ]

  -- On a table with unique ids a claim takes the oldest row that is pending or whose lease has expired
  -- and that no concurrent transaction locks; the table then holds that row claimed for the replica.
  -- Nothing is returned, and nothing changes, exactly when there is no such row.
  pub claim_row-IsBest :
      (locked : ℕ → Bool) (now lease_secs : ℕ) (who : String) (t : List (ℕ × A))
      → IsKeyed t
      → ((claim_row locked now who lease_secs t ≡ (t, none)) × IsBest locked now none t)
        ⊎ ((id : ℕ) × (a b : A) × IsBest locked now (some (id, a)) t
            × (find id t ≡ some a)
            × (row.lease b ≡ claim now who lease_secs (row.lease a))
            × ((claim_row locked now who lease_secs t).1 ≡ some (id, b))
            × (find id (claim_row locked now who lease_secs t).0 ≡ some b))
  unfolding claim_row
  claim_row-IsBest locked now lease_secs who t keyed = elim (Option-cases (oldest locked now t)) [
    | inl empty ↦ inl (
      rw (empty, claim_row),
      subst (λ o. IsBest locked now o t) empty (oldest-IsBest locked now t),
    )
    | inr ((id, a), found) ↦
        let f = λ (l : Lease). some (claim now who lease_secs l) in
        let b = row.with_lease (claim now who lease_secs (row.lease a)) a in
        let there = All-oldest (λ e. find e.0 t ≡ some e.1) locked now t (id, a) found keyed in
        let (made, stored) = update_taken id (set_lease f) t {b = b} there refl in
        inr (
          id,
          a,
          b,
          subst (λ o. IsBest locked now o t) found (oldest-IsBest locked now t),
          there,
          row.lease_with_lease _ _,
          ground (arith, made),
          ground (arith, made, stored),
        )
  ]

  -- A replica that does not hold the row any more writes nothing: its heartbeat reports the lost lease,
  -- and its retry, its release and its permanent failure leave the whole table as it is.
  pub not_owner-unchanged :
      (now id lease_secs max_attempts : ℕ) (who message : String) (t : List (ℕ × A)) (a : A)
      → find id t ≡ some a
      → is_owner who (row.lease a).claimed_by ≡ false
      → (heartbeat_row now id who lease_secs t ≡ (t, false))
        × (fail_or_retry_row now id who max_attempts message t ≡ t)
        × (release_row now id who t ≡ t)
        × (fail_permanent_row now id who message t ≡ t)
  unfolding heartbeat_row fail_or_retry_row release_row fail_permanent_row
  not_owner-unchanged now id lease_secs max_attempts who message t a found lost =
      let same =
        λ (f : Lease → Lease). update_refused id (set_lease (fenced who f)) t (ground arith) in
      (
        rw (same (heartbeat now lease_secs)),
        ap (λ u. u.0) (same (fail_or_retry now max_attempts message)),
        ap (λ u. u.0) (same (release now)),
        ap (λ u. u.0) (same (fail_permanent now message)),
      )
