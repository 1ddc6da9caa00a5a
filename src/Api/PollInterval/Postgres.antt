-- ===== src/Api/PollInterval/Postgres.antt =====
-- The intervals that PostgreSQL prints, read by api/poll_interval.rs.
use crypto_collector.Prelude.{
  ℕ, ◌+◌, ◌*◌, ◌/◌, ◌%◌, ◌<◌, ◌^◌, false, some, List, [], ◌∷◌, ◌++◌, ◌≡◌, ◌∙◌, refl, ap, arith, ltb,
  if◌then◌else◌, All, All-append, if_of_both,
}
use crypto_collector.Prelude.Digits.{
  is_empty, all_digits_of, value, u64_bound, parse_digits, parse_u64, print_ℕ, codes, IsDigit,
  print_ℕ-IsDigit, print_ℕ-filled, value-print_ℕ, trim_of_none,
}
use crypto_collector.Api.PollInterval.{
  split_on, drop_minus, before_point, clock_text, normalize_parts, normalize_pg_interval,
  pg_interval_to_secs, duration_to_string,
}
use crypto_collector.Api.PollInterval.RoundTrip.{IsInk, digits-IsInk, parse_hms-duration_to_string}

-- At least two digits.
abbrev pub two_digits : ℕ → List ℕ
two_digits n = if ltb n 10 then b'0' ∷ print_ℕ n else print_ℕ n

-- `HH:MM:SS`, the style `postgres` of an interval below a day and of any number of hours.
unfoldable pub pg_text : ℕ → List ℕ
pg_text t =
    two_digits (t / 3_600) ++ b':' ∷ (two_digits (t % 3_600 / 60) ++ b':' ∷ two_digits (t % 60))

two_digits-IsDigit : (n : ℕ) → All IsDigit (two_digits n)
two_digits-IsDigit n =
    if_of_both (All IsDigit) (ltb n 10) (b'0' ∷ print_ℕ n) (print_ℕ n) (refl, print_ℕ-IsDigit n)
      (print_ℕ-IsDigit n)

parse_u64-digits :
    (ds : List ℕ)
    → All IsDigit ds
    → is_empty ds ≡ false
    → value 0 ds < u64_bound
    → parse_u64 ds ≡ some (value 0 ds)
unfolding parse_u64 parse_digits
parse_u64-digits [] a filled small = absurd (cc)
parse_u64-digits (c ∷ cs) a filled small = ground (arith, a.0, all_digits_of cs a.1)

parse_u64-two_digits : (n : ℕ) → n < u64_bound → parse_u64 (two_digits n) ≡ some n
parse_u64-two_digits n h = ground (
  arith,
  parse_u64-digits (b'0' ∷ print_ℕ n) (refl, print_ℕ-IsDigit n),
  parse_u64-digits (print_ℕ n) (print_ℕ-IsDigit n) (print_ℕ-filled n),
  value-print_ℕ n h,
)

drop_minus-digits : (ds : List ℕ) → All IsDigit ds → drop_minus ds ≡ ds
drop_minus-digits [] a = refl
drop_minus-digits (c ∷ cs) a = ground (arith, a.0)

before_point-digits : (ds : List ℕ) → All IsDigit ds → before_point ds ≡ ds
before_point-digits [] a = refl
before_point-digits (c ∷ cs) a = ground (arith, a.0, before_point-digits cs a.1)

split_on-last : (ds : List ℕ) → All IsDigit ds → split_on b':' ds ≡ ds ∷ []
unfolding split_on
split_on-last [] a = refl
split_on-last (c ∷ cs) a = ground (arith, a.0, split_on-last cs a.1)

split_on-append :
    (ds rest : List ℕ)
    → All IsDigit ds
    → split_on b':' (ds ++ b':' ∷ rest) ≡ ds ∷ split_on b':' rest
unfolding split_on
split_on-append [] rest a = refl
split_on-append (c ∷ cs) rest a = ground (arith, a.0, split_on-append cs rest a.1)

split_on-pg_text :
    (t : ℕ)
    → split_on b':' (pg_text t)
      ≡ two_digits (t / 3_600) ∷ two_digits (t % 3_600 / 60) ∷ two_digits (t % 60) ∷ []
unfolding pg_text
split_on-pg_text t =
    split_on-append (two_digits (t / 3_600))
      (two_digits (t % 3_600 / 60) ++ b':' ∷ two_digits (t % 60)) (two_digits-IsDigit (t / 3_600))
    ∙ ap (λ ps. two_digits (t / 3_600) ∷ ps)
        (split_on-append (two_digits (t % 3_600 / 60)) (two_digits (t % 60))
            (two_digits-IsDigit (t % 3_600 / 60))
          ∙ ap (λ ps. two_digits (t % 3_600 / 60) ∷ ps)
              (split_on-last (two_digits (t % 60)) (two_digits-IsDigit (t % 60))))

zero_duration : (t : ℕ) → t ≡ 0 → duration_to_string t ≡ codes "0s"
unfolding duration_to_string
zero_duration t h = ground arith

clock_text-two_digits :
    (t : ℕ)
    → t < u64_bound
    → clock_text (two_digits (t / 3_600)) (two_digits (t % 3_600 / 60)) (two_digits (t % 60))
      ≡ some (duration_to_string t)
unfolding clock_text
clock_text-two_digits t h =
    let whole : (t / 3_600 * 3_600 + t % 3_600 / 60 * 60 + t % 60) % u64_bound ≡ t = omega arith in
    ground (
      arith,
      drop_minus-digits (two_digits (t / 3_600)) (two_digits-IsDigit (t / 3_600)),
      before_point-digits (two_digits (t % 60)) (two_digits-IsDigit (t % 60)),
      parse_u64-two_digits (t / 3_600),
      parse_u64-two_digits (t % 3_600 / 60),
      parse_u64-two_digits (t % 60),
      whole,
      zero_duration t,
    )

pg_text-IsInk : (t : ℕ) → All IsInk (pg_text t)
unfolding pg_text
pg_text-IsInk t =
    All-append IsInk (two_digits (t / 3_600))
      (b':' ∷ (two_digits (t % 3_600 / 60) ++ b':' ∷ two_digits (t % 60)))
      (digits-IsInk (two_digits (t / 3_600)) (two_digits-IsDigit (t / 3_600)))
      (
        refl,
        All-append IsInk (two_digits (t % 3_600 / 60)) (b':' ∷ two_digits (t % 60))
            (digits-IsInk (two_digits (t % 3_600 / 60)) (two_digits-IsDigit (t % 3_600 / 60)))
            (refl, digits-IsInk (two_digits (t % 60)) (two_digits-IsDigit (t % 60))),
      )

pub normalize_pg_interval-pg_text :
    (t : ℕ) → t < u64_bound → normalize_pg_interval (pg_text t) ≡ some (duration_to_string t)
unfolding normalize_pg_interval
normalize_pg_interval-pg_text t h =
    rw (trim_of_none (pg_text t) (pg_text-IsInk t))
      (ap (normalize_parts (pg_text t)) (split_on-pg_text t) ∙ clock_text-two_digits t h)

-- The interval of a coin survives the database: the clock that PostgreSQL prints for a number of
-- seconds is shown as the text of that interval, and the collectors read that number back.
pub pg_interval_to_secs-pg_text :
    (t : ℕ)
    → t < 2 ^ 63
    → (normalize_pg_interval (pg_text t) ≡ some (duration_to_string t))
      × (pg_interval_to_secs (pg_text t) ≡ some t)
unfolding pg_interval_to_secs
pg_interval_to_secs-pg_text t h =
    let shown = normalize_pg_interval-pg_text t (omega arith) in
    (shown, ground (arith, shown, parse_hms-duration_to_string t (omega arith)))
