-- ===== src/Api/PollInterval/RoundTrip.antt =====
-- The intervals that api/poll_interval.rs prints, read back.
use crypto_collector.Prelude.{
  ℕ, ◌+◌, ◌*◌, ◌/◌, ◌%◌, ◌<◌, ◌≤◌, false, some, List, [], ◌∷◌, ◌++◌, ◌≡◌, ◌∙◌, refl, ap, arith, ltb,
  ◌==◌, inl, inr, Bool-cases, All, All-append, All-map, append_single, append_empty, ◌↔◌,
  if_of_both,
}
use crypto_collector.Prelude.Digits.{
  is_digit, is_space, trim, u64_bound, print_ℕ, codes, IsDigit, print_ℕ-IsDigit, trim_start,
  trim_end, print_ℕ-filled, value-print_ℕ, trim_of_none,
}
use crypto_collector.Api.{ApiResult}
use crypto_collector.Api.PollInterval.{
  HmsResult, unit_secs, component, hms_from, parse_hms, part, duration_to_string, saturating_add,
  saturating_mul, parse_live_poll_duration,
}

hms_from-append :
    (ds rest run : List ℕ) (total : ℕ)
    → All IsDigit ds
    → hms_from run total (ds ++ rest) ≡ hms_from (run ++ ds) total rest
unfolding hms_from
hms_from-append [] rest run total a = ap (λ r. hms_from r total rest) (append_empty run)
hms_from-append (c ∷ ds) rest run total a =
    ground (arith, a.0, hms_from-append ds rest (run ++ c ∷ []) total a.1, append_single run ds c)

component-print_ℕ :
    (n unit_char secs total : ℕ)
    → n < u64_bound
    → unit_secs unit_char ≡ some secs
    → component (print_ℕ n) unit_char total
      ≡ HmsResult.ok (saturating_add total (saturating_mul n secs))
unfolding component
component-print_ℕ n unit_char secs total h u =
    ground (arith, print_ℕ-filled n, value-print_ℕ n h, u)

unit-is_digit : (c secs : ℕ) → unit_secs c ≡ some secs → is_digit c ≡ false
unit-is_digit c secs h = ground arith

unit-is_space : (c secs : ℕ) → unit_secs c ≡ some secs → is_space c ≡ false
unit-is_space c secs h = ground arith

unit_read :
    (n unit_char secs total : ℕ) (rest : List ℕ)
    → n < u64_bound
    → unit_secs unit_char ≡ some secs
    → hms_from (print_ℕ n) total (unit_char ∷ rest)
      ≡ hms_from [] (saturating_add total (saturating_mul n secs)) rest
unfolding hms_from
unit_read n unit_char secs total rest h u =
    ground (arith, unit-is_digit unit_char secs u, component-print_ℕ n unit_char secs total h u)

-- A number and its unit are read as so many seconds more.
pub hms_from-component :
    (n unit_char secs total : ℕ) (rest : List ℕ)
    → n < u64_bound
    → unit_secs unit_char ≡ some secs
    → hms_from [] total (print_ℕ n ++ unit_char ∷ rest)
      ≡ hms_from [] (saturating_add total (saturating_mul n secs)) rest
hms_from-component n unit_char secs total rest h u =
    hms_from-append (print_ℕ n) (unit_char ∷ rest) [] total (print_ℕ-IsDigit n)
    ∙ unit_read n unit_char secs total rest h u

part-read :
    (n unit_char secs total : ℕ) (rest : List ℕ)
    → unit_secs unit_char ≡ some secs
    → n < u64_bound
    → total + n * secs < u64_bound
    → hms_from [] total (part n unit_char ++ rest) ≡ hms_from [] (total + n * secs) rest
part-read n unit_char secs total rest u small h = elim (Bool-cases (ltb 0 n)) [
  | inl present ↦
      let joined : (print_ℕ n ++ unit_char ∷ []) ++ rest ≡ print_ℕ n ++ unit_char ∷ rest =
        append_single (print_ℕ n) rest unit_char in
      let exact : saturating_add total (saturating_mul n secs) ≡ total + n * secs = ground arith in
      rw present (
        ap (hms_from [] total) joined
        ∙ hms_from-component n unit_char secs total rest small u
        ∙ ap (λ k. hms_from [] k rest) exact)
  | inr absent ↦
      let zero_secs : total ≡ total + n * secs = grind arith in
      rw absent (ap (λ k. hms_from [] k rest) zero_secs)
]

-- No character of a printed part is a space.
abbrev pub IsInk : ℕ → Type 0
IsInk c = is_space c ≡ false

pub digits-IsInk : (ds : List ℕ) → All IsDigit ds → All IsInk ds
digits-IsInk ds a = All-map IsDigit IsInk (λ c h. ground arith) ds a

part-IsInk : (n unit_char secs : ℕ) → unit_secs unit_char ≡ some secs → All IsInk (part n unit_char)
part-IsInk n unit_char secs u =
    if_of_both (All IsInk) (ltb 0 n) (print_ℕ n ++ unit_char ∷ []) []
      (All-append IsInk (print_ℕ n) (unit_char ∷ []) (digits-IsInk (print_ℕ n) (print_ℕ-IsDigit n))
        (unit-is_space unit_char secs u, tt))
      tt

-- The text of an interval that is not zero.
abbrev hms_text : ℕ → List ℕ
hms_text t = part (t / 3_600) b'h' ++ (part (t % 3_600 / 60) b'm' ++ part (t % 60) b's')

hms_text-IsInk : (t : ℕ) → All IsInk (hms_text t)
hms_text-IsInk t =
    All-append IsInk (part (t / 3_600) b'h') (part (t % 3_600 / 60) b'm' ++ part (t % 60) b's')
      (part-IsInk (t / 3_600) b'h' 3_600 refl)
      (All-append IsInk (part (t % 3_600 / 60) b'm') (part (t % 60) b's')
        (part-IsInk (t % 3_600 / 60) b'm' 60 refl) (part-IsInk (t % 60) b's' 1 refl))

hms_text-read : (t : ℕ) → t < u64_bound → hms_from [] 0 (hms_text t) ≡ HmsResult.ok t
hms_text-read t h =
    part-read (t / 3_600) b'h' 3_600 0 (part (t % 3_600 / 60) b'm' ++ part (t % 60) b's') refl
      (omega arith) (omega arith)
    ∙ part-read (t % 3_600 / 60) b'm' 60 (0 + t / 3_600 * 3_600) (part (t % 60) b's') refl
        (omega arith) (omega arith)
    ∙ ap (hms_from [] (0 + t / 3_600 * 3_600 + t % 3_600 / 60 * 60))
        (append_empty (part (t % 60) b's'))
    ∙ part-read (t % 60) b's' 1 (0 + t / 3_600 * 3_600 + t % 3_600 / 60 * 60) [] refl (omega arith)
        (omega arith)
    ∙ nothing_left (0 + t / 3_600 * 3_600 + t % 3_600 / 60 * 60 + t % 60 * 1) t (omega arith)
  where
    nothing_left : (a b : ℕ) → a ≡ b → hms_from [] a [] ≡ HmsResult.ok b
    nothing_left a b e = unfold hms_from in ap HmsResult.ok e

parse_text :
    (s : List ℕ) (t : ℕ)
    → All IsInk s
    → 0 < t
    → hms_from [] 0 s ≡ HmsResult.ok t
    → parse_hms s ≡ HmsResult.ok t
unfolding parse_hms hms_from
parse_text [] t a pos read = absurd (ground arith)
parse_text (c ∷ cs) t a pos read = ground (arith, trim_of_none (c ∷ cs) a)

zero_text : parse_hms (codes "0s") ≡ HmsResult.ok 0
unfolding parse_hms trim trim_start trim_end hms_from component
zero_text = refl

-- Every interval of 64 bits that is printed is read back as it was.
pub parse_hms-duration_to_string :
    (t : ℕ) → t < u64_bound → parse_hms (duration_to_string t) ≡ HmsResult.ok t
unfolding duration_to_string
parse_hms-duration_to_string t h = elim (Bool-cases (t == 0)) [
  | inl none_left ↦ rw none_left (zero_text ∙ ap HmsResult.ok (ground arith))
  | inr some_left ↦
      rw some_left (parse_text (hms_text t) t (hms_text-IsInk t) (ground arith) (hms_text-read t h))
]

-- A caller gets the seconds of its text exactly if they lie between the effective floor, the greater
-- of the minimum and the global tick, and the maximum; anything else is a 422.
pub parse_live_poll_duration_lem :
    (s : List ℕ) (min_secs max_secs global_tick_secs t : ℕ)
    → (parse_live_poll_duration s min_secs max_secs global_tick_secs ≡ ApiResult.ok t)
      ↔ ((parse_hms s ≡ HmsResult.ok t) × (min_secs ≤ t) × (global_tick_secs ≤ t) × (t ≤ max_secs))
unfolding parse_live_poll_duration
parse_live_poll_duration_lem s min_secs max_secs global_tick_secs t =
    (λ h. ground arith, λ (p, a, b, c). ground arith)
