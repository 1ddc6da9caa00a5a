-- ===== src/Api/PollInterval.antt =====
-- The live-poll intervals of api/poll_interval.rs. A text is a list of code points, a `Duration` its
-- whole seconds, below 2 ^ 64; the messages of the errors are not modelled.
pub mod RoundTrip
pub mod Postgres
use crypto_collector.Prelude.{
  ℕ, zero, suc, ◌+◌, ◌*◌, ◌/◌, ◌%◌, ◌-◌, min, max, Bool, true, false, ◌&&◌, ◌||◌, Option, some,
  none, List, [], ◌∷◌, ◌++◌, ltb, ◌==◌, if◌then◌else◌,
}
use crypto_collector.Prelude.Digits.{
  is_digit, is_empty, trim, value, u64_bound, parse_u64, print_ℕ, codes,
}
use crypto_collector.Api.{ApiError, ApiResult}

pub data HmsError : Type 0 where
  empty_text : HmsError
  expected_unit : HmsError
  expected_digit : HmsError
  number_overflow : HmsError
  unknown_unit : ℕ → HmsError

pub data HmsResult : Type 0 where
  ok : ℕ → HmsResult
  err : HmsError → HmsResult

abbrev pub u64_max : ℕ
u64_max = u64_bound - 1

abbrev pub saturating_add : ℕ → ℕ → ℕ
saturating_add a b = min (a + b) u64_max

abbrev pub saturating_mul : ℕ → ℕ → ℕ
saturating_mul a b = min (a * b) u64_max

-- The seconds of a unit.
abbrev pub unit_secs : ℕ → Option ℕ
unit_secs c =
    if c == b'h'
    then some 3_600
    else if c == b'm'
    then some 60
    else if c == b's'
    then some 1
    else none

-- `remaining[..digit_end].parse()` of a run of digits.
abbrev pub run_of : List ℕ → Option ℕ
run_of run = if ltb (value 0 run) u64_bound then some (value 0 run) else none

-- The total behind a run and its unit, or what is wrong with them.
unfoldable pub component : List ℕ → ℕ → ℕ → HmsResult
component run unit_char total =
    if is_empty run then HmsResult.err HmsError.expected_digit else elim (run_of run) [
      | none ↦ HmsResult.err HmsError.number_overflow
      | some n ↦ elim (unit_secs unit_char) [
        | none ↦ HmsResult.err (HmsError.unknown_unit unit_char)
        | some secs ↦ HmsResult.ok (saturating_add total (saturating_mul n secs))
      ]
    ]

-- The loop: `run` is the part of a run of digits that is already read.
unfoldable pub hms_from : List ℕ → ℕ → List ℕ → HmsResult
hms_from run total [] =
    if is_empty run then HmsResult.ok total else HmsResult.err HmsError.expected_unit
hms_from run total (c ∷ cs) =
    let next = λ (t : ℕ). hms_from [] t cs in
    let longer = hms_from (run ++ c ∷ []) total cs in
    if is_digit c then longer else elim (component run c total) [
      | HmsResult.err e ↦ HmsResult.err e
      | HmsResult.ok t ↦ next t
    ]

unfoldable pub parse_hms : List ℕ → HmsResult
parse_hms s =
    let text = trim s in
    if is_empty text then HmsResult.err HmsError.empty_text else hms_from [] 0 text

abbrev pub unprocessable : {A : Type 0} → ApiResult A
unprocessable = ApiResult.err (ApiError.unprocessable_entity "invalid live_poll_interval")

unfoldable pub parse_live_poll_duration : List ℕ → ℕ → ℕ → ℕ → ApiResult ℕ
parse_live_poll_duration s min_secs max_secs global_tick_secs = elim (parse_hms s) [
  | HmsResult.err e ↦ unprocessable
  | HmsResult.ok total_secs ↦
      if ltb total_secs (max min_secs global_tick_secs)
      then unprocessable
      else if ltb max_secs total_secs
      then unprocessable
      else ApiResult.ok total_secs
]

-- A part of the text that is left out at zero.
abbrev pub part : ℕ → ℕ → List ℕ
part n unit_char = if ltb 0 n then print_ℕ n ++ unit_char ∷ [] else []

unfoldable pub duration_to_string : ℕ → List ℕ
duration_to_string total_secs =
    if total_secs == 0
    then codes "0s"
    else part (total_secs / 3_600) b'h'
      ++ (part (total_secs % 3_600 / 60) b'm' ++ part (total_secs % 60) b's')

unfoldable pub duration_to_pg_interval : ℕ → List ℕ
duration_to_pg_interval secs = print_ℕ secs ++ codes " seconds"

-- One more character in front of the first piece.
abbrev pub prepend : ℕ → List (List ℕ) → List (List ℕ)
prepend c [] = (c ∷ []) ∷ []
prepend c (piece ∷ rest) = (c ∷ piece) ∷ rest

-- `str::split`.
unfoldable pub split_on : ℕ → List ℕ → List (List ℕ)
split_on sep [] = [] ∷ []
split_on sep (c ∷ cs) = let rest = split_on sep cs in if c == sep then [] ∷ rest else prepend c rest

abbrev pub drop_minus : List ℕ → List ℕ
drop_minus [] = []
drop_minus (c ∷ cs) = let rest = drop_minus cs in if c == b'-' then rest else c ∷ cs

-- `parts[2].split('.').next()`.
abbrev pub before_point : List ℕ → List ℕ
before_point [] = []
before_point (c ∷ cs) = let rest = before_point cs in if c == b'.' then [] else c ∷ rest

-- The total of the three parts; it wraps around, as in a build without overflow checks.
unfoldable pub clock_text : List ℕ → List ℕ → List ℕ → Option (List ℕ)
clock_text hours minutes seconds = elim (parse_u64 (drop_minus hours)) [
  | none ↦ none
  | some h ↦ elim (parse_u64 minutes) [
    | none ↦ none
    | some m ↦ elim (parse_u64 (before_point seconds)) [
      | none ↦ none
      | some sec ↦
          if h == 0 && m == 0 && sec == 0
          then some (codes "0s")
          else some (duration_to_string ((h * 3_600 + m * 60 + sec) % u64_bound))
    ]
  ]
]

abbrev pub normalize_parts : List ℕ → List (List ℕ) → Option (List ℕ)
normalize_parts s (h ∷ m ∷ sec ∷ []) = clock_text h m sec
normalize_parts s parts = elim (parse_u64 s) [ none ↦ none | some t ↦ some (duration_to_string t) ]

unfoldable pub normalize_pg_interval : List ℕ → Option (List ℕ)
normalize_pg_interval pg_text = let s = trim pg_text in normalize_parts s (split_on b':' s)

-- `.ok().map(|v| v as i64)`, of a value below 2 ^ 63.
abbrev pub secs_of : HmsResult → Option ℕ
secs_of (HmsResult.err e) = none
secs_of (HmsResult.ok v) = some v

unfoldable pub pg_interval_to_secs : List ℕ → Option ℕ
pg_interval_to_secs s = elim (normalize_pg_interval s) [
  | none ↦ secs_of (parse_hms s)
  | some normalized ↦ secs_of (parse_hms normalized)
]

-- config.rs: the per-coin interval, or the global one.
unfoldable pub effective_candle_interval_secs : Option (List ℕ) → ℕ → ℕ
effective_candle_interval_secs none global_secs = global_secs
effective_candle_interval_secs (some text) global_secs = elim (pg_interval_to_secs text) [
  | none ↦ global_secs
  | some v ↦ if ltb 0 v then v else global_secs
]
