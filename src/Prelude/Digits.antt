-- ===== src/Prelude/Digits.antt =====
-- Decimal numbers of 64 bits as lists of code points: `str::parse::<u64>` and `{}` of the standard
-- library, and `str::trim` on ASCII.
use Prim.Native.Char.{code}
use Prim.Native.Nat.{ℕ, zero, suc, ◌+◌, ◌-◌, ◌*◌, ◌/◌, ◌%◌, ◌^◌, ◌<◌}
use Prim.Native.String.{String}
use mathlib.Core.Path.{◌≡◌, refl, ap, ◌∙◌}
use mathlib.Core.Bool.{Bool, true, false, not, ◌&&◌, ◌||◌}
use mathlib.Core.List.{List, [], ◌∷◌}
use mathlib.Core.Logic.{inl, inr}
use mathlib.Core.Option.{Option, none, some}
use native.Mathlib.Omega.{arith}
use crypto_collector.Prelude.Tests.{ltb, leb, ◌==◌, if◌then◌else◌, Bool-cases}
use crypto_collector.Prelude.Least.{if_of_both}
use crypto_collector.Prelude.Lists.{All}

-- The code points of a text.
abbrev pub codes : String → List ℕ
codes String.[] = []
codes (String.◌∷◌ c s) = code c ∷ codes s

-- `is_ascii_digit`.
abbrev pub is_digit : ℕ → Bool
is_digit c = leb b'0' c && leb c b'9'

abbrev pub is_space : ℕ → Bool
is_space c = c == 32 || leb 9 c && leb c 13

abbrev pub is_empty {ℓ} : {A : Type ℓ} → List A → Bool
is_empty [] = true
is_empty (x ∷ xs) = false

unfoldable pub trim_start : List ℕ → List ℕ
trim_start [] = []
trim_start (c ∷ cs) = let rest = trim_start cs in if is_space c then rest else c ∷ cs

unfoldable pub trim_end : List ℕ → List ℕ
trim_end [] = []
trim_end (c ∷ cs) = let rest = trim_end cs in if is_empty rest && is_space c then [] else c ∷ rest

unfoldable pub trim : List ℕ → List ℕ
trim s = trim_end (trim_start s)

-- The number that digits spell behind `n`.
abbrev pub value : ℕ → List ℕ → ℕ
value n [] = n
value n (c ∷ cs) = value (n * 10 + (c - b'0')) cs

abbrev pub all_digits : List ℕ → Bool
all_digits [] = true
all_digits (c ∷ cs) = is_digit c && all_digits cs

abbrev pub u64_bound : ℕ
u64_bound = 2 ^ 64

-- Digits that are there and spell less than 2 ^ 64.
unfoldable pub parse_digits : List ℕ → Option ℕ
parse_digits ds =
    if all_digits ds && not (is_empty ds) && ltb (value 0 ds) u64_bound
    then some (value 0 ds)
    else none

-- `parse::<u64>` takes a leading plus.
unfoldable pub parse_u64 : List ℕ → Option ℕ
parse_u64 [] = none
parse_u64 (c ∷ cs) = if c == b'+' then parse_digits cs else parse_digits (c ∷ cs)

-- The digits of `n` before `out`; the fuel counts the digits.
unfoldable pub digits : ℕ → ℕ → List ℕ → List ℕ
digits zero n out = out
digits (suc f) n out =
    let rest = digits f (n / 10) ((b'0' + n % 10) ∷ out) in if n == 0 then out else rest

-- A number of 64 bits has at most twenty digits.
unfoldable pub print_ℕ : ℕ → List ℕ
print_ℕ n = if n == 0 then b'0' ∷ [] else digits 20 n []

abbrev pub IsDigit : ℕ → Type 0
IsDigit c = is_digit c ≡ true

abbrev pow10 : ℕ → ℕ
pow10 zero = 1
pow10 (suc f) = 10 * pow10 f

-- Reading the last digit behind the others gives the number.
value-digits : (f n : ℕ) (out : List ℕ) → n < pow10 f → value 0 (digits f n out) ≡ value n out
unfolding digits
value-digits zero n out h = ap (λ k. value k out) (omega arith)
value-digits (suc f) n out h = elim (Bool-cases (n == 0)) [
  | inl done ↦ rw done (ap (λ k. value k out) (ground arith))
  | inr more ↦ rw more (
      value-digits f (n / 10) ((b'0' + n % 10) ∷ out) (omega arith)
      ∙ ap (λ k. value k out) (omega arith))
]

digits-IsDigit : (f n : ℕ) (out : List ℕ) → All IsDigit out → All IsDigit (digits f n out)
unfolding digits
digits-IsDigit zero n out a = a
digits-IsDigit (suc f) n out a =
    if_of_both (All IsDigit) (n == 0) out (digits f (n / 10) ((b'0' + n % 10) ∷ out)) a
      (digits-IsDigit f (n / 10) ((b'0' + n % 10) ∷ out) (ground arith, a))

digits-filled : (f n c : ℕ) (out : List ℕ) → is_empty (digits f n (c ∷ out)) ≡ false
unfolding digits
digits-filled zero n c out = refl
digits-filled (suc f) n c out = ground (arith, digits-filled f (n / 10) (b'0' + n % 10) (c ∷ out))

digits_of_pos : (f n : ℕ) → 0 < n → is_empty (digits (suc f) n []) ≡ false
unfolding digits
digits_of_pos f n h = ground (arith, digits-filled f (n / 10) (b'0' + n % 10) [])

pub print_ℕ-IsDigit : (n : ℕ) → All IsDigit (print_ℕ n)
unfolding print_ℕ
print_ℕ-IsDigit n =
    if_of_both (All IsDigit) (n == 0) (b'0' ∷ []) (digits 20 n []) (refl, tt)
      (digits-IsDigit 20 n [] tt)

pub print_ℕ-filled : (n : ℕ) → is_empty (print_ℕ n) ≡ false
unfolding print_ℕ
print_ℕ-filled n = ground (arith, digits_of_pos 19 n)

-- A printed number of 64 bits is read back.
pub value-print_ℕ : (n : ℕ) → n < u64_bound → value 0 (print_ℕ n) ≡ n
unfolding print_ℕ
value-print_ℕ n h = ground (arith, value-digits 20 n [])

trim_start_of_none : (s : List ℕ) → All (λ c. is_space c ≡ false) s → trim_start s ≡ s
unfolding trim_start
trim_start_of_none [] a = refl
trim_start_of_none (c ∷ cs) a = ground (arith, a.0)

trim_end_of_none : (s : List ℕ) → All (λ c. is_space c ≡ false) s → trim_end s ≡ s
unfolding trim_end
trim_end_of_none [] a = refl
trim_end_of_none (c ∷ cs) a = ground (arith, a.0, trim_end_of_none cs a.1)

-- A text without spaces is trimmed to itself.
pub trim_of_none : (s : List ℕ) → All (λ c. is_space c ≡ false) s → trim s ≡ s
unfolding trim
trim_of_none s a = rw (trim_start_of_none s a) (trim_end_of_none s a)

pub all_digits_of : (s : List ℕ) → All IsDigit s → all_digits s ≡ true
all_digits_of [] a = refl
all_digits_of (c ∷ cs) a = ground (arith, a.0, all_digits_of cs a.1)
