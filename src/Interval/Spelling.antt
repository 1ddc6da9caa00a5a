-- ===== src/Interval/Spelling.antt =====
-- The spelling of a candle interval (models/interval.rs) against its parser, at the API boundary too.
use crypto_collector.Prelude.{
  String, true, Option, some, ◌≡◌, refl, ◌↔◌, arith, str_eq, str_eq_iff, if◌then◌else◌,
}
use crypto_collector.Interval.{
  ApiInterval, m1, m3, m5, m15, m30, h1, h2, h4, h6, h8, h12, d1, d3, d4, w1, as_str, secs,
  from_str, is_api_facing, from_api_str,
}

from_str-as_str : (iv : ApiInterval) → from_str (as_str iv) ≡ some iv
unfolding from_str as_str
from_str-as_str m1 = refl
from_str-as_str _ = refl

-- One arm of the match on the text.
arm :
    (s : String) (iv v : ApiInterval) {rest : Option ApiInterval}
    → (rest ≡ some iv → as_str iv ≡ s)
    → (if str_eq s (as_str v) then some v else rest) ≡ some iv
    → as_str iv ≡ s
arm s iv v k h = ground (arith, str_eq_iff s (as_str v))

as_str-from_str : (s : String) (iv : ApiInterval) → from_str s ≡ some iv → as_str iv ≡ s
unfolding from_str as_str
as_str-from_str s iv = arm s iv m1 (
    arm s iv m3 (
      arm s iv m5 (
        arm s iv m15 (
          arm s iv m30 (
            arm s iv h1 (
              arm s iv h2 (
                arm s iv h4 (
                  arm s iv h6 (
                    arm s iv h8 (
                      arm s iv h12
                        (arm s iv d1 (arm s iv d3 (arm s iv d4 (arm s iv w1 (λ h. cc)))))))))))))))

-- The parser accepts exactly the spellings: a text parses to an interval if and only if it is that
-- interval's spelling.
pub from_str_iff : (s : String) (iv : ApiInterval) → (from_str s ≡ some iv) ↔ (as_str iv ≡ s)
from_str_iff s iv = (as_str-from_str s iv, λ e. rw (← e) (from_str-as_str iv))

-- The API boundary admits exactly the spellings of the API-facing intervals.
pub from_api_str_iff :
    (s : String) (iv : ApiInterval)
    → (from_api_str s ≡ some iv) ↔ (as_str iv ≡ s) × (is_api_facing iv ≡ true)
unfolding from_api_str
from_api_str_iff s iv =
    (λ h. ground (arith, (from_str_iff s iv).0), λ h. ground (arith, (from_str_iff s iv).1 h.0))

-- Distinct intervals have distinct durations, so the seconds identify the interval.
pub secs-injective : (a b : ApiInterval) → secs a ≡ secs b → a ≡ b
unfolding secs
secs-injective a b h = ground arith
