-- ===== src/Interval.antt =====
-- The candle interval of models/interval.rs: the fifteen fixed durations, their spelling, their
-- length in seconds and the API-facing subset.
pub mod Spelling
use crypto_collector.Prelude.{
  ℕ, String, Bool, true, false, Option, none, some, List, [], ◌∷◌, any, str_eq, if◌then◌else◌,
}

pub data ApiInterval : Type 0 where
  m1 m3 m5 m15 m30 h1 h2 h4 h6 h8 h12 d1 d3 d4 w1 : ApiInterval

unfoldable pub as_str : ApiInterval → String
as_str m1 = "1m"
as_str m3 = "3m"
as_str m5 = "5m"
as_str m15 = "15m"
as_str m30 = "30m"
as_str h1 = "1h"
as_str h2 = "2h"
as_str h4 = "4h"
as_str h6 = "6h"
as_str h8 = "8h"
as_str h12 = "12h"
as_str d1 = "1d"
as_str d3 = "3d"
as_str d4 = "4d"
as_str w1 = "1w"

unfoldable pub secs : ApiInterval → ℕ
secs m1 = 60
secs m3 = 180
secs m5 = 300
secs m15 = 900
secs m30 = 1_800
secs h1 = 3_600
secs h2 = 7_200
secs h4 = 14_400
secs h6 = 21_600
secs h8 = 28_800
secs h12 = 43_200
secs d1 = 86_400
secs d3 = 259_200
secs d4 = 345_600
secs w1 = 604_800

-- The derived equality of the enum.
unfoldable pub same : ApiInterval → ApiInterval → Bool
same m1 m1 = true
same m3 m3 = true
same m5 m5 = true
same m15 m15 = true
same m30 m30 = true
same h1 h1 = true
same h2 h2 = true
same h4 h4 = true
same h6 h6 = true
same h8 h8 = true
same h12 h12 = true
same d1 d1 = true
same d3 d3 = true
same d4 d4 = true
same w1 w1 = true
same _ _ = false

abbrev pub api_facing : List ApiInterval
api_facing = m1 ∷ m5 ∷ m15 ∷ h1 ∷ h4 ∷ d1 ∷ w1 ∷ []

unfoldable pub is_api_facing : ApiInterval → Bool
unfolding same
is_api_facing iv = any (same iv) api_facing

-- `none` is `ParseApiIntervalError`.
unfoldable pub from_str : String → Option ApiInterval
from_str s =
    if str_eq s "1m"
    then some m1
    else if str_eq s "3m"
    then some m3
    else if str_eq s "5m"
    then some m5
    else if str_eq s "15m"
    then some m15
    else if str_eq s "30m"
    then some m30
    else if str_eq s "1h"
    then some h1
    else if str_eq s "2h"
    then some h2
    else if str_eq s "4h"
    then some h4
    else if str_eq s "6h"
    then some h6
    else if str_eq s "8h"
    then some h8
    else if str_eq s "12h"
    then some h12
    else if str_eq s "1d"
    then some d1
    else if str_eq s "3d"
    then some d3
    else if str_eq s "4d"
    then some d4
    else if str_eq s "1w"
    then some w1
    else none

-- `Option::filter` with the API predicate.
api_only : Option ApiInterval → Option ApiInterval
api_only none = none
api_only (some iv) = if is_api_facing iv then some iv else none

unfoldable pub from_api_str : String → Option ApiInterval
unfolding api_only
from_api_str s = api_only (from_str s)
