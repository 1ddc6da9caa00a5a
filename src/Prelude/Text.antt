-- ===== src/Prelude/Text.antt =====
-- Text functions of the standard library, on ASCII.
use Prim.Native.Char.{Char, code}
use Prim.Native.String.{String, char_at}
use Prim.Native.Nat.{◌-◌}
use mathlib.Core.Path.{◌≡◌, refl}
use mathlib.Core.Bool.{◌&&◌}
use crypto_collector.Prelude.Tests.{leb, if◌then◌else◌}

abbrev pub lower_char : Char → Char
lower_char c =
    if leb b'A' (code c) && leb (code c) b'Z'
    then char_at "abcdefghijklmnopqrstuvwxyz" (code c - b'A')
    else c

-- `str::to_lowercase`; a letter outside ASCII is left as it is.
unfoldable pub to_lowercase : String → String
to_lowercase String.[] = String.[]
to_lowercase (String.◌∷◌ c s) = String.◌∷◌ (lower_char c) (to_lowercase s)

lowers : to_lowercase "Usd-Z" ≡ "usd-z"
unfolding to_lowercase
lowers = refl
