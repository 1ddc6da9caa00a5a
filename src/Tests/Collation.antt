-- ===== src/Tests/Collation.antt =====
-- An order of texts for the tests: by code points.
use crypto_collector.Prelude.{Bool, true, false, ◌≡◌, refl, ltb, if◌then◌else◌, arith, String}
use crypto_collector.Database.Coverage.{Collation}
use text.Mathlib.TextEquality.{Char-path}
use Prim.Native.Char.{code}
use Prim.Native.String.{[], ◌∷◌}

abbrev text_lt : String → String → Bool
text_lt [] [] = false
text_lt [] (d ∷ t) = true
text_lt (c ∷ s) [] = false
text_lt (c ∷ s) (d ∷ t) =
    let rest = text_lt s t in
    if ltb (code c) (code d) then true else if ltb (code d) (code c) then false else rest

text_lt_irrefl : (a : String) → text_lt a a ≡ false
text_lt_irrefl [] = refl
text_lt_irrefl (c ∷ s) = ground (arith, text_lt_irrefl s)

text_lt_trans : (a b c : String) → text_lt a b ≡ true → text_lt b c ≡ true → text_lt a c ≡ true
text_lt_trans [] [] z h k = k
text_lt_trans [] (d ∷ t) [] h k = k
text_lt_trans [] (d ∷ t) (e ∷ u) h k = refl
text_lt_trans (c ∷ s) [] z h k = ground (arith, h)
text_lt_trans (c ∷ s) (d ∷ t) [] h k = k
text_lt_trans (c ∷ s) (d ∷ t) (e ∷ u) h k = ground (arith, text_lt_trans s t u)

text_lt_total : (a b : String) → text_lt a b ≡ false → text_lt b a ≡ false → a ≡ b
text_lt_total [] [] h k = refl
text_lt_total [] (d ∷ t) h k = ground (arith, h)
text_lt_total (c ∷ s) [] h k = ground (arith, k)
text_lt_total (c ∷ s) (d ∷ t) h k =
    let rest = text_lt_total s t in
    let same : code c ≡ code d = ground (arith, h, k) in
    let tail : s ≡ t = rest (ground (arith, h, k)) (ground (arith, h, k)) in
    λ i. Char-path c d same i ∷ tail i

instance pub code_points : Collation
code_points = record {
  lt = text_lt;
  lt_irrefl = text_lt_irrefl;
  lt_trans = text_lt_trans;
  lt_total = text_lt_total;
}
