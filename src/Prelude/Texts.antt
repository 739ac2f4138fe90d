-- ===== src/Prelude/Texts.antt =====
-- Numbers in texts, as an f-string prints them.
use Prim.Native.Nat.{ℕ, zero, suc, ◌/◌, ◌%◌}
use Prim.Native.String.{String, ◌++◌ as join}
use mathlib.Core.Path.{◌≡◌, refl}
use mathlib.Core.List.{List, [], ◌∷◌}
use simloom.Prelude.Tests.{if◌then◌else◌, ltb}

digit : ℕ → String
digit n = char_at_or_nine n ("0" ∷ "1" ∷ "2" ∷ "3" ∷ "4" ∷ "5" ∷ "6" ∷ "7" ∷ "8" ∷ [])
  where
    char_at_or_nine : ℕ → List String → String
    char_at_or_nine n [] = "9"
    char_at_or_nine zero (t ∷ ts) = t
    char_at_or_nine (suc n) (t ∷ ts) = char_at_or_nine n ts

-- The last digits are in the text; n has fewer digits than the fuel.
digits : ℕ → ℕ → String → String
unfolding digit
digits zero n text = text
digits (suc fuel) n text =
    let rest = digits fuel (n / 10) (join (digit (n % 10)) text) in
    if ltb n 10 then join (digit n) text else rest

unfoldable pub decimal : ℕ → String
unfolding digits
decimal n = digits (suc n) n ""

abbrev pub texts : List String → String
texts [] = ""
texts (t ∷ ts) = join t (texts ts)

decimal_407 : texts ("n=" ∷ decimal 407 ∷ []) ≡ "n=407"
unfolding decimal
decimal_407 = refl
