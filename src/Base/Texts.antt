-- ===== src/Base/Texts.antt =====
-- The decimal text of a number, as a template literal prints it.
use Prim.Native.Nat.{ℕ, zero, suc, ◌/◌, ◌%◌}
use Prim.Native.String.{String, ◌++◌}
use mathlib.Core.List.{List, [], ◌∷◌}
use mathlib.Core.Path.{◌≡◌, refl}
use ayanami_agent_hub.Base.Tests.{if◌then◌else◌, ltb}

abbrev letter : List String → ℕ → String
letter [] n = ""
letter (x ∷ xs) zero = x
letter (x ∷ xs) (suc n) = letter xs n

abbrev digit : ℕ → String
digit = letter ("0" ∷ "1" ∷ "2" ∷ "3" ∷ "4" ∷ "5" ∷ "6" ∷ "7" ∷ "8" ∷ "9" ∷ [])

-- The fuel bounds the number of digits.
unfoldable digits : ℕ → ℕ → String
digits zero n = ""
digits (suc fuel) n =
    let rest = digits fuel (n / 10) in if ltb n 10 then digit n else rest ++ digit (n % 10)

-- A number has at most as many digits as it is large, but 0 has one.
unfoldable pub decimal : ℕ → String
unfolding digits
decimal n = digits (suc n) n

three_digits : decimal 407 ≡ "407"
unfolding decimal
three_digits = refl
