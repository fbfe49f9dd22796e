-- ===== src/Base/Lists.antt =====
-- Lists measured by native numbers, with executable tests over their items.
use Prim.Native.Nat.{ℕ, zero, suc, ◌+◌}
use mathlib.Core.Path.{◌≡◌, refl}
use mathlib.Core.Bool.{Bool, true, false, ◌&&◌, ◌||◌}
use mathlib.Core.List.{List, [], ◌∷◌, ◌++◌}
use native.Mathlib.Omega.{arith}
use ayanami_agent_hub.Base.Tests.{if◌then◌else◌, leb}

module _ {ℓ} {A : Type ℓ} where
  abbrev pub length : List A → ℕ
  length [] = 0
  length (x ∷ xs) = suc (length xs)

  pub length-append : (xs ys : List A) → length (xs ++ ys) ≡ length xs + length ys
  length-append [] ys = omega arith
  length-append (x ∷ xs) ys = omega (arith, length-append xs ys)

  -- `xs.every(p)`
  abbrev pub every : (A → Bool) → List A → Bool
  every p [] = true
  every p (x ∷ xs) = p x && every p xs

  -- `xs.some(p)`
  abbrev pub any : (A → Bool) → List A → Bool
  any p [] = false
  any p (x ∷ xs) = p x || any p xs

  -- `xs.filter(p)`
  abbrev pub keep : (A → Bool) → List A → List A
  keep p [] = []
  keep p (x ∷ xs) = if p x then x ∷ keep p xs else keep p xs

  abbrev pub take : ℕ → List A → List A
  take zero xs = []
  take (suc n) [] = []
  take (suc n) (x ∷ xs) = x ∷ take n xs

-- A property of all items, by recursion, so that the tactics read its parts.
abbrev pub All {ℓ κ} : {A : Type ℓ} → (A → Type κ) → List A → Type κ
All P [] = Unit
All P (x ∷ xs) = P x × All P xs

pub every-All {ℓ} :
    {A : Type ℓ} (p : A → Bool) (xs : List A) → every p xs ≡ true → All (λ x. p x ≡ true) xs
every-All p [] h = tt
every-All p (x ∷ xs) h = ground (arith, every-All p xs)

-- ORDER BY a column: a stable insertion sort.
module _ {ℓ} {A : Type ℓ} (column : A → ℕ) where
  unfoldable pub insert_sorted : A → List A → List A
  insert_sorted x [] = x ∷ []
  insert_sorted x (y ∷ ys) =
      if leb (column x) (column y) then x ∷ y ∷ ys else y ∷ insert_sorted x ys

  unfoldable pub sort_by : List A → List A
  sort_by [] = []
  sort_by (x ∷ xs) = insert_sorted x (sort_by xs)

  every-insert_sorted :
      (p : A → Bool) (x : A) (xs : List A) → every p (insert_sorted x xs) ≡ p x && every p xs
  unfolding insert_sorted
  every-insert_sorted p x [] = refl
  every-insert_sorted p x (y ∷ ys) = ground (arith, every-insert_sorted p x ys)

  pub every-sort_by : (p : A → Bool) (xs : List A) → every p (sort_by xs) ≡ every p xs
  unfolding sort_by
  every-sort_by p [] = refl
  every-sort_by p (x ∷ xs) =
      ground (arith, every-insert_sorted p x (sort_by xs), every-sort_by p xs)
