-- ===== src/Base/Sorted.antt =====
-- The members of a list that is sorted, filtered or mapped.
use Prim.Native.Nat.{ℕ}
use mathlib.Core.Path.{◌≡◌, refl, ap}
use mathlib.Core.Logic.{◌⊎◌, inl, inr}
use mathlib.Core.Bool.{Bool, true, false}
use mathlib.Core.List.{List, [], ◌∷◌, map}
use ayanami_agent_hub.Base.Tests.{if◌then◌else◌, leb}
use ayanami_agent_hub.Base.Lists.{insert_sorted, sort_by}
use ayanami_agent_hub.Base.Members.{In}

module _ {A : Type 0} (column : A → ℕ) where
  -- An item is inserted somewhere, and the others stay.
  In-insert_sorted : (x y : A) (ys : List A) → In x (insert_sorted column y ys) → (x ≡ y) ⊎ In x ys
  unfolding insert_sorted
  In-insert_sorted x y [] m = m
  In-insert_sorted x y (z ∷ zs) m = placed (In-insert_sorted x y zs) (leb (column y) (column z)) m
    where
      placed :
          (In x (insert_sorted column y zs) → (x ≡ y) ⊎ In x zs)
          → (c : Bool) → In x (if c then y ∷ z ∷ zs else z ∷ insert_sorted column y zs)
          → (x ≡ y) ⊎ In x (z ∷ zs)
      placed rest true m = m
      placed rest false (inl e) = inr (inl e)
      placed rest false (inr m) = elim (rest m) [ inl e ↦ inl e | inr m' ↦ inr (inr m') ]

  insert_sorted-In : (x y : A) (ys : List A) → (x ≡ y) ⊎ In x ys → In x (insert_sorted column y ys)
  unfolding insert_sorted
  insert_sorted-In x y [] m = m
  insert_sorted-In x y (z ∷ zs) m = placed (insert_sorted-In x y zs) (leb (column y) (column z)) m
    where
      placed :
          ((x ≡ y) ⊎ In x zs → In x (insert_sorted column y zs))
          → (c : Bool) → (x ≡ y) ⊎ In x (z ∷ zs)
          → In x (if c then y ∷ z ∷ zs else z ∷ insert_sorted column y zs)
      placed rest true m = m
      placed rest false (inl e) = inr (rest (inl e))
      placed rest false (inr (inl e)) = inl e
      placed rest false (inr (inr m)) = inr (rest (inr m))

  pub In-sort_by : (x : A) (xs : List A) → In x (sort_by column xs) → In x xs
  unfolding sort_by
  In-sort_by x [] m = m
  In-sort_by x (y ∷ ys) m = elim (In-insert_sorted x y (sort_by column ys) m) [
    | inl e ↦ inl e
    | inr m' ↦ inr (In-sort_by x ys m')
  ]

  pub sort_by-In : (x : A) (xs : List A) → In x xs → In x (sort_by column xs)
  unfolding sort_by
  sort_by-In x [] m = m
  sort_by-In x (y ∷ ys) (inl e) = insert_sorted-In x y (sort_by column ys) (inl e)
  sort_by-In x (y ∷ ys) (inr m) = insert_sorted-In x y (sort_by column ys) (inr (sort_by-In x ys m))

module _ {A B : Type 0} (f : A → B) where
  pub In-map : (y : B) (xs : List A) → In y (map f xs) → (x : A) × In x xs × (y ≡ f x)
  In-map y [] m = absurd m
  In-map y (x ∷ xs) (inl e) = (x, inl refl, e)
  In-map y (x ∷ xs) (inr m) = let (z, there, e) = In-map y xs m in (z, inr there, e)

  pub map-In : (x : A) (xs : List A) → In x xs → In (f x) (map f xs)
  map-In x [] m = absurd m
  map-In x (y ∷ ys) (inl e) = inl (ap f e)
  map-In x (y ∷ ys) (inr m) = inr (map-In x ys m)
