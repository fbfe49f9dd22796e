-- ===== src/Base/Every.antt =====
-- What holds of all items of a list, through the ways in which the code makes lists from lists.
use mathlib.Core.Path.{◌≡◌, refl}
use mathlib.Core.Bool.{Bool, true, false}
use mathlib.Core.List.{List, [], ◌∷◌, map}
use Prim.Native.Nat.{ℕ}
use ayanami_agent_hub.Base.Tests.{if◌then◌else◌, leb}
use ayanami_agent_hub.Base.Lists.{All, keep, insert_sorted, sort_by}

module _ {ℓ κ} {A : Type ℓ} (Q : A → Type κ) where
  All-if :
      (c : Bool) (xs ys : List A) → (c ≡ true → All Q xs) → All Q ys → All Q (if c then xs else ys)
  All-if true xs ys p q = p refl
  All-if false xs ys p q = q

  pub All-sort_by : (column : A → ℕ) (xs : List A) → All Q xs → All Q (sort_by column xs)
  unfolding sort_by insert_sorted
  All-sort_by column [] all = tt
  All-sort_by column (x ∷ xs) (p, all) =
      inserted x (sort_by column xs) p (All-sort_by column xs all)
    where
      placed :
          (c : Bool) (x y : A) (ys zs : List A)
          → Q x
          → Q y
          → All Q ys
          → All Q zs
          → All Q (if c then x ∷ y ∷ ys else y ∷ zs)
      placed true x y ys zs p q all all' = (p, (q, all))
      placed false x y ys zs p q all all' = (q, all')

      inserted : (x : A) (ys : List A) → Q x → All Q ys → All Q (insert_sorted column x ys)
      inserted x [] p all = (p, tt)
      inserted x (y ∷ ys) p (q, all) =
          placed (leb (column x) (column y)) x y ys (insert_sorted column x ys) p q all
            (inserted x ys p all)

-- What the filter lets through has passed the test.
pub All-keep {ℓ κ} :
    {A : Type ℓ} (Q : A → Type κ) (p : A → Bool) (xs : List A)
    → All Q xs
    → All (λ x. (p x ≡ true) × Q x) (keep p xs)
All-keep Q p [] all = tt
All-keep Q p (x ∷ xs) (q, all) =
    All-if (λ y. (p y ≡ true) × Q y) (p x) (x ∷ keep p xs) (keep p xs)
      (λ e. ((e, q), All-keep Q p xs all)) (All-keep Q p xs all)

pub All-map {ℓ κ ι} :
    {A : Type ℓ} {B : Type κ} (Q : B → Type ι) (f : A → B) (xs : List A)
    → All (λ x. Q (f x)) xs
    → All Q (map f xs)
All-map Q f [] all = tt
All-map Q f (x ∷ xs) (q, all) = (q, All-map Q f xs all)

pub All-imp {ℓ κ ι} :
    {A : Type ℓ} (P : A → Type κ) (Q : A → Type ι) (xs : List A)
    → ((x : A) → P x → Q x)
    → All P xs
    → All Q xs
All-imp P Q [] f all = tt
All-imp P Q (x ∷ xs) f (p, all) = (f x p, All-imp P Q xs f all)

pub All-true {ℓ} : {A : Type ℓ} (xs : List A) → All (λ x. Unit {0}) xs
All-true [] = tt
All-true (x ∷ xs) = (tt, All-true xs)

pub All-both {ℓ κ ι} :
    {A : Type ℓ} (P : A → Type κ) (Q : A → Type ι) (xs : List A)
    → All P xs
    → All Q xs
    → All (λ x. P x × Q x) xs
All-both P Q [] p q = tt
All-both P Q (x ∷ xs) (p, ps) (q, qs) = ((p, q), All-both P Q xs ps qs)
