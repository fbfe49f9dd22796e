-- ===== src/Base/Members.antt =====
-- Rows of a table whose keys are distinct: what is in the list is what a SELECT by key finds.
use Prim.Native.Nat.{ℕ}
use mathlib.Core.Path.{◌≡◌, refl, sym, ap, ◌∙◌}
use mathlib.Core.Logic.{◌≢◌, ◌⊎◌, inl, inr}
use mathlib.Core.Bool.{Bool, true, false}
use mathlib.Core.Option.{Option, none, some}
use mathlib.Core.List.{List, [], ◌∷◌, ◌++◌}
use native.Mathlib.Omega.{arith}
use ayanami_agent_hub.Base.Tests.{if◌then◌else◌, ◌==◌, ==_iff, Bool-cases}
use ayanami_agent_hub.Base.Lists.{All, keep}
use ayanami_agent_hub.Base.Table.{find, update, find-update, find-update_ne}

abbrev pub In : {A : Type 0} → A → List A → Type 0
In x [] = ⊥
In x (y ∷ ys) = (x ≡ y) ⊎ In x ys

module _ {A : Type 0} where
  In-if :
      (c : Bool) (x y : A) (ys zs : List A)
      → In x (if c then y ∷ ys else zs)
      → ((c ≡ true) × (x ≡ y)) ⊎ ((c ≡ true) × In x ys) ⊎ ((c ≡ false) × In x zs)
  In-if true x y ys zs (inl e) = inl (refl, e)
  In-if true x y ys zs (inr m) = inr (inl (refl, m))
  In-if false x y ys zs m = inr (inr (refl, m))

  -- What a filter has kept was there, and passed the test.
  pub In-keep : (p : A → Bool) (x : A) (xs : List A) → In x (keep p xs) → In x xs × (p x ≡ true)
  In-keep p x [] m = absurd m
  In-keep p x (y ∷ ys) m = elim (In-if (p y) x y (keep p ys) (keep p ys) m) [
    | inl (passed, e) ↦ (inl e, ap p e ∙ passed)
    | inr (inl (passed, m')) ↦ let (k, t) = In-keep p x ys m' in (inr k, t)
    | inr (inr (passed, m')) ↦ let (k, t) = In-keep p x ys m' in (inr k, t)
  ]

  pub keep-In : (p : A → Bool) (x : A) (xs : List A) → In x xs → p x ≡ true → In x (keep p xs)
  keep-In p x [] m e = absurd m
  keep-In p x (y ∷ ys) (inl s) e = let passed : p y ≡ true = ap p (sym s) ∙ e in rw passed (inl s)
  keep-In p x (y ∷ ys) (inr m) e = placed (p y) (keep-In p x ys m e)
    where
      placed : (c : Bool) → In x (keep p ys) → In x (if c then y ∷ keep p ys else keep p ys)
      placed true k = inr k
      placed false k = k

  pub All-In {κ} : (Q : A → Type κ) (x : A) (xs : List A) → All Q xs → In x xs → Q x
  All-In Q x [] all m = absurd m
  All-In Q x (y ∷ ys) (q, all) (inl e) = rw e q
  All-In Q x (y ∷ ys) (q, all) (inr m) = All-In Q x ys all m

  All-inr : (y : A) (xs zs : List A) → All (λ x. In x xs) zs → All (λ x. In x (y ∷ xs)) zs
  All-inr y xs [] all = tt
  All-inr y xs (z ∷ zs) (m, all) = (inr m, All-inr y xs zs all)

  pub In-All : (xs : List A) → All (λ x. In x xs) xs
  In-All [] = tt
  In-All (x ∷ xs) = (inl refl, All-inr x xs xs (In-All xs))

  -- A property of what a filter keeps, at an item that passes it.
  pub kept {κ} :
      (Q : A → Type κ) (p : A → Bool) (x : A) (xs : List A)
      → All Q (keep p xs)
      → In x xs
      → p x ≡ true
      → Q x
  kept Q p x xs all m e = All-In Q x (keep p xs) all (keep-In p x xs m e)

module _ {A : Type 0} (key : A → ℕ) where
  -- No two rows have the same key.
  abbrev pub Distinct : List A → Type 0
  Distinct [] = Unit
  Distinct (r ∷ rs) = (find key (key r) rs ≡ none) × Distinct rs

  pub found-In : (k : ℕ) (rs : List A) (r : A) → find key k rs ≡ some r → In r rs
  unfolding find
  found-In k [] r e = absurd (cc)
  found-In k (x ∷ rs) r e = elim (Bool-cases (key x == k)) [
    | inl this ↦ inl (ground arith)
    | inr other ↦ inr (found-In k rs r (ground arith))
  ]

  pub In-found : (rs : List A) (r : A) → Distinct rs → In r rs → find key (key r) rs ≡ some r
  unfolding find
  In-found [] r d m = absurd m
  In-found (x ∷ rs) r (free, d) (inl e) = ground arith
  In-found (x ∷ rs) r (free, d) (inr m) = elim (Bool-cases (key x == key r)) [
    | inl this ↦ absurd (ground (arith, In-found rs r d m))
    | inr other ↦ ground (arith, In-found rs r d m)
  ]

  module _ (f : A → A) (keeps : (r : A) → key (f r) ≡ key r) where
    find-update-none :
        (k j : ℕ) (rs : List A) → find key j rs ≡ none → find key j (update key k f rs) ≡ none
    unfolding find update
    find-update-none k j [] e = refl
    find-update-none k j (r ∷ rs) e = ground (arith, keeps r, find-update-none k j rs)

    pub Distinct-update : (k : ℕ) (rs : List A) → Distinct rs → Distinct (update key k f rs)
    unfolding update
    Distinct-update k [] d = tt
    Distinct-update k (r ∷ rs) (free, d) =
        (updated (key r == k) (find-update-none k (key r) rs free), Distinct-update k rs d)
      where
        updated :
            (c : Bool)
            → find key (key r) (update key k f rs) ≡ none
            → find key (key (if c then f r else r)) (update key k f rs) ≡ none
        updated true e = rw (keeps r) e
        updated false e = e

    -- What is found after an update was there before it.
    pub update-found :
        (k j : ℕ) (rs : List A) (r' : A)
        → find key j (update key k f rs) ≡ some r'
        → (r : A) × (find key j rs ≡ some r) × (((k ≡ j) × (r' ≡ f r)) ⊎ ((k ≢ j) × (r' ≡ r)))
    update-found k j rs r' e = elim (Bool-cases (k == j)) [
      | inl this ↦ same ((==_iff k j).0 this) (find key j rs) refl
      | inr other ↦
          let ne : k ≢ j = λ (p : k ≡ j). ground arith in
          (r', sym (find-update_ne key f keeps k j rs ne) ∙ e, inr (ne, refl))
    ]
      where
        same :
            k ≡ j
            → (o : Option A) → find key j rs ≡ o
            → (r : A) × (find key j rs ≡ some r) × (((k ≡ j) × (r' ≡ f r)) ⊎ ((k ≢ j) × (r' ≡ r)))
        same p none found = absurd (ground (arith, find-update key f keeps k rs))
        same p (some r) found = (r, found, inl (p, ground (arith, find-update key f keeps k rs)))

  find-append_cases :
      (k : ℕ) (rs : List A) (new r : A)
      → find key k (rs ++ new ∷ []) ≡ some r
      → (find key k rs ≡ some r) ⊎ ((find key k rs ≡ none) × (key new ≡ k) × (r ≡ new))
  unfolding find
  find-append_cases k [] new r e = elim (Bool-cases (key new == k)) [
    | inl this ↦ inr (refl, (==_iff (key new) k).0 this, ground arith)
    | inr other ↦ absurd (ground arith)
  ]
  find-append_cases k (x ∷ rs) new r e = elim (Bool-cases (key x == k)) [
    | inl this ↦ inl (ground arith)
    | inr other ↦ elim (find-append_cases k rs new r (ground arith)) [
      | inl old ↦ inl (ground arith)
      | inr (free, same, e') ↦ inr (ground arith, same, e')
    ]
  ]

  pub append-found :
      (k : ℕ) (rs : List A) (new r : A)
      → find key k (rs ++ new ∷ []) ≡ some r
      → (find key k rs ≡ some r) ⊎ ((key new ≡ k) × (r ≡ new))
  append-found k rs new r e = elim (find-append_cases k rs new r e) [
    | inl old ↦ inl old
    | inr (free, same, e') ↦ inr (same, e')
  ]

  find-append_free :
      (k : ℕ) (rs : List A) (new : A)
      → find key k rs ≡ none
      → key new ≢ k
      → find key k (rs ++ new ∷ []) ≡ none
  unfolding find
  find-append_free k [] new e n = ground arith
  find-append_free k (x ∷ rs) new e n = ground (arith, find-append_free k rs new)

  key-ne : (x : A) (rs : List A) (new : A) → find key (key new) (x ∷ rs) ≡ none → key new ≢ key x
  unfolding find
  key-ne x rs new e p = ground arith

  find-tail : (k : ℕ) (x : A) (rs : List A) → find key k (x ∷ rs) ≡ none → find key k rs ≡ none
  unfolding find
  find-tail k x rs e = ground arith

  pub Distinct-append :
      (rs : List A) (new : A)
      → find key (key new) rs ≡ none
      → Distinct rs
      → Distinct (rs ++ new ∷ [])
  Distinct-append [] new e d = (find_nothing (key new), tt)
    where
      find_nothing : (k : ℕ) → find key k [] ≡ none
      find_nothing k = unfold find in refl
  Distinct-append (x ∷ rs) new e (free, d) = (
    find-append_free (key x) rs new free (key-ne x rs new e),
    Distinct-append rs new (find-tail (key new) x rs e) d,
  )
