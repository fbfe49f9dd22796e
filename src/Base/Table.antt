-- ===== src/Base/Table.antt =====
-- A database table as the list of its rows, with the statements that the store prepares against it.
use Prim.Native.Nat.{ℕ}
use mathlib.Core.Path.{◌≡◌, refl}
use mathlib.Core.Logic.{◌≢◌}
use mathlib.Core.Option
use mathlib.Core.Option.{Option, none, some}
use mathlib.Core.List.{List, [], ◌∷◌, ◌++◌}
use native.Mathlib.Omega.{arith}
use ayanami_agent_hub.Base.Tests.{if◌then◌else◌, ◌==◌}
use ayanami_agent_hub.Base.Lists.{length}

module _ {ℓ} {A : Type ℓ} (key : A → ℕ) where
  -- SELECT * … WHERE id = ?
  unfoldable pub find : ℕ → List A → Option A
  find k [] = none
  find k (r ∷ rs) = if key r == k then some r else find k rs

  -- UPDATE … SET f WHERE id = ?
  unfoldable pub update : ℕ → (A → A) → List A → List A
  update k f [] = []
  update k f (r ∷ rs) = (if key r == k then f r else r) ∷ update k f rs

  pub find-key : (k : ℕ) (rs : List A) (r : A) → find k rs ≡ some r → key r ≡ k
  unfolding find
  find-key k [] r h = cc
  find-key k (x ∷ rs) r h = ground (arith, find-key k rs r)

  module _ (f : A → A) (keeps : (r : A) → key (f r) ≡ key r) where
    pub find-update : (k : ℕ) (rs : List A) → find k (update k f rs) ≡ Option.map f (find k rs)
    unfolding find update
    find-update k [] = refl
    find-update k (r ∷ rs) = ground (arith, keeps r, find-update k rs)

    pub find-update_ne : (k j : ℕ) (rs : List A) → k ≢ j → find j (update k f rs) ≡ find j rs
    unfolding find update
    find-update_ne k j [] h = refl
    find-update_ne k j (r ∷ rs) h = ground (arith, keeps r, find-update_ne k j rs h)

  -- INSERT of a row whose key no row has.
  pub find-append_some :
      (k : ℕ) (rs : List A) (new : A) (r : A)
      → find k rs ≡ some r
      → find k (rs ++ new ∷ []) ≡ some r
  unfolding find
  find-append_some k [] new r h = cc
  find-append_some k (x ∷ rs) new r h = ground (arith, find-append_some k rs new r)

  pub find-append_new :
      (rs : List A) (new : A)
      → find (key new) rs ≡ none
      → find (key new) (rs ++ new ∷ []) ≡ some new
  unfolding find
  find-append_new [] new h = ground arith
  find-append_new (x ∷ rs) new h = ground (arith, find-append_new rs new)

  pub find-append_ne :
      (k : ℕ) (rs : List A) (new : A) → key new ≢ k → find k (rs ++ new ∷ []) ≡ find k rs
  unfolding find
  find-append_ne k [] new h = ground arith
  find-append_ne k (x ∷ rs) new h = ground (arith, find-append_ne k rs new)

  pub find-append_old :
      (k : ℕ) (rs more : List A) (r : A) → find k rs ≡ some r → find k (rs ++ more) ≡ some r
  unfolding find
  find-append_old k [] more r h = cc
  find-append_old k (x ∷ rs) more r h = ground (arith, find-append_old k rs more r)

  pub find-append_none : (k : ℕ) (rs more : List A) → find k (rs ++ more) ≡ none → find k rs ≡ none
  unfolding find
  find-append_none k [] more h = refl
  find-append_none k (x ∷ rs) more h = ground (arith, find-append_none k rs more)

  pub length-update : (k : ℕ) (f : A → A) (rs : List A) → length (update k f rs) ≡ length rs
  unfolding update
  length-update k f [] = refl
  length-update k f (r ∷ rs) = omega (arith, length-update k f rs)
