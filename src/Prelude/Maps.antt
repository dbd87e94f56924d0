-- ===== src/Prelude/Maps.antt =====
-- Go's maps as association lists with distinct keys.
use mathlib.Core.Path.{◌≡◌, refl}
use mathlib.Core.Bool.{true, false}
use mathlib.Core.List.{List, [], ◌∷◌}
use mathlib.Core.Option.{Option, none, some}
use native.Mathlib.Omega.{arith}
use windowframe.Prelude.Tests.{if◌then◌else◌}
use windowframe.Prelude.Classes.{Comparable, ◌==◌, ==_iff}

abbrev pub Assoc {ℓ κ} : Type ℓ → Type κ → Type (ℓ ⊔ κ)
Assoc K V = List (K × V)

module _ {ℓ κ} {K : Type ℓ} {V : Type κ} ⦃e : Comparable K⦄ where
  -- delete(m, k)
  unfoldable pub erase : K → Assoc K V → Assoc K V
  erase k [] = []
  erase k ((i, x) ∷ rest) =
      let kept = erase k rest in elim (i == k) [ true ↦ kept | false ↦ (i, x) ∷ kept ]

  -- m[k] = x
  unfoldable pub insert : K → V → Assoc K V → Assoc K V
  insert k x [] = (k, x) ∷ []
  insert k x ((i, y) ∷ rest) =
      let kept = insert k x rest in elim (i == k) [ true ↦ (k, x) ∷ rest | false ↦ (i, y) ∷ kept ]

  -- m[k], with `none` for a missing key
  unfoldable pub lookup : K → Assoc K V → Option V
  lookup k [] = none
  lookup k ((i, x) ∷ rest) = elim (i == k) [ true ↦ some x | false ↦ lookup k rest ]

  -- No key stands twice.
  abbrev pub IsDistinct : Assoc K V → Type κ
  IsDistinct [] = Unit
  IsDistinct ((k, v) ∷ m) = (lookup k m ≡ none) × IsDistinct m

  pub lookup-erase :
      (k j : K) (m : Assoc K V) → lookup j (erase k m) ≡ (if k == j then none else lookup j m)
  unfolding lookup erase
  lookup-erase k j [] = ground arith
  lookup-erase k j ((i, y) ∷ rest) =
      ground (arith, lookup-erase k j rest, ==_iff i j, ==_iff k j, ==_iff i k)

  pub lookup-insert :
      (k j : K) (x : V) (m : Assoc K V)
      → lookup j (insert k x m) ≡ (if k == j then some x else lookup j m)
  unfolding lookup insert
  lookup-insert k j x [] = ground arith
  lookup-insert k j x ((i, y) ∷ rest) =
      ground (arith, lookup-insert k j x rest, ==_iff i j, ==_iff k j, ==_iff i k)

  pub insert-IsDistinct : (k : K) (v : V) (m : Assoc K V) → IsDistinct m → IsDistinct (insert k v m)
  unfolding lookup insert
  insert-IsDistinct k v [] h = (refl, tt)
  insert-IsDistinct k v ((i, w) ∷ m) h =
      ground (arith, ==_iff i k, ==_iff k i, lookup-insert k i v m, insert-IsDistinct k v m h.1)

  pub erase-IsDistinct : (k : K) (m : Assoc K V) → IsDistinct m → IsDistinct (erase k m)
  unfolding lookup erase
  erase-IsDistinct k [] h = tt
  erase-IsDistinct k ((i, w) ∷ m) h =
      ground (arith, ==_iff k i, ==_iff i k, lookup-erase k i m, erase-IsDistinct k m h.1)

pub ruleset map_laws = (lookup-insert, lookup-erase)
