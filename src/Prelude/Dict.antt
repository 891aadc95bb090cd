-- ===== src/Prelude/Dict.antt =====
-- Go's `map[string]V` as an association list in which no key stands twice.
use Prim.Native.String.{String}
use mathlib.Core.Path.{◌≡◌}
use mathlib.Core.List.{List, [], ◌∷◌}
use mathlib.Core.Option.{Option, none, some}
use native.Mathlib.Omega.{arith}
use text.Mathlib.Text.{◌==◌}
use text.Mathlib.TextEquality.{eq_iff}
use routecat.Prelude.Tests.{if◌then◌else◌, Bool-cases}
use mathlib.Core.Logic.{inl, inr}
use Prim.Native.Nat.{ℕ, suc}

abbrev pub Dict {ℓ} : Type ℓ → Type ℓ
Dict V = List (String × V)

module _ {ℓ} {V : Type ℓ} where
  -- `v, ok := m[k]`
  unfoldable pub lookup : String → Dict V → Option V
  lookup k [] = none
  lookup k ((j, v) ∷ d) = if j == k then some v else lookup k d

  -- `delete(m, k)`
  unfoldable pub erase : String → Dict V → Dict V
  erase k [] = []
  erase k ((j, v) ∷ d) = if j == k then erase k d else (j, v) ∷ erase k d

  -- `m[k] = v`
  unfoldable pub insert : String → V → Dict V → Dict V
  insert k v d = (k, v) ∷ erase k d

  pub lookup-erase :
      (k j : String) (d : Dict V) → lookup j (erase k d) ≡ (if k == j then none else lookup j d)
  unfolding lookup erase
  lookup-erase k j [] = ground arith
  lookup-erase k j ((i, v) ∷ d) =
      ground (arith, eq_iff k j, eq_iff i k, eq_iff i j, lookup-erase k j d)

  pub lookup-insert :
      (k j : String) (v : V) (d : Dict V)
      → lookup j (insert k v d) ≡ (if k == j then some v else lookup j d)
  unfolding lookup insert
  lookup-insert k j v d = ground (arith, eq_iff k j, lookup-erase k j d)

  -- No key stands twice.
  abbrev pub KeysOnce : Dict V → Type ℓ
  KeysOnce [] = Unit
  KeysOnce (e ∷ d) = (lookup e.0 d ≡ none) × KeysOnce d

  pub erase-KeysOnce : (k : String) (d : Dict V) → KeysOnce d → KeysOnce (erase k d)
  unfolding erase
  erase-KeysOnce k [] h = tt
  erase-KeysOnce k ((j, v) ∷ d) h = elim (Bool-cases (j == k)) [
    | inl e ↦ rw e (erase-KeysOnce k d h.1)
    | inr e ↦ rw e (gone, erase-KeysOnce k d h.1)
  ]
    where
      gone : lookup j (erase k d) ≡ none
      gone = rw lookup-erase (ground (arith, h.0))

  pub insert-KeysOnce : (k : String) (v : V) (d : Dict V) → KeysOnce d → KeysOnce (insert k v d)
  unfolding insert
  insert-KeysOnce k v d h = (rw lookup-erase (ground (arith, eq_iff k k)), erase-KeysOnce k d h)

-- Go's `len(m)`.
abbrev pub size {ℓ} : {V : Type ℓ} → Dict V → ℕ
size [] = 0
size (e ∷ d) = suc (size d)
