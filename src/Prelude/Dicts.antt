-- ===== src/Prelude/Dicts.antt =====
-- A Python `dict` with string keys: its items in the order of insertion.
use Prim.Native.String.{String, compare}
use mathlib.Core.Path.{◌≡◌, ◌∙◌, refl}
use mathlib.Core.List.{List, [], ◌∷◌, map}
use mathlib.Core.Bool.{Bool}
use mathlib.Core.Option.{Option, none, some}
use native.Mathlib.Omega.{arith}
use text.Mathlib.Text.{◌==◌ as str_eq, is_le}
use text.Mathlib.TextEquality.{eq_iff}
use mathlib.Core.Logic.{inl, inr}
use simloom.Prelude.Tests.{Bool-cases, if◌then◌else◌}

-- `<=` of two texts: by code points, as Python has it.
abbrev pub str_le : String → String → Bool
str_le s t = is_le (compare s t)

abbrev pub insert : String → List String → List String
insert k [] = k ∷ []
insert k (j ∷ l) = let rest = insert k l in if str_le k j then k ∷ j ∷ l else j ∷ rest

-- Python's `sorted` of texts.
abbrev pub sorted : List String → List String
sorted [] = []
sorted (k ∷ l) = insert k (sorted l)

abbrev pub Dict {ℓ} : Type ℓ → Type ℓ
Dict V = List (String × V)

module _ {ℓ} {V : Type ℓ} where
  -- `d.get(k)`
  unfoldable pub lookup : String → Dict V → Option V
  lookup k [] = none
  lookup k ((j, v) ∷ l) = let rest = lookup k l in if str_eq j k then some v else rest

  -- `d[k] = v`: a key that is there keeps its place.
  unfoldable pub put : String → V → Dict V → Dict V
  put k v [] = (k, v) ∷ []
  put k v ((j, w) ∷ l) = let rest = put k v l in if str_eq j k then (j, v) ∷ l else (j, w) ∷ rest

  -- `d.pop(k, None)`
  unfoldable pub pop : String → Dict V → Dict V
  pop k [] = []
  pop k ((j, w) ∷ l) = let rest = pop k l in if str_eq j k then rest else (j, w) ∷ rest

  abbrev pub keys : Dict V → List String
  keys d = map (λ x. x.0) d

  pub lookup-put :
      (j k : String) (v : V) (d : Dict V)
      → lookup j (put k v d) ≡ (if str_eq k j then some v else lookup j d)
  unfolding lookup put
  lookup-put j k v [] = ground arith
  lookup-put j k v ((i, w) ∷ l) =
      ground (arith, lookup-put j k v l, eq_iff i k, eq_iff i j, eq_iff k j)

  pub lookup-pop :
      (j k : String) (d : Dict V) → lookup j (pop k d) ≡ (if str_eq k j then none else lookup j d)
  unfolding lookup pop
  lookup-pop j k [] = ground arith
  lookup-pop j k ((i, w) ∷ l) = ground (arith, lookup-pop j k l, eq_iff i k, eq_iff i j, eq_iff k j)

  -- A key has one item.
  abbrev pub IsDict : Dict V → Type ℓ
  IsDict [] = Unit
  IsDict ((k, v) ∷ l) = (lookup k l ≡ none) × IsDict l

  pub put-IsDict : (k : String) (v : V) (d : Dict V) → IsDict d → IsDict (put k v d)
  unfolding lookup put
  put-IsDict k v [] u = (refl, tt)
  put-IsDict k v ((j, w) ∷ l) u = elim (Bool-cases (str_eq j k)) [
    | inl same ↦ rw same u
    | inr differs ↦
        rw differs
          (lookup-put j k v l ∙ ground (arith, eq_iff j k, eq_iff k j, u.0), put-IsDict k v l u.1)
  ]

  pub pop-IsDict : (k : String) (d : Dict V) → IsDict d → IsDict (pop k d)
  unfolding lookup pop
  pop-IsDict k [] u = tt
  pop-IsDict k ((j, w) ∷ l) u = elim (Bool-cases (str_eq j k)) [
    | inl same ↦ rw same (pop-IsDict k l u.1)
    | inr differs ↦
        rw differs
          (lookup-pop j k l ∙ ground (arith, eq_iff j k, eq_iff k j, u.0), pop-IsDict k l u.1)
  ]
