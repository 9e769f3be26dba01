-- ===== src/Common/Maps.antt =====
-- A Go map with string keys, as an association list in any order of its entries.
use mathlib.Core.Path.{◌≡◌, refl, subst}
use mathlib.Core.Logic.{inl, inr}
use mathlib.Core.List.{List, [], ◌∷◌}
use mathlib.Core.Option.{Option, none, some}
use native.Mathlib.Omega.{arith}
use cln_circular.Common.Tests.{if◌then◌else◌, Bool-cases}
use cln_circular.Common.Strings.{Str, str_eq, str_eq_iff}

abbrev pub Map {ℓ} : Type ℓ → Type ℓ
Map V = List (Str × V)

module _ {ℓ} {V : Type ℓ} where
  -- `m[k]` with its `ok`
  unfoldable pub lookup : Str → Map V → Option V
  lookup k [] = none
  lookup k ((j, v) ∷ m) = if str_eq j k then some v else lookup k m

  -- `m[k]` where a missing key reads as the zero value
  abbrev pub lookup_or : Str → V → Map V → V
  lookup_or k d m = elim (lookup k m) [ some v ↦ v | none ↦ d ]

  -- `m[k] = v`
  unfoldable pub insert : Str → V → Map V → Map V
  insert k v [] = (k, v) ∷ []
  insert k v ((j, w) ∷ m) =
      let rest = insert k v m in if str_eq j k then (k, v) ∷ m else (j, w) ∷ rest

  -- `delete(m, k)`
  unfoldable pub delete : Str → Map V → Map V
  delete k [] = []
  delete k ((j, w) ∷ m) = let rest = delete k m in if str_eq j k then rest else (j, w) ∷ rest

  pub lookup-insert :
      (k j : Str) (v : V) (m : Map V)
      → lookup j (insert k v m) ≡ (if str_eq k j then some v else lookup j m)
  unfolding lookup insert
  lookup-insert k j v [] = refl
  lookup-insert k j v ((i, w) ∷ m) =
      ground (arith, str_eq_iff k j, str_eq_iff i k, str_eq_iff i j, lookup-insert k j v m)

  pub lookup-delete :
      (k j : Str) (m : Map V) → lookup j (delete k m) ≡ (if str_eq k j then none else lookup j m)
  unfolding lookup delete
  lookup-delete k j [] = ground arith
  lookup-delete k j ((i, w) ∷ m) =
      ground (arith, str_eq_iff k j, str_eq_iff i k, str_eq_iff i j, lookup-delete k j m)

  -- A predicate on every value of a map.
  abbrev pub AllValues {κ} : (V → Type κ) → Map V → Type κ
  AllValues P [] = Unit
  AllValues P ((k, v) ∷ m) = P v × AllValues P m

  pub AllValues-lookup {κ} :
      (P : V → Type κ) (k : Str) (m : Map V) {v : V} → AllValues P m → lookup k m ≡ some v → P v
  unfolding lookup
  AllValues-lookup P k [] {v} h e = cc
  AllValues-lookup P k ((j, w) ∷ m) {v} h e = elim (Bool-cases (str_eq j k)) [
    | inl t ↦ let same : w ≡ v = ground arith in subst P same h.0
    | inr t ↦ AllValues-lookup P k m h.1 (ground arith)
  ]

  pub AllValues-insert {κ} :
      (P : V → Type κ) (k : Str) (v : V) (m : Map V)
      → AllValues P m
      → P v
      → AllValues P (insert k v m)
  unfolding insert
  AllValues-insert P k v [] h p = (p, tt)
  AllValues-insert P k v ((j, w) ∷ m) h p = elim (Bool-cases (str_eq j k)) [
    | inl t ↦ rw t (p, h.1)
    | inr t ↦ rw t (h.0, AllValues-insert P k v m h.1 p)
  ]
