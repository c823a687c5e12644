-- ===== src/Prelude/Assoc.antt =====
-- A map keyed by text, as an association list.
use prospero.Prelude.Tests.{if◌then◌else◌, Bool-cases}
use Prim.Native.String.{String}
use mathlib.Core.Path.{◌≡◌, refl}
use mathlib.Core.Logic.{◌≢◌, ◌⊎◌, inl, inr}
use mathlib.Core.Option.{Option, none, some}
use mathlib.Core.List.{List, [], ◌∷◌}
use native.Mathlib.Omega.{arith}
use text.Mathlib.Text.{◌==◌ as str_eq}
use text.Mathlib.TextEquality.{eq_iff}

pub String-cases : (j k : String) → (j ≡ k) ⊎ (j ≢ k)
String-cases j k = elim (Bool-cases (str_eq j k)) [
  | inl e ↦ inl (ground (arith, eq_iff j k))
  | inr e ↦ inr (λ h. ground (arith, eq_iff j k))
]

module _ {ℓ} {A : Type ℓ} where
  unfoldable pub get : String → List (String × A) → Option A
  get k [] = none
  get k ((j, a) ∷ rest) = if str_eq j k then some a else get k rest

  unfoldable pub insert : String → A → List (String × A) → List (String × A)
  insert k a [] = (k, a) ∷ []
  insert k a ((j, b) ∷ rest) = if str_eq j k then (k, a) ∷ rest else (j, b) ∷ insert k a rest

  unfoldable pub remove : String → List (String × A) → List (String × A)
  remove k [] = []
  remove k ((j, b) ∷ rest) =
      let others = remove k rest in if str_eq j k then others else (j, b) ∷ others

  pub get-insert : (k : String) (a : A) (m : List (String × A)) → get k (insert k a m) ≡ some a
  unfolding get insert
  get-insert k a [] = ground (arith, eq_iff k k)
  get-insert k a ((j, b) ∷ rest) = ground (arith, eq_iff k k, eq_iff j k, get-insert k a rest)

  pub get-insert_other :
      (k j : String) (a : A) (m : List (String × A)) → j ≢ k → get k (insert j a m) ≡ get k m
  unfolding get insert
  get-insert_other k j a [] d = ground (arith, eq_iff j k)
  get-insert_other k j a ((i, b) ∷ rest) d =
      ground (arith, eq_iff j k, eq_iff i k, eq_iff i j, get-insert_other k j a rest d)

  pub get-remove : (k : String) (m : List (String × A)) → get k (remove k m) ≡ none
  unfolding get remove
  get-remove k [] = refl
  get-remove k ((j, b) ∷ rest) = ground (arith, eq_iff j k, get-remove k rest)

  pub get-remove_other :
      (k j : String) (m : List (String × A)) → j ≢ k → get k (remove j m) ≡ get k m
  unfolding get remove
  get-remove_other k j [] d = refl
  get-remove_other k j ((i, b) ∷ rest) d =
      ground (arith, eq_iff j k, eq_iff i k, eq_iff i j, get-remove_other k j rest d)
