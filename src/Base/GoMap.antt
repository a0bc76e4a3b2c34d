-- ===== src/Base/GoMap.antt =====
-- Go's `map[string]V` as an association list. The order of the list stands for the order in which a
-- `range` over the map happens to visit the entries, which Go leaves open.
use mathlib.Core.Path.{◌≡◌, refl, ap, subst₂}
use mathlib.Core.Logic.{inl, inr}
use mathlib.Core.Bool.{true, false}
use mathlib.Core.Option.{Option, none, some}
use mathlib.Core.List.{List, [], ◌∷◌, map}
use native.Mathlib.Omega.{arith}
use pocketclaude.Base.Tests.{Bool-cases, if◌then◌else◌}
use pocketclaude.Base.Lists.{All}
use pocketclaude.Base.Strings.{GoString, str_eq, str_eq_iff, str_eq_refl}

abbrev pub GoMap {ℓ} : Type ℓ → Type ℓ
GoMap V = List (GoString × V)

module _ {ℓ} {V : Type ℓ} where
  -- v, ok := m[k]
  unfoldable pub lookup : GoString → GoMap V → Option V
  lookup k [] = none
  lookup k ((j, v) ∷ m) = if str_eq j k then some v else lookup k m

  -- delete(m, k)
  unfoldable pub delete : GoString → GoMap V → GoMap V
  delete k [] = []
  delete k ((j, v) ∷ m) = let rest = delete k m in if str_eq j k then rest else (j, v) ∷ rest

  -- m[k] = v
  unfoldable pub insert : GoString → V → GoMap V → GoMap V
  unfolding delete
  insert k v m = (k, v) ∷ delete k m

  -- for _, v := range m
  abbrev pub values : GoMap V → List V
  values = map (λ e. e.1)

  pub lookup-delete :
      (k j : GoString) (m : GoMap V)
      → lookup j (delete k m) ≡ (if str_eq k j then none else lookup j m)
  unfolding lookup delete
  lookup-delete k j [] = ground arith
  lookup-delete k j ((i, v) ∷ m) =
      ground (arith, lookup-delete k j m, str_eq_iff i k, str_eq_iff i j, str_eq_iff k j)

  pub delete-none : (k : GoString) (m : GoMap V) → lookup k m ≡ none → delete k m ≡ m
  unfolding lookup delete
  delete-none k [] h = refl
  delete-none k ((j, v) ∷ m) h = elim (Bool-cases (str_eq j k)) [
    | inl hit ↦ (let found = rw (hit, lookup) at h in absurd cc)
    | inr miss ↦ rw (miss) (ap (◌∷◌ (j, v)) (delete-none k m (rw (miss, lookup) at h)))
  ]

  pub lookup-insert :
      (k j : GoString) (v : V) (m : GoMap V)
      → lookup j (insert k v m) ≡ (if str_eq k j then some v else lookup j m)
  unfolding lookup insert
  lookup-insert k j v m = ground (arith, lookup-delete k j m)

  -- A property of every entry.
  abbrev pub Every {κ} : (GoString → V → Type κ) → GoMap V → Type κ
  Every P = All (λ e. P e.0 e.1)

  pub Every-delete {κ} :
      (P : GoString → V → Type κ) (k : GoString) (m : GoMap V) → Every P m → Every P (delete k m)
  unfolding delete
  Every-delete P k [] h = tt
  Every-delete P k ((j, v) ∷ m) h =
      elim (str_eq j k) as (λ b. Every P (if b then delete k m else (j, v) ∷ delete k m)) [
        | true ↦ Every-delete P k m h.1
        | false ↦ (h.0, Every-delete P k m h.1)
      ]

  pub Every-insert {κ} :
      (P : GoString → V → Type κ) (k : GoString) (v : V) (m : GoMap V)
      → P k v
      → Every P m
      → Every P (insert k v m)
  unfolding insert
  Every-insert P k v m p h = (p, Every-delete P k m h)

  -- What a lookup finds has the property of every entry.
  pub lookup-Every {κ} :
      (P : GoString → V → Type κ) (k : GoString) (m : GoMap V) {v : V}
      → Every P m
      → lookup k m ≡ some v
      → P k v
  unfolding lookup
  lookup-Every P k [] h e = cc
  lookup-Every P k ((j, u) ∷ m) {v} h e = elim (Bool-cases (str_eq j k)) [
    | inl hit ↦ subst₂ P ((str_eq_iff j k).0 hit) (ground (arith, hit)) h.0
    | inr miss ↦ lookup-Every P k m h.1 (rw (miss, lookup) at e)
  ]

  -- No key stands twice, as in every Go map.
  abbrev pub Unique : GoMap V → Type ℓ
  Unique [] = Unit
  Unique ((k, v) ∷ m) = (lookup k m ≡ none) × Unique m

  pub delete-Unique : (k : GoString) (m : GoMap V) → Unique m → Unique (delete k m)
  unfolding delete
  delete-Unique k [] h = tt
  delete-Unique k ((j, v) ∷ m) h = ground (arith, delete-Unique k m h.1, lookup-delete k j m)

  pub insert-Unique : (k : GoString) (v : V) (m : GoMap V) → Unique m → Unique (insert k v m)
  unfolding insert
  insert-Unique k v m h = (ground (arith, lookup-delete k k m, str_eq_refl k), delete-Unique k m h)
