-- ===== src/Relay/Registry/Ordering.antt =====
-- A Go map is visited in any order: what the order of the entries cannot change.
use mathlib.Core.Path.{subst, ap₂}
use mathlib.Core.Option.{some-injective}
use mathlib.Core.Bool.{Bool-discrete}
use mathlib.Core.List.{Perm}
use mathlib.Core.List
use mathlib.Core.List.Perm
use mathlib.Core.Nat as Nat
use pocketclaude.Base.{
  ℕ, suc, GoString, str_eq, str_eq_iff, str_eq_refl, ◌≡◌, refl, ap, sym, ◌∙◌, Bool, Bool-cases,
  true, inl, inr, none, some, List, [], ◌∷◌, filter, length, if◌then◌else◌, arith,
}
use pocketclaude.Base.GoMap.{
  GoMap, lookup, delete, delete-none, lookup-delete, Unique, delete-Unique,
}

module _ {A : Type 0} where
  unfoldable decided : (A → Bool) → List A → List A
  decided p = List.filter (λ a. Bool-discrete (p a) true)

  filter-decided : (p : A → Bool) (l : List A) → filter p l ≡ decided p l
  unfolding decided
  filter-decided p [] = refl
  filter-decided p (a ∷ l) = elim (Bool-cases (p a)) [
    | inl passes ↦ rw (passes) (ap (◌∷◌ a) (filter-decided p l))
    | inr fails ↦ rw (fails) (filter-decided p l)
  ]

  pub filter-Perm : (p : A → Bool) {l l' : List A} → Perm l l' → Perm (filter p l) (filter p l')
  unfolding decided
  filter-Perm p {l} {l'} q =
      subst (λ k. Perm k (filter p l')) (sym (filter-decided p l))
        (subst (λ k. Perm (decided p l) k) (sym (filter-decided p l'))
          (Perm.filter (λ a. Bool-discrete (p a) true) q))

module _ {V : Type 0} where
  empty : (m : GoMap V) → ((j : GoString) → lookup j m ≡ none) → m ≡ []
  unfolding lookup
  empty [] h = refl
  empty ((k, v) ∷ m) h =
      let there : lookup k ((k, v) ∷ m) ≡ some v =
        ap (λ b. if b then some v else lookup k m) (str_eq_refl k) in
      let gone = h k in absurd cc

  -- The entry that a lookup finds can be visited first.
  delete-Perm :
      (k : GoString) (v : V) (m : GoMap V)
      → Unique m
      → lookup k m ≡ some v
      → Perm ((k, v) ∷ delete k m) m
  unfolding lookup delete
  delete-Perm k v [] u h = absurd cc
  delete-Perm k v ((j, w) ∷ m) u h = elim (Bool-cases (str_eq j k)) [
    | inl hit ↦
        (let own : k ≡ j = sym ((str_eq_iff j k).0 hit) in
          let found : v ≡ w = sym (some-injective _ _ (rw (hit, lookup) at h)) in
          let alone : lookup k m ≡ none = ap (λ i. lookup i m) own ∙ u.0 in
          rw (hit) (
            subst (λ l. Perm ((k, v) ∷ delete k m) l)
              (ap (λ e. e ∷ delete k m) (ap₂ (λ a b. (a, b)) own found)
                ∙ ap (◌∷◌ (j, w)) (delete-none k m alone))
              Perm.rfl))
    | inr miss ↦ rw (miss) (
        Perm.trans (Perm.swap (j, w) (k, v) (delete k m))
          (Perm.cons (j, w) (delete-Perm k v m u.1 (rw (miss, lookup) at h))))
  ]

  -- Two maps in which every key has the same value.
  pub lookup-Perm :
      (m m' : GoMap V)
      → Unique m
      → Unique m'
      → ((j : GoString) → lookup j m ≡ lookup j m')
      → Perm m m'
  unfolding lookup
  lookup-Perm [] m' u u' same = subst (λ l. Perm [] l) (sym (empty m' (λ j. sym (same j)))) Perm.nil
  lookup-Perm ((k, v) ∷ m) m' u u' same =
      Perm.trans (Perm.cons (k, v) (lookup-Perm m (delete k m') u.1 (delete-Unique k m' u') rest))
        (delete-Perm k v m' u' there)
    where
      there : lookup k m' ≡ some v
      there = sym (same k) ∙ ap (λ b. if b then some v else lookup k m) (str_eq_refl k)

      rest : (j : GoString) → lookup j m ≡ lookup j (delete k m')
      rest j = ground (arith, same j, lookup-delete k j m', u.0, str_eq_iff k j)

unfoldable to_native : Nat.ℕ → ℕ
to_native Nat.zero = 0
to_native (Nat.suc n) = suc (to_native n)

length-to_native : {A : Type 0} (l : List A) → length l ≡ to_native (List.length l)
unfolding to_native
length-to_native [] = refl
length-to_native (a ∷ l) = ap suc (length-to_native l)

pub length-Perm : {A : Type 0} {l l' : List A} → Perm l l' → length l ≡ length l'
length-Perm {A} {l} {l'} p =
    length-to_native l ∙ ap to_native (Perm.length-eq p) ∙ sym (length-to_native l')
