-- ===== src/Common/Selection.antt =====
-- Tables before and behind a deletion, and the columns of a query's rows, told by properties of rows.
use mathlib.Core.Path.{◌≡◌, refl}
use mathlib.Core.Logic.{◌↔◌, ◌⊎◌, inl, inr}
use mathlib.Core.Bool.{Bool, true, ◌||◌}
use mathlib.Core.List.{List, [], ◌∷◌, ◌++◌, map, Memᴰ}
use mathlib.Core.List.Memᴰ.{head, tail}
use stohr.Common.Tests.{Bool-cases}
use stohr.Common.Table.{any, filter, delete_where}

module _ {A : Type 0} where
  -- The second list is the first without exactly the elements that have the property.
  pub data Sieve (P : A → Type 0) : List A → List A → Type 0 where
    nothing : Sieve P [] []
    gone : {x : A} {xs ys : List A} → P x → Sieve P xs ys → Sieve P (x ∷ xs) ys
    kept : {x : A} {xs ys : List A} → ¬ P x → Sieve P xs ys → Sieve P (x ∷ xs) (x ∷ ys)

  -- A test decides a property.
  abbrev pub Reflects : (A → Bool) → (A → Type 0) → Type 0
  Reflects p P = (x : A) → (p x ≡ true) ↔ P x

  pub delete_where-Sieve :
      (P : A → Type 0) (p : A → Bool)
      → Reflects p P
      → (xs : List A) → Sieve P xs (delete_where p xs)
  delete_where-Sieve P p r [] = nothing
  delete_where-Sieve P p r (x ∷ xs) = elim (Bool-cases (p x)) [
    | inl t ↦ rw t (gone ((r x).0 t) (delete_where-Sieve P p r xs))
    | inr f ↦ rw f (kept (λ h. let t = (r x).1 h in absurd cc) (delete_where-Sieve P p r xs))
  ]

  -- Either of two tests for one property decides it.
  pub or-Reflects :
      (P : A → Type 0) (p q : A → Bool) → Reflects p P → Reflects q P → Reflects (λ x. p x || q x) P
  or-Reflects P p q r s x = (
    λ h. elim (Bool-cases (p x)) [ inl t ↦ (r x).0 t | inr f ↦ (s x).0 (rw f at h) ],
    λ h. rw ((r x).1 h) refl,
  )

  pub any-append :
      (p : A → Bool) (xs ys : List A)
      → (any p (xs ++ ys) ≡ true) ↔ ((any p xs ≡ true) ⊎ (any p ys ≡ true))
  any-append p [] ys = (λ h. inr h, λ h. elim h [ inl e ↦ absurd cc | inr e ↦ e ])
  any-append p (x ∷ xs) ys = elim (Bool-cases (p x)) [
    | inl t ↦ rw t (λ h. inl refl, λ h. refl)
    | inr f ↦ rw f (any-append p xs ys)
  ]

module _ {A K : Type 0} (p : K → Bool) (g : A → K) (q : A → Bool) where
  -- A selected column of the rows that a query returns.
  abbrev pub Selected : List A → Type 0
  Selected xs = (x : A) × Memᴰ x xs × (q x ≡ true) × (p (g x) ≡ true)

  pub any-Selected : (xs : List A) → any p (map g (filter q xs)) ≡ true → Selected xs
  any-Selected [] h = absurd cc
  any-Selected (x ∷ xs) h = elim (Bool-cases (q x)) [
    | inr f ↦ let (y, m, a, b) = any-Selected xs (rw f at h) in (y, tail m, a, b)
    | inl t ↦ elim (Bool-cases (p (g x))) [
      | inl u ↦ (x, head refl, t, u)
      | inr v ↦ let (y, m, a, b) = any-Selected xs (rw (t, v) at h) in (y, tail m, a, b)
    ]
  ]

  pub Selected-any :
      (xs : List A) (x : A)
      → Memᴰ x xs
      → q x ≡ true
      → p (g x) ≡ true
      → any p (map g (filter q xs)) ≡ true
  Selected-any [] x m a b = elim m [ ]
  Selected-any (y ∷ xs) x (head e) a b = rw (← e, a, b) refl
  Selected-any (y ∷ xs) x (tail m) a b =
      let rest = Selected-any xs x m a b in
      elim (Bool-cases (q y)) [
        | inr f ↦ rw f rest
        | inl t ↦ elim (Bool-cases (p (g y))) [ inl u ↦ rw (t, u) refl | inr v ↦ rw (t, v) rest ]
      ]
