-- ===== src/Common/Rows.antt =====
-- A table as the list of its rows: the write to the row that a key selects.
use mathlib.Core.Path.{◌≡◌, refl, ap}
use mathlib.Core.Logic.{inl, inr}
use mathlib.Core.Bool.{Bool, true, false}
use mathlib.Core.Option.{Option, none, some}
use mathlib.Core.List.{List, [], ◌∷◌, ◌++◌, map}
use native.Mathlib.Omega.{arith}
use inhouse_maker_core_serve.Common.Tests.{if◌then◌else◌, Bool-cases}
use inhouse_maker_core_serve.Common.Lists.{find?, any, All}

module _ {ℓ} {A : Type ℓ} (p : A → Bool) where
  -- `update` where `p` selects a row by its primary key.
  unfoldable pub change_first : (A → A) → List A → List A
  change_first f [] = []
  change_first f (x ∷ xs) = if p x then f x ∷ xs else x ∷ change_first f xs

  -- `findFirst` on the key and on further conditions.
  abbrev pub find_where : (A → Bool) → List A → Option A
  find_where q xs = elim (find? p xs) [ none ↦ none | some x ↦ if q x then some x else none ]

  pub find_where-find? :
      (q : A → Bool) (xs : List A) (x : A)
      → find_where q xs ≡ some x
      → (find? p xs ≡ some x) × (q x ≡ true)
  find_where-find? q xs x e = ground arith

  pub All-change_first {κ} :
      (P : A → Type κ) (f : A → A) (xs : List A)
      → ((x : A) → find? p xs ≡ some x → P x → P (f x))
      → All P xs
      → All P (change_first f xs)
  unfolding change_first
  All-change_first P f [] keeps h = tt
  All-change_first P f (x ∷ xs) keeps (hx, h) = elim (Bool-cases (p x)) [
    | inl hit ↦ rw hit (keeps x (rw hit refl) hx, h)
    | inr miss ↦ rw miss (hx, All-change_first P f xs (λ y e. keeps y (rw miss e)) h)
  ]

  -- A row that was appended under a new key is the one that is found and changed.
  pub find?-append_last :
      (xs : List A) (x : A) → any p xs ≡ false → p x ≡ true → find? p (xs ++ x ∷ []) ≡ some x
  find?-append_last [] x none_before h = rw h refl
  find?-append_last (y ∷ xs) x none_before h = ground (arith, find?-append_last xs x)

  pub change_first-append_last :
      (f : A → A) (xs : List A) (x : A)
      → any p xs ≡ false
      → p x ≡ true
      → change_first f (xs ++ x ∷ []) ≡ xs ++ f x ∷ []
  unfolding change_first
  change_first-append_last f [] x none_before h = rw h refl
  change_first-append_last f (y ∷ xs) x none_before h = elim (Bool-cases (p y)) [
    | inl hit ↦ absurd (ground arith)
    | inr miss ↦ rw miss (ap (λ ys. y ∷ ys) (change_first-append_last f xs x (ground arith) h))
  ]

  -- A write that does not touch what a test looks at, at the rows that `p` selects.
  pub any-changed :
      (q : A → Bool) (f : A → A) (xs : List A)
      → ((x : A) → p x ≡ true → q (f x) ≡ q x)
      → any q (change_first f xs) ≡ any q xs
  unfolding change_first
  any-changed q f [] same = refl
  any-changed q f (x ∷ xs) same = elim (Bool-cases (p x)) [
    | inl hit ↦ rw (hit, same x hit) refl
    | inr miss ↦ rw (miss, any-changed q f xs same) refl
  ]

  pub any-change_first :
      (q : A → Bool) (f : A → A) (xs : List A)
      → ((x : A) → q (f x) ≡ q x)
      → any q (change_first f xs) ≡ any q xs
  any-change_first q f xs same = any-changed q f xs (λ x _. same x)

  pub map-change_first {κ} :
      {K : Type κ} (key : A → K) (f : A → A) (xs : List A)
      → ((x : A) → key (f x) ≡ key x)
      → map key (change_first f xs) ≡ map key xs
  unfolding change_first
  map-change_first key f [] same = refl
  map-change_first key f (x ∷ xs) same = elim (Bool-cases (p x)) [
    | inl hit ↦ rw (hit, same x) refl
    | inr miss ↦ rw (miss, map-change_first key f xs same) refl
  ]

  pub find?-change_first :
      (f : A → A) (xs : List A) (x : A)
      → find? p xs ≡ some x
      → p (f x) ≡ true
      → find? p (change_first f xs) ≡ some (f x)
  unfolding change_first
  find?-change_first f [] x e same = cc
  find?-change_first f (y ∷ xs) x e same = elim (Bool-cases (p y)) [
    | inl hit ↦
        let found : some y ≡ some x = rw hit at e in
        let it : y ≡ x = cc in let there : p (f y) ≡ true = rw it same in rw (hit, there, it) refl
    | inr miss ↦ rw (miss, miss) (find?-change_first f xs x (rw miss at e) same)
  ]

  -- Two writes that together restore the row that they find.
  pub change_first-change_first :
      (f g : A → A) (xs : List A) (x : A)
      → find? p xs ≡ some x
      → p (f x) ≡ true
      → g (f x) ≡ x
      → change_first g (change_first f xs) ≡ xs
  unfolding change_first
  change_first-change_first f g [] x e same back = cc
  change_first-change_first f g (y ∷ xs) x e same back = elim (Bool-cases (p y)) [
    | inl hit ↦
        let found : some y ≡ some x = rw hit at e in
        let it : y ≡ x = cc in
        let there : p (f y) ≡ true = rw it same in
        let restored : g (f y) ≡ y = rw it back in rw (hit, there, restored) refl
    | inr miss ↦
        rw (miss, miss)
          (ap (λ ys. y ∷ ys) (change_first-change_first f g xs x (rw miss at e) same back))
  ]
