-- ===== src/Common/Keys.antt =====
-- Rows whose keys are distinct, as a unique index keeps them.
use mathlib.Core.Path.{◌≡◌, sym, ap}
use mathlib.Core.Option.{some}
use mathlib.Core.Logic.{◌⊎◌, inl, inr}
use mathlib.Core.Bool.{Bool, true, false}
use mathlib.Core.List.{List, [], ◌∷◌, ◌++◌, map}
use native.Mathlib.Omega.{arith}
use inhouse_maker_core_serve.Common.Tests.{Eq, Bool-cases}
use inhouse_maker_core_serve.Common.Lists.{any, filter, find?, All, Has, IsDistinct}
use inhouse_maker_core_serve.Common.Rows.{change_first}

module _ {A K : Type 0} ⦃e : Eq K⦄ (key : A → K) where
  abbrev pub has_key : K → A → Bool
  has_key u x = e.beq (key x) u

  pub any-has_key : (u : K) (xs : List A) → any (has_key u) xs ≡ false → ¬ Has u (map key xs)
  any-has_key u [] miss h = h
  any-has_key u (x ∷ xs) miss (inl same) =
      let t = (e.beq_iff (key x) u).1 (ground arith) in ground arith
  any-has_key u (x ∷ xs) miss (inr h) = any-has_key u xs (ground arith) h

  pub not_Has-filter :
      (q : A → Bool) (u : K) (xs : List A) → ¬ Has u (map key xs) → ¬ Has u (map key (filter q xs))
  not_Has-filter q u [] h = h
  not_Has-filter q u (x ∷ xs) h = elim (Bool-cases (q x)) [
    | inl yea ↦
        rw yea
          λ m. elim m [ inl it ↦ h (inl it) | inr m' ↦ not_Has-filter q u xs (λ k. h (inr k)) m' ]
    | inr nay ↦ rw nay (not_Has-filter q u xs (λ k. h (inr k)))
  ]

  pub IsDistinct-filter :
      (q : A → Bool) (xs : List A) → IsDistinct (map key xs) → IsDistinct (map key (filter q xs))
  IsDistinct-filter q [] h = tt
  IsDistinct-filter q (x ∷ xs) (hx, h) = elim (Bool-cases (q x)) [
    | inl yea ↦ rw yea (not_Has-filter q (key x) xs hx, IsDistinct-filter q xs h)
    | inr nay ↦ rw nay (IsDistinct-filter q xs h)
  ]

  pub Has-append_last :
      (u : K) (xs : List A) (x : A)
      → Has u (map key (xs ++ x ∷ []))
      → Has u (map key xs) ⊎ (u ≡ key x)
  Has-append_last u [] x (inl h) = inr h
  Has-append_last u [] x (inr h) = absurd h
  Has-append_last u (y ∷ xs) x (inl h) = inl (inl h)
  Has-append_last u (y ∷ xs) x (inr h) = elim (Has-append_last u xs x h) [
    | inl old ↦ inl (inr old)
    | inr last ↦ inr last
  ]

  pub IsDistinct-append_last :
      (xs : List A) (x : A)
      → IsDistinct (map key xs)
      → any (has_key (key x)) xs ≡ false
      → IsDistinct (map key (xs ++ x ∷ []))
  IsDistinct-append_last [] x h new = ((λ b. b), tt)
  IsDistinct-append_last (y ∷ xs) x (hy, h) new = (
    λ again. elim (Has-append_last (key y) xs x again) [
      | inl old ↦ hy old
      | inr same ↦ let t = (e.beq_iff (key y) (key x)).1 same in ground arith
    ],
    IsDistinct-append_last xs x h (ground arith),
  )

  All-others :
      (P : A → Type 0) (u : K) (xs : List A)
      → ¬ Has u (map key xs)
      → All (λ y. has_key u y ≡ true → P y) xs
  All-others P u [] h = tt
  All-others P u (x ∷ xs) h = (
    λ hit. absurd (h (inl (sym ((e.beq_iff (key x) u).0 hit)))),
    All-others P u xs (λ m. h (inr m)),
  )

  -- A write to the row with a key has happened to every row with that key.
  pub All-written :
      (P : A → Type 0) (f : A → A) (u : K) (xs : List A)
      → IsDistinct (map key xs)
      → ((x : A) → P (f x))
      → All (λ y. has_key u y ≡ true → P y) (change_first (has_key u) f xs)
  unfolding change_first
  All-written P f u [] h now = tt
  All-written P f u (x ∷ xs) (hx, h) now = elim (Bool-cases (e.beq (key x) u)) [
    | inl hit ↦
        rw hit (λ _. now x, All-others P u xs (λ m. hx (rw ((e.beq_iff (key x) u).0 hit) m)))
    | inr miss ↦ rw miss (λ hit. absurd (ground arith), All-written P f u xs h now)
  ]

  Has-found : (p : A → Bool) (xs : List A) (x : A) → find? p xs ≡ some x → Has (key x) (map key xs)
  Has-found p [] x h = cc
  Has-found p (y ∷ xs) x h = elim (Bool-cases (p y)) [
    | inl hit ↦
        let found : some y ≡ some x = rw hit at h in let it : y ≡ x = cc in inl (ap key (sym it))
    | inr miss ↦ inr (Has-found p xs x (rw miss at h))
  ]

  -- A row that was found by another test is the one with its key.
  pub find?-by_key :
      (p : A → Bool) (xs : List A) (x : A)
      → IsDistinct (map key xs)
      → find? p xs ≡ some x
      → find? (has_key (key x)) xs ≡ some x
  find?-by_key p [] x distinct h = cc
  find?-by_key p (y ∷ xs) x (hy, distinct) h = elim (Bool-cases (p y)) [
    | inl hit ↦
        let found : some y ≡ some x = rw hit at h in
        let it : y ≡ x = cc in
        let mine : e.beq (key y) (key x) ≡ true = (e.beq_iff (key y) (key x)).1 (ap key it) in
        rw mine found
    | inr miss ↦
        let there : find? p xs ≡ some x = rw miss at h in
        let other : e.beq (key y) (key x) ≡ false = elim (Bool-cases (e.beq (key y) (key x))) [
          | inl same ↦
              absurd (hy (rw ((e.beq_iff (key y) (key x)).0 same) (Has-found p xs x there)))
          | inr differs ↦ differs
        ] in
        rw other (find?-by_key p xs x distinct there)
  ]
