-- ===== src/Common/Sorting/Laws.antt =====
-- The elements and the order of what the sort returns.
use mathlib.Core.Path.{◌≡◌, refl, ap, ◌∙◌}
use mathlib.Core.Logic.{inl, inr}
use mathlib.Core.Bool.{Bool, true, false}
use mathlib.Core.List.{List, [], ◌∷◌, map}
use native.Mathlib.Omega.{arith}
use inhouse_maker_core_serve.Common.Tests.{Bool-cases}
use inhouse_maker_core_serve.Common.Lists.{All}
use inhouse_maker_core_serve.Common.Sorting.{insert_sorted, sort}

module _ {ℓ} {A : Type ℓ} (gt : A → A → Bool) (P : A → Type 0) where
  All-insert_sorted : (x : A) (ys : List A) → P x → All P ys → All P (insert_sorted gt x ys)
  unfolding insert_sorted
  All-insert_sorted x [] hx h = (hx, tt)
  All-insert_sorted x (y ∷ ys) hx h = ground (arith, All-insert_sorted x ys hx h.1)

  pub All-sort : (xs : List A) → All P xs → All P (sort gt xs)
  unfolding sort
  All-sort [] h = tt
  All-sort (x ∷ xs) (hx, h) = All-insert_sorted x (sort gt xs) hx (All-sort xs h)

  All-of_insert_sorted : (x : A) (ys : List A) → All P (insert_sorted gt x ys) → P x × All P ys
  unfolding insert_sorted
  All-of_insert_sorted x [] h = h
  All-of_insert_sorted x (y ∷ ys) h = ground (arith, All-of_insert_sorted x ys)

  pub All-of_sort : (xs : List A) → All P (sort gt xs) → All P xs
  unfolding sort
  All-of_sort [] h = tt
  All-of_sort (x ∷ xs) h =
      let (hx, rest) = All-of_insert_sorted x (sort gt xs) h in (hx, All-of_sort xs rest)

abbrev pub IsSorted {ℓ} : {A : Type ℓ} → (A → A → Type 0) → List A → Type 0
IsSorted before [] = Unit
IsSorted before (x ∷ xs) = All (before x) xs × IsSorted before xs

-- `before` is what the comparator's order means; it is transitive and total by `gt`.
module _ {ℓ} {A : Type ℓ} (gt : A → A → Bool) (before : A → A → Type 0)
    (before_trans : (x y z : A) → before x y → before y z → before x z)
    (after_gt : (x y : A) → gt x y ≡ true → before y x)
    (before_not_gt : (x y : A) → gt x y ≡ false → before x y) where
  All-before : (x y : A) (ys : List A) → before x y → All (before y) ys → All (before x) ys
  All-before x y [] h k = tt
  All-before x y (z ∷ ys) h (kz, k) = (before_trans x y z h kz, All-before x y ys h k)

  insert_sorted-IsSorted :
      (x : A) (ys : List A) → IsSorted before ys → IsSorted before (insert_sorted gt x ys)
  unfolding insert_sorted
  insert_sorted-IsSorted x [] h = (tt, tt)
  insert_sorted-IsSorted x (y ∷ ys) (hy, h) = elim (Bool-cases (gt x y)) [
    | inl later ↦ rw later (
      All-insert_sorted gt (before y) x ys (after_gt x y later) hy,
      insert_sorted-IsSorted x ys h,
    )
    | inr here ↦ let xy = before_not_gt x y here in rw here ((xy, All-before x y ys xy hy), (hy, h))
  ]

  pub sort-IsSorted : (xs : List A) → IsSorted before (sort gt xs)
  unfolding sort
  sort-IsSorted [] = tt
  sort-IsSorted (x ∷ xs) = insert_sorted-IsSorted x (sort gt xs) (sort-IsSorted xs)

-- Sorting by a key sorts the keys.
module _ {A B : Type 0} (f : A → B) (gt : B → B → Bool) where
  map-insert_sorted :
      (x : A) (ys : List A)
      → map f (insert_sorted (λ l r. gt (f l) (f r)) x ys) ≡ insert_sorted gt (f x) (map f ys)
  unfolding insert_sorted
  map-insert_sorted x [] = refl
  map-insert_sorted x (y ∷ ys) = elim (Bool-cases (gt (f x) (f y))) [
    | inl later ↦ rw later (ap (λ zs. f y ∷ zs) (map-insert_sorted x ys))
    | inr here ↦ rw here refl
  ]

  pub map-sort : (xs : List A) → map f (sort (λ l r. gt (f l) (f r)) xs) ≡ sort gt (map f xs)
  unfolding sort
  map-sort [] = refl
  map-sort (x ∷ xs) = map-insert_sorted x _ ∙ ap (insert_sorted gt (f x)) (map-sort xs)
