-- ===== src/Common/Lists.antt =====
-- Lists as the code uses its arrays: tests by Boolean callbacks, lengths in native numbers.
use Prim.Native.Nat.{ℕ, zero, suc, ◌+◌, ◌≤◌}
use mathlib.Core.Path.{◌≡◌, refl}
use mathlib.Core.Logic.{◌⊎◌, inl, inr}
use mathlib.Core.Bool.{Bool, true, false, ◌&&◌, ◌||◌}
use mathlib.Core.Option.{Option, none, some}
use mathlib.Core.List.{List, [], ◌∷◌, ◌++◌, map}
use native.Mathlib.Omega.{arith}
use inhouse_maker_core_serve.Common.Tests.{if◌then◌else◌, Eq, Bool-cases, is_some}

module _ {ℓ} {A : Type ℓ} where
  abbrev pub length : List A → ℕ
  length [] = 0
  length (x ∷ xs) = suc (length xs)

  abbrev pub get_elem? : List A → ℕ → Option A
  get_elem? [] i = none
  get_elem? (x ∷ xs) zero = some x
  get_elem? (x ∷ xs) (suc i) = get_elem? xs i

  abbrev pub take : ℕ → List A → List A
  take zero xs = []
  take (suc n) [] = []
  take (suc n) (x ∷ xs) = x ∷ take n xs

  -- `every`, `some`, `filter`, `find` and the first element.
  abbrev pub all : (A → Bool) → List A → Bool
  all p [] = true
  all p (x ∷ xs) = p x && all p xs

  abbrev pub any : (A → Bool) → List A → Bool
  any p [] = false
  any p (x ∷ xs) = p x || any p xs

  abbrev pub filter : (A → Bool) → List A → List A
  filter p [] = []
  filter p (x ∷ xs) = if p x then x ∷ filter p xs else filter p xs

  abbrev pub find? : (A → Bool) → List A → Option A
  find? p [] = none
  find? p (x ∷ xs) = if p x then some x else find? p xs

  -- The predicates behind them. `Exists` keeps its witness.
  abbrev pub All {κ} : (A → Type κ) → List A → Type κ
  All P [] = Unit
  All P (x ∷ xs) = P x × All P xs

  abbrev pub Exists : (A → Type 0) → List A → Type 0
  Exists P [] = ⊥
  Exists P (x ∷ xs) = P x ⊎ Exists P xs

  pub length-append : (xs ys : List A) → length (xs ++ ys) ≡ length xs + length ys
  length-append [] ys = omega arith
  length-append (x ∷ xs) ys = omega (arith, length-append xs ys)

  pub length-filter-le : (p : A → Bool) (xs : List A) → length (filter p xs) ≤ length xs
  length-filter-le p [] = omega arith
  length-filter-le p (x ∷ xs) = ground (arith, length-filter-le p xs)

  pub all→All : (p : A → Bool) (xs : List A) → all p xs ≡ true → All (λ x. p x ≡ true) xs
  all→All p [] h = tt
  all→All p (x ∷ xs) h = ground (arith, all→All p xs)

  pub any-append : (p : A → Bool) (xs ys : List A) → any p (xs ++ ys) ≡ (any p xs || any p ys)
  any-append p [] ys = refl
  any-append p (x ∷ xs) ys = ground (arith, any-append p xs ys)

  pub is_some-find? : (p : A → Bool) (xs : List A) → is_some (find? p xs) ≡ any p xs
  is_some-find? p [] = refl
  is_some-find? p (x ∷ xs) = ground (arith, is_some-find? p xs)

  pub any→Exists : (p : A → Bool) (xs : List A) → any p xs ≡ true → Exists (λ x. p x ≡ true) xs
  any→Exists p [] h = cc
  any→Exists p (x ∷ xs) h = elim (Bool-cases (p x)) [
    | inl here ↦ inl here
    | inr miss ↦ inr (any→Exists p xs (ground arith))
  ]

  pub Exists→any : (p : A → Bool) (xs : List A) → Exists (λ x. p x ≡ true) xs → any p xs ≡ true
  Exists→any p [] h = absurd h
  Exists→any p (x ∷ xs) (inl h) = ground arith
  Exists→any p (x ∷ xs) (inr h) = ground (arith, Exists→any p xs h)

  pub find?-holds : (p : A → Bool) (xs : List A) (x : A) → find? p xs ≡ some x → p x ≡ true
  find?-holds p [] x h = cc
  find?-holds p (y ∷ xs) x h = ground (arith, find?-holds p xs x)

module _ {ℓ κ} {A : Type ℓ} (P : A → Type κ) where
  pub All-find? : (p : A → Bool) (xs : List A) {x : A} → All P xs → find? p xs ≡ some x → P x
  All-find? p [] h e = cc
  All-find? p (y ∷ xs) {x} (hy, h) e = elim (Bool-cases (p y)) [
    | inl hit ↦ let same : some y ≡ some x = ground arith in let out : y ≡ x = cc in rw (← out) hy
    | inr miss ↦ All-find? p xs h (ground arith)
  ]

  pub All-append : (xs ys : List A) → All P xs → All P ys → All P (xs ++ ys)
  All-append [] ys h k = k
  All-append (x ∷ xs) ys (hx, h) k = (hx, All-append xs ys h k)

  pub All-filter : (p : A → Bool) (xs : List A) → All P xs → All P (filter p xs)
  All-filter p [] h = tt
  All-filter p (x ∷ xs) h = ground (arith, All-filter p xs h.1)

  -- What a filter keeps has passed its test.
  pub All-filter_holds :
      (p : A → Bool) (xs : List A) → All P xs → All (λ x. P x × (p x ≡ true)) (filter p xs)
  All-filter_holds p [] h = tt
  All-filter_holds p (x ∷ xs) (hx, h) = elim (Bool-cases (p x)) [
    | inl kept ↦ rw kept ((hx, kept), All-filter_holds p xs h)
    | inr dropped ↦ rw dropped (All-filter_holds p xs h)
  ]

module _ {ℓ} {A : Type ℓ} (P Q : A → Type 0) where
  pub Exists-weaken : (xs : List A) → ((x : A) → P x → Q x) → Exists P xs → Exists Q xs
  Exists-weaken [] f h = h
  Exists-weaken (x ∷ xs) f (inl h) = inl (f x h)
  Exists-weaken (x ∷ xs) f (inr h) = inr (Exists-weaken xs f h)

  pub All-weaken : (xs : List A) → ((x : A) → P x → Q x) → All P xs → All Q xs
  All-weaken [] f h = tt
  All-weaken (x ∷ xs) f (hx, h) = (f x hx, All-weaken xs f h)

  -- What holds of all elements holds of one that has some property besides.
  pub All-Exists : (xs : List A) → All P xs → Exists Q xs → Exists (λ x. P x × Q x) xs
  All-Exists [] h e = e
  All-Exists (x ∷ xs) (hx, h) (inl q) = inl (hx, q)
  All-Exists (x ∷ xs) (hx, h) (inr e) = inr (All-Exists xs h e)

pub All-map {ℓ κ} :
    {A : Type ℓ} {B : Type κ} (P : B → Type 0) (f : A → B) (xs : List A)
    → All (λ x. P (f x)) xs
    → All P (map f xs)
All-map P f [] h = tt
All-map P f (x ∷ xs) (hx, h) = (hx, All-map P f xs h)

pub All-take {ℓ} :
    {A : Type ℓ} (P : A → Type 0) (n : ℕ) (xs : List A) → All P xs → All P (take n xs)
All-take P zero xs h = tt
All-take P (suc n) [] h = tt
All-take P (suc n) (x ∷ xs) (hx, h) = (hx, All-take P n xs h)

-- `new Set(xs).has(x)`, and the distinct elements in order of first occurrence.
module _ {A : Type 0} ⦃e : Eq A⦄ where
  abbrev pub contains : A → List A → Bool
  contains x [] = false
  contains x (y ∷ ys) = e.beq x y || contains x ys

  abbrev pub Has : A → List A → Type 0
  Has x [] = ⊥
  Has x (y ∷ ys) = (x ≡ y) ⊎ Has x ys

  abbrev pub IsDistinct : List A → Type 0
  IsDistinct [] = Unit
  IsDistinct (x ∷ xs) = ¬ Has x xs × IsDistinct xs

  -- `new Set(xs).size`
  abbrev pub count_distinct : List A → ℕ
  count_distinct [] = 0
  count_distinct (x ∷ xs) = if contains x xs then count_distinct xs else suc (count_distinct xs)

  -- The elements that occur earlier too, `xs.filter((x, i) => xs.indexOf(x) !== i)`.
  abbrev pub repeated : List A → List A → List A
  repeated seen [] = []
  repeated seen (x ∷ xs) =
      if contains x seen then x ∷ repeated (x ∷ seen) xs else repeated (x ∷ seen) xs

  pub contains→Has : (x : A) (ys : List A) → contains x ys ≡ true → Has x ys
  contains→Has x [] h = cc
  contains→Has x (y ∷ ys) h = elim (Bool-cases (e.beq x y)) [
    | inl same ↦ inl ((e.beq_iff x y).0 same)
    | inr other ↦ inr (contains→Has x ys (ground arith))
  ]

  pub Has→contains : (x : A) (ys : List A) → Has x ys → contains x ys ≡ true
  Has→contains x [] h = absurd h
  Has→contains x (y ∷ ys) (inl h) = let t = (e.beq_iff x y).1 h in ground arith
  Has→contains x (y ∷ ys) (inr h) = let t = Has→contains x ys h in ground arith

  pub Has-append_left : (x : A) (xs ys : List A) → Has x xs → Has x (xs ++ ys)
  Has-append_left x [] ys h = absurd h
  Has-append_left x (y ∷ xs) ys (inl h) = inl h
  Has-append_left x (y ∷ xs) ys (inr h) = inr (Has-append_left x xs ys h)

  pub Has-append_right : (x : A) (xs ys : List A) → Has x ys → Has x (xs ++ ys)
  Has-append_right x [] ys h = h
  Has-append_right x (y ∷ xs) ys h = inr (Has-append_right x xs ys h)
