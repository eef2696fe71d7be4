-- ===== src/Common/Found.antt =====
-- What a filter, a map or a search of a list says of the elements of the list.
use Prim.Native.Nat.{ℕ, zero, suc}
use mathlib.Core.Path.{◌≡◌, sym, subst}
use mathlib.Core.Logic.{◌⊎◌, inl, inr}
use mathlib.Core.Bool.{Bool, false}
use mathlib.Core.Option.{none, some}
use mathlib.Core.List.{List, [], ◌∷◌, map}
use inhouse_maker_core_serve.Common.Tests.{Bool-cases}
use inhouse_maker_core_serve.Common.Lists.{All, Exists, filter, find?, get_elem?}

pub All-find?-none :
    {A : Type 0} (p : A → Bool) (xs : List A) → find? p xs ≡ none → All (λ x. p x ≡ false) xs
All-find?-none p [] e = tt
All-find?-none p (x ∷ xs) e = elim (Bool-cases (p x)) [
  | inl hit ↦ let no : some x ≡ none = rw hit at e in absurd (cc)
  | inr miss ↦ (miss, All-find?-none p xs (rw miss at e))
]

pub All-of_filter :
    {A : Type 0} (P : A → Type 0) (p : A → Bool) (xs : List A)
    → All P (filter p xs)
    → All (λ x. (p x ≡ false) ⊎ P x) xs
All-of_filter P p [] h = tt
All-of_filter P p (x ∷ xs) h = elim (Bool-cases (p x)) [
  | inl kept ↦
      let both : P x × All P (filter p xs) = rw kept at h in
      (inr both.0, All-of_filter P p xs both.1)
  | inr dropped ↦ (inl dropped, All-of_filter P p xs (rw dropped at h))
]

pub All-of_map :
    {A B : Type 0} (P : B → Type 0) (f : A → B) (xs : List A)
    → All P (map f xs)
    → All (λ x. P (f x)) xs
All-of_map P f [] h = tt
All-of_map P f (x ∷ xs) (hx, h) = (hx, All-of_map P f xs h)

pub Exists-map :
    {A B : Type 0} (P : B → Type 0) (f : A → B) (xs : List A)
    → Exists P (map f xs)
    → Exists (λ x. P (f x)) xs
Exists-map P f [] h = absurd h
Exists-map P f (x ∷ xs) (inl h) = inl h
Exists-map P f (x ∷ xs) (inr h) = inr (Exists-map P f xs h)

pub get_elem?-Exists :
    {A : Type 0} (P : A → Type 0) (xs : List A) (i : ℕ) (x : A)
    → get_elem? xs i ≡ some x
    → P x
    → Exists P xs
get_elem?-Exists P [] i x e h = cc
get_elem?-Exists P (y ∷ ys) zero x e h = let same : y ≡ x = cc in inl (subst P (sym same) h)
get_elem?-Exists P (y ∷ ys) (suc i) x e h = inr (get_elem?-Exists P ys i x e h)
