-- ===== src/Admin/Paging.antt =====
-- A client that walks through the pages of admin/admin.service.ts by `nextOffset`.
use inhouse_maker_core_serve.Common.{
  ℕ, zero, suc, ◌+◌, ◌-◌, ◌≤◌, ◌≡◌, refl, ◌∙◌, sym, ap, none, some, List, [], ◌∷◌, ◌++◌, take,
  length, append-nil, ltb, arith, Bool-cases, inl, inr,
}
use inhouse_maker_core_serve.Admin.{drop, page}

-- At most `fuel` pages from an offset on.
unfoldable pub walk : {A : Type 0} → ℕ → ℕ → ℕ → List A → List A
unfolding page
walk zero limit offset rows = []
walk (suc fuel) limit offset rows =
    let p = page limit offset rows in
    p.items ++ elim p.pagination.next_offset [ none ↦ [] | some next ↦ walk fuel limit next rows ]

take-drop : {A : Type 0} (n : ℕ) (xs : List A) → take n xs ++ drop (length (take n xs)) xs ≡ xs
take-drop zero xs = refl
take-drop (suc n) [] = refl
take-drop (suc n) (x ∷ xs) = ap (λ ys. x ∷ ys) (take-drop n xs)

drop_nil : {A : Type 0} (n : ℕ) → drop {A = A} n [] ≡ []
drop_nil zero = refl
drop_nil (suc n) = refl

drop-drop : {A : Type 0} (m n : ℕ) (xs : List A) → drop (m + n) xs ≡ drop n (drop m xs)
drop-drop zero n xs = ap (λ k. drop k xs) (omega arith)
drop-drop (suc m) n [] = drop_nil (suc m + n) ∙ sym (drop_nil n)
drop-drop (suc m) n (x ∷ xs) =
    let shift : suc m + n ≡ suc (m + n) = omega arith in
    ap (λ k. drop k (x ∷ xs)) shift ∙ drop-drop m n xs

length-drop : {A : Type 0} (n : ℕ) (xs : List A) → length (drop n xs) ≡ length xs - n
length-drop zero xs = omega arith
length-drop (suc n) [] = omega arith
length-drop (suc n) (x ∷ xs) = omega (arith, length-drop n xs)

take_all : {A : Type 0} (n : ℕ) (xs : List A) → length xs ≤ length (take n xs) → take n xs ≡ xs
take_all zero [] h = refl
take_all zero (x ∷ xs) h = absurd (omega arith)
take_all (suc n) [] h = refl
take_all (suc n) (x ∷ xs) h = ap (λ ys. x ∷ ys) (take_all n xs (omega arith))

drop_none : {A : Type 0} (n : ℕ) (xs : List A) → length xs ≤ n → drop n xs ≡ []
drop_none zero [] h = refl
drop_none zero (x ∷ xs) h = absurd (omega arith)
drop_none (suc n) [] h = refl
drop_none (suc n) (x ∷ xs) h = drop_none n xs (omega arith)

-- A page that is cut short is not empty, unless nothing is left.
take_some : {A : Type 0} (n : ℕ) (xs : List A) → 1 ≤ n → 1 ≤ length xs → 1 ≤ length (take n xs)
take_some zero xs h k = omega arith
take_some (suc n) [] h k = omega arith
take_some (suc n) (x ∷ xs) h k = omega arith

-- Walking from any offset, with a limit of at least one and as many steps as there are rows left,
-- gives every row from that offset on, each once and in order.
pub walk-drop :
    {A : Type 0} (fuel limit offset : ℕ) (rows : List A)
    → 1 ≤ limit
    → length rows ≤ offset + fuel
    → walk fuel limit offset rows ≡ drop offset rows
unfolding walk page
walk-drop zero limit offset rows h enough = sym (drop_none offset rows (omega arith))
walk-drop (suc fuel) limit offset rows h enough =
    let left = drop offset rows in
    let count = length (take limit left) in
    let size : length left ≡ length rows - offset = length-drop offset rows in
    elim (Bool-cases (ltb (offset + count) (length rows))) [
      | inl more ↦
          let some_left : 1 ≤ count = take_some limit left h (ground arith) in
          rw more (
            rw (walk-drop fuel limit (offset + count) rows h (ground arith))
              (rw (drop-drop offset count rows) (take-drop limit left)))
      | inr last ↦ rw last (append-nil (take limit left) ∙ take_all limit left (ground arith))
    ]
