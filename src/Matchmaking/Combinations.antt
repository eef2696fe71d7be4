-- ===== src/Matchmaking/Combinations.antt =====
-- The ways of choosing a team by index: buildCombinations in
-- matchmaking/matchmaking-algorithm.service.ts.
use inhouse_maker_core_serve.Common.{
  ℕ, zero, suc, ◌+◌, ◌≤◌, ◌<◌, ◌≡◌, ◌↔◌, ◌⊎◌, refl, sym, ap, ◌∙◌, List, [], ◌∷◌, ◌++◌, arith, inl,
  inr, length, Exists, append_assoc, append-nil,
}
use mathlib.Core.Path.{subst}

-- `backtrack`, with the number of indices from `start` on in place of `size` and the number still
-- to be chosen in place of `choose`: the loop takes `start`, or goes on without it.
unfoldable pub choose_from : (left start remaining : ℕ) (current : List ℕ) → List (List ℕ)
choose_from zero start zero current = current ∷ []
choose_from zero start (suc n) current = []
choose_from (suc left) start zero current = current ∷ []
choose_from (suc left) start (suc n) current =
    choose_from left (suc start) n (current ++ start ∷ [])
    ++ choose_from left (suc start) (suc n) current

unfoldable pub build_combinations : (size choose : ℕ) → List (List ℕ)
build_combinations size choose = choose_from size 0 choose []

-- Indices in ascending order, from `start` on and below `size`.
abbrev pub Rises : (start size : ℕ) → List ℕ → Type 0
Rises start size [] = Unit
Rises start size (i ∷ is) = (start ≤ i) × (i < size) × Rises (suc i) size is

module _ {A : Type 0} (P : A → Type 0) where
  Exists-left : (xs ys : List A) → Exists P xs → Exists P (xs ++ ys)
  Exists-left [] ys h = absurd h
  Exists-left (x ∷ xs) ys (inl h) = inl h
  Exists-left (x ∷ xs) ys (inr h) = inr (Exists-left xs ys h)

  Exists-right : (xs ys : List A) → Exists P ys → Exists P (xs ++ ys)
  Exists-right [] ys h = h
  Exists-right (x ∷ xs) ys h = inr (Exists-right xs ys h)

  Exists-append : (xs ys : List A) → Exists P (xs ++ ys) → Exists P xs ⊎ Exists P ys
  Exists-append [] ys h = inr h
  Exists-append (x ∷ xs) ys (inl h) = inl (inl h)
  Exists-append (x ∷ xs) ys (inr h) = elim (Exists-append xs ys h) [
    | inl e ↦ inl (inr e)
    | inr e ↦ inr e
  ]

Rises-lower : (start size : ℕ) (is : List ℕ) → Rises (suc start) size is → Rises start size is
Rises-lower start size [] h = h
Rises-lower start size (i ∷ is) (low, high, rest) = (omega arith, high, rest)

le_cases : (m n : ℕ) → m ≤ n → (m ≡ n) ⊎ (suc m ≤ n)
le_cases zero zero h = inl refl
le_cases zero (suc n) h = inr (omega arith)
le_cases (suc m) zero h = omega arith
le_cases (suc m) (suc n) h = elim (le_cases m n (omega arith)) [
  | inl same ↦ inl (ap suc same)
  | inr less ↦ inr (omega arith)
]

-- What is listed goes on from the indices chosen so far.
unfoldable Continues : (size start remaining : ℕ) (current c : List ℕ) → Type 0
Continues size start remaining current c =
    (d : List ℕ) × (c ≡ current ++ d) × Rises start size d × (length d ≡ remaining)

choose_from-Continues :
    (size left start n : ℕ) (current c : List ℕ)
    → start + left ≡ size
    → Exists (λ e. c ≡ e) (choose_from left start n current)
    → Continues size start n current c
unfolding choose_from Continues
choose_from-Continues size zero start zero current c at (inl h) =
    ([], h ∙ sym (append-nil current), tt, refl)
choose_from-Continues size zero start zero current c at (inr h) = absurd h
choose_from-Continues size zero start (suc n) current c at h = absurd h
choose_from-Continues size (suc left) start zero current c at (inl h) =
    ([], h ∙ sym (append-nil current), tt, refl)
choose_from-Continues size (suc left) start zero current c at (inr h) = absurd h
choose_from-Continues size (suc left) start (suc n) current c at h =
    elim (Exists-append (λ e. c ≡ e) (choose_from left (suc start) n (current ++ start ∷ []))
      (choose_from left (suc start) (suc n) current) h) [
        | inl taken ↦
            let (d, same, rises, len) =
              choose_from-Continues size left (suc start) n (current ++ start ∷ []) c (omega arith)
                taken in
            (
              start ∷ d,
              same ∙ append_assoc current (start ∷ []) d,
              (omega arith, omega arith, rises),
              omega arith,
            )
        | inr passed ↦
            let (d, same, rises, len) =
              choose_from-Continues size left (suc start) (suc n) current c (omega arith) passed in
            (d, same, Rises-lower start size d rises, len)
      ]

choose_from-lists :
    (size left start n : ℕ) (current d : List ℕ)
    → start + left ≡ size
    → Rises start size d
    → length d ≡ n
    → Exists (λ e. current ++ d ≡ e) (choose_from left start n current)
unfolding choose_from
choose_from-lists size zero start zero current [] at h len = inl (append-nil current)
choose_from-lists size zero start zero current (i ∷ d) at h len = omega arith
choose_from-lists size zero start (suc n) current [] at h len = omega arith
choose_from-lists size zero start (suc n) current (i ∷ d) at (low, high, rest) len = omega arith
choose_from-lists size (suc left) start zero current [] at h len = inl (append-nil current)
choose_from-lists size (suc left) start zero current (i ∷ d) at h len = omega arith
choose_from-lists size (suc left) start (suc n) current [] at h len = absurd (omega arith)
choose_from-lists size (suc left) start (suc n) current (i ∷ d) at (low, high, rest) len =
    elim (le_cases start i low) [
      | inl same ↦
          Exists-left (λ e. current ++ i ∷ d ≡ e)
            (choose_from left (suc start) n (current ++ start ∷ []))
            (choose_from left (suc start) (suc n) current)
            (subst
              (λ j.
                Exists (λ e. current ++ j ∷ d ≡ e)
                  (choose_from left (suc start) n (current ++ start ∷ [])))
              same
              (subst
                (λ a. Exists (λ e. a ≡ e) (choose_from left (suc start) n (current ++ start ∷ [])))
                (append_assoc current (start ∷ []) d)
                (choose_from-lists size left (suc start) n (current ++ start ∷ []) d (omega arith)
                  (subst (λ j. Rises (suc j) size d) (sym same) rest) (omega arith))))
      | inr later ↦
          Exists-right (λ e. current ++ i ∷ d ≡ e)
            (choose_from left (suc start) n (current ++ start ∷ []))
            (choose_from left (suc start) (suc n) current)
            (choose_from-lists size left (suc start) (suc n) current (i ∷ d) (omega arith)
              (later, high, rest) len)
    ]

-- Exactly the lists of `choose` indices below `size` in ascending order are combinations.
pub build_combinations-Rises :
    (size choose : ℕ) (c : List ℕ)
    → Exists (λ e. c ≡ e) (build_combinations size choose) ↔ (Rises 0 size c × (length c ≡ choose))
unfolding build_combinations Continues
build_combinations-Rises size choose c = (
  (λ h.
      let (d, same, rises, len) = choose_from-Continues size size 0 choose [] c (omega arith) h in
      (subst (λ e. Rises 0 size e) (sym same) rises, ap length same ∙ len)),
  (λ h. choose_from-lists size size 0 choose [] c (omega arith) h.0 h.1),
)
