-- ===== src/Matchmaking/Chosen.antt =====
-- The choice of one candidate for each mode at the end of generateCandidates:
-- matchmaking/matchmaking-algorithm.service.ts.
use inhouse_maker_core_serve.Common.{
  ℕ, ◌+◌, ◌≤◌, ◌≡◌, refl, sym, Bool, true, false, not, Option, none, some, List, [], ◌∷◌, map,
  arith, inl, inr, ◌⊎◌, string_eq, eq_nat, Bool-cases, Option-cases, find?, find?-holds, contains,
  length, All, Exists, All-find?-none, All-of_filter, All-of_map, All-weaken, All-map, All-find?,
  All-filter_holds, String,
}
use mathlib.Core.Path.{subst, ◌∙◌}
use inhouse_maker_core_serve.Common.Sorting.Laws.{All-sort, All-of_sort}
use inhouse_maker_core_serve.Model.Enums.{BalanceMode}
use inhouse_maker_core_serve.Matchmaking.Metrics.{Doubles, RatedPlayer, HistoryContext}
use inhouse_maker_core_serve.Matchmaking.Splits.{Split, split_candidates}
use inhouse_maker_core_serve.Matchmaking.Candidates.{
  KeyTexts, CandidateOptions, Candidate, combination_key_of, candidate_id_of, candidate_of, ranked,
  head_of, selected, select_all, unique_modes, generate_candidates,
}
use inhouse_maker_core_serve.Matchmaking.Locks.{IsLegal, split_candidates-IsLegal}

not-true : (b : Bool) → not b ≡ true → b ≡ false
not-true true h = cc
not-true false h = refl

not-false : (b : Bool) → not b ≡ false → b ≡ true
not-false true h = refl
not-false false h = cc

different : {n m : ℕ} → n ≡ m → eq_nat n m ≡ false → ⊥
different {n} {m} same e = ground arith

module _ (d : Doubles) (texts : KeyTexts) where
  All-head :
      (P : Candidate d → Type 0) (cs : List (Candidate d)) (c : Candidate d)
      → All P cs
      → head_of d texts cs ≡ some c
      → P c
  All-head P [] c h e = cc
  All-head P (x ∷ xs) c (hx, h) e = let same : x ≡ c = cc in subst P same hx

  All-selected :
      (P : Candidate d → Type 0) (used : List String) (cs : List (Candidate d)) (c : Candidate d)
      → All P cs
      → selected d texts used cs ≡ some c
      → P c
  unfolding selected
  All-selected P used cs c h e =
      elim (Option-cases (find? (λ r. not (contains r.combination_key used)) cs)) [
        | inl nothing ↦ All-head P cs c h (rw (nothing, selected) at e)
        | inr (x, found) ↦
            let out : some x ≡ some c = rw (found, selected) at e in
            All-find? P _ cs h (found ∙ out)
      ]

  selected-Fresh :
      (used : List String) (cs : List (Candidate d)) (c : Candidate d)
      → selected d texts used cs ≡ some c
      → (contains c.combination_key used ≡ false)
        ⊎ All (λ r. contains r.combination_key used ≡ true) cs
  unfolding selected
  selected-Fresh used cs c e =
      elim (Option-cases (find? (λ r. not (contains r.combination_key used)) cs)) [
        | inl nothing ↦ inr (All-weaken _ _ cs (λ r. not-false _) (All-find?-none _ cs nothing))
        | inr (x, found) ↦
            let out : some x ≡ some c = rw (found, selected) at e in
            inl (
              not-true _
                (find?-holds (λ r. not (contains r.combination_key used)) cs c (found ∙ out)))
      ]

  selected-none :
      (P : Candidate d → Type 0) (used : List String) (cs : List (Candidate d))
      → selected d texts used cs ≡ none
      → All P cs
  unfolding selected
  selected-none P used [] e = tt
  selected-none P used (x ∷ xs) e =
      elim (Option-cases (find? (λ r. not (contains r.combination_key used)) (x ∷ xs))) [
        | inl nothing ↦ let no : some x ≡ none = rw (nothing, selected) at e in absurd (cc)
        | inr (y, found) ↦ let no : some y ≡ none = rw (found, selected) at e in absurd (cc)
      ]

  module _ (options : CandidateOptions) (splits : List (Split d)) where
    -- The key of the split is used, or its candidate of that mode is excluded.
    abbrev pub IsTaken : BalanceMode → List String → Split d → Type 0
    IsTaken mode used s =
        let key = combination_key_of d texts s.team_a in
        (contains (candidate_id_of key mode) options.excluded_candidate_ids ≡ true)
        ⊎ (contains key used ≡ true)

    -- Each candidate has a key that is not used before it, or there was no split with such a key.
    abbrev pub AreFresh : List String → List (Candidate d) → Type 0
    AreFresh used [] = Unit
    AreFresh used (c ∷ cs) =
        ((contains c.combination_key used ≡ false) ⊎ All (IsTaken c.mode used) splits)
        × AreFresh (c.combination_key ∷ used) cs

    -- A candidate is not excluded, and its split is one with the property.
    abbrev IsOffered : (Split d → Type 0) → Candidate d → Type 0
    IsOffered P c = (contains c.candidate_id options.excluded_candidate_ids ≡ false) × P c.split

    ranked-All :
        (P : Split d → Type 0) (mode : BalanceMode) (index : ℕ)
        → All P splits
        → All (λ c. (c.mode ≡ mode) × IsOffered P c) (ranked d texts options splits mode index)
    unfolding ranked candidate_of
    ranked-All P mode index h = All-sort _ _ _ (
        All-weaken _ _ _ (λ c kept. (kept.0.0, (not-true _ kept.1, kept.0.1)))
          (All-filter_holds _ _ (map (candidate_of d texts mode index) splits) (
            All-map (λ c. (c.mode ≡ mode) × P c.split) (candidate_of d texts mode index) splits
              (All-weaken _ _ splits (λ s hs. (refl, hs)) h))))

    ranked-Taken :
        (mode : BalanceMode) (index : ℕ) (used : List String)
        → All
            (λ r. contains r.combination_key used ≡ true)
            (ranked d texts options splits mode index)
        → All (IsTaken mode used) splits
    unfolding ranked candidate_of
    ranked-Taken mode index used h =
        All-weaken _ _ splits
          (λ s why. elim why [ inl excluded ↦ inl (not-false _ excluded) | inr taken ↦ inr taken ])
          (All-of_map _ (candidate_of d texts mode index) splits (
            All-of_filter _ _ (map (candidate_of d texts mode index) splits)
              (All-of_sort _ (λ r. contains r.combination_key used ≡ true) _ h)))

    -- The candidate of a split in a mode is excluded.
    abbrev pub IsExcluded : BalanceMode → Split d → Type 0
    IsExcluded mode s =
        contains (candidate_id_of (combination_key_of d texts s.team_a) mode)
          options.excluded_candidate_ids
        ≡ true

    -- A mode has a candidate, or all candidates in the mode are excluded.
    abbrev pub IsServed : List (Candidate d) → BalanceMode → Type 0
    IsServed cs mode = Exists (λ c. c.mode ≡ mode) cs ⊎ All (IsExcluded mode) splits

    ranked-Excluded :
        (mode : BalanceMode) (index : ℕ)
        → All (λ c. true ≡ false) (ranked d texts options splits mode index)
        → All (IsExcluded mode) splits
    unfolding ranked candidate_of
    ranked-Excluded mode index h =
        All-weaken _ _ splits
          (λ s why. elim why [ inl excluded ↦ not-false _ excluded | inr never ↦ cc ])
          (All-of_map _ (candidate_of d texts mode index) splits (
            All-of_filter _ _ (map (candidate_of d texts mode index) splits)
              (All-of_sort _ (λ c. true ≡ false) _ h)))

    later-IsServed :
        (c : Candidate d) (cs : List (Candidate d)) (mode : BalanceMode)
        → IsServed cs mode
        → IsServed (c ∷ cs) mode
    later-IsServed c cs mode (inl found) = inl (inr found)
    later-IsServed c cs mode (inr excluded) = inr excluded

    -- What the candidates for some modes, with keys that are used before them, satisfy.
    abbrev AreSelected :
        (Split d → Type 0) → List BalanceMode → List String → List (Candidate d) → Type 0
    AreSelected P modes used cs =
        (length cs ≤ length modes)
        × All (IsOffered P) cs
        × AreFresh used cs
        × All (IsServed cs) modes

    selected-cons :
        (P : Split d → Type 0) (mode : BalanceMode) (modes : List BalanceMode) (index : ℕ)
        (used : List String) (c : Candidate d) (cs : List (Candidate d))
        → All P splits
        → selected d texts used (ranked d texts options splits mode index) ≡ some c
        → AreSelected P modes (c.combination_key ∷ used) cs
        → AreSelected P (mode ∷ modes) used (c ∷ cs)
    selected-cons P mode modes index used c cs h found (few, offered, fresh, served) =
        let (for_mode, mine) =
          All-selected (λ r. (r.mode ≡ mode) × IsOffered P r) used _ c (ranked-All P mode index h)
            found in
        let new : (contains c.combination_key used ≡ false) ⊎ All (IsTaken c.mode used) splits =
          elim (selected-Fresh used _ c found) [
            | inl unused ↦ inl unused
            | inr all_used ↦ inr (
                subst (λ m. All (IsTaken m used) splits) (sym for_mode)
                  (ranked-Taken mode index used all_used))
          ] in
        (
          omega arith,
          (mine, offered),
          (new, fresh),
          (inl (inl for_mode), All-weaken _ _ modes (later-IsServed c cs) served),
        )

    select_all-skip :
        (mode : BalanceMode) (modes : List BalanceMode) (index : ℕ) (used : List String)
        → selected d texts used (ranked d texts options splits mode index) ≡ none
        → select_all d texts options splits modes (index + 1) used
          ≡ select_all d texts options splits (mode ∷ modes) index used
    unfolding select_all
    select_all-skip mode modes index used nothing = rw (nothing, select_all) refl

    select_all-take :
        (mode : BalanceMode) (modes : List BalanceMode) (index : ℕ) (used : List String)
        (c : Candidate d)
        → selected d texts used (ranked d texts options splits mode index) ≡ some c
        → c ∷ select_all d texts options splits modes (index + 1) (c.combination_key ∷ used)
          ≡ select_all d texts options splits (mode ∷ modes) index used
    unfolding select_all
    select_all-take mode modes index used c found = rw (found, select_all) refl

    select_all-AreSelected :
        (P : Split d → Type 0) (modes : List BalanceMode) (index : ℕ) (used : List String)
        → All P splits
        → AreSelected P modes used (select_all d texts options splits modes index used)
    unfolding select_all
    select_all-AreSelected P [] index used h = (omega arith, tt, tt, tt)
    select_all-AreSelected P (mode ∷ modes) index used h =
        elim (Option-cases (selected d texts used (ranked d texts options splits mode index))) [
          | inl nothing ↦
              let (few, offered, fresh, served) =
                select_all-AreSelected P modes (index + 1) used h in
              subst (AreSelected P (mode ∷ modes) used)
                (select_all-skip mode modes index used nothing)
                (
                  omega arith,
                  offered,
                  fresh,
                  (inr (ranked-Excluded mode index (selected-none _ used _ nothing)), served),
                )
          | inr (c, found) ↦
              subst (AreSelected P (mode ∷ modes) used)
                (select_all-take mode modes index used c found)
                (selected-cons P mode modes index used c _ h found
                  (select_all-AreSelected P modes (index + 1) (c.combination_key ∷ used) h))
        ]

  -- generateCandidates returns at most three candidates. None of them has an excluded id. The seats of
  -- each of its teams are the five lanes in order, and each seat is held by one of the players whose
  -- locked role and locked team allow that seat. The combination key of each is neither an excluded
  -- key nor the key of a candidate before it, unless every split of the players has such a key or an
  -- excluded id in that mode. For ten players, each of the three modes has a candidate unless every
  -- split has an excluded id in it.
  pub generate_candidates-AreFresh :
      (players : List (RatedPlayer d)) (history : Option (HistoryContext d))
      (options : CandidateOptions)
      → let cs = generate_candidates d texts players history options in
        (length cs ≤ 3)
        × All
            (λ c.
              (contains c.candidate_id options.excluded_candidate_ids ≡ false)
              × IsLegal d players c.split)
            cs
        × AreFresh options (split_candidates d history players) options.excluded_combination_keys cs
        × ((length players ≡ 10)
            → All (IsServed options (split_candidates d history players) cs) (unique_modes d texts))
  unfolding generate_candidates
  generate_candidates-AreFresh players history options =
      elim (Bool-cases (eq_nat (length players) 10)) [
        | inl ten ↦
            let (few, offered, fresh, served) =
              select_all-AreSelected options (split_candidates d history players)
                (IsLegal d players) (unique_modes d texts) 0 options.excluded_combination_keys
                (split_candidates-IsLegal d history players) in
            rw (ten, generate_candidates) (few, offered, fresh, λ _. served)
        | inr wrong ↦
            rw (wrong, generate_candidates)
              (omega arith, tt, tt, λ ten. absurd (different ten wrong))
      ]
