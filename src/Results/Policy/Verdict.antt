-- ===== src/Results/Policy/Verdict.antt =====
-- What a verdict of the confirmation policy rests on, said of the confirmations themselves.
use inhouse_maker_core_serve.Common.{
  ℕ, ◌≤◌, ◌<◌, ◌*◌, ◌≡◌, ◌⊎◌, Bool, true, not, ◌&&◌, inl, inr, Option, List, arith, Bool-cases, any,
  filter, length, All, Exists, All-weaken, Exists-weaken, all→All, nat_eq,
}
use inhouse_maker_core_serve.Model.Enums.{TeamSide, ResultStatus}
use inhouse_maker_core_serve.Model.Rows.{Confirmation}
use inhouse_maker_core_serve.Results.Policy.{
  by_user, is_confirm, opposes, captain_confirms, captains_confirmed, reaches_quorum,
  evaluate_latest, latest_by_user, evaluate,
}
use inhouse_maker_core_serve.Results.Policy.Voters.{
  IsNewest, Says, Stands, Says-of_Stands, Voters, voters, standing, by_user_both, Exists-elim,
}

captain-Says :
    (cs : List Confirmation) (k : ℕ)
    → captain_confirms (latest_by_user cs) k ≡ true
    → Says is_confirm cs k
captain-Says cs k h =
    Exists-elim (λ c. Stands cs c × ((by_user k c && is_confirm c) ≡ true)) (latest_by_user cs)
      (λ c p.
        let (u, yea) = by_user_both is_confirm k c p.1 in
        rw (← u) (Says-of_Stands is_confirm cs c p.0 yea))
      (standing (λ c. by_user k c && is_confirm c) cs h)

-- Two or more captains, each of whose newest confirmation is CONFIRM.
abbrev pub CaptainsAgree : List ℕ → List Confirmation → Type 0
CaptainsAgree captains cs = (2 ≤ length captains) × All (Says is_confirm cs) captains

-- Different users who last said CONFIRM, at least seven tenths as many as the number of participants.
-- It is not asked whether they are among those who are counted.
abbrev pub Quorum : ℕ → List Confirmation → Type 0
Quorum n cs = (0 < n) × Voters is_confirm cs (λ k. 7 * n ≤ 10 * k)

-- A newest confirmation names another winner than the result does.
abbrev pub Contested : Option TeamSide → List Confirmation → Type 0
Contested winner cs = Exists (λ c. IsNewest cs c × (opposes winner c ≡ true)) cs

captains_agree :
    (captains : List ℕ) (cs : List Confirmation)
    → captains_confirmed captains (latest_by_user cs) ≡ true
    → CaptainsAgree captains cs
unfolding captains_confirmed
captains_agree captains cs h = (
  ground arith,
  All-weaken (λ k. captain_confirms (latest_by_user cs) k ≡ true) (Says is_confirm cs) captains
      (captain-Says cs) (all→All (captain_confirms (latest_by_user cs)) captains (ground arith)),
)

Quorum-of_reaches :
    (n : ℕ) (cs : List Confirmation)
    → reaches_quorum n (length (filter is_confirm (latest_by_user cs))) ≡ true
    → Quorum n cs
unfolding reaches_quorum
Quorum-of_reaches n cs h = (ground arith, voters is_confirm cs (λ k. 7 * n ≤ 10 * k) (ground arith))

contested :
    (winner : Option TeamSide) (cs : List Confirmation)
    → any (opposes winner) (latest_by_user cs) ≡ true
    → Contested winner cs
contested winner cs h =
    Exists-elim (λ c. Stands cs c × (opposes winner c ≡ true)) (latest_by_user cs)
      (λ c p.
        Exists-weaken (λ d. d ≡ c) (λ d. IsNewest cs d × (opposes winner d ≡ true)) cs
          (λ d same. rw same (p.0.1, p.1)) p.0.0)
      (standing (opposes winner) cs h)

abbrev pub objects : Confirmation → Bool
objects c = not (is_confirm c)

-- The policy confirms a result only if it is given two or more captains and each of them last said
-- CONFIRM, or if the different users who last said CONFIRM, whoever they are, are at least seven
-- tenths of the number of participants that it is given.
pub evaluate-confirmed :
    (n : ℕ) (captains : List ℕ) (winner : Option TeamSide) (cs : List Confirmation)
    → evaluate n captains winner cs ≡ ResultStatus.confirmed
    → CaptainsAgree captains cs ⊎ Quorum n cs
unfolding evaluate evaluate_latest
evaluate-confirmed n captains winner cs h =
    elim (Bool-cases (captains_confirmed captains (latest_by_user cs))) [
      | inl yea ↦ inl (captains_agree captains cs yea)
      | inr nay ↦ inr (Quorum-of_reaches n cs (ground arith))
    ]

-- A result is disputed only if two different users last said something else than CONFIRM, or a
-- newest confirmation names another winner.
pub evaluate-disputed :
    (n : ℕ) (captains : List ℕ) (winner : Option TeamSide) (cs : List Confirmation)
    → evaluate n captains winner cs ≡ ResultStatus.disputed
    → Voters objects cs (λ k. 2 ≤ k) ⊎ Contested winner cs
unfolding evaluate evaluate_latest
evaluate-disputed n captains winner cs h =
    elim (Bool-cases (any (opposes winner) (latest_by_user cs))) [
      | inl yea ↦ inr (contested winner cs yea)
      | inr nay ↦ inl (voters objects cs (λ k. 2 ≤ k) (ground arith))
    ]
