-- ===== src/Matches/Effects.antt =====
-- What lockMatch and reopenMatch of matches/matches.service.ts leave in the match's row.
use inhouse_maker_core_serve.Common.{
  ℕ, ◌≡◌, refl, true, Option, none, some, List, [], ◌∷◌, map, arith, inl, inr, All, length, eq_nat,
  ◌∙◌, ◌⊎◌,
}
use mathlib.Core.Path.{subst, sym}
use inhouse_maker_core_serve.Model.Enums.{MatchStatus, ParticipationStatus}
use inhouse_maker_core_serve.Model.Rows.{Match, MatchPlayer, MatchResult}
use inhouse_maker_core_serve.Model.World.{World, find_match, put_match, find_match-put_match}
use inhouse_maker_core_serve.Model.Outcome.{HttpStatus, AppErrorCode, err, ok, Outcome-cases}
use inhouse_maker_core_serve.Model.Action.{◌>>=◌}
use inhouse_maker_core_serve.Matches.Roster.{lock_rows, reopen_rows, unassign, without_result}
use inhouse_maker_core_serve.Matches.Guards.{lock_ready, reopen_ready}
use inhouse_maker_core_serve.Matches.Handlers.{lock_match, reopen_match}

length-map : {A B : Type 0} (f : A → B) (xs : List A) → length (map f xs) ≡ length xs
length-map f [] = refl
length-map f (x ∷ xs) = omega (arith, length-map f xs)

find_match-id :
    (k : ℕ) (ms : List Match) (m : Match) → find_match k ms ≡ some m → eq_nat m.id k ≡ true
find_match-id k [] m e = cc
find_match-id k (n ∷ ms) m e = ground (arith, find_match-id k ms m)

-- The row that a write replaces is the one that a lookup then finds.
pub find-saved :
    (k : ℕ) (ms : List Match) (m m' : Match)
    → find_match k ms ≡ some m
    → m'.id ≡ m.id
    → find_match k (put_match m' ms) ≡ some m'
find-saved k ms m m' e same =
    let at_k : eq_nat m.id k ≡ true = find_match-id k ms m e in
    let mk : m.id ≡ k = ground arith in
    let old : find_match m'.id ms ≡ some m =
      subst (λ i. find_match i ms ≡ some m) (sym (same ∙ mk)) e in
    find_match-put_match k m' ms {old = m} old ∙ rw (same, at_k) refl

All-map :
    (P : MatchPlayer → Type 0) (f : MatchPlayer → MatchPlayer) (ps : List MatchPlayer)
    → ((p : MatchPlayer) → P (f p))
    → All P (map f ps)
All-map P f [] h = tt
All-map P f (p ∷ ps) h = (h p, All-map P f ps h)

lock_ready-full :
    (u k : ℕ) (w : World) (m : Match)
    → lock_ready u k w ≡ ok m
    → (find_match k w.matches ≡ some m) × (length m.players ≡ 10)
unfolding lock_ready
lock_ready-full u k w m e = (ground arith, ground arith)

-- A match that was locked: ten players, all LOCKED_IN.
pub record IsLockedUp (m : Match) : Type 0 where
  pub status : m.status ≡ MatchStatus.locked
  pub full : length m.players ≡ 10
  pub locked_in : All (λ p. p.participation_status ≡ ParticipationStatus.locked_in) m.players

abbrev pub Stored : (Match → Type 0) → ℕ → World → Type 0
Stored P k w = (m : Match) × (find_match k w.matches ≡ some m) × P m

locked_up : (m : Match) → length m.players ≡ 10 → IsLockedUp (lock_rows m)
unfolding lock_rows
locked_up m ten = record {
  status = refl;
  full = length-map _ m.players ∙ ten;
  locked_in = All-map _ _ m.players (λ p. refl);
}

-- Whoever locks a match: if the checks pass, the stored match is LOCKED with ten players, all
-- LOCKED_IN; if one fails,
-- the answer is its error and nothing is changed.
pub lock_match-effect :
    (u k : ℕ) (w : World)
    → ((m : Match) × (lock_ready u k w ≡ ok m) × Stored IsLockedUp k (lock_match u k w).1)
      ⊎ ((s : HttpStatus) × (c : AppErrorCode) × (lock_ready u k w ≡ err s c)
          × (lock_match u k w ≡ (err s c, w)))
unfolding lock_match lock_rows
lock_match-effect u k w = elim (Outcome-cases (lock_ready u k w)) [
  | inl (m, e) ↦ inl (
    m,
    e,
    rw (e, ◌>>=◌)
        (
          lock_rows m,
          find-saved k w.matches m (lock_rows m) (lock_ready-full u k w m e).0 refl,
          locked_up m (lock_ready-full u k w m e).1,
        ),
  )
  | inr (s, c, e) ↦ inr (s, c, e, rw (e, ◌>>=◌) refl)
]

-- A match that was reopened: recruiting, with no result, no candidates and no teams.
pub record IsOpenAgain (m : Match) : Type 0 where
  pub status : m.status ≡ MatchStatus.recruiting
  pub no_result : m.result ≡ none
  pub no_candidates : m.candidates ≡ none
  pub unassigned :
      All
        (λ p.
          (p.team_side ≡ none)
          × (p.assigned_role ≡ none)
          × (p.participation_status ≡ ParticipationStatus.accepted))
        m.players

result-without_result :
    (o : Option MatchResult) (m : Match) → m.result ≡ o → (without_result o m).result ≡ none
result-without_result none m e = e
result-without_result (some r) m e = refl

open_again : (m : Match) → IsOpenAgain (reopen_rows m)
unfolding reopen_rows
open_again m = record {
  status = refl;
  no_result = result-without_result m.result m refl;
  no_candidates = refl;
  unassigned = All-map _ unassign m.players (λ p. (refl, refl, refl));
}

id-without_result : (o : Option MatchResult) (m : Match) → (without_result o m).id ≡ m.id
id-without_result none m = refl
id-without_result (some r) m = refl

reopen_ready-found :
    (u k : ℕ) (w : World) (m : Match) → reopen_ready u k w ≡ ok m → find_match k w.matches ≡ some m
unfolding reopen_ready
reopen_ready-found u k w m e = ground arith

same_id : (m : Match) → (reopen_rows m).id ≡ m.id
unfolding reopen_rows
same_id m = id-without_result m.result m

-- Whoever reopens a match: if the checks pass, the stored match is RECRUITING with no result, no
-- candidates, and its players ACCEPTED without team and role; if one fails,
-- the answer is its error and nothing is changed.
pub reopen_match-effect :
    (u k : ℕ) (w : World)
    → ((m : Match) × (reopen_ready u k w ≡ ok m) × Stored IsOpenAgain k (reopen_match u k w).1)
      ⊎ ((s : HttpStatus) × (c : AppErrorCode) × (reopen_ready u k w ≡ err s c)
          × (reopen_match u k w ≡ (err s c, w)))
unfolding reopen_match
reopen_match-effect u k w = elim (Outcome-cases (reopen_ready u k w)) [
  | inl (m, e) ↦ inl (
    m,
    e,
    rw (e, ◌>>=◌)
        (
          reopen_rows m,
          find-saved k w.matches m (reopen_rows m) (reopen_ready-found u k w m e) (same_id m),
          open_again m,
        ),
  )
  | inr (s, c, e) ↦ inr (s, c, e, rw (e, ◌>>=◌) refl)
]
