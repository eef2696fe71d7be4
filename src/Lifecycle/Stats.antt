-- ===== src/Lifecycle/Stats.antt =====
-- The stats that submitQuickResult writes: whose they are, and their status.
use inhouse_maker_core_serve.Common.{
  ℕ, ◌≡◌, refl, sym, true, false, ◌⊎◌, inl, inr, Option, none, some, List, [], ◌∷◌, map, arith,
  if◌then◌else◌, Bool-cases, Option-cases, eq_nat, eq_nat_iff, nat_eq, any, All, Has, All-append,
  All-weaken, find?,
}
use inhouse_maker_core_serve.Model.Enums.{TeamSide, Position, ResultStatus}
use inhouse_maker_core_serve.Model.Rows.{Match, MatchPlayer, PlayerStat, QuickResultPlayer}
use inhouse_maker_core_serve.Matches.Access.{find_player}
use inhouse_maker_core_serve.Matches.Roster.{user_ids}
use inhouse_maker_core_serve.Results.Input.{input_ids}
use inhouse_maker_core_serve.Results.Rows.{
  same_user, updated_stat, created_stat, upsert_stat, seated, upsert_all,
}

-- What holds of the new row, of an old row that it replaces and of the other old rows.
upsert_stat-All :
    (P Q : PlayerStat → Type 0) (new : PlayerStat) (ss : List PlayerStat)
    → Q new
    → ((s : PlayerStat) → same_user new s ≡ true → P s → Q (updated_stat s new))
    → ((s : PlayerStat) → same_user new s ≡ false → P s → Q s)
    → All P ss
    → All Q (upsert_stat new ss)
unfolding upsert_stat
upsert_stat-All P Q new ss created updated kept h = elim (Bool-cases (any (same_user new) ss)) [
  | inl found ↦ rw found (each ss h)
  | inr fresh ↦ rw fresh (All-append Q ss (new ∷ []) (rest ss fresh h) (created, tt))
]
  where
    each :
        (ts : List PlayerStat)
        → All P ts
        → All Q (map (λ s. if same_user new s then updated_stat s new else s) ts)
    each [] h' = tt
    each (t ∷ ts) (ht, h') = elim (Bool-cases (same_user new t)) [
      | inl hit ↦ (rw hit (updated t hit ht), each ts h')
      | inr miss ↦ (rw miss (kept t miss ht), each ts h')
    ]

    rest : (ts : List PlayerStat) → any (same_user new) ts ≡ false → All P ts → All Q ts
    rest [] none_found h' = tt
    rest (t ∷ ts) none_found (ht, h') = (kept t (ground arith) ht, rest ts (ground arith) h')

-- A stat of a user of `us` is still to be written, any other is PARTIAL.
abbrev pub IsDue : List ℕ → PlayerStat → Type 0
IsDue us s = (s.stat_status ≡ ResultStatus.partial) ⊎ Has s.user_id us

put_stat-IsDue :
    (p : QuickResultPlayer) (us : List ℕ) (ss : List PlayerStat) (side : TeamSide) (role : Position)
    → All (IsDue (p.user_id ∷ us)) ss
    → All (IsDue us) (upsert_stat (created_stat side role p) ss)
put_stat-IsDue p us ss side role h =
    upsert_stat-All (IsDue (p.user_id ∷ us)) (IsDue us) (created_stat side role p) ss (inl refl)
      (λ s hit due. inl refl) other h
  where
    other :
        (s : PlayerStat)
        → same_user (created_stat side role p) s ≡ false
        → IsDue (p.user_id ∷ us) s
        → IsDue us s
    other s miss (inl done) = inl done
    other s miss (inr (inl same)) = let t = (eq_nat_iff s.user_id p.user_id).1 same in cc
    other s miss (inr (inr later)) = inr later

-- What the outcome of `upsert_all` holds, if it succeeds.
abbrev pub Written : (List PlayerStat → Type 0) → Option (List PlayerStat) → Type 0
Written P none = Unit
Written P (some ss) = P ss

pub upsert_all-partial :
    (m : Match) (ps : List QuickResultPlayer) (ss : List PlayerStat)
    → All (IsDue (input_ids ps)) ss
    → Written (All (λ s. s.stat_status ≡ ResultStatus.partial)) (upsert_all m ps ss)
unfolding upsert_all
upsert_all-partial m [] ss h =
    All-weaken (IsDue []) (λ s. s.stat_status ≡ ResultStatus.partial) ss done h
  where
    done : (s : PlayerStat) → IsDue [] s → s.stat_status ≡ ResultStatus.partial
    done s (inl e) = e
    done s (inr e) = absurd e
upsert_all-partial m (p ∷ ps) ss h = elim (Option-cases (seated (find_player p.user_id m))) [
  | inl missing ↦ rw (missing, upsert_all) tt
  | inr ((side, role), found) ↦
      rw (found, upsert_all)
        (upsert_all-partial m ps (upsert_stat (created_stat side role p) ss)
          (put_stat-IsDue p (input_ids ps) ss side role h))
]

find_player-Has :
    (u : ℕ) (ps : List MatchPlayer) {p : MatchPlayer}
    → find? (λ q. eq_nat q.user_id u) ps ≡ some p
    → Has u (map (λ q. q.user_id) ps)
find_player-Has u [] e = cc
find_player-Has u (q ∷ ps) {p} e = elim (Bool-cases (eq_nat q.user_id u)) [
  | inl here ↦ inl (sym ((eq_nat_iff q.user_id u).0 here))
  | inr later ↦ inr (find_player-Has u ps {p = p} (ground arith))
]

seated-Has :
    (u : ℕ) (m : Match) {place : TeamSide × Position}
    → seated (find_player u m) ≡ some place
    → Has u (user_ids m)
seated-Has u m e = elim (Option-cases (find_player u m)) [
  | inl missing ↦ ground arith
  | inr (p, found) ↦ find_player-Has u m.players found
]

-- Every stat that is written belongs to a player of the match.
pub upsert_all-of_players :
    (m : Match) (ps : List QuickResultPlayer) (ss : List PlayerStat)
    → All (λ s. Has s.user_id (user_ids m)) ss
    → Written (All (λ s. Has s.user_id (user_ids m))) (upsert_all m ps ss)
unfolding upsert_all
upsert_all-of_players m [] ss h = h
upsert_all-of_players m (p ∷ ps) ss h = elim (Option-cases (seated (find_player p.user_id m))) [
  | inl missing ↦ rw (missing, upsert_all) tt
  | inr ((side, role), found) ↦
      rw (found, upsert_all)
        (upsert_all-of_players m ps (upsert_stat (created_stat side role p) ss) (
          upsert_stat-All (λ s. Has s.user_id (user_ids m)) (λ s. Has s.user_id (user_ids m))
            (created_stat side role p) ss (seated-Has p.user_id m found)
            (λ s hit old. seated-Has p.user_id m found) (λ s miss old. old) h))
]
