-- ===== src/Matchmaking/Rerolled.antt =====
-- What reroll of matchmaking/matchmaking.service.ts offers and leaves behind.
use inhouse_maker_core_serve.Common.{
  All-weaken, ℕ, ◌≤◌, ◌≡◌, refl, sym, ap, ◌∙◌, Bool, true, false, not, ◌⊎◌, inl, inr, Option, none,
  some, List, ◌++◌, map, arith, eq_nat, contains, length, All, Option-cases, string_eq,
}
use inhouse_maker_core_serve.Model.Rows.{Match}
use inhouse_maker_core_serve.Model.World.{World, find_match, put_match}
use inhouse_maker_core_serve.Model.Outcome.{
  Outcome, ok, err, ◌>>=◌, ◌>>◌, reject_if, or_reject, Outcome-cases, HttpStatus, AppErrorCode,
}
use inhouse_maker_core_serve.Model.Action.{
  Action, ◌>>=◌ as bind, ◌>>◌ as and_then, bind-ok, bind-err, check, pure, save_match,
}
use inhouse_maker_core_serve.Matches.Access.{assert_host_or_captain, match_with_players}
use inhouse_maker_core_serve.Matchmaking.Metrics.{Doubles}
use inhouse_maker_core_serve.Matchmaking.Candidates.{KeyTexts, CandidateOptions, Candidate, head_of}
use inhouse_maker_core_serve.Matchmaking.Locks.{IsLegal}
use inhouse_maker_core_serve.Matchmaking.Chosen.{generate_candidates-AreFresh}
use inhouse_maker_core_serve.Matchmaking.Service.{
  balanced_rows, Reroll, reroll_options, PowerEntry, rated_player, stored_candidate,
  participants_of, Participant, blocking_reasons, is_empty, candidates_for, candidates_ready,
  previous_ids, player_ids,
}
use inhouse_maker_core_serve.Matchmaking.History.{build_match_history_context}
use mathlib.Core.Path.{subst}
use inhouse_maker_core_serve.Matchmaking.Kept.{KeepsLocks, team-KeepsLocks}
use inhouse_maker_core_serve.Model.Enums.{TeamSide}
use inhouse_maker_core_serve.Matchmaking.Handlers.{generate_and_persist, reroll}

-- The steps of candidates_ready, whatever they read and check.
abbrev steps :
    {A P C F : Type 0}
    → Option A
    → (A → Option P)
    → (A → Bool)
    → (A → Bool)
    → (A → P → List C)
    → (List C → Option F)
    → Outcome (A × List C × F)
steps o users ten unblocked generate head = do
  x ← or_reject o HttpStatus.not_found AppErrorCode.match_not_found
  ps ← or_reject (users x) HttpStatus.internal_server_error AppErrorCode.database_error
  reject_if (not (ten x)) HttpStatus.bad_request AppErrorCode.match_balance_invalid
  reject_if (not (unblocked x)) HttpStatus.bad_request AppErrorCode.match_balance_invalid
  let made = generate x ps
  best ← or_reject (head made) HttpStatus.bad_request AppErrorCode.match_balance_invalid
  ok (x, made, best)

steps-ok :
    {A P C F : Type 0} (o : Option A) (users : A → Option P) (ten unblocked : A → Bool)
    (generate : A → P → List C) (head : List C → Option F) (m : A) (cs : List C) (first : F)
    → steps o users ten unblocked generate head ≡ ok (m, cs, first)
    → (ps : P) × (o ≡ some m)
      × (users m ≡ some ps)
      × (ten m ≡ true)
      × (unblocked m ≡ true)
      × (cs ≡ generate m ps)
      × (head cs ≡ some first)
steps-ok none users ten unblocked generate head m cs first e = cc
steps-ok (some x) users ten unblocked generate head m cs first e = elim (Option-cases (users x)) [
  | inl missing ↦ ground arith
  | inr (ps, joined) ↦ elim (Option-cases (head (generate x ps))) [
    | inl missing ↦ ground arith
    | inr (best, found) ↦
        let same : x ≡ m = ground arith in
        let made : generate x ps ≡ cs = ground arith in
        (ps, ground arith, ground arith, ground arith, ground arith, ground arith, ground arith)
  ]
]

module _ (d : Doubles) (texts : KeyTexts) (powers : List (PowerEntry d)) where
  -- What candidates_ready has read and generated when it lets a request through.
  record IsReady (k : ℕ) (locked : List ℕ) (options : CandidateOptions) (w : World) (m : Match)
      (cs : List (Candidate d)) (first : Candidate d) (ps : List Participant) : Type 0 where
    found : find_match k w.matches ≡ some m
    users : participants_of w.users m.players ≡ some ps
    ten : eq_nat (length m.players) 10 ≡ true
    unblocked : is_empty (blocking_reasons m locked) ≡ true
    generated : cs ≡ candidates_for d texts powers k m locked options ps w
    best : head_of d texts cs ≡ some first

  candidates_ready-IsReady :
      (k : ℕ) (locked : List ℕ) (options : CandidateOptions) (w : World) (m : Match)
      (cs : List (Candidate d)) (first : Candidate d)
      → candidates_ready d texts powers k locked options w ≡ ok (m, cs, first)
      → (ps : List Participant) × IsReady k locked options w m cs first ps
  unfolding candidates_ready match_with_players
  candidates_ready-IsReady k locked options w m cs first e =
      let (ps, found, users, ten, unblocked, generated, best) =
        steps-ok (find_match k w.matches) (λ m. participants_of w.users m.players)
          (λ m. eq_nat (length m.players) 10) (λ m. is_empty (blocking_reasons m locked))
          (λ m ps. candidates_for d texts powers k m locked options ps w) (head_of d texts) m cs
          first e in
      (
        ps,
        record {
          found = found;
          users = users;
          ten = ten;
          unblocked = unblocked;
          generated = generated;
          best = best;
        },
      )

  module _ (user k : ℕ) (r : Reroll) (w : World) where
    -- A reroll that was answered: the row after it, and which candidates it offers.
    pub record IsRerolled (m : Match) (ps : List Participant) (cs : List (Candidate d))
        (first : Candidate d) : Type 0 where
      pub found : find_match k w.matches ≡ some m
      pub users : participants_of w.users m.players ≡ some ps
      pub best : head_of d texts cs ≡ some first
      pub answered : reroll d texts powers user k r w ≡ (
        ok cs,
        record w {
          matches = put_match (balanced_rows first.mode (map (stored_candidate d) cs) m) w.matches;
        },
      )
      pub unblocked : is_empty (blocking_reasons m r.locked_player_ids) ≡ true
      pub few : length cs ≤ 3
      pub offered :
          All
            (λ c.
              (contains c.candidate_id (previous_ids m ++ r.exclude_candidate_ids) ≡ false)
              × IsLegal d (map (rated_player d powers r.locked_player_ids) ps) c.split)
            cs
      pub kept :
          All
            (λ c.
              KeepsLocks d r.locked_player_ids m.players TeamSide.team_a c.split.team_a
              × KeepsLocks d r.locked_player_ids m.players TeamSide.team_b c.split.team_b)
            cs

    offered-KeepsLocks :
        (m : Match) (ps : List Participant) (cs : List (Candidate d))
        → participants_of w.users m.players ≡ some ps
        → is_empty (blocking_reasons m r.locked_player_ids) ≡ true
        → All
            (λ c.
              (contains c.candidate_id (previous_ids m ++ r.exclude_candidate_ids) ≡ false)
              × IsLegal d (map (rated_player d powers r.locked_player_ids) ps) c.split)
            cs
        → All
            (λ c.
              KeepsLocks d r.locked_player_ids m.players TeamSide.team_a c.split.team_a
              × KeepsLocks d r.locked_player_ids m.players TeamSide.team_b c.split.team_b)
            cs
    offered-KeepsLocks m ps cs joined free offered =
        All-weaken _ _ cs
          (λ c h. (
            team-KeepsLocks d powers r.locked_player_ids w.users m ps TeamSide.team_a c.split.team_a
                joined free h.1.team_a,
            team-KeepsLocks d powers r.locked_player_ids w.users m ps TeamSide.team_b c.split.team_b
                joined free h.1.team_b,
          ))
          offered

    abbrev then_generate : Match → Action (List (Candidate d))
    then_generate m = generate_and_persist d texts powers k r.locked_player_ids (reroll_options r m)

    abbrev then_read : Unit {0} → Action (List (Candidate d))
    then_read x = bind (check (match_with_players k)) then_generate

    abbrev then_write : Match × List (Candidate d) × Candidate d → Action (List (Candidate d))
    then_write x =
        and_then (save_match (balanced_rows x.2.mode (map (stored_candidate d) x.1) x.0)) (pure x.1)

    reroll-reads :
        (m : Match)
        → assert_host_or_captain k user AppErrorCode.forbidden w ≡ ok tt
        → match_with_players k w ≡ ok m
        → reroll d texts powers user k r w
          ≡ generate_and_persist d texts powers k r.locked_player_ids (reroll_options r m) w
    unfolding reroll
    reroll-reads m allowed read =
        bind-ok (check (assert_host_or_captain k user AppErrorCode.forbidden)) then_read w tt w
          (ap (λ o. (o, w)) allowed)
        ∙ bind-ok (check (match_with_players k)) then_generate w m w (ap (λ o. (o, w)) read)

    persist-ok :
        (options : CandidateOptions) (m : Match) (cs : List (Candidate d)) (first : Candidate d)
        → candidates_ready d texts powers k r.locked_player_ids options w ≡ ok (m, cs, first)
        → generate_and_persist d texts powers k r.locked_player_ids options w ≡ (
          ok cs,
          record w {
            matches =
                put_match (balanced_rows first.mode (map (stored_candidate d) cs) m) w.matches;
          },
        )
    unfolding generate_and_persist
    persist-ok options m cs first e =
        bind-ok (check (candidates_ready d texts powers k r.locked_player_ids options)) then_write w
          (m, cs, first) w (ap (λ o. (o, w)) e)

    persist-err :
        (options : CandidateOptions) (s : HttpStatus) (c : AppErrorCode)
        → candidates_ready d texts powers k r.locked_player_ids options w ≡ err s c
        → generate_and_persist d texts powers k r.locked_player_ids options w ≡ (err s c, w)
    unfolding generate_and_persist
    persist-err options s c e =
        bind-err (check (candidates_ready d texts powers k r.locked_player_ids options)) then_write
          w s c w (ap (λ o. (o, w)) e)

    ready-IsRerolled :
        (read m : Match) (cs : List (Candidate d)) (first : Candidate d)
        → find_match k w.matches ≡ some read
        → candidates_ready d texts powers k r.locked_player_ids (reroll_options r read) w
          ≡ ok (m, cs, first)
        → reroll d texts powers user k r w
          ≡ generate_and_persist d texts powers k r.locked_player_ids (reroll_options r read) w
        → (ps : List Participant) × IsRerolled m ps cs first
    ready-IsRerolled read m cs first there e reads =
        let (ps, ready) =
          candidates_ready-IsReady k r.locked_player_ids (reroll_options r read) w m cs first e in
        let same : read ≡ m = cc in
        let (few, offered, fresh, served) =
          generate_candidates-AreFresh d texts (map (rated_player d powers r.locked_player_ids) ps)
            (some (build_match_history_context d m.group_id k (player_ids m) w))
            (reroll_options r read) in
        let on_offer : All
            (λ c.
              (contains c.candidate_id (previous_ids m ++ r.exclude_candidate_ids) ≡ false)
              × IsLegal d (map (rated_player d powers r.locked_player_ids) ps) c.split)
            cs =
          subst
            (λ xs.
              All
                (λ c.
                  (contains c.candidate_id (previous_ids m ++ r.exclude_candidate_ids) ≡ false)
                  × IsLegal d (map (rated_player d powers r.locked_player_ids) ps) c.split)
                xs)
            (sym ready.generated)
            (subst
              (λ x.
                All
                  (λ c.
                    (contains c.candidate_id (previous_ids x ++ r.exclude_candidate_ids) ≡ false)
                    × IsLegal d (map (rated_player d powers r.locked_player_ids) ps) c.split)
                  (candidates_for d texts powers k m r.locked_player_ids (reroll_options r read) ps
                    w))
              same offered) in
        (
          ps,
          record {
            found = ready.found;
            users = ready.users;
            best = ready.best;
            answered = reads ∙ persist-ok (reroll_options r read) m cs first e;
            unblocked = ready.unblocked;
            few = subst (λ xs. length xs ≤ 3) (sym ready.generated) few;
            offered = on_offer;
            kept = offered-KeepsLocks m ps cs ready.users ready.unblocked on_offer;
          },
        )

    -- A reroll either is refused and leaves the world as it was, or it answers with at most three
    -- candidates for the players of a match that nothing blocks, and writes them and the mode of the
    -- first to the match. None of them has an id of a candidate that was stored before, or an id that
    -- the request excludes; the seats of each team are the five lanes; and each seat is for a player
    -- of the match, who has that team and that role in the match already if the request locks the
    -- player.
    pub reroll-IsRerolled :
        ((s : HttpStatus) × (c : AppErrorCode) × (reroll d texts powers user k r w ≡ (err s c, w)))
        ⊎ ((m : Match) × (cs : List (Candidate d)) × (first : Candidate d) × (ps : List Participant)
            × IsRerolled m ps cs first)
    unfolding reroll match_with_players
    reroll-IsRerolled =
        elim (Outcome-cases (assert_host_or_captain k user AppErrorCode.forbidden w)) [
          | inr (s, c, refused) ↦ inl (
            s,
            c,
            bind-err (check (assert_host_or_captain k user AppErrorCode.forbidden)) then_read w s c
                w (ap (λ o. (o, w)) refused),
          )
          | inl (x, allowed) ↦ elim (Option-cases (find_match k w.matches)) [
            | inl missing ↦ inl (
              HttpStatus.not_found,
              AppErrorCode.match_not_found,
              bind-ok (check (assert_host_or_captain k user AppErrorCode.forbidden)) then_read w tt
                    w (ap (λ o. (o, w)) allowed)
                  ∙ bind-err (check (match_with_players k)) then_generate w HttpStatus.not_found
                      AppErrorCode.match_not_found w (ap (λ o. (o, w)) (rw missing refl)),
            )
            | inr (read, there) ↦
                let reads = reroll-reads read allowed (rw there refl) in
                elim (Outcome-cases (
                  candidates_ready d texts powers k r.locked_player_ids (reroll_options r read)
                    w)) [
                      | inl ((m, cs, first), e) ↦
                          let (ps, done) = ready-IsRerolled read m cs first there e reads in
                          inr (m, cs, first, ps, done)
                      | inr (s, c, e) ↦
                          inl (s, c, reads ∙ persist-err (reroll_options r read) s c e)
                    ]
          ]
        ]
