-- ===== src/Lifecycle/ResultWrites.antt =====
-- The transactions of results/results.service.ts, on a match that their checks let through, and
-- the agreement of its rows.
use inhouse_maker_core_serve.Common.{
  ℕ, ◌+◌, ◌≤◌, ◌≡◌, refl, sym, false, not, inl, inr, Option, none, some, List, [], ◌∷◌, map, arith,
  nat_eq, contains, contains→Has, filter, All, Has, All-append, All-weaken, is_some, ◌∙◌, String,
  ◌==◌,
}
use inhouse_maker_core_serve.Model.Enums.{
  MatchStatus, status_eq, ResultStatus, result_eq, participation_eq,
}
use inhouse_maker_core_serve.Model.Rows.{Match, MatchResult, PlayerStat, Confirmation}
use inhouse_maker_core_serve.Matches.Roster.{user_ids}
use inhouse_maker_core_serve.Results.Rows.{
  saved_result, submitted_rows, finalized_rows, resolved_rows, Resolution, with_stat_status,
  match_status_of, finalized_result, resolved_result, confirmed_time, upsert_all,
}
use inhouse_maker_core_serve.Results.Input.{QuickResult, input_ids, is_nonempty, assert_input_ready}
use inhouse_maker_core_serve.Results.Handlers.{
  ConfirmInput, confirmed_rows, with_confirmation, confirmation,
}
use inhouse_maker_core_serve.Results.Guards.{is_confirmed}
use inhouse_maker_core_serve.Model.Outcome.{ok}
use inhouse_maker_core_serve.Lifecycle.Consistent.{HasStatus, Reflects, IsStamped, IsConsistent}
use inhouse_maker_core_serve.Lifecycle.Stats.{IsDue, upsert_all-partial, upsert_all-of_players}

map-HasStatus :
    (s : ResultStatus) (r : MatchResult) (ss : List PlayerStat)
    → r.result_status ≡ s
    → All (λ t. HasStatus t.stat_status (some r)) (map (with_stat_status s) ss)
map-HasStatus s r [] h = tt
map-HasStatus s r (t ∷ ss) h = (h, map-HasStatus s r ss h)

map-of_players :
    (s : ResultStatus) (us : List ℕ) (ss : List PlayerStat)
    → All (λ t. Has t.user_id us) ss
    → All (λ t. Has t.user_id us) (map (with_stat_status s) ss)
map-of_players s us [] h = tt
map-of_players s us (t ∷ ss) (ht, h) = (ht, map-of_players s us ss h)

-- The part of the result that no status touches.
versions_bounded :
    (o : Option MatchResult) (r : MatchResult)
    → o ≡ some r
    → IsStamped o
    → All (λ c. c.result_version ≤ r.version) r.confirmations
versions_bounded o r e h = let k : IsStamped (some r) = rw e at h in k.1

finalized-Reflects :
    (s : ResultStatus) (r : MatchResult)
    → r.result_status ≡ s
    → Reflects (match_status_of s) (some r)
finalized-Reflects ResultStatus.partial r h = h
finalized-Reflects ResultStatus.confirmed r h = h
finalized-Reflects ResultStatus.disputed r h = h

finalized-stamp :
    (s : ResultStatus) (now : ℕ) → is_some (confirmed_time s now) ≡ (s == ResultStatus.confirmed)
finalized-stamp ResultStatus.partial now = refl
finalized-stamp ResultStatus.confirmed now = refl
finalized-stamp ResultStatus.disputed now = refl

pub finalized_rows-IsConsistent :
    (s : ResultStatus) (now : ℕ) (m : Match) (r : MatchResult)
    → m.result ≡ some r
    → IsConsistent m
    → IsConsistent (finalized_rows s now m r)
unfolding finalized_rows
finalized_rows-IsConsistent s now m r e c = record {
  reflects = finalized-Reflects s (finalized_result s now r) refl;
  stamped = (finalized-stamp s now, versions_bounded m.result r e c.stamped);
  players_distinct = c.players_distinct;
  stats_of_players = map-of_players s (user_ids m) m.stats c.stats_of_players;
  stats_in_step = map-HasStatus s (finalized_result s now r) m.stats refl;
}

weaken_versions :
    (v v' : ℕ) (cs : List Confirmation)
    → v ≤ v'
    → All (λ c. c.result_version ≤ v) cs
    → All (λ c. c.result_version ≤ v') cs
weaken_versions v v' cs h =
    All-weaken (λ c. c.result_version ≤ v) (λ c. c.result_version ≤ v') cs (λ c k. omega arith)

resolved-version-le :
    (now user : ℕ) (d : Resolution) (balance : Option ℕ) (r : MatchResult)
    → r.version ≤ (resolved_result now user d balance r).version
unfolding resolved_result
resolved-version-le now user d balance r = ground arith

pub resolved_rows-IsConsistent :
    (now user : ℕ) (d : Resolution) (balance : Option ℕ) (m : Match) (r : MatchResult)
    → m.result ≡ some r
    → IsConsistent m
    → IsConsistent (resolved_rows now user d balance m r)
unfolding resolved_rows resolved_result
resolved_rows-IsConsistent now user d balance m r e c = record {
  reflects = refl;
  stamped = (
    refl,
    weaken_versions r.version (resolved_result now user d balance r).version r.confirmations
        (resolved-version-le now user d balance r) (versions_bounded m.result r e c.stamped),
  );
  players_distinct = c.players_distinct;
  stats_of_players = map-of_players ResultStatus.confirmed (user_ids m) m.stats c.stats_of_players;
  stats_in_step =
      map-HasStatus ResultStatus.confirmed (resolved_result now user d balance r) m.stats refl;
}

same-HasStatus :
    (o : Option MatchResult) (r r' : MatchResult) (ss : List PlayerStat)
    → o ≡ some r
    → r'.result_status ≡ r.result_status
    → All (λ t. HasStatus t.stat_status o) ss
    → All (λ t. HasStatus t.stat_status (some r')) ss
same-HasStatus o r r' ss e h k =
    All-weaken (λ t. HasStatus t.stat_status (some r)) (λ t. HasStatus t.stat_status (some r')) ss
      (λ t g. h ∙ g) (rw e at k)

same-Reflects :
    (s : MatchStatus) (r r' : MatchResult)
    → r'.result_status ≡ r.result_status
    → Reflects s (some r)
    → Reflects s (some r')
same-Reflects MatchStatus.result_pending r r' h k = h ∙ k
same-Reflects MatchStatus.confirmed r r' h k = h ∙ k
same-Reflects MatchStatus.disputed r r' h k = h ∙ k
same-Reflects MatchStatus.recruiting r r' h k = tt
same-Reflects MatchStatus.locked r r' h k = tt
same-Reflects MatchStatus.balanced r r' h k = tt
same-Reflects MatchStatus.draft r r' h k = absurd k
same-Reflects MatchStatus.in_progress r r' h k = absurd k
same-Reflects MatchStatus.closed r r' h k = absurd k

confirmed-stamp :
    (user : ℕ) (d : ConfirmInput) (now : ℕ) (r : MatchResult)
    → IsStamped (some r)
    → IsStamped (some (with_confirmation user d now r))
confirmed-stamp user d now r (h, k) = (
  h,
  All-append (λ c. c.result_version ≤ r.version) r.confirmations (confirmation user d now r ∷ []) k
      (omega arith, tt),
)

pub confirmed_rows-IsConsistent :
    (user : ℕ) (d : ConfirmInput) (now : ℕ) (m : Match) (r : MatchResult)
    → m.result ≡ some r
    → IsConsistent m
    → IsConsistent (confirmed_rows user d now m r)
unfolding confirmed_rows
confirmed_rows-IsConsistent user d now m r e c = record {
  reflects = same-Reflects m.status r (with_confirmation user d now r) refl (rw e at c.reflects);
  stamped = confirmed-stamp user d now r (rw e at c.stamped);
  players_distinct = c.players_distinct;
  stats_of_players = c.stats_of_players;
  stats_in_step =
      same-HasStatus m.result r (with_confirmation user d now r) m.stats e refl c.stats_in_step;
}

-- Every player of the match is in an input that leaves none out.
covered :
    (x : ℕ) (us xs : List ℕ)
    → is_nonempty (filter (λ u. not (contains u us)) xs) ≡ false
    → Has x xs
    → Has x us
covered x us [] h m = absurd m
covered x us (y ∷ xs) h (inl same) = contains→Has x us (rw same (ground arith))
covered x us (y ∷ xs) h (inr m) = covered x us xs (ground arith) m

ready-covers :
    (m : Match) (d : QuickResult)
    → assert_input_ready m d ≡ ok tt
    → is_nonempty (filter (λ u. not (contains u (input_ids d.players))) (user_ids m)) ≡ false
unfolding assert_input_ready
ready-covers m d h = ground arith

submitted-stamp :
    (fresh now user : ℕ) (d : QuickResult) (balance : ℕ) (key : Option String)
    (o : Option MatchResult)
    → is_confirmed o ≡ false
    → IsStamped o
    → IsStamped (some (saved_result fresh now user d balance key o))
unfolding saved_result
submitted-stamp fresh now user d balance key none h s = (refl, tt)
submitted-stamp fresh now user d balance key (some r) h (s, v) =
    (ground arith, weaken_versions r.version (r.version + 1) r.confirmations (omega arith) v)

submitted-partial :
    (fresh now user : ℕ) (d : QuickResult) (balance : ℕ) (key : Option String)
    (o : Option MatchResult)
    → (saved_result fresh now user d balance key o).result_status ≡ ResultStatus.partial
unfolding saved_result
submitted-partial fresh now user d balance key none = refl
submitted-partial fresh now user d balance key (some r) = refl

pub submitted_rows-IsConsistent :
    (fresh now user : ℕ) (d : QuickResult) (balance : ℕ) (key : Option String) (m : Match)
    (ss : List PlayerStat)
    → is_confirmed m.result ≡ false
    → assert_input_ready m d ≡ ok tt
    → upsert_all m d.players m.stats ≡ some ss
    → IsConsistent m
    → IsConsistent (submitted_rows m (saved_result fresh now user d balance key m.result) ss)
submitted_rows-IsConsistent fresh now user d balance key m ss unconfirmed ready e c =
    let r = saved_result fresh now user d balance key m.result in
    let due =
      All-weaken (λ s. Has s.user_id (user_ids m)) (IsDue (input_ids d.players)) m.stats
        (λ s h.
          inr (covered s.user_id (input_ids d.players) (user_ids m) (ready-covers m d ready) h))
        c.stats_of_players in
    record {
      reflects = submitted-partial fresh now user d balance key m.result;
      stamped = submitted-stamp fresh now user d balance key m.result unconfirmed c.stamped;
      players_distinct = c.players_distinct;
      stats_of_players = rw e at (upsert_all-of_players m d.players m.stats c.stats_of_players);
      stats_in_step =
          All-weaken (λ s. s.stat_status ≡ ResultStatus.partial)
            (λ s. HasStatus s.stat_status (some r)) ss
            (λ s h. submitted-partial fresh now user d balance key m.result ∙ sym h)
            (rw e at (upsert_all-partial m d.players m.stats due));
    }
