-- ===== src/Results/Finality.antt =====
-- What a result that is settled, or was saved before, does to the handlers of
-- results/results.service.ts that would write it.
use inhouse_maker_core_serve.Common.{
  ℕ, Bool, true, false, ◌≡◌, ◌≢◌, refl, Option, some, String, string_eq, arith, inl, inr, nat_eq,
}
use inhouse_maker_core_serve.Model.Enums.{ResultStatus, result_eq}
use inhouse_maker_core_serve.Model.Rows.{Match, MatchResult}
use inhouse_maker_core_serve.Model.World.{World, find_match}
use inhouse_maker_core_serve.Model.Outcome.{ok, Outcome-cases}
use inhouse_maker_core_serve.Model.Action.{◌>>=◌}
use inhouse_maker_core_serve.Results.Input.{QuickResult, balance_feeling}
use inhouse_maker_core_serve.Results.Rows.{Resolution}
use inhouse_maker_core_serve.Results.Guards.{
  Submission, submit_ready, save_ready, resolve_ready, repeats_key, replay_or_save,
}
use inhouse_maker_core_serve.Results.Handlers.{submit_quick_result, submit, admin_resolve_dispute}

abbrev IsReplay : Submission → Type 0
IsReplay (Submission.replay m r) = Unit
IsReplay (Submission.proceed m balance ss) = ⊥

confirmed_not_saved :
    (m : Match) (r : MatchResult) (balance : ℕ) (d : QuickResult) (again : Bool) (s : Submission)
    → m.result ≡ some r
    → r.result_status ≡ ResultStatus.confirmed
    → replay_or_save m balance d (some r) again ≡ ok s
    → IsReplay s
unfolding save_ready
confirmed_not_saved m r balance d true (Submission.replay n r') at_match c e = tt
confirmed_not_saved m r balance d true (Submission.proceed n b ss) at_match c e = cc
confirmed_not_saved m r balance d false (Submission.replay n r') at_match c e = tt
confirmed_not_saved m r balance d false (Submission.proceed n b ss) at_match c e =
    absurd (ground arith)

submit_ready-replays :
    (u k : ℕ) (d : QuickResult) (key : Option String) (w : World) (m : Match) (r : MatchResult)
    (s : Submission)
    → find_match k w.matches ≡ some m
    → m.result ≡ some r
    → r.result_status ≡ ResultStatus.confirmed
    → submit_ready u k d key w ≡ ok s
    → IsReplay s
unfolding submit_ready
submit_ready-replays u k d key w m r s found at_match c e =
    elim (Outcome-cases (balance_feeling d.balance_rating d.balance_feeling)) [
      | inl (balance, f) ↦
          confirmed_not_saved m r balance d (repeats_key key (some r)) s at_match c (ground arith)
      | inr (t, x, f) ↦ absurd (ground arith)
    ]

replay-changes_nothing :
    (u : ℕ) (d : QuickResult) (key : Option String) (w : World) (s : Submission)
    → IsReplay s
    → (submit u d key s w).1 ≡ w
replay-changes_nothing u d key w (Submission.replay m r) h = refl
replay-changes_nothing u d key w (Submission.proceed m balance ss) h = absurd h

-- Whoever submits whatever, under any key: where the match has a CONFIRMED result, the submission
-- changes nothing, neither the result nor the logs nor the queues.
pub submit_quick_result-confirmed :
    (u k : ℕ) (d : QuickResult) (key : Option String) (w : World) (m : Match) (r : MatchResult)
    → find_match k w.matches ≡ some m
    → m.result ≡ some r
    → r.result_status ≡ ResultStatus.confirmed
    → (submit_quick_result u k d key w).1 ≡ w
unfolding submit_quick_result
submit_quick_result-confirmed u k d key w m r found at_match c =
    elim (Outcome-cases (submit_ready u k d key w)) [
      | inl (s, e) ↦
          rw (e, ◌>>=◌)
            (replay-changes_nothing u d key w s
              (submit_ready-replays u k d key w m r s found at_match c e))
      | inr (s, x, e) ↦ rw (e, ◌>>=◌) refl
    ]

resolve_ready-disputed :
    (u k result : ℕ) (d : Resolution) (w : World) (m m' : Match) (r r' : MatchResult)
    (balance : Option ℕ)
    → find_match k w.matches ≡ some m
    → m.result ≡ some r
    → resolve_ready u k result d w ≡ ok (m', r', balance)
    → r.result_status ≡ ResultStatus.disputed
unfolding resolve_ready
resolve_ready-disputed u k result d w m m' r r' balance found at_match e = ground arith

-- An admin's resolution of a result that is not DISPUTED changes nothing.
pub admin_resolve_dispute-undisputed :
    (u k result : ℕ) (d : Resolution) (w : World) (m : Match) (r : MatchResult)
    → find_match k w.matches ≡ some m
    → m.result ≡ some r
    → r.result_status ≢ ResultStatus.disputed
    → (admin_resolve_dispute u k result d w).1 ≡ w
unfolding admin_resolve_dispute
admin_resolve_dispute-undisputed u k result d w m r found at_match undisputed =
    elim (Outcome-cases (resolve_ready u k result d w)) [
      | inl ((m', r', balance), e) ↦
          absurd
            (undisputed (resolve_ready-disputed u k result d w m m' r r' balance found at_match e))
      | inr (s, x, e) ↦ rw (e, ◌>>=◌) refl
    ]
