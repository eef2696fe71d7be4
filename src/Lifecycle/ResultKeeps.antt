-- ===== src/Lifecycle/ResultKeeps.antt =====
-- The handlers of results/results.service.ts one by one, and the agreement of the rows of every
-- match, also where they throw.
use inhouse_maker_core_serve.Common.{
  ℕ, ◌≡◌, refl, ◌∙◌, true, Bool, false, Option, some, none, arith, String, inl, inr, Bool-cases,
  Option-cases, ◌==◌, find?, All-find?, length,
}
use mathlib.Core.Path.{subst, ap, sym}
use inhouse_maker_core_serve.Model.Enums.{ResultStatus, result_eq}
use inhouse_maker_core_serve.Model.Rows.{Match, MatchResult}
use inhouse_maker_core_serve.Model.World.{World, AuditAction, find_match}
use inhouse_maker_core_serve.Model.Outcome.{ok, Outcome-cases}
use inhouse_maker_core_serve.Model.Action.{
  ◌>>=◌, ◌>>◌, pure, save_match, audit, matches-create_notifications, world_then_pure,
}
use inhouse_maker_core_serve.Results.Input.{QuickResult, assert_input_ready, balance_feeling}
use inhouse_maker_core_serve.Results.Rows.{
  Resolution, verdict, finalized_rows, resolved_rows, saved_result, submitted_rows, upsert_all,
}
use inhouse_maker_core_serve.Results.Guards.{
  Submission, replay_or_save, repeats_key, submit_ready, save_ready, confirm_ready, finalize_ready,
  resolve_ready, holds_result, is_confirmed, submission_response,
}
use inhouse_maker_core_serve.Results.Handlers.{
  ConfirmInput, confirmed_rows, submit_quick_result, submit, finalize_result_status, confirm_result,
  admin_resolve_dispute, on_transition, announce,
}
use inhouse_maker_core_serve.Lifecycle.Consistent.{IsConsistent}
use inhouse_maker_core_serve.Lifecycle.ResultWrites.{
  finalized_rows-IsConsistent, resolved_rows-IsConsistent, confirmed_rows-IsConsistent,
  submitted_rows-IsConsistent,
}
use inhouse_maker_core_serve.Lifecycle.MatchKeeps.{
  AllConsistent, found-IsConsistent, saved-AllConsistent,
}

matches-on_transition :
    (s : ResultStatus) (m : Match) (r : MatchResult) (w : World)
    → (on_transition s m r w).1.matches ≡ w.matches
matches-on_transition ResultStatus.partial m r w = refl
matches-on_transition ResultStatus.confirmed m r w = matches-create_notifications _ _
matches-on_transition ResultStatus.disputed m r w = matches-create_notifications _ _

matches-announce :
    (s : ResultStatus) (m : Match) (r : MatchResult) (w : World)
    → (announce s m r w).1.matches ≡ w.matches
unfolding announce
matches-announce s m r w = elim (Bool-cases (s == r.result_status)) [
  | inl same ↦ rw same refl
  | inr other ↦ rw other (matches-on_transition s m r w)
]

matches-announce_then :
    (s : ResultStatus) (m : Match) (r : MatchResult) (w : World)
    → ((announce s m r >>= λ _. pure s) w).1.matches ≡ w.matches
matches-announce_then s m r w =
    ap (λ (v : World). v.matches) (world_then_pure (announce s m r) (λ _. s) w)
    ∙ matches-announce s m r w

finalize_ready-found :
    (result : ℕ) (w : World) (m : Match) (r : MatchResult)
    → finalize_ready result w ≡ ok (m, r)
    → (find? (holds_result result) w.matches ≡ some m) × (m.result ≡ some r)
unfolding finalize_ready
finalize_ready-found result w m r e = (ground arith, ground arith)

finalized-IsConsistent :
    (result : ℕ) (w : World) (m : Match) (r : MatchResult)
    → AllConsistent w
    → finalize_ready result w ≡ ok (m, r)
    → IsConsistent (finalized_rows (verdict m r) w.now m r)
finalized-IsConsistent result w m r h e =
    let (found, at_match) = finalize_ready-found result w m r e in
    finalized_rows-IsConsistent (verdict m r) w.now m r at_match
      (All-find? IsConsistent (holds_result result) w.matches h found)

pub finalize_result_status-keeps :
    (result : ℕ) (enqueue_followup : Bool) (w : World)
    → AllConsistent w
    → AllConsistent (finalize_result_status result enqueue_followup w).1
unfolding finalize_result_status
finalize_result_status-keeps result enqueue_followup w h =
    elim (Outcome-cases (finalize_ready result w)) [
      | inl ((m, r), e) ↦
          rw (e, ◌>>=◌)
            (rw matches-announce_then (
              saved-AllConsistent (finalized_rows (verdict m r) w.now m r) w
                (finalized-IsConsistent result w m r h e) h))
      | inr (s, c, e) ↦ rw (e, ◌>>=◌) h
    ]

confirm_ready-found :
    (u k result : ℕ) (w : World) (m : Match) (r : MatchResult)
    → confirm_ready u k result w ≡ ok (m, r)
    → (find_match k w.matches ≡ some m) × (m.result ≡ some r)
unfolding confirm_ready
confirm_ready-found u k result w m r e = (ground arith, ground arith)

answered_keeps :
    (k : ℕ) (r : MatchResult) (n now : ℕ) (w : World)
    → AllConsistent w
    → AllConsistent
        ((finalize_result_status r.id true >>= λ s.
            pure (submission_response k (record r { result_status = s; updated_at = now }) n))
          w).1
answered_keeps k r n now w h =
    subst (λ (v : World). AllConsistent v)
      (sym (
        world_then_pure (finalize_result_status r.id true)
          (λ s. submission_response k (record r { result_status = s; updated_at = now }) n) w))
      (finalize_result_status-keeps r.id true w h)

pub confirm_result-keeps :
    (u k result : ℕ) (d : ConfirmInput) (w : World)
    → AllConsistent w
    → AllConsistent (confirm_result u k result d w).1
unfolding confirm_result
confirm_result-keeps u k result d w h = elim (Outcome-cases (confirm_ready u k result w)) [
  | inl ((m, r), e) ↦
      let (found, at_match) = confirm_ready-found u k result w m r e in
      rw (e, ◌>>=◌)
        (answered_keeps k r (length m.players) w.now (saved_and_audited m r) (
          saved-AllConsistent (confirmed_rows u d w.now m r) w
            (confirmed_rows-IsConsistent u d w.now m r at_match (found-IsConsistent k w h found))
            h))
  | inr (s, c, e) ↦ rw (e, ◌>>=◌) h
]
  where
    saved_and_audited : Match → MatchResult → World
    saved_and_audited m r =
        ((save_match (confirmed_rows u d w.now m r)
            >> audit (some u) AuditAction.result_confirmation_updated r.id)
          w).1

resolve_ready-found :
    (u k result : ℕ) (d : Resolution) (w : World) (m : Match) (r : MatchResult) (balance : Option ℕ)
    → resolve_ready u k result d w ≡ ok (m, r, balance)
    → (find_match k w.matches ≡ some m) × (m.result ≡ some r)
unfolding resolve_ready
resolve_ready-found u k result d w m r balance e = (ground arith, ground arith)

pub admin_resolve_dispute-keeps :
    (u k result : ℕ) (d : Resolution) (w : World)
    → AllConsistent w
    → AllConsistent (admin_resolve_dispute u k result d w).1
unfolding admin_resolve_dispute
admin_resolve_dispute-keeps u k result d w h = elim (Outcome-cases (resolve_ready u k result d w)) [
  | inl ((m, r, balance), e) ↦
      let (found, at_match) = resolve_ready-found u k result d w m r balance e in
      rw (e, ◌>>=◌, matches-create_notifications)
        (saved-AllConsistent (resolved_rows w.now u d balance m r) w
          (resolved_rows-IsConsistent w.now u d balance m r at_match
            (found-IsConsistent k w h found))
          h)
  | inr (s, c, e) ↦ rw (e, ◌>>=◌) h
]

-- What is known of a submission that goes on to save.
abbrev MaySave : QuickResult → Match → Submission → Type 0
MaySave d m (Submission.replay n r) = Unit
MaySave d m (Submission.proceed n balance ss) =
    (n ≡ m)
    × (is_confirmed m.result ≡ false)
    × (assert_input_ready m d ≡ ok tt)
    × (upsert_all m d.players m.stats ≡ some ss)

save_ready-MaySave :
    (m : Match) (balance : ℕ) (d : QuickResult) (s : Submission)
    → save_ready m balance d ≡ ok s
    → MaySave d m s
unfolding save_ready
save_ready-MaySave m balance d (Submission.replay n r) e = tt
save_ready-MaySave m balance d (Submission.proceed n b ss) e = ground arith

replay_or_save-MaySave :
    (m : Match) (balance : ℕ) (d : QuickResult) (o : Option MatchResult) (again : Bool)
    (s : Submission)
    → replay_or_save m balance d o again ≡ ok s
    → MaySave d m s
replay_or_save-MaySave m balance d (some r) true (Submission.replay n r') e = tt
replay_or_save-MaySave m balance d (some r) true (Submission.proceed n b ss) e = cc
replay_or_save-MaySave m balance d (some r) false s e = save_ready-MaySave m balance d s e
replay_or_save-MaySave m balance d none true s e = save_ready-MaySave m balance d s e
replay_or_save-MaySave m balance d none false s e = save_ready-MaySave m balance d s e

submit_ready-found :
    (u k : ℕ) (d : QuickResult) (key : Option String) (w : World) (s : Submission)
    → submit_ready u k d key w ≡ ok s
    → (m : Match) × (find_match k w.matches ≡ some m) × MaySave d m s
unfolding submit_ready
submit_ready-found u k d key w s e = elim (Option-cases (find_match k w.matches)) [
  | inl missing ↦ absurd (ground arith)
  | inr (m, found) ↦ elim (Outcome-cases (balance_feeling d.balance_rating d.balance_feeling)) [
    | inl (balance, f) ↦ (
      m,
      found,
      replay_or_save-MaySave m balance d m.result (repeats_key key m.result) s (ground arith),
    )
    | inr (t, c, f) ↦ absurd (ground arith)
  ]
]

submit-keeps :
    (u k : ℕ) (d : QuickResult) (key : Option String) (w : World) (m : Match) (s : Submission)
    → find_match k w.matches ≡ some m
    → MaySave d m s
    → AllConsistent w
    → AllConsistent (submit u d key s w).1
submit-keeps u k d key w m (Submission.replay n r) found may h = h
submit-keeps u k d key w m (Submission.proceed n balance ss) found (same, unconfirmed, ready, stats)
      h =
    rw (same, matches-create_notifications)
      (saved-AllConsistent
        (submitted_rows m (saved_result w.next_id w.now u d balance key m.result) ss) w
        (submitted_rows-IsConsistent w.next_id w.now u d balance key m ss unconfirmed ready stats
          (found-IsConsistent k w h found))
        h)

pub submit_quick_result-keeps :
    (u k : ℕ) (d : QuickResult) (key : Option String) (w : World)
    → AllConsistent w
    → AllConsistent (submit_quick_result u k d key w).1
unfolding submit_quick_result
submit_quick_result-keeps u k d key w h = elim (Outcome-cases (submit_ready u k d key w)) [
  | inl (s, e) ↦
      let (m, found, may) = submit_ready-found u k d key w s e in
      rw (e, ◌>>=◌) (submit-keeps u k d key w m s found may h)
  | inr (s, c, e) ↦ rw (e, ◌>>=◌) h
]
