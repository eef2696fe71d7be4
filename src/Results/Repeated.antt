-- ===== src/Results/Repeated.antt =====
-- A submission that is sent again under its idempotency key: submitQuickResult of
-- results/results.service.ts, run twice.
use inhouse_maker_core_serve.Common.{
  ℕ, true, false, ◌≡◌, refl, ap, ◌∙◌, Option, none, some, String, List, ◌==◌, string_eq, arith, inl,
  inr, nat_eq, Option-cases,
}
use inhouse_maker_core_serve.Model.Rows.{Match, MatchResult, PlayerStat}
use inhouse_maker_core_serve.Model.World.{World, find_match}
use inhouse_maker_core_serve.Model.Outcome.{ok, AppErrorCode}
use inhouse_maker_core_serve.Model.Action.{
  ◌>>=◌, matches-create_notifications, members-create_notifications,
}
use inhouse_maker_core_serve.Matches.Access.{assert_host_or_captain, match_with_players}
use inhouse_maker_core_serve.Matches.Effects.{find-saved}
use inhouse_maker_core_serve.Results.Input.{QuickResult, balance_feeling}
use inhouse_maker_core_serve.Results.Rows.{saved_result, submitted_rows}
use inhouse_maker_core_serve.Results.Guards.{Submission, submit_ready, save_ready, repeats_key}
use inhouse_maker_core_serve.Results.Handlers.{submit_quick_result, submit}

repeated_key :
    (key : String) (r : MatchResult)
    → r.idempotency_key ≡ some key
    → (key == "") ≡ false
    → repeats_key (some key) (some r) ≡ true
repeated_key key r same given = let e = (string_eq.beq_iff key key).1 refl in rw (same, given) e

submit_ready-again :
    (u k : ℕ) (d : QuickResult) (key : String) (balance : ℕ) (w : World) (m : Match)
    (r : MatchResult)
    → find_match k w.matches ≡ some m
    → m.result ≡ some r
    → assert_host_or_captain k u AppErrorCode.result_save_forbidden w ≡ ok tt
    → balance_feeling d.balance_rating d.balance_feeling ≡ ok balance
    → r.idempotency_key ≡ some key
    → (key == "") ≡ false
    → submit_ready u k d (some key) w ≡ ok (Submission.replay m r)
unfolding submit_ready
submit_ready-again u k d key balance w m r found at_match auth feeling same given =
    let again : repeats_key (some key) (some r) ≡ true = repeated_key key r same given in
    ground arith

saved_result-key :
    (fresh now user : ℕ) (d : QuickResult) (balance : ℕ) (key : String) (o : Option MatchResult)
    → (saved_result fresh now user d balance (some key) o).idempotency_key ≡ some key
unfolding saved_result
saved_result-key fresh now user d balance key none = refl
saved_result-key fresh now user d balance key (some r) = refl

repeats_key-key :
    (key : String) (r : MatchResult)
    → repeats_key (some key) (some r) ≡ true
    → r.idempotency_key ≡ some key
repeats_key-key key r h = elim (Option-cases r.idempotency_key) [
  | inl missing ↦ let no : false ≡ true = rw missing at h in absurd (cc)
  | inr (old, there) ↦
      let equal : (old == key) ≡ true = ground arith in
      there ∙ ap some ((string_eq.beq_iff old key).0 equal)
]

-- Who may submit stays the same while the host, the players, the group and its members do.
same_authority :
    (k u : ℕ) (code : AppErrorCode) (w v : World) (m n : Match)
    → find_match k w.matches ≡ some m
    → find_match k v.matches ≡ some n
    → n.created_by ≡ m.created_by
    → n.players ≡ m.players
    → n.group_id ≡ m.group_id
    → v.members ≡ w.members
    → assert_host_or_captain k u code w ≡ ok tt
    → assert_host_or_captain k u code v ≡ ok tt
unfolding assert_host_or_captain match_with_players
same_authority k u code w v m n e f host players group members h =
    rw (f, host, players, group, members) (rw e at h)

-- What a submission that goes on has read.
record IsGoing (u k : ℕ) (w : World) (m : Match) : Type 0 where
  found : find_match k w.matches ≡ some m
  allowed : assert_host_or_captain k u AppErrorCode.result_save_forbidden w ≡ ok tt

proceed-IsGoing :
    (u k : ℕ) (d : QuickResult) (key : Option String) (w : World) (m : Match) (balance : ℕ)
    (ss : List PlayerStat)
    → submit_ready u k d key w ≡ ok (Submission.proceed m balance ss)
    → IsGoing u k w m
unfolding submit_ready save_ready match_with_players
proceed-IsGoing u k d key w m balance ss e = record { found = ground arith; allowed = ground arith }

replay-IsGoing :
    (u k : ℕ) (d : QuickResult) (key : String) (w : World) (m : Match) (r : MatchResult)
    → submit_ready u k d (some key) w ≡ ok (Submission.replay m r)
    → IsGoing u k w m × (m.result ≡ some r) × (repeats_key (some key) (some r) ≡ true)
unfolding submit_ready save_ready match_with_players
replay-IsGoing u k d key w m r e =
    (record { found = ground arith; allowed = ground arith }, ground arith, ground arith)

submitted_again :
    (u k : ℕ) (d d' : QuickResult) (key : String) (balance balance' : ℕ) (w : World) (m : Match)
    (ss : List PlayerStat)
    → submit_ready u k d (some key) w ≡ ok (Submission.proceed m balance ss)
    → (key == "") ≡ false
    → balance_feeling d'.balance_rating d'.balance_feeling ≡ ok balance'
    → submit_ready u k d' (some key) (submit u d (some key) (Submission.proceed m balance ss) w).1
      ≡ ok (
          Submission.replay
            (submitted_rows m (saved_result w.next_id w.now u d balance (some key) m.result) ss)
            (saved_result w.next_id w.now u d balance (some key) m.result))
submitted_again u k d d' key balance balance' w m ss e given feeling =
    let going = proceed-IsGoing u k d (some key) w m balance ss e in
    let r = saved_result w.next_id w.now u d balance (some key) m.result in
    let n = submitted_rows m r ss in
    let v = (submit u d (some key) (Submission.proceed m balance ss) w).1 in
    let there : find_match k v.matches ≡ some n =
      rw matches-create_notifications (find-saved k w.matches m n going.found refl) in
    submit_ready-again u k d' key balance' v n r there refl
      (same_authority k u AppErrorCode.result_save_forbidden w v m n going.found there refl refl
        refl (members-create_notifications _ _) going.allowed)
      feeling (saved_result-key w.next_id w.now u d balance key m.result) given

submit-of_ready :
    (u k : ℕ) (d : QuickResult) (key : Option String) (w : World) (s : Submission)
    → submit_ready u k d key w ≡ ok s
    → submit_quick_result u k d key w ≡ submit u d key s w
unfolding submit_quick_result
submit-of_ready u k d key w s e = rw (e, ◌>>=◌) refl

-- A submission that was accepted under a key is sent again under that key, with any input that has a rating:
-- the second one gets the answer of the first, and changes nothing more.
pub submit_quick_result-again :
    (u k : ℕ) (d d' : QuickResult) (key : String) (balance : ℕ) (w : World) (s : Submission)
    → submit_ready u k d (some key) w ≡ ok s
    → (key == "") ≡ false
    → balance_feeling d'.balance_rating d'.balance_feeling ≡ ok balance
    → submit_quick_result u k d' (some key) (submit_quick_result u k d (some key) w).1
      ≡ submit_quick_result u k d (some key) w
submit_quick_result-again u k d d' key balance w (Submission.replay m r) e given feeling =
    let first = submit-of_ready u k d (some key) w (Submission.replay m r) e in
    let (going, at_match, again) = replay-IsGoing u k d key w m r e in
    let second =
      submit_ready-again u k d' key balance w m r going.found at_match going.allowed feeling
        (repeats_key-key key r again) given in
    rw first (submit-of_ready u k d' (some key) _ _ second)
submit_quick_result-again u k d d' key balance w (Submission.proceed m b ss) e given feeling =
    let first = submit-of_ready u k d (some key) w (Submission.proceed m b ss) e in
    let second = submitted_again u k d d' key b balance w m ss e given feeling in
    rw first (submit-of_ready u k d' (some key) _ _ second)
