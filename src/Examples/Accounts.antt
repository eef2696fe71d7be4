-- ===== src/Examples/Accounts.antt =====
-- A user who leaves, and one who is looked for.
use inhouse_maker_core_serve.Common.{◌≡◌, refl, true, false, some, List, [], ◌∷◌, map, All, arith}
use inhouse_maker_core_serve.Model.World.{World}
use inhouse_maker_core_serve.Model.Outcome.{ok}
use inhouse_maker_core_serve.Groups.{assert_group_admin, group_access, assert_active}
use inhouse_maker_core_serve.Auth.{TokenType, TokenPayload, verify_refresh_token}
use inhouse_maker_core_serve.Auth.Handlers.{login_with_email, refresh}
use inhouse_maker_core_serve.Auth.Sessions.{refused}
use inhouse_maker_core_serve.Users.{UserPorts, existing_user}
use inhouse_maker_core_serve.Users.Handlers.{withdraw_ready, withdraw_me}
use inhouse_maker_core_serve.Users.Withdrawn.{
  IsForgotten, HasAnonymousRow, signs_in_as, withdraw_me-IsForgotten,
}
use inhouse_maker_core_serve.Users.Invites.{
  candidate_of, find_invite_users, in_group_query, search_member_candidates,
}
use inhouse_maker_core_serve.Users.Invitable.{IsAnswered, search_member_candidates-add_member_ready}
use inhouse_maker_core_serve.Accounts.{AccountRequest, serve_all}
use inhouse_maker_core_serve.Accounts.Rows.{AllClean}
use inhouse_maker_core_serve.Accounts.Withdrawals.{serve_all-AllClean}
use inhouse_maker_core_serve.Examples.Data.{no_matches, some_user}
use inhouse_maker_core_serve.Examples.Sessions.{
  session_payload, plain_ports, one, signed_up, newcomer,
}

abbrev plain_texts : UserPorts
plain_texts = record {
  id_text = λ k. "1";
  url_of = λ k mime name. name;
  trim = λ x. x;
  lower = λ x. x;
  starts_with = λ x y. false;
  contains_text = λ x y. true;
  comes_after = λ x y. false;
}

-- 1 has blocked 2 before.
abbrev blocking : World
blocking = record signed_up {
  blocks = record { user_id = 1; target_user_id = 2; created_at = 5 } ∷ [];
}

one-may_leave : withdraw_ready plain_texts 1 blocking ≡ ok one
unfolding withdraw_ready existing_user
one-may_leave = refl

still_verified :
    verify_refresh_token plain_ports "refresh" (withdraw_me plain_texts 1 blocking).1
    ≡ ok session_payload
unfolding verify_refresh_token
still_verified = refl

withdraw_me-IsForgotten_example :
    IsForgotten 1 (withdraw_me plain_texts 1 blocking).1
    × HasAnonymousRow plain_texts 1 (withdraw_me plain_texts 1 blocking).1
    × (refresh plain_ports "refresh" (withdraw_me plain_texts 1 blocking).1
        ≡ (refused, (withdraw_me plain_texts 1 blocking).1))
    × (signs_in_as 1
          (login_with_email plain_ports "one@example.org" "secret1"
            (withdraw_me plain_texts 1 blocking).1).0
        ≡ false)
withdraw_me-IsForgotten_example =
    withdraw_me-IsForgotten plain_texts plain_ports 1 blocking one "refresh" "one@example.org"
      "secret1" session_payload one-may_leave ((λ b. b), tt) still_verified refl

abbrev access_of_one : TokenPayload
access_of_one = record session_payload { token_type = TokenType.access }

-- 1 logs in, another signs up, is blocked, and 1 leaves; the old tokens are tried again.
abbrev last_day : List AccountRequest
last_day =
    AccountRequest.email_login "one@example.org" "secret1"
    ∷ AccountRequest.sign_up newcomer
    ∷ AccountRequest.block access_of_one 100
    ∷ AccountRequest.withdraw access_of_one
    ∷ AccountRequest.new_tokens "refresh"
    ∷ AccountRequest.unblock access_of_one 100
    ∷ []

signed_up-AllClean : AllClean signed_up
signed_up-AllClean = record {
  ids = ((λ b. b), tt);
  below = (omega arith, tt);
  signed_out = ((λ left. cc), tt);
  identities = (refl, tt);
  blockers = tt;
  blocked = tt;
}

serve_all-AllClean_example : AllClean (serve_all plain_texts plain_ports last_day signed_up)
serve_all-AllClean_example =
    serve_all-AllClean plain_texts plain_ports last_day signed_up signed_up-AllClean

-- An outsider beside the members of the group.
abbrev with_outsider : World
with_outsider = record no_matches { users = some_user 99 ∷ no_matches.users }

found_by_owner :
    search_member_candidates plain_texts 20 30 "x" (some 3) with_outsider
    ≡ ok (
        map candidate_of
          (find_invite_users plain_texts 20 (in_group_query 30 "x" (some 3)) with_outsider))
unfolding search_member_candidates assert_group_admin group_access assert_active
found_by_owner = refl

search_member_candidates-add_member_ready_example : All (IsAnswered 20 30 with_outsider) (
    map candidate_of
      (find_invite_users plain_texts 20 (in_group_query 30 "x" (some 3)) with_outsider))
search_member_candidates-add_member_ready_example =
    search_member_candidates-add_member_ready plain_texts 20 30 with_outsider "x" (some 3)
      (map candidate_of
        (find_invite_users plain_texts 20 (in_group_query 30 "x" (some 3)) with_outsider))
      found_by_owner
