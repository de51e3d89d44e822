-- ===== src/Session/Tests.antt =====
-- The sessions of a user at concrete rows and calls.
use jcool_ecommerce_backend.Base.{◌≡◌, ◌≢◌, refl, none, some, List, [], ◌∷◌, arith, true}
use jcool_ecommerce_backend.Session.Tokens.{
  RefreshToken, UserDb, CreateRefreshTokenInput, list_active_sessions, revoke_all_for_user,
}
use jcool_ecommerce_backend.Session.Rotation.{RotateRefreshTokenInput, rotated, rotate}
use jcool_ecommerce_backend.Session.Calls.{
  TokenCall, creates, rotates, revokes_family, collects, call, call_all,
}
use jcool_ecommerce_backend.Session.OneLive.{OneLive, FreshFamilies, call_all-OneLive}
use jcool_ecommerce_backend.Session.Ended.{revoke_all_for_user-list_active_sessions}
use jcool_ecommerce_backend.Session.UsedOnce.{DistinctHashes, rotate-once}

abbrev first : RefreshToken
first = record {
  id = 100;
  user_id = 1;
  token_hash = 7000;
  family_id = 50;
  replaced_by_token_id = none;
  expires_at = 9000;
  revoked_at = none;
  created_at = 10;
}

abbrev one_session : UserDb
one_session = record {
  users = λ id. some (record { password_hash = 33; role = 0; token_epoch = 4 });
  refresh_tokens = first ∷ [];
}

abbrev refresh : RotateRefreshTokenInput
refresh = record {
  presented_token_hash = 7000;
  expected_user_id = 1;
  successor_id = some 101;
  new_token_hash = 7001;
  new_expires_at = 9500;
  reuse_grace_ms = 10;
}

abbrev login : CreateRefreshTokenInput
login = record {
  user_id = 1;
  verified_password_hash = 33;
  token_hash = 8000;
  family_id = 51;
  expires_at = 9600;
}

abbrev some_calls : List TokenCall
some_calls =
    rotates refresh 500
    ∷ creates login 102 600
    ∷ rotates refresh 700
    ∷ collects (λ t. true) 400 400
    ∷ []

fresh_calls : FreshFamilies some_calls one_session
unfolding FreshFamilies call rotate
fresh_calls = (tt, ((omega arith, (omega arith, tt)), (tt, (tt, tt))))

one_live : OneLive one_session.refresh_tokens
unfolding OneLive
one_live = ((λ live. tt), tt)

call_all-OneLive_example : OneLive (call_all some_calls one_session).refresh_tokens
call_all-OneLive_example = call_all-OneLive some_calls one_session fresh_calls one_live

revoked : (revoke_all_for_user 1 none 500 one_session).1 ≡ some 5
unfolding revoke_all_for_user
revoked = refl

revoke_all_for_user-list_active_sessions_example :
    list_active_sessions 1 800 (
      call_all
        (rotates refresh 600 ∷ revokes_family 1 50 700 ∷ [])
        (revoke_all_for_user 1 none 500 one_session).0)
    ≡ []
revoke_all_for_user-list_active_sessions_example =
    revoke_all_for_user-list_active_sessions 1 none 500 5 800 one_session
      (rotates refresh 600 ∷ revokes_family 1 50 700 ∷ []) revoked (tt, (tt, tt))

refreshed : (rotate refresh 500 one_session).1 ≡ rotated 1 0 4
unfolding rotate
refreshed = refl

distinct_hashes : DistinctHashes one_session.refresh_tokens
unfolding DistinctHashes
distinct_hashes = (tt, tt)

rotate-once_example :
    (rotate refresh 700
      (call_all (creates login 102 600 ∷ []) (rotate refresh 500 one_session).0)).1
    ≢ rotated 1 0 4
rotate-once_example =
    rotate-once refresh refresh 500 700 1 0 4 1 0 4 one_session (creates login 102 600 ∷ [])
      distinct_hashes (omega arith) refreshed (omega arith, tt) refl
