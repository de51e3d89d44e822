-- ===== src/Session/Ended.antt =====
-- Sessions of apps/user-service that were all ended.
use jcool_ecommerce_backend.Base.{
  ℕ, Bool, true, false, ◌&&◌, List, [], ◌∷◌, Option, none, some, filter, ◌≡◌, refl, arith, ltb, All,
  All-weaken,
}
use jcool_ecommerce_backend.Session.Tokens.{
  RefreshToken, UserDb, UserRow, is_live, of_user, revoke_if, PasswordReplacement,
  revoke_all_for_user, revoke_all_of, revoke_all_when, verified, list_active_sessions, revoke_where,
}
use jcool_ecommerce_backend.Session.Calls.{TokenCall, call_all}
use jcool_ecommerce_backend.Session.Spent.{
  IsDead, NoLogin, call_all-IsDead, of_user-Stable, NoLogin-AddsNone,
}

revoke_where-IsDead :
    (test : RefreshToken → Bool) (now : ℕ) (ts : List RefreshToken)
    → ((t : RefreshToken) → test (revoke_if test now t) ≡ test t)
    → All (IsDead test) (revoke_where test now ts)
revoke_where-IsDead test now [] same = tt
revoke_where-IsDead test now (t ∷ ts) same =
    ((λ passes. let at = same t in ground arith), revoke_where-IsDead test now ts same)

revoke_all_of-IsDead :
    (user_id : ℕ) (replacement : Option PasswordReplacement) (now epoch : ℕ) (db : UserDb)
    (user : Option UserRow)
    → (revoke_all_of user_id replacement now db user).1 ≡ some epoch
    → All
        (IsDead (of_user user_id))
        (revoke_all_of user_id replacement now db user).0.refresh_tokens
revoke_all_of-IsDead user_id replacement now epoch db none done = cc
revoke_all_of-IsDead user_id replacement now epoch db (some user) done =
    from (verified replacement user) done
  where
    from :
        (b : Bool)
        → (revoke_all_when b user_id replacement now db user).1 ≡ some epoch
        → All
            (IsDead (of_user user_id))
            (revoke_all_when b user_id replacement now db user).0.refresh_tokens
    from true done = revoke_where-IsDead (of_user user_id) now db.refresh_tokens (λ t. ground arith)
    from false done = cc

no_sessions :
    (user_id now : ℕ) (ts : List RefreshToken)
    → All (IsDead (of_user user_id)) ts
    → filter (λ t. of_user user_id t && is_live t && ltb now t.expires_at) ts ≡ []
no_sessions user_id now [] dead = refl
no_sessions user_id now (t ∷ ts) (first, rest) =
    let later = no_sessions user_id now ts rest in ground arith

-- Once `revokeAllForUser` has gone through, the user has no active session until the next login,
-- whatever refreshes and other calls come between.
pub revoke_all_for_user-list_active_sessions :
    (user_id : ℕ) (replacement : Option PasswordReplacement) (now epoch later : ℕ) (db : UserDb)
    (cs : List TokenCall)
    → (revoke_all_for_user user_id replacement now db).1 ≡ some epoch
    → All (NoLogin user_id) cs
    → list_active_sessions user_id later
        (call_all cs (revoke_all_for_user user_id replacement now db).0)
      ≡ []
unfolding list_active_sessions revoke_all_for_user
revoke_all_for_user-list_active_sessions user_id replacement now epoch later db cs done others =
    no_sessions user_id later _ (
      call_all-IsDead (of_user user_id) cs (revoke_all_for_user user_id replacement now db).0
        (of_user-Stable user_id) (All-weaken (NoLogin-AddsNone user_id) cs others)
        (revoke_all_of-IsDead user_id replacement now epoch db (db.users user_id) done))
