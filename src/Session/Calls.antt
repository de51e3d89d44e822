-- ===== src/Session/Calls.antt =====
-- The calls of the refresh-token repository of apps/user-service/src/modules/user, one after another.
use jcool_ecommerce_backend.Base.{ℕ, Bool, List, [], ◌∷◌, Option}
use jcool_ecommerce_backend.Session.Tokens.{
  RefreshToken, UserDb, CreateRefreshTokenInput, PasswordReplacement, create, revoke_all_for_user,
  revoke_family, delete_collectable,
}
use jcool_ecommerce_backend.Session.Rotation.{RotateRefreshTokenInput, rotate}

-- A call with its instant; a create also has the id minted for the row.
pub data TokenCall : Type 0 where
  creates : CreateRefreshTokenInput → ℕ → ℕ → TokenCall
  rotates : RotateRefreshTokenInput → ℕ → TokenCall
  revokes_all : ℕ → Option PasswordReplacement → ℕ → TokenCall
  revokes_family : ℕ → ℕ → ℕ → TokenCall
  collects : (RefreshToken → Bool) → ℕ → ℕ → TokenCall

unfoldable pub call : TokenCall → UserDb → UserDb
call (creates input id now) db = (create input id now db).0
call (rotates input now) db = (rotate input now db).0
call (revokes_all user_id replacement now) db = (revoke_all_for_user user_id replacement now db).0
call (revokes_family user_id family_id now) db = (revoke_family user_id family_id now db).0
call (collects chosen expired_before revoked_before) db =
    (delete_collectable chosen expired_before revoked_before db).0

unfoldable pub call_all : List TokenCall → UserDb → UserDb
call_all [] db = db
call_all (c ∷ cs) db = call_all cs (call c db)
