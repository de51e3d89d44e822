-- ===== src/Session/Rotation.antt =====
-- `rotate` of infrastructure/drizzle-refresh-token.repository.ts of apps/user-service/src/modules/user.
use jcool_ecommerce_backend.Base.{
  ℕ, ◌+◌, Bool, false, not, ◌&&◌, ◌||◌, Option, none, some, List, map, any, leb, ◌==◌,
  if◌then◌else◌,
}
use jcool_ecommerce_backend.Session.Tokens.{
  UserRow, RefreshToken, UserDb, is_none, is_live, revoke_where, insert_token, row_of,
}

pub record RotateRefreshTokenInput : Type 0 where
  pub presented_token_hash : ℕ
  pub expected_user_id : ℕ
  pub successor_id : Option ℕ
  pub new_token_hash : ℕ
  pub new_expires_at : ℕ
  pub reuse_grace_ms : ℕ

pub data RotateOutcome : Type 0 where
  invalid replayed rotate_threw : RotateOutcome
  reuse : ℕ → ℕ → Bool → RotateOutcome
  rotated : ℕ → ℕ → ℕ → RotateOutcome

-- `Date.now() - revokedAt <= reuseGraceMs`
abbrev pub within_grace : ℕ → ℕ → Option ℕ → Bool
within_grace now grace none = false
within_grace now grace (some at) = leb now (at + grace)

abbrev pub in_family : ℕ → RefreshToken → Bool
in_family family_id t = t.family_id == family_id

abbrev pub has_id : ℕ → RefreshToken → Bool
has_id id t = t.id == id

abbrev pub successor_of : RotateRefreshTokenInput → RefreshToken → ℕ → ℕ → RefreshToken
successor_of input t id now = record {
  id = id;
  user_id = t.user_id;
  token_hash = input.new_token_hash;
  family_id = t.family_id;
  replaced_by_token_id = none;
  expires_at = input.new_expires_at;
  revoked_at = none;
  created_at = now;
}

-- `update ... set revoked_at, replaced_by_token_id where id = record.id`
abbrev pub replace_if : ℕ → ℕ → ℕ → RefreshToken → RefreshToken
replace_if id successor now t =
    if has_id id t
    then record t { revoked_at = some now; replaced_by_token_id = some successor }
    else t

-- `update ... set revoked_at = now where id = record.id`
abbrev pub expire_if : ℕ → ℕ → RefreshToken → RefreshToken
expire_if id now t = if has_id id t then record t { revoked_at = some now } else t

abbrev pub rotated_with :
    RefreshToken
    → ℕ
    → ℕ
    → UserDb
    → Option UserRow
    → Option (List RefreshToken)
    → UserDb × RotateOutcome
rotated_with t id now db none inserted = (db, rotate_threw)
rotated_with t id now db (some owner) none = (db, rotate_threw)
rotated_with t id now db (some owner) (some tokens) = (
  record db { refresh_tokens = map (replace_if t.id id now) tokens },
  rotated t.user_id owner.role owner.token_epoch,
)

abbrev pub rotate_live :
    RotateRefreshTokenInput → ℕ → UserDb → RefreshToken → Option ℕ → UserDb × RotateOutcome
rotate_live input now db t none = (db, invalid)
rotate_live input now db t (some id) =
    rotated_with t id now db (db.users t.user_id)
      (insert_token (successor_of input t id now) db.refresh_tokens)

-- The branches of `rotate` for the row found, from the last to the first.
abbrev pub rotate_retiring :
    RotateRefreshTokenInput → ℕ → UserDb → RefreshToken → UserDb × RotateOutcome
rotate_retiring input now db t =
    if leb t.expires_at now
    then (record db { refresh_tokens = map (expire_if t.id now) db.refresh_tokens }, invalid)
    else rotate_live input now db t input.successor_id

abbrev pub revoke_siblings : ℕ → UserDb → RefreshToken → UserDb × RotateOutcome
revoke_siblings now db t = (
  record db { refresh_tokens = revoke_where (in_family t.family_id) now db.refresh_tokens },
  reuse t.user_id t.family_id (any (λ u. in_family t.family_id u && is_live u) db.refresh_tokens),
)

abbrev pub rotate_unless_retired :
    RotateRefreshTokenInput → ℕ → UserDb → RefreshToken → UserDb × RotateOutcome
rotate_unless_retired input now db t =
    if not (is_none t.revoked_at) || not (is_none t.replaced_by_token_id)
    then revoke_siblings now db t
    else rotate_retiring input now db t

abbrev pub rotate_owned :
    RotateRefreshTokenInput → ℕ → UserDb → RefreshToken → UserDb × RotateOutcome
rotate_owned input now db t =
    if not (is_none t.replaced_by_token_id) && within_grace now input.reuse_grace_ms t.revoked_at
    then (db, replayed)
    else rotate_unless_retired input now db t

abbrev pub rotate_row : RotateRefreshTokenInput → ℕ → UserDb → RefreshToken → UserDb × RotateOutcome
rotate_row input now db t =
    if not (t.user_id == input.expected_user_id) then (db, invalid) else rotate_owned input now db t

abbrev pub rotate_found :
    RotateRefreshTokenInput → ℕ → UserDb → Option RefreshToken → UserDb × RotateOutcome
rotate_found input now db none = (db, invalid)
rotate_found input now db (some t) = rotate_row input now db t

unfoldable pub rotate : RotateRefreshTokenInput → ℕ → UserDb → UserDb × RotateOutcome
rotate input now db = rotate_found input now db (row_of input.presented_token_hash db)
