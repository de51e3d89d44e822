-- ===== src/Session/Tokens.antt =====
-- infrastructure/drizzle-refresh-token.repository.ts of apps/user-service/src/modules/user, over its
-- rows. A password hash and a token hash are numbers that are only compared; an instant is its
-- milliseconds. A transaction runs alone, as `lockUser` has it per user. An insert against a unique
-- key throws, and the transaction leaves nothing.
use jcool_ecommerce_backend.Base.{
  ℕ, ◌+◌, Bool, true, false, not, ◌&&◌, ◌||◌, Option, none, some, List, ◌∷◌, map, filter, find, any,
  ltb, ◌==◌, if◌then◌else◌, length,
}

pub record UserRow : Type 0 where
  pub password_hash : ℕ
  pub role : ℕ
  pub token_epoch : ℕ

pub record RefreshToken : Type 0 where
  pub id : ℕ
  pub user_id : ℕ
  pub token_hash : ℕ
  pub family_id : ℕ
  pub replaced_by_token_id : Option ℕ
  pub expires_at : ℕ
  pub revoked_at : Option ℕ
  pub created_at : ℕ

pub record UserDb : Type 0 where
  pub users : ℕ → Option UserRow
  pub refresh_tokens : List RefreshToken

abbrev pub is_none {ℓ} : {A : Type ℓ} → Option A → Bool
is_none none = true
is_none (some _) = false

abbrev pub is_live : RefreshToken → Bool
is_live t = is_none t.revoked_at

-- `update ... set revoked_at = now where test and revoked_at is null`
abbrev pub revoke_if : (RefreshToken → Bool) → ℕ → RefreshToken → RefreshToken
revoke_if test now t = if test t && is_live t then record t { revoked_at = some now } else t

abbrev pub revoke_where : (RefreshToken → Bool) → ℕ → List RefreshToken → List RefreshToken
revoke_where test now = map (revoke_if test now)

-- The unique keys of the table: the id, the hash and, where it is set, the successor.
abbrev pub clashes : RefreshToken → RefreshToken → Bool
clashes new t = t.id == new.id || t.token_hash == new.token_hash

abbrev pub insert_token : RefreshToken → List RefreshToken → Option (List RefreshToken)
insert_token new tokens = if any (clashes new) tokens then none else some (new ∷ tokens)

pub record CreateRefreshTokenInput : Type 0 where
  pub user_id : ℕ
  pub verified_password_hash : ℕ
  pub token_hash : ℕ
  pub family_id : ℕ
  pub expires_at : ℕ

pub data CreateRefreshTokenOutcome : Type 0 where
  credentials_changed : CreateRefreshTokenOutcome
  created : ℕ → ℕ → CreateRefreshTokenOutcome
  -- the insert throws
  create_threw : CreateRefreshTokenOutcome

abbrev pub new_token : CreateRefreshTokenInput → ℕ → ℕ → RefreshToken
new_token input id now = record {
  id = id;
  user_id = input.user_id;
  token_hash = input.token_hash;
  family_id = input.family_id;
  replaced_by_token_id = none;
  expires_at = input.expires_at;
  revoked_at = none;
  created_at = now;
}

abbrev pub created_with :
    UserDb → UserRow → Option (List RefreshToken) → UserDb × CreateRefreshTokenOutcome
created_with db owner none = (db, create_threw)
created_with db owner (some tokens) =
    (record db { refresh_tokens = tokens }, created owner.role owner.token_epoch)

abbrev pub create_for :
    CreateRefreshTokenInput → ℕ → ℕ → UserDb → Option UserRow → UserDb × CreateRefreshTokenOutcome
create_for input id now db none = (db, credentials_changed)
create_for input id now db (some owner) =
    if owner.password_hash == input.verified_password_hash
    then created_with db owner (insert_token (new_token input id now) db.refresh_tokens)
    else (db, credentials_changed)

unfoldable pub create :
    CreateRefreshTokenInput → ℕ → ℕ → UserDb → UserDb × CreateRefreshTokenOutcome
create input id now db = create_for input id now db (db.users input.user_id)

pub record RefreshTokenOwner : Type 0 where
  pub user_id : ℕ
  pub family_id : ℕ
  pub rotatable : Bool

abbrev pub has_hash : ℕ → RefreshToken → Bool
has_hash token_hash t = t.token_hash == token_hash

abbrev pub row_of : ℕ → UserDb → Option RefreshToken
row_of token_hash db = find (has_hash token_hash) db.refresh_tokens

abbrev owner_of : ℕ → Option RefreshToken → Option RefreshTokenOwner
owner_of now none = none
owner_of now (some t) = some (record {
  user_id = t.user_id;
  family_id = t.family_id;
  rotatable = is_live t && is_none t.replaced_by_token_id && ltb now t.expires_at;
})

unfoldable pub find_owner : ℕ → ℕ → UserDb → Option RefreshTokenOwner
find_owner token_hash now db = owner_of now (row_of token_hash db)

pub record PasswordReplacement : Type 0 where
  pub verified_password_hash : Option ℕ
  pub new_password_hash : ℕ

abbrev pub verified : Option PasswordReplacement → UserRow → Bool
verified none user = true
verified (some r) user = elim r.verified_password_hash [
  | none ↦ true
  | some hash ↦ user.password_hash == hash
]

abbrev next_password : Option PasswordReplacement → UserRow → ℕ
next_password none user = user.password_hash
next_password (some r) user = r.new_password_hash

abbrev pub of_user : ℕ → RefreshToken → Bool
of_user user_id t = t.user_id == user_id

abbrev update_user : ℕ → UserRow → (ℕ → Option UserRow) → ℕ → Option UserRow
update_user user_id user users id = if id == user_id then some user else users id

-- Whether the update of the user finds its row.
abbrev pub revoke_all_when :
    Bool → ℕ → Option PasswordReplacement → ℕ → UserDb → UserRow → UserDb × Option ℕ
revoke_all_when false user_id replacement now db user = (db, none)
revoke_all_when true user_id replacement now db user = (
  record {
    users =
        update_user user_id
          (record user {
            token_epoch = user.token_epoch + 1;
            password_hash = next_password replacement user;
          })
          db.users;
    refresh_tokens = revoke_where (of_user user_id) now db.refresh_tokens;
  },
  some (user.token_epoch + 1),
)

abbrev pub revoke_all_of :
    ℕ → Option PasswordReplacement → ℕ → UserDb → Option UserRow → UserDb × Option ℕ
revoke_all_of user_id replacement now db none = (db, none)
revoke_all_of user_id replacement now db (some user) =
    revoke_all_when (verified replacement user) user_id replacement now db user

unfoldable pub revoke_all_for_user : ℕ → Option PasswordReplacement → ℕ → UserDb → UserDb × Option ℕ
revoke_all_for_user user_id replacement now db =
    revoke_all_of user_id replacement now db (db.users user_id)

abbrev pub of_family : ℕ → ℕ → RefreshToken → Bool
of_family user_id family_id t = t.user_id == user_id && t.family_id == family_id

unfoldable pub revoke_family : ℕ → ℕ → ℕ → UserDb → UserDb × Bool
revoke_family user_id family_id now db = (
  record db { refresh_tokens = revoke_where (of_family user_id family_id) now db.refresh_tokens },
  any (λ t. of_family user_id family_id t && is_live t) db.refresh_tokens,
)

-- The sessions that `listActiveSessions` shows, as its rows, less their order.
unfoldable pub list_active_sessions : ℕ → ℕ → UserDb → List RefreshToken
list_active_sessions user_id now db =
    filter (λ t. of_user user_id t && is_live t && ltb now t.expires_at) db.refresh_tokens

abbrev before : ℕ → Option ℕ → Bool
before at none = false
before at (some revoked) = ltb revoked at

abbrev pub is_collectable : ℕ → ℕ → RefreshToken → Bool
is_collectable expired_before revoked_before t =
    ltb t.expires_at expired_before && is_live t || before revoked_before t.revoked_at

-- `chosen` are the rows that the limit of the subquery lets it take.
unfoldable pub delete_collectable : (RefreshToken → Bool) → ℕ → ℕ → UserDb → UserDb × ℕ
delete_collectable chosen expired_before revoked_before db =
    let doomed = λ (t : RefreshToken). is_collectable expired_before revoked_before t && chosen t in
    (
      record db { refresh_tokens = filter (λ t. not (doomed t)) db.refresh_tokens },
      length (filter doomed db.refresh_tokens),
    )
