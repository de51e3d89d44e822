-- ===== src/Session/Change.antt =====
-- What one call of the refresh-token repository of apps/user-service does to the table's rows.
use jcool_ecommerce_backend.Base.{
  ℕ, Bool, true, false, not, ◌&&◌, ◌||◌, List, [], ◌∷◌, Option, none, some, map, filter, find, any,
  if_lem, ◌≡◌, refl, arith, ◌==◌, leb,
}
use jcool_ecommerce_backend.Session.Tokens.{
  UserRow, RefreshToken, UserDb, CreateRefreshTokenInput, CreateRefreshTokenOutcome,
  PasswordReplacement, create, create_for, created_with, new_token, insert_token, clashes, is_live,
  is_none, has_hash, row_of, revoke_if, of_user, of_family, revoke_all_for_user, revoke_all_of,
  revoke_all_when, revoke_family, delete_collectable, verified,
}
use jcool_ecommerce_backend.Session.Rotation.{
  RotateRefreshTokenInput, RotateOutcome, rotate, rotate_found, rotate_live, rotate_retiring,
  rotate_unless_retired, rotate_owned, revoke_siblings, within_grace, replayed, rotated_with,
  successor_of, replace_if, expire_if, in_family, invalid,
}
use jcool_ecommerce_backend.Session.Calls.{
  TokenCall, creates, rotates, revokes_all, revokes_family, collects, call,
}

-- The same row, live only where it was.
abbrev pub Weakens : (RefreshToken → RefreshToken) → Type 0
Weakens f =
    (t : RefreshToken)
    → (f t).id ≡ t.id
      × (f t).user_id ≡ t.user_id
      × (f t).token_hash ≡ t.token_hash
      × (f t).family_id ≡ t.family_id
      × (is_live (f t) ≡ true → is_live t ≡ true)

abbrev pub Adds : TokenCall → RefreshToken → Type 0
Adds (creates input id now) t = t ≡ new_token input id now
Adds _ t = ⊥

abbrev pub Presents : TokenCall → RefreshToken → RefreshToken → Type 0
Presents (rotates input now) old new =
    old.token_hash ≡ input.presented_token_hash × new.token_hash ≡ input.new_token_hash
Presents _ old new = ⊥

-- A row and what takes its place.
abbrev pub Succeeds : RefreshToken → RefreshToken → Type 0
Succeeds old new = is_live old ≡ true × new.family_id ≡ old.family_id × new.user_id ≡ old.user_id

pub data Change (c : TokenCall) (ts ts' : List RefreshToken) : Type 0 where
  kept : ts' ≡ ts → Change c ts ts'
  weakened : (f : RefreshToken → RefreshToken) → Weakens f → ts' ≡ map f ts → Change c ts ts'
  dropped : (keep : RefreshToken → Bool) → ts' ≡ filter keep ts → Change c ts ts'
  added :
      (t : RefreshToken) → Adds c t → any (clashes t) ts ≡ false → ts' ≡ t ∷ ts → Change c ts ts'
  succeeded :
      (old new : RefreshToken) (hash now : ℕ)
      → find (has_hash hash) ts ≡ some old
      → Succeeds old new
      → Presents c old new
      → any (clashes new) ts ≡ false
      → ts' ≡ map (replace_if old.id new.id now) (new ∷ ts)
      → Change c ts ts'

pub revoke_if-Weakens : (test : RefreshToken → Bool) (now : ℕ) → Weakens (revoke_if test now)
revoke_if-Weakens test now t = ground arith

pub expire_if-Weakens : (id now : ℕ) → Weakens (expire_if id now)
expire_if-Weakens id now t = ground arith

pub replace_if-Weakens : (id successor now : ℕ) → Weakens (replace_if id successor now)
replace_if-Weakens id successor now t = ground arith

create-Change :
    (input : CreateRefreshTokenInput) (id now : ℕ) (db : UserDb) (user : Option UserRow)
    → Change
        (creates input id now)
        db.refresh_tokens
        (create_for input id now db user).0.refresh_tokens
create-Change input id now db none = kept refl
create-Change input id now db (some owner) =
    let new = new_token input id now in
    if_lem
      (λ (out : UserDb × CreateRefreshTokenOutcome).
        Change (creates input id now) db.refresh_tokens out.0.refresh_tokens)
      (owner.password_hash == input.verified_password_hash)
      (created_with db owner (insert_token new db.refresh_tokens)) _
      (λ same.
        if_lem
          (λ (tokens : Option (List RefreshToken)).
            Change (creates input id now) db.refresh_tokens
              (created_with db owner tokens).0.refresh_tokens)
          (any (clashes new) db.refresh_tokens) none (some (new ∷ db.refresh_tokens))
          (λ clash. kept refl) (λ free. added new refl free refl))
      (λ differs. kept refl)

pub find-has_hash :
    (hash : ℕ) (ts : List RefreshToken) (t : RefreshToken)
    → find (has_hash hash) ts ≡ some t
    → t.token_hash ≡ hash
find-has_hash hash [] t found = cc
find-has_hash hash (x ∷ ts) t found = let later = find-has_hash hash ts t in ground arith

rotate_live-Change :
    (input : RotateRefreshTokenInput) (now : ℕ) (db : UserDb) (t : RefreshToken)
    (successor : Option ℕ)
    → find (has_hash input.presented_token_hash) db.refresh_tokens ≡ some t
    → is_live t ≡ true
    → Change
        (rotates input now)
        db.refresh_tokens
        (rotate_live input now db t successor).0.refresh_tokens
rotate_live-Change input now db t none found live = kept refl
rotate_live-Change input now db t (some id) found live =
    let new = successor_of input t id now in
    if_lem
      (λ (tokens : Option (List RefreshToken)).
        Change (rotates input now) db.refresh_tokens
          (rotated_with t id now db (db.users t.user_id) tokens).0.refresh_tokens)
      (any (clashes new) db.refresh_tokens) none (some (new ∷ db.refresh_tokens))
      (λ clash. no_insert (db.users t.user_id)) (λ free. by_owner (db.users t.user_id) free)
  where
    no_insert :
        (owner : Option UserRow)
        → Change
            (rotates input now)
            db.refresh_tokens
            (rotated_with t id now db owner none).0.refresh_tokens
    no_insert none = kept refl
    no_insert (some owner) = kept refl

    by_owner :
        (owner : Option UserRow)
        → any (clashes (successor_of input t id now)) db.refresh_tokens ≡ false
        → Change
            (rotates input now)
            db.refresh_tokens
            (rotated_with t id now db owner
              (some (successor_of input t id now ∷ db.refresh_tokens))).0.refresh_tokens
    by_owner none free = kept refl
    by_owner (some owner) free =
        succeeded t (successor_of input t id now) input.presented_token_hash now found
          (live, refl, refl)
          (find-has_hash input.presented_token_hash db.refresh_tokens t found, refl) free refl

-- What a branch of `rotate` makes of the database.
abbrev Rotates : RotateRefreshTokenInput → ℕ → UserDb → UserDb × RotateOutcome → Type 0
Rotates input now db out = Change (rotates input now) db.refresh_tokens out.0.refresh_tokens

rotate_retiring-Change :
    (input : RotateRefreshTokenInput) (now : ℕ) (db : UserDb) (t : RefreshToken)
    → find (has_hash input.presented_token_hash) db.refresh_tokens ≡ some t
    → is_live t ≡ true
    → Rotates input now db (rotate_retiring input now db t)
rotate_retiring-Change input now db t found live =
    if_lem (Rotates input now db) (leb t.expires_at now)
      (record db { refresh_tokens = map (expire_if t.id now) db.refresh_tokens }, invalid)
      (rotate_live input now db t input.successor_id)
      (λ expired. weakened (expire_if t.id now) (expire_if-Weakens t.id now) refl)
      (λ alive. rotate_live-Change input now db t input.successor_id found live)

rotate_unless_retired-Change :
    (input : RotateRefreshTokenInput) (now : ℕ) (db : UserDb) (t : RefreshToken)
    → find (has_hash input.presented_token_hash) db.refresh_tokens ≡ some t
    → Rotates input now db (rotate_unless_retired input now db t)
rotate_unless_retired-Change input now db t found =
    if_lem (Rotates input now db)
      (not (is_none t.revoked_at) || not (is_none t.replaced_by_token_id))
      (revoke_siblings now db t) (rotate_retiring input now db t)
      (λ retired.
        weakened (revoke_if (in_family t.family_id) now)
          (revoke_if-Weakens (in_family t.family_id) now) refl)
      (λ current. rotate_retiring-Change input now db t found (ground arith))

rotate_found-Change :
    (input : RotateRefreshTokenInput) (now : ℕ) (db : UserDb) (row : Option RefreshToken)
    → find (has_hash input.presented_token_hash) db.refresh_tokens ≡ row
    → Rotates input now db (rotate_found input now db row)
rotate_found-Change input now db none found = kept refl
rotate_found-Change input now db (some t) found =
    if_lem (Rotates input now db) (not (t.user_id == input.expected_user_id)) (db, invalid)
      (rotate_owned input now db t) (λ foreign. kept refl)
      (λ own.
        if_lem (Rotates input now db)
          (not (is_none t.replaced_by_token_id)
            && within_grace now input.reuse_grace_ms t.revoked_at)
          (db, replayed) (rotate_unless_retired input now db t) (λ recent. kept refl)
          (λ late. rotate_unless_retired-Change input now db t found))

revoke_all_of-Change :
    (user_id : ℕ) (replacement : Option PasswordReplacement) (now : ℕ) (db : UserDb)
    (user : Option UserRow)
    → Change
        (revokes_all user_id replacement now)
        db.refresh_tokens
        (revoke_all_of user_id replacement now db user).0.refresh_tokens
revoke_all_of-Change user_id replacement now db none = kept refl
revoke_all_of-Change user_id replacement now db (some user) = from (verified replacement user)
  where
    from :
        (b : Bool)
        → Change
            (revokes_all user_id replacement now)
            db.refresh_tokens
            (revoke_all_when b user_id replacement now db user).0.refresh_tokens
    from true =
        weakened (revoke_if (of_user user_id) now) (revoke_if-Weakens (of_user user_id) now) refl
    from false = kept refl

pub call-Change :
    (c : TokenCall) (db : UserDb) → Change c db.refresh_tokens (call c db).refresh_tokens
unfolding call create rotate revoke_all_for_user revoke_family delete_collectable
call-Change (creates input id now) db = create-Change input id now db (db.users input.user_id)
call-Change (rotates input now) db =
    rotate_found-Change input now db (row_of input.presented_token_hash db) refl
call-Change (revokes_all user_id replacement now) db =
    revoke_all_of-Change user_id replacement now db (db.users user_id)
call-Change (revokes_family user_id family_id now) db =
    weakened (revoke_if (of_family user_id family_id) now)
      (revoke_if-Weakens (of_family user_id family_id) now) refl
call-Change (collects chosen expired_before revoked_before) db = dropped _ refl
