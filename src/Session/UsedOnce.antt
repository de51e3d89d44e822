-- ===== src/Session/UsedOnce.antt =====
-- A refresh token of apps/user-service is used once.
use jcool_ecommerce_backend.Base.{
  ℕ, true, not, ◌&&◌, ◌||◌, List, [], ◌∷◌, Option, none, some, map, find, any, ◌≡◌, ◌≢◌, refl, sym,
  ap, subst, some_inj, arith, ◌==◌, leb, All, if_lem, All-weaken, All-map, All-find,
}
use jcool_ecommerce_backend.Session.Tokens.{
  RefreshToken, UserDb, UserRow, is_live, is_none, has_hash, row_of, insert_token, clashes,
}
use jcool_ecommerce_backend.Session.Rotation.{
  RotateRefreshTokenInput, RotateOutcome, rotated, invalid, replayed, reuse, rotate_threw, rotate,
  rotate_found, rotate_owned, rotate_unless_retired, rotate_retiring, rotate_live, rotated_with,
  revoke_siblings, successor_of, replace_if, expire_if, within_grace,
}
use jcool_ecommerce_backend.Session.Change.{find-has_hash}
use jcool_ecommerce_backend.Session.Calls.{TokenCall, call_all}
use jcool_ecommerce_backend.Session.Spent.{
  IsDead, Avoids, call_all-IsDead, has_hash-Stable, Avoids-AddsNone,
}

-- The rows after a rotation that went through.
abbrev RotatedRows : RotateRefreshTokenInput → UserDb → UserDb × RotateOutcome → Type 0
RotatedRows input db (db', rotated _ _ _) =
    (old : RefreshToken) × (new : RefreshToken) × (now : ℕ) × (find
          (has_hash input.presented_token_hash) db.refresh_tokens
        ≡ some old
      × is_live old ≡ true
      × new.token_hash ≡ input.new_token_hash
      × db'.refresh_tokens ≡ map (replace_if old.id new.id now) (new ∷ db.refresh_tokens))
RotatedRows input db (db', _) = Unit

rotate_live-RotatedRows :
    (input : RotateRefreshTokenInput) (now : ℕ) (db : UserDb) (t : RefreshToken)
    (successor : Option ℕ)
    → find (has_hash input.presented_token_hash) db.refresh_tokens ≡ some t
    → is_live t ≡ true
    → RotatedRows input db (rotate_live input now db t successor)
rotate_live-RotatedRows input now db t none found live = tt
rotate_live-RotatedRows input now db t (some id) found live =
    from (db.users t.user_id) (insert_token (successor_of input t id now) db.refresh_tokens) (
      if_lem (λ (o : Option (List RefreshToken)). InsertedRow o)
        (any (clashes new) db.refresh_tokens) none (some (new ∷ db.refresh_tokens)) (λ clash. tt)
        (λ free. refl))
  where
    new : RefreshToken
    new = successor_of input t id now

    InsertedRow : Option (List RefreshToken) → Type 0
    InsertedRow none = Unit
    InsertedRow (some ts) = ts ≡ new ∷ db.refresh_tokens

    from :
        (owner : Option UserRow) (inserted : Option (List RefreshToken))
        → InsertedRow inserted
        → RotatedRows input db (rotated_with t id now db owner inserted)
    from none inserted rows = tt
    from (some owner) none rows = tt
    from (some owner) (some ts) rows =
        (t, new, now, (found, live, refl, ap (map (replace_if t.id id now)) rows))

rotate_found-RotatedRows :
    (input : RotateRefreshTokenInput) (now : ℕ) (db : UserDb) (row : Option RefreshToken)
    → find (has_hash input.presented_token_hash) db.refresh_tokens ≡ row
    → RotatedRows input db (rotate_found input now db row)
rotate_found-RotatedRows input now db none found = tt
rotate_found-RotatedRows input now db (some t) found =
    if_lem (RotatedRows input db) (not (t.user_id == input.expected_user_id)) (db, invalid)
      (rotate_owned input now db t) (λ foreign. tt)
      (λ own.
        if_lem (RotatedRows input db)
          (not (is_none t.replaced_by_token_id)
            && within_grace now input.reuse_grace_ms t.revoked_at)
          (db, replayed) (rotate_unless_retired input now db t) (λ recent. tt)
          (λ late.
            if_lem (RotatedRows input db)
              (not (is_none t.revoked_at) || not (is_none t.replaced_by_token_id))
              (revoke_siblings now db t) (rotate_retiring input now db t) (λ retired. tt)
              (λ current.
                if_lem (RotatedRows input db) (leb t.expires_at now)
                  (
                    record db { refresh_tokens = map (expire_if t.id now) db.refresh_tokens },
                    invalid,
                  )
                  (rotate_live input now db t input.successor_id) (λ expired. tt)
                  (λ alive.
                    rotate_live-RotatedRows input now db t input.successor_id found
                      (ground arith)))))

-- `token_hash` is a unique key.
unfoldable pub DistinctHashes : List RefreshToken → Type 0
DistinctHashes [] = Unit
DistinctHashes (t ∷ ts) = All (λ u. u.token_hash ≢ t.token_hash) ts × DistinctHashes ts

-- The row that a hash finds is the only one of that hash.
abbrev IsSame : ℕ → RefreshToken → RefreshToken → Type 0
IsSame hash old u = has_hash hash u ≡ true → u.id ≡ old.id

find-IsSame :
    (hash : ℕ) (ts : List RefreshToken) (old : RefreshToken)
    → DistinctHashes ts
    → find (has_hash hash) ts ≡ some old
    → All (IsSame hash old) ts
unfolding DistinctHashes
find-IsSame hash [] old distinct found = tt
find-IsSame hash (x ∷ ts) old (differ, distinct) found =
    if_lem (λ (o : Option RefreshToken). o ≡ some old → All (IsSame hash old) (x ∷ ts))
      (has_hash hash x) (some x) (find (has_hash hash) ts)
      (λ here same.
        subst (λ z. All (IsSame hash z) (x ∷ ts)) (some_inj same)
          ((λ passes. refl), All-weaken (λ u other passes. ground (arith, other)) ts differ))
      (λ there later. ((λ passes. cc), find-IsSame hash ts old distinct later)) found

replaced-IsDead :
    (hash now : ℕ) (old new u : RefreshToken)
    → IsSame hash old u
    → IsDead (has_hash hash) (replace_if old.id new.id now u)
replaced-IsDead hash now old new u same passes = ground (arith, same)

RotatedRows-IsDead :
    (input : RotateRefreshTokenInput) (db : UserDb) (out : UserDb × RotateOutcome)
    (user role epoch : ℕ)
    → DistinctHashes db.refresh_tokens
    → input.new_token_hash ≢ input.presented_token_hash
    → out.1 ≡ rotated user role epoch
    → RotatedRows input db out
    → All (IsDead (has_hash input.presented_token_hash)) out.0.refresh_tokens
RotatedRows-IsDead input db (db', rotated _ _ _) user role epoch distinct fresh done
      (old, new, now, (found, live, hash, rows)) =
    let h = input.presented_token_hash in
    subst (All (IsDead (has_hash h))) (sym rows) (
      (λ passes. ground (arith, fresh)),
      All-map (IsDead (has_hash h)) (replace_if old.id new.id now) (replaced-IsDead h now old new)
          db.refresh_tokens (find-IsSame h db.refresh_tokens old distinct found),
    )
RotatedRows-IsDead input db (db', invalid) user role epoch distinct fresh done rows = cc
RotatedRows-IsDead input db (db', replayed) user role epoch distinct fresh done rows = cc
RotatedRows-IsDead input db (db', rotate_threw) user role epoch distinct fresh done rows = cc
RotatedRows-IsDead input db (db', reuse _ _ _) user role epoch distinct fresh done rows = cc

dead-unrotated :
    (input : RotateRefreshTokenInput) (db : UserDb) (out : UserDb × RotateOutcome)
    (user role epoch : ℕ)
    → All (IsDead (has_hash input.presented_token_hash)) db.refresh_tokens
    → RotatedRows input db out
    → out.1 ≢ rotated user role epoch
dead-unrotated input db (db', rotated _ _ _) user role epoch dead
      (old, new, now, (found, live, hash, rows)) done =
    let h = input.presented_token_hash in
    let own = find-has_hash h db.refresh_tokens old found in
    let dead_old = All-find (IsDead (has_hash h)) (has_hash h) db.refresh_tokens old dead found in
    ground arith
dead-unrotated input db (db', invalid) user role epoch dead rows done = cc
dead-unrotated input db (db', replayed) user role epoch dead rows done = cc
dead-unrotated input db (db', rotate_threw) user role epoch dead rows done = cc
dead-unrotated input db (db', reuse _ _ _) user role epoch dead rows done = cc

-- A refresh token rotates once: after a rotation of it that went through, no later rotation of the
-- same hash does, whatever calls that mint other hashes come between.
pub rotate-once :
    (input again : RotateRefreshTokenInput) (now later user role epoch user' role' epoch' : ℕ)
    (db : UserDb) (cs : List TokenCall)
    → DistinctHashes db.refresh_tokens
    → input.new_token_hash ≢ input.presented_token_hash
    → (rotate input now db).1 ≡ rotated user role epoch
    → All (Avoids input.presented_token_hash) cs
    → again.presented_token_hash ≡ input.presented_token_hash
    → (rotate again later (call_all cs (rotate input now db).0)).1 ≢ rotated user' role' epoch'
unfolding rotate
rotate-once input again now later user role epoch user' role' epoch' db cs distinct fresh done
      avoids same =
    let h = input.presented_token_hash in
    let out = rotate input now db in
    let dead =
      RotatedRows-IsDead input db out user role epoch distinct fresh done
        (rotate_found-RotatedRows input now db (row_of h db) refl) in
    let after = call_all cs out.0 in
    let still =
      call_all-IsDead (has_hash h) cs out.0 (has_hash-Stable h)
        (All-weaken (Avoids-AddsNone h) cs avoids) dead in
    dead-unrotated again after (rotate again later after) user' role' epoch'
      (subst (λ k. All (IsDead (has_hash k)) after.refresh_tokens) (sym same) still)
      (rotate_found-RotatedRows again later after (row_of again.presented_token_hash after) refl)
