-- ===== src/Session/Spent.antt =====
-- Refresh tokens of apps/user-service that are over: they stay so, and no refresh comes of them.
use jcool_ecommerce_backend.Base.{
  ℕ, Bool, true, false, List, [], ◌∷◌, map, ◌≡◌, ◌≢◌, sym, subst, arith, All, All-map, All-filter,
  All-find,
}
use jcool_ecommerce_backend.Session.Tokens.{RefreshToken, UserDb, is_live, has_hash, of_user}
use jcool_ecommerce_backend.Session.Rotation.{replace_if}
use jcool_ecommerce_backend.Session.Calls.{
  TokenCall, creates, rotates, revokes_all, revokes_family, collects, call, call_all,
}
use jcool_ecommerce_backend.Session.Change.{
  Change, kept, weakened, dropped, added, succeeded, Weakens, Adds, Succeeds, Presents, call-Change,
  replace_if-Weakens,
}

-- No live token passes the test.
abbrev pub IsDead : (RefreshToken → Bool) → RefreshToken → Type 0
IsDead test t = test t ≡ true → is_live t ≡ false

-- The test reads what a row keeps.
abbrev pub Stable : (RefreshToken → Bool) → Type 0
Stable test =
    (f : RefreshToken → RefreshToken) → Weakens f → (t : RefreshToken) → test (f t) ≡ test t

-- What a call adds does not pass the test.
abbrev pub AddsNone : (RefreshToken → Bool) → TokenCall → Type 0
AddsNone test c =
    ((t : RefreshToken) → Adds c t → test t ≡ false)
    × ((old new : RefreshToken)
        → Succeeds old new
        → Presents c old new
        → IsDead test old
        → test new ≡ false)

map-IsDead :
    (test : RefreshToken → Bool) (f : RefreshToken → RefreshToken) (ts : List RefreshToken)
    → Stable test
    → Weakens f
    → All (IsDead test) ts
    → All (IsDead test) (map f ts)
map-IsDead test f ts stable weakens =
    All-map (IsDead test) f
      (λ t dead passes.
        let same = stable f weakens t in let weak = weakens t in ground (arith, dead))
      ts

Change-IsDead :
    (test : RefreshToken → Bool) (c : TokenCall) (ts ts' : List RefreshToken)
    → Stable test
    → AddsNone test c
    → All (IsDead test) ts
    → Change c ts ts'
    → All (IsDead test) ts'
Change-IsDead test c ts ts' stable adds dead (kept same) = subst (All (IsDead test)) (sym same) dead
Change-IsDead test c ts ts' stable adds dead (weakened f weakens same) =
    subst (All (IsDead test)) (sym same) (map-IsDead test f ts stable weakens dead)
Change-IsDead test c ts ts' stable adds dead (dropped keep same) =
    subst (All (IsDead test)) (sym same) (All-filter (IsDead test) keep ts dead)
Change-IsDead test c ts ts' stable adds dead (added t new free same) =
    subst (All (IsDead test)) (sym same) ((λ passes. let fails = adds.0 t new in cc), dead)
Change-IsDead test c ts ts' stable adds dead
      (succeeded old new hash now found succeeds presents free same) =
    let fails =
      adds.1 old new succeeds presents (All-find (IsDead test) (has_hash hash) ts old dead found) in
    subst (All (IsDead test)) (sym same) (
      map-IsDead test (replace_if old.id new.id now) (new ∷ ts) stable
        (replace_if-Weakens old.id new.id now) ((λ passes. cc), dead))

pub call_all-IsDead :
    (test : RefreshToken → Bool) (cs : List TokenCall) (db : UserDb)
    → Stable test
    → All (AddsNone test) cs
    → All (IsDead test) db.refresh_tokens
    → All (IsDead test) (call_all cs db).refresh_tokens
unfolding call_all
call_all-IsDead test [] db stable adds dead = dead
call_all-IsDead test (c ∷ cs) db stable (adds, rest) dead =
    call_all-IsDead test cs (call c db) stable rest (
      Change-IsDead test c db.refresh_tokens (call c db).refresh_tokens stable adds dead
        (call-Change c db))

-- The call mints no token of this hash.
abbrev pub Avoids : ℕ → TokenCall → Type 0
Avoids hash (creates input id now) = input.token_hash ≢ hash
Avoids hash (rotates input now) = input.new_token_hash ≢ hash
Avoids hash _ = Unit

pub has_hash-Stable : (hash : ℕ) → Stable (has_hash hash)
has_hash-Stable hash f weakens t = let weak = weakens t in ground arith

pub Avoids-AddsNone : (hash : ℕ) (c : TokenCall) → Avoids hash c → AddsNone (has_hash hash) c
Avoids-AddsNone hash (creates input id now) avoids =
    (λ t new. ground (arith, avoids), λ old new succeeds presents. absurd presents)
Avoids-AddsNone hash (rotates input now) avoids =
    (λ t adds. absurd adds, λ old new succeeds presents dead. ground (arith, avoids))
Avoids-AddsNone hash (revokes_all _ _ _) avoids = (λ t. absurd, λ old new succeeds. absurd)
Avoids-AddsNone hash (revokes_family _ _ _) avoids = (λ t. absurd, λ old new succeeds. absurd)
Avoids-AddsNone hash (collects _ _ _) avoids = (λ t. absurd, λ old new succeeds. absurd)

-- The call is no login of this user.
abbrev pub NoLogin : ℕ → TokenCall → Type 0
NoLogin user_id (creates input id now) = input.user_id ≢ user_id
NoLogin user_id _ = Unit

pub of_user-Stable : (user_id : ℕ) → Stable (of_user user_id)
of_user-Stable user_id f weakens t = let weak = weakens t in ground arith

pub NoLogin-AddsNone :
    (user_id : ℕ) (c : TokenCall) → NoLogin user_id c → AddsNone (of_user user_id) c
NoLogin-AddsNone user_id (creates input id now) other =
    (λ t new. ground (arith, other), λ old new succeeds presents. absurd presents)
NoLogin-AddsNone user_id (rotates input now) other =
    (λ t adds. absurd adds, λ old new succeeds presents dead. ground (arith, dead))
NoLogin-AddsNone user_id (revokes_all _ _ _) other = (λ t. absurd, λ old new succeeds. absurd)
NoLogin-AddsNone user_id (revokes_family _ _ _) other = (λ t. absurd, λ old new succeeds. absurd)
NoLogin-AddsNone user_id (collects _ _ _) other = (λ t. absurd, λ old new succeeds. absurd)
