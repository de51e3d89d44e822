-- ===== src/Session/OneLive.antt =====
-- A session has one live token: the families of apps/user-service's refresh tokens over any calls.
use jcool_ecommerce_backend.Base.{
  ℕ, Bool, true, false, List, [], ◌∷◌, Option, some, map, filter, find, ◌≡◌, ◌≢◌, refl, sym, subst,
  some_inj, arith, All, if_lem, All-weaken, All-map, All-filter, All-find,
}
use jcool_ecommerce_backend.Session.Tokens.{RefreshToken, UserDb, is_live, has_hash}
use jcool_ecommerce_backend.Session.Rotation.{replace_if}
use jcool_ecommerce_backend.Session.Calls.{
  TokenCall, creates, rotates, revokes_all, revokes_family, collects, call, call_all,
}
use jcool_ecommerce_backend.Session.Change.{
  Change, kept, weakened, dropped, added, succeeded, Weakens, Adds, Succeeds, call-Change,
  replace_if-Weakens,
}

-- `u` is no live token of `t`'s family.
abbrev pub IsApart : RefreshToken → RefreshToken → Type 0
IsApart t u = u.family_id ≡ t.family_id → is_live u ≡ false

-- No two live tokens of one family.
unfoldable pub OneLive : List RefreshToken → Type 0
OneLive [] = Unit
OneLive (t ∷ ts) = (is_live t ≡ true → All (IsApart t) ts) × OneLive ts

map-OneLive :
    (f : RefreshToken → RefreshToken) (ts : List RefreshToken)
    → Weakens f
    → OneLive ts
    → OneLive (map f ts)
unfolding OneLive
map-OneLive f [] weakens one = tt
map-OneLive f (t ∷ ts) weakens (apart, one) = (
  λ live.
      All-map (IsApart (f t)) f
        (λ u away same. let at = weakens t in let there = weakens u in ground (arith, away)) ts
        (apart ((weakens t).4 live)),
  map-OneLive f ts weakens one,
)

filter-OneLive :
    (keep : RefreshToken → Bool) (ts : List RefreshToken) → OneLive ts → OneLive (filter keep ts)
unfolding OneLive
filter-OneLive keep [] one = tt
filter-OneLive keep (t ∷ ts) (apart, one) =
    let rest = filter-OneLive keep ts one in
    if_lem OneLive (keep t) (t ∷ filter keep ts) (filter keep ts)
      (λ taken. (λ live. All-filter (IsApart t) keep ts (apart live), rest)) (λ left. rest)

-- The live tokens of its family are the token itself.
abbrev IsAlone : RefreshToken → RefreshToken → Type 0
IsAlone t u = u.family_id ≡ t.family_id → is_live u ≡ true → u.id ≡ t.id

IsApart-IsAlone : (t u : RefreshToken) → IsApart t u → IsAlone t u
IsApart-IsAlone t u away same live = let dead = away same in cc

find-IsAlone :
    (test : RefreshToken → Bool) (ts : List RefreshToken) (t : RefreshToken)
    → OneLive ts
    → is_live t ≡ true
    → find test ts ≡ some t
    → All (IsAlone t) ts
unfolding OneLive
find-IsAlone test [] t one live found = tt
find-IsAlone test (x ∷ ts) t (apart, one) live found =
    if_lem (λ (o : Option RefreshToken). o ≡ some t → All (IsAlone t) (x ∷ ts)) (test x) (some x)
      (find test ts)
      (λ here same.
        let at = some_inj same in
        subst (λ z. All (IsAlone z) (x ∷ ts)) at
          (
            (λ family lives. refl),
            All-weaken (IsApart-IsAlone x) ts (apart (subst (λ z. is_live z ≡ true) (sym at) live)),
          ))
      (λ there later. (
        (λ family lives.
            let away = All-find (IsApart x) test ts t (apart lives) later in
            let dead = away (sym family) in cc),
        find-IsAlone test ts t one live later,
      ))
      found

-- The successor is the family's only live token.
succeed-OneLive :
    (old new : RefreshToken) (hash now : ℕ) (ts : List RefreshToken)
    → find (has_hash hash) ts ≡ some old
    → Succeeds old new
    → OneLive ts
    → OneLive (map (replace_if old.id new.id now) (new ∷ ts))
unfolding OneLive
succeed-OneLive old new hash now ts found (live, family, user) one =
    let f = replace_if old.id new.id now in
    (
      λ lives.
          All-map (IsApart (f new)) f
            (λ u alone same.
              let at = replace_if-Weakens old.id new.id now new in
              let there = replace_if-Weakens old.id new.id now u in ground (arith, alone))
            ts (find-IsAlone (has_hash hash) ts old one live found),
      map-OneLive f ts (replace_if-Weakens old.id new.id now) one,
    )

-- A create opens a family that no row has.
abbrev pub IsFresh : TokenCall → List RefreshToken → Type 0
IsFresh (creates input id now) ts = All (λ u. u.family_id ≢ input.family_id) ts
IsFresh _ ts = Unit

unfoldable pub FreshFamilies : List TokenCall → UserDb → Type 0
FreshFamilies [] db = Unit
FreshFamilies (c ∷ cs) db = IsFresh c db.refresh_tokens × FreshFamilies cs (call c db)

IsFresh-IsApart :
    (c : TokenCall) (t : RefreshToken) (ts : List RefreshToken)
    → Adds c t
    → IsFresh c ts
    → All (IsApart t) ts
IsFresh-IsApart (creates input id now) t ts adds fresh =
    All-weaken (λ u other same. ground (arith, other)) ts fresh
IsFresh-IsApart (rotates _ _) t ts adds fresh = absurd adds
IsFresh-IsApart (revokes_all _ _ _) t ts adds fresh = absurd adds
IsFresh-IsApart (revokes_family _ _ _) t ts adds fresh = absurd adds
IsFresh-IsApart (collects _ _ _) t ts adds fresh = absurd adds

Change-OneLive :
    (c : TokenCall) (ts ts' : List RefreshToken)
    → IsFresh c ts
    → OneLive ts
    → Change c ts ts'
    → OneLive ts'
unfolding OneLive
Change-OneLive c ts ts' fresh one (kept same) = subst OneLive (sym same) one
Change-OneLive c ts ts' fresh one (weakened f weakens same) =
    subst OneLive (sym same) (map-OneLive f ts weakens one)
Change-OneLive c ts ts' fresh one (dropped keep same) =
    subst OneLive (sym same) (filter-OneLive keep ts one)
Change-OneLive c ts ts' fresh one (added t adds free same) =
    subst OneLive (sym same) (λ live. IsFresh-IsApart c t ts adds fresh, one)
Change-OneLive c ts ts' fresh one (succeeded old new hash now found succeeds presents free same) =
    subst OneLive (sym same) (succeed-OneLive old new hash now ts found succeeds one)

-- However logins, refreshes, logouts, password changes and collections follow one another, a session
-- has at most one live refresh token, when each login opens a family that no row has.
pub call_all-OneLive :
    (cs : List TokenCall) (db : UserDb)
    → FreshFamilies cs db
    → OneLive db.refresh_tokens
    → OneLive (call_all cs db).refresh_tokens
unfolding call_all FreshFamilies
call_all-OneLive [] db fresh one = one
call_all-OneLive (c ∷ cs) db (fresh, rest) one =
    call_all-OneLive cs (call c db) rest
      (Change-OneLive c db.refresh_tokens (call c db).refresh_tokens fresh one (call-Change c db))
