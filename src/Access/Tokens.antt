-- ===== src/Access/Tokens.antt =====
-- Refresh tokens (apps/api/src/modules/auth/services/token.service.ts). The store of RedisService has
-- one key for each token that is valid, until the key expires or is deleted.
use erp_ai_private.Prelude.{
  ℕ, ◌+◌, ◌≤◌, ◌==◌, ◌≡◌, refl, List, [], ◌∷◌, Option, none, some, Bool, false, not, arith, find,
  select, remove, if◌then◌else◌, inl, inr, Bool-cases,
}
use erp_ai_private.Db.{
  Token, Redis, Date, ltb_date, Db, ok, err, Action, ◌>>◌, write, invalid_token,
}
use erp_ai_private.Periods.Calendar.{milliseconds_after}
use erp_ai_private.Access.Redis.{
  is_key, reached, store, set_with_ttl, del, del_by_pattern, clean_memory_store, has_key, exists,
}

-- jsonwebtoken: `sign` makes the text of a token from its user and its id, and `verify` gives them
-- back at a time when the text has a valid signature and has not expired. `ttl` is
-- JWT_REFRESH_EXPIRES_IN, in milliseconds.
pub record Jwt : Type 0 where
  pub sign : ℕ → ℕ → ℕ
  pub verify : Date → ℕ → Option (ℕ × ℕ)
  pub ttl : ℕ

abbrev pub in_redis : (Redis → Redis) → Action (Unit {0})
in_redis f = write (λ db. record db { redis = f db.redis })

module _ (J : Jwt) where
  abbrev pub new_token : ℕ → Date → Db → Token
  new_token user now db = record {
    user = user;
    jti = db.next_id;
    expires_at = milliseconds_after J.ttl now;
  }

  unfoldable pub generate_refresh_token : ℕ → Date → Action ℕ
  generate_refresh_token user now db = (
    ok (J.sign user db.next_id),
    record db { next_id = db.next_id + 1; redis = set_with_ttl (new_token user now db) db.redis },
  )

  abbrev pub revoke_refresh_token : ℕ → ℕ → Action (Unit {0})
  revoke_refresh_token user jti = in_redis (del user jti)

  abbrev pub revoke_all_refresh_tokens : ℕ → Action (Unit {0})
  revoke_all_refresh_tokens user = in_redis (del_by_pattern user)

  -- Every failure is thrown again as one error.
  unfoldable pub rotate_refresh_token : ℕ → ℕ → Date → Action ℕ
  rotate_refresh_token user text now db = elim (J.verify now text) [
    | none ↦ (err invalid_token, db)
    | some p ↦
        if not (p.0 == user)
        then (err invalid_token, db)
        else (let (is_valid, r) = exists user p.1 now db.redis in
            let db1 = record db { redis = r } in
            let used = (revoke_refresh_token user p.1 >> generate_refresh_token user now) db1 in
            if not is_valid
            then (err invalid_token, (revoke_all_refresh_tokens user db1).1)
            else used)
  ]

removed_key :
    (user jti : ℕ) (p : Token → Bool) (ts : List Token)
    → find (is_key user jti) (remove p (remove (is_key user jti) ts)) ≡ none
removed_key user jti p [] = refl
removed_key user jti p (t ∷ ts) = elim (Bool-cases (is_key user jti t)) [
  | inl gone ↦ rw gone (removed_key user jti p ts)
  | inr kept ↦ elim (Bool-cases (p t)) [
    | inl dropped ↦ rw (kept, dropped) (removed_key user jti p ts)
    | inr left ↦ rw (kept, left) (rw kept (removed_key user jti p ts))
  ]
]

-- a newer key does not stand in for a removed one
has_key_removed :
    (user jti : ℕ) (p : Token → Bool) (t : Token) (ts : List Token)
    → is_key user jti t ≡ false
    → has_key user jti (remove p (t ∷ remove (is_key user jti) ts)) ≡ false
has_key_removed user jti p t ts other = elim (Bool-cases (p t)) [
  | inl dropped ↦ rw (dropped, removed_key user jti p ts) refl
  | inr left ↦ rw (left, other, removed_key user jti p ts) refl
]

-- the key is gone from the store in use
used_up :
    (user jti : ℕ) (now later : Date) (r : Redis) (t : Token)
    → is_key user jti t ≡ false
    → let r' = set_with_ttl t (del user jti (exists user jti now r).1) in
      r'.fallback ≡ r.fallback
      → (exists user jti later r').1.fallback ≡ r'.fallback
      → (exists user jti later r').0 ≡ false
unfolding set_with_ttl del exists
used_up user jti now later r t other steady same = elim (Bool-cases r.fallback) [
  | inl memory ↦ ground (
    arith,
    memory,
    has_key_removed user jti (λ x. ltb_date x.expires_at later) t (clean_memory_store now r.memory)
        other,
  )
  | inr redis ↦ ground (
    arith,
    redis,
    has_key_removed user jti (λ x. not (ltb_date later x.expires_at)) t r.keys other,
  )
]

no_tokens :
    (user : ℕ) (ts : List Token)
    → select (λ t. t.user == user) (remove (λ t. t.user == user) ts) ≡ []
no_tokens user [] = refl
no_tokens user (t ∷ ts) = ground (arith, no_tokens user ts)

del_by_pattern-select :
    (user : ℕ) (r : Redis) → select (λ t. t.user == user) (store (del_by_pattern user r)) ≡ []
unfolding del_by_pattern
del_by_pattern-select user r = elim (Bool-cases (reached r).fallback) [
  | inl memory ↦ ground (arith, memory, no_tokens user r.memory)
  | inr redis ↦ ground (arith, redis, no_tokens user r.keys)
]

module _ (J : Jwt) (user text jti : ℕ) where
  rotated_redis :
      (now : Date) (db db' : Db) {fresh_text : ℕ}
      → rotate_refresh_token J user text now db ≡ (ok fresh_text, db')
      → J.verify now text ≡ some (user, jti)
      → db'.redis
        ≡ set_with_ttl (new_token J user now db) (del user jti (exists user jti now db.redis).1)
  unfolding rotate_refresh_token generate_refresh_token
  rotated_redis now db db' h good = elim (Bool-cases (exists user jti now db.redis).0) [
    | inl live ↦ ground (arith, good, live)
    | inr dead ↦ absurd (ground (arith, good, dead))
  ]

  rotate_dead :
      (now : Date) (db : Db)
      → J.verify now text ≡ some (user, jti)
      → (exists user jti now db.redis).0 ≡ false
      → rotate_refresh_token J user text now db ≡ (
        err invalid_token,
        (revoke_all_refresh_tokens J user
            (record db { redis = (exists user jti now db.redis).1 })).1,
      )
  unfolding rotate_refresh_token
  rotate_dead now db good dead = ground (arith, good, dead)

  -- A refresh token is used at most once, where Redis and the memory do not change places: after a
  -- rotation that returned and that ended with the store with which it began, a later call that
  -- looks into the same store refuses the same token at any time for which its text stands for it,
  -- and then no token of the user is left in the store in use, also not the one that the rotation
  -- gave out. The token's id was drawn before the rotation.
  pub rotate_refresh_token_once :
      (now later : Date) (db db' : Db) {fresh_text : ℕ}
      → jti + 1 ≤ db.next_id
      → rotate_refresh_token J user text now db ≡ (ok fresh_text, db')
      → J.verify now text ≡ some (user, jti)
      → J.verify later text ≡ some (user, jti)
      → db'.redis.fallback ≡ db.redis.fallback
      → (exists user jti later db'.redis).1.fallback ≡ db'.redis.fallback
      → let again = rotate_refresh_token J user text later db' in
        (again.0 ≡ err invalid_token) × (select (λ t. t.user == user) (store again.1.redis) ≡ [])
  rotate_refresh_token_once now later db db' old h good still steady same =
      let made = rotated_redis now db db' h good in
      let other : is_key user jti (new_token J user now db) ≡ false = ground arith in
      let dead : (exists user jti later db'.redis).0 ≡ false = rw made (
        used_up user jti now later db.redis (new_token J user now db) other (rw made at steady)
          (rw made at same)) in
      rw (rotate_dead later db' still dead)
        (refl, del_by_pattern-select user (exists user jti later db'.redis).1)
