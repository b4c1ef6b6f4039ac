-- ===== src/Access/Redis.antt =====
-- Redis with its fallback in memory (apps/api/src/database/redis.service.ts), for the keys of refresh
-- tokens. A call that Redis does not answer turns the process to its memory for good, until Redis
-- reports a new connection.
use erp_ai_private.Prelude.{
  ℕ, ◌+◌, ◌==◌, List, ◌∷◌, Bool, true, false, ◌&&◌, ◌||◌, not, find, remove, is_none, if◌then◌else◌,
}
use erp_ai_private.Db.{Token, Redis, Date, ltb_date}

abbrev pub is_key : ℕ → ℕ → Token → Bool
is_key user jti t = t.user == user && t.jti == jti

-- `try … catch`: the flag after the next call
abbrev pub reached : Redis → Redis
reached r = record r { fallback = r.fallback || not (r.answers r.calls); calls = r.calls + 1 }

-- `on('connect')` and `on('error')`
unfoldable pub on_connect : Redis → Redis
on_connect r = record r { fallback = false }

unfoldable pub on_error : Redis → Redis
on_error r = record r { fallback = true }

-- the store that the process turns to
abbrev pub store : Redis → List Token
store r = if r.fallback then r.memory else r.keys

abbrev pub put_store : List Token → Redis → Redis
put_store ts r = if r.fallback then record r { memory = ts } else record r { keys = ts }

-- a key that was set is new
unfoldable pub set_with_ttl : Token → Redis → Redis
set_with_ttl t r = let r' = reached r in put_store (t ∷ store r') r'

unfoldable pub del : ℕ → ℕ → Redis → Redis
del user jti r = let r' = reached r in put_store (remove (is_key user jti) (store r')) r'

-- the pattern of all tokens of a user
unfoldable pub del_by_pattern : ℕ → Redis → Redis
del_by_pattern user r = let r' = reached r in put_store (remove (λ t. t.user == user) (store r')) r'

-- Redis forgets a key when its time is over; the memory drops it a moment later.
abbrev pub clean_memory_store : Date → List Token → List Token
clean_memory_store now ts = remove (λ t. ltb_date t.expires_at now) ts

abbrev pub has_key : ℕ → ℕ → List Token → Bool
has_key user jti ts = not (is_none (find (is_key user jti) ts))

unfoldable pub exists : ℕ → ℕ → Date → Redis → Bool × Redis
exists user jti now r =
    let r' = reached r in
    if r'.fallback
    then (
      has_key user jti (clean_memory_store now r'.memory),
      record r' { memory = clean_memory_store now r'.memory },
    )
    else (has_key user jti (remove (λ t. not (ltb_date now t.expires_at)) r'.keys), r')
