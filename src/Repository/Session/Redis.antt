-- ===== src/Repository/Session/Redis.antt =====
-- The client of Redis, the random numbers and the digests that internal/repository/session.go uses,
-- taken as given, and what Redis documents of its commands.
use audiax_backend.Common.{◌≡◌, List, [], ◌∷◌, In}
use audiax_backend.Common.Text.{Text}
use audiax_backend.Errors.{sentinel, redis_nil}
use audiax_backend.Exec.{ok, err, Exec}
use audiax_backend.Entity.{Time}

-- SET, SADD, EXPIRE and DEL as a pipeline queues them
pub data Command : Type 0 where
  set : Text → Text → Time → Command
  s_add : Text → Text → Command
  expire : Text → Time → Command
  del : List Text → Command

pub record RedisClient (W : Type 0) : Type 0 where
  -- 32 random bytes in base64.RawURLEncoding
  pub random_token : Exec W Text
  -- the SHA-256 of a token in hexadecimal
  pub digest : Text → Text
  -- GET, with redis.Nil for a missing key; DEL of one key; SMEMBERS; a transaction of commands
  pub get : Text → Exec W Text
  pub del_one : Text → Exec W Unit
  pub s_members : Text → Exec W (List Text)
  pub exec : List Command → Exec W Unit

-- What a client reads is what is stored, and a transaction that succeeds has had the effect of its
-- commands. A key may expire at any time, so no law says that a key is there.
pub record RedisLaws {W : Type 0} (r : RedisClient W) : Type 1 where
  -- the set at a key, and that a string key is missing
  pub members : W → Text → List Text
  pub Missing : W → Text → Type 0
  pub exec-members :
      (key value index : Text) (ttl longer : Time) (w w' : W)
      → r.exec (set key value ttl ∷ s_add index key ∷ expire index longer ∷ []) w ≡ (ok tt, w')
      → In key (members w' index)
  pub s_members-members :
      (index : Text) (keys : List Text) (w w' : W)
      → r.s_members index w ≡ (ok keys, w')
      → keys ≡ members w index
  pub exec-Missing :
      (keys : List Text) (index key : Text) (w w' : W)
      → r.exec (del keys ∷ del (index ∷ []) ∷ []) w ≡ (ok tt, w')
      → In key keys
      → Missing w' key
  pub del_one-Missing : (key : Text) (w w' : W) → r.del_one key w ≡ (ok tt, w') → Missing w' key
  pub Missing-get :
      (key : Text) (w : W) → Missing w key → (r.get key w).0 ≡ err (sentinel redis_nil)
