-- ===== src/Repository/Session.antt =====
-- internal/repository/session.go
pub mod Redis
pub mod Lifetime
pub mod PasswordChange
use audiax_backend.Common.{◌+◌, List, [], ◌∷◌, ◌++◌, if◌then◌else◌}
use audiax_backend.Common.Text.{Text, text}
use audiax_backend.Constants.{
  session_key_prefix, user_session_index_prefix, session_index_ttl_margin,
}
use audiax_backend.Errors.{Error, sentinel, unauthorized, redis_nil, wrap, is}
use audiax_backend.Exec.{Exec, pure, on_error, ◌>>=◌, ◌>>◌}
use audiax_backend.Entity.{Time}
use audiax_backend.Usecase.Ports.{SessionRepository}
use Redis.{RedisClient, Command, set, s_add, expire, del}

-- the key of a session is the digest of its token, and never the token
unfoldable pub session_key : {W : Type 0} → RedisClient W → Text → Text
session_key r token = session_key_prefix ++ r.digest token

abbrev pub user_index_key : Text → Text
user_index_key user_id = user_session_index_prefix ++ user_id

-- redis.Nil is an unknown or expired token
unfoldable pub no_session : Error → Error
no_session e = if is e redis_nil then sentinel unauthorized else wrap (text "read session: ") e

-- the commands of the two pipelines
abbrev pub storing : Text → Text → Text → Time → List Command
storing key index user_id ttl =
    set key user_id ttl ∷ s_add index key ∷ expire index (ttl + session_index_ttl_margin) ∷ []

abbrev pub deleting : List Text → Text → List Command
deleting [] index = del (index ∷ []) ∷ []
deleting (key ∷ keys) index = del (key ∷ keys) ∷ del (index ∷ []) ∷ []

module _ {W : Type 0} (r : RedisClient W) where
  unfoldable pub create : Text → Time → Exec W Text
  create user_id ttl = do
    token ← on_error (wrap (text "generate session token: ")) r.random_token
    on_error (wrap (text "store session: "))
        (r.exec (storing (session_key r token) (user_index_key user_id) user_id ttl))
    pure token

  unfoldable pub find_user_id : Text → Exec W Text
  find_user_id token = on_error no_session (r.get (session_key r token))

  unfoldable pub delete : Text → Exec W Unit
  delete token = on_error (wrap (text "delete session: ")) (r.del_one (session_key r token))

  unfoldable pub delete_all_for_user : Text → Exec W Unit
  delete_all_for_user user_id = do
    keys ← on_error (wrap (text "read session index: ")) (r.s_members (user_index_key user_id))
    on_error (wrap (text "delete sessions: ")) (r.exec (deleting keys (user_index_key user_id)))

  -- what the use case sees of it
  abbrev pub session_repository : SessionRepository W
  session_repository = record {
    create = create;
    find_user_id = find_user_id;
    delete = delete;
    delete_all_for_user = delete_all_for_user;
  }
