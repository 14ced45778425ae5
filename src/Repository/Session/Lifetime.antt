-- ===== src/Repository/Session/Lifetime.antt =====
-- What becomes of a session.
use audiax_backend.Common.{◌≡◌, refl, List, [], ◌∷◌, In}
use audiax_backend.Common.Text.{Text, text}
use audiax_backend.Errors.{sentinel, unauthorized, wrap, is}
use audiax_backend.Exec.{ok, err, Exec, pure, on_error, ◌>>◌, on_error_ok, continue_ok}
use audiax_backend.Entity.{Time}
use audiax_backend.Repository.Session.{
  session_key, user_index_key, no_session, storing, deleting, create, find_user_id, delete,
  delete_all_for_user,
}
use audiax_backend.Repository.Session.Redis.{RedisClient, RedisLaws}

module _ {W : Type 0} (r : RedisClient W) (laws : RedisLaws r) where
  missing_unauthorized :
      (token : Text) (w : W)
      → laws.Missing w (session_key r token)
      → (find_user_id r token w).0 ≡ err (sentinel unauthorized)
  unfolding find_user_id no_session is
  missing_unauthorized token w gone = rw (laws.Missing-get (session_key r token) w gone) refl

  -- An indexed session, revoked, in the steps of the code: the keys are read, then deleted.
  deleted_unauthorized :
      (user_id token : Text) (keys : List Text) (w w' : W)
      → In (session_key r token) keys
      → on_error
          (wrap (text "delete sessions: "))
          (r.exec (deleting keys (user_index_key user_id)))
          w
        ≡ (ok tt, w')
      → (find_user_id r token w').0 ≡ err (sentinel unauthorized)
  deleted_unauthorized user_id token [] w w' i h = elim i [ ]
  deleted_unauthorized user_id token (k ∷ keys) w w' i h = missing_unauthorized token w' (
      laws.exec-Missing (k ∷ keys) (user_index_key user_id) (session_key r token) w w'
        (on_error_ok (wrap (text "delete sessions: "))
          (r.exec (deleting (k ∷ keys) (user_index_key user_id))) w w' h)
        i)

  pub indexed_unauthorized :
      (user_id token : Text) (w w' : W)
      → In (session_key r token) (laws.members w (user_index_key user_id))
      → delete_all_for_user r user_id w ≡ (ok tt, w')
      → (find_user_id r token w').0 ≡ err (sentinel unauthorized)
  unfolding delete_all_for_user
  indexed_unauthorized user_id token w w' i h =
      let reading =
        on_error (wrap (text "read session index: ")) (r.s_members (user_index_key user_id)) in
      let (keys, v, got, rest) =
        continue_ok reading
          (λ keys.
            on_error (wrap (text "delete sessions: "))
              (r.exec (deleting keys (user_index_key user_id))))
          w w' h in
      let read =
        on_error_ok (wrap (text "read session index: ")) (r.s_members (user_index_key user_id)) w v
          got in
      deleted_unauthorized user_id token keys v w'
        (rw (laws.s_members-members (user_index_key user_id) keys w v read) i) rest

  pub create_indexed :
      (user_id token : Text) (ttl : Time) (w w' : W)
      → create r user_id ttl w ≡ (ok token, w')
      → In (session_key r token) (laws.members w' (user_index_key user_id))
  unfolding create
  create_indexed user_id token ttl w w' h =
      let storing_for : Text → Exec W Unit =
        λ fresh. r.exec (storing (session_key r fresh) (user_index_key user_id) user_id ttl) in
      let (fresh, v, got, rest) =
        continue_ok (on_error (wrap (text "generate session token: ")) r.random_token)
          (λ fresh. on_error (wrap (text "store session: ")) (storing_for fresh) >> pure fresh) w w'
          h in
      let (unit, v', stored, last) =
        continue_ok (on_error (wrap (text "store session: ")) (storing_for fresh)) (λ _. pure fresh)
          v w' rest in
      let same : fresh ≡ token = cc in
      let there : v' ≡ w' = cc in
      rw (← same, ← there)
        (laws.exec-members (session_key r fresh) user_id (user_index_key user_id) ttl _ v v'
          (on_error_ok (wrap (text "store session: ")) (storing_for fresh) v v' stored))

  -- A session is opened, and then all sessions of its user are revoked: if both calls succeed, the
  -- token is answered with "unauthorized".
  pub revoked_session_unknown :
      (user_id token : Text) (ttl : Time) (w w₁ w₂ : W)
      → create r user_id ttl w ≡ (ok token, w₁)
      → delete_all_for_user r user_id w₁ ≡ (ok tt, w₂)
      → (find_user_id r token w₂).0 ≡ err (sentinel unauthorized)
  revoked_session_unknown user_id token ttl w w₁ w₂ opened revoked =
      indexed_unauthorized user_id token w₁ w₂ (create_indexed user_id token ttl w w₁ opened)
        revoked

  -- After a logout that succeeded the token is answered with "unauthorized".
  pub deleted_session_unknown :
      (token : Text) (w w' : W)
      → delete r token w ≡ (ok tt, w')
      → (find_user_id r token w').0 ≡ err (sentinel unauthorized)
  unfolding delete
  deleted_session_unknown token w w' h = missing_unauthorized token w' (
      laws.del_one-Missing (session_key r token) w w'
        (on_error_ok (wrap (text "delete session: ")) (r.del_one (session_key r token)) w w' h))
