-- ===== src/Usecase/User/Revocation.antt =====
-- A new password revokes the sessions.
use audiax_backend.Common.{
  ◌≡◌, refl, subst, inl, inr, arith, Option-cases, some, List, [], ◌∷◌, ◌++◌,
}
use audiax_backend.Common.Text.{Text, text}
use audiax_backend.Errors.{wrap}
use audiax_backend.Exec.{Result, ok, err, on_error, pure, ◌>>=◌, ◌>>◌}
use audiax_backend.Entity.{User}
use audiax_backend.Model.{UpdateUserRequest, UserResponse, user_to_response}
use audiax_backend.Usecase.Ports.{not_found_or}
use audiax_backend.Usecase.Validation.{validate_struct}
use audiax_backend.Usecase.User.{UserUseCase, name_column, password_column, revoke, write, update}

module _ {W : Type 0} (uc : UserUseCase W) where
  -- The last call that changed the world revoked all sessions of the user, and it succeeded.
  pub record IsRevoked (r : UserResponse) (w' : W) : Type 0 where
    pub user : User
    pub answered : r ≡ user_to_response user
    pub before : W
    pub revoked : uc.sessions.delete_all_for_user user.id before ≡ (ok tt, w')

  revoked_lem :
      (row : User) (v : W) (p : Result Unit × W)
      → uc.sessions.delete_all_for_user row.id v ≡ p
      → (r : UserResponse) (w' : W)
      → ((do (λ (x : W). p); pure (user_to_response row)) v) ≡ (ok r, w')
      → IsRevoked r w'
  revoked_lem row v (ok tt, x) called r w' h = record {
    user = row;
    answered = cc;
    before = v;
    revoked = cc;
  }
  revoked_lem row v (err e, x) called r w' h = cc

  written_revokes :
      (password : Text) (p : Result User × W)
      → (r : UserResponse) (w' : W)
      → ((do
        row ← on_error (wrap (text "update user: ")) (λ (x : W). p)
        revoke uc (some password) row
        pure (user_to_response row))
          p.1)
        ≡ (ok r, w')
      → IsRevoked r w'
  written_revokes password (ok row, v) r w' h = revoked_lem row v _ refl r w' h
  written_revokes password (err e, v) r w' h = cc

  write_revokes :
      (request : UpdateUserRequest) (password : Text) (user : User) (names : List (Text × Text))
      (hash : Text) (v : W) (r : UserResponse) (w' : W)
      → request.password ≡ some password
      → write uc request user (names ++ (text "password_hash", hash) ∷ []) v ≡ (ok r, w')
      → IsRevoked r w'
  write_revokes request password user [] hash v r w' given h =
      written_revokes password (uc.users.update user ((text "password_hash", hash) ∷ []) v) r w'
        (rw given at h)
  write_revokes request password user (n ∷ names) hash v r w' given h =
      written_revokes password
        (uc.users.update user (n ∷ (names ++ (text "password_hash", hash) ∷ [])) v) r w'
        (rw given at h)

  hashed_revokes :
      (request : UpdateUserRequest) (password : Text) (user : User) (p : Result Text × W)
      (r : UserResponse) (w' : W)
      → request.password ≡ some password
      → ((do
        hashed ← (do
          hash ← on_error (wrap (text "hash password: ")) (λ (x : W). p)
          pure ((text "password_hash", hash) ∷ []))
        write uc request user (name_column request.name ++ hashed))
          p.1)
        ≡ (ok r, w')
      → IsRevoked r w'
  hashed_revokes request password user (ok hash, v) r w' given h =
      write_revokes request password user (name_column request.name) hash v r w' given h
  hashed_revokes request password user (err e, v) r w' given h = cc

  found_revokes :
      (request : UpdateUserRequest) (password : Text) (p : Result User × W) (r : UserResponse)
      (w' : W)
      → request.password ≡ some password
      → ((do
        user ← on_error (not_found_or (text "find user by id: ")) (λ (x : W). p)
        hashed ← password_column uc (some password)
        write uc request user (name_column request.name ++ hashed))
          p.1)
        ≡ (ok r, w')
      → IsRevoked r w'
  found_revokes request password (ok user, v) r w' given h =
      hashed_revokes request password user (uc.generate password v) r w' given h
  found_revokes request password (err e, v) r w' given h = cc

  -- An update that names a password answers with a user only after it has revoked all sessions of
  -- that user, as the last thing that it does; if the revocation fails, so does the update.
  pub password_change_revokes :
      (request : UpdateUserRequest) (password : Text) (w : W) (r : UserResponse) (w' : W)
      → request.password ≡ some password
      → update uc request w ≡ (ok r, w')
      → IsRevoked r w'
  unfolding update
  password_change_revokes request password w r w' given h =
      elim (Option-cases (validate_struct (uc.validate_update request))) [
        | inl valid ↦
            found_revokes request password (uc.users.find_by_id request.user_id w) r w' given (
              subst
                (λ x.
                  (do
                    user ←
                        on_error (not_found_or (text "find user by id: "))
                          (uc.users.find_by_id request.user_id)
                    hashed ← password_column uc x
                    write uc request user (name_column request.name ++ hashed))
                    w
                  ≡ (ok r, w'))
                given (rw valid at h))
        | inr (e, invalid) ↦ ground arith
      ]
