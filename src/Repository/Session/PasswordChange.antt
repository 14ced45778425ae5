-- ===== src/Repository/Session/PasswordChange.antt =====
-- A token after its user has changed the password, at every endpoint.
use audiax_backend.Common.{◌≡◌, sym, ap, subst, ◌∙◌, In, Option, none, some, List, [], ◌∷◌, ◌++◌}
use audiax_backend.Common.Text.{Text, text}
use audiax_backend.Errors.{Error, sentinel, unauthorized, wrap}
use audiax_backend.Exec.{
  ok, err, pure, pure_ok, on_error, on_error_ok, continue_ok, reject_if, ◌>>=◌, ◌>>◌,
}
use audiax_backend.Entity.{User}
use audiax_backend.Model.{UpdateUserRequest, UserResponse, user_to_response}
use audiax_backend.Usecase.Ports.{not_found_or}
use audiax_backend.Usecase.Validation.{validate_struct}
use audiax_backend.Usecase.User.{UserUseCase, password_column, name_column, revoke, write, verify}
use audiax_backend.Usecase.User
use audiax_backend.Repository.Session.Redis.{RedisClient, RedisLaws}
use audiax_backend.Repository.Session.{
  session_key, user_index_key, session_repository, find_user_id, delete_all_for_user,
}
use audiax_backend.Repository.Session.Lifetime.{indexed_unauthorized}

-- What an update relies on of the table of the users and of bcrypt: a row is found and written under its
-- id, and neither touches the index of the sessions.
pub record UserFrame {W : Type 0} {r : RedisClient W} (laws : RedisLaws r) (uc : UserUseCase W)
    : Type 0 where
  pub found_id :
      (id : Text) (w w' : W) (row : User) → uc.users.find_by_id id w ≡ (ok row, w') → row.id ≡ id
  pub updated_id :
      (given row : User) (columns : List (Text × Text)) (w w' : W)
      → uc.users.update given columns w ≡ (ok row, w')
      → row.id ≡ given.id
  pub find_keeps :
      (id index : Text) (w : W)
      → laws.members (uc.users.find_by_id id w).1 index ≡ laws.members w index
  pub update_keeps :
      (given : User) (columns : List (Text × Text)) (index : Text) (w : W)
      → laws.members (uc.users.update given columns w).1 index ≡ laws.members w index
  pub generate_keeps :
      (password index : Text) (w : W)
      → laws.members (uc.generate password w).1 index ≡ laws.members w index

module _ {W : Type 0} (uc : UserUseCase W) where
  -- A write of columns, up to the revocation.
  cons_steps :
      (request : UpdateUserRequest) (given : User) (c : Text × Text) (columns : List (Text × Text))
      (w w' : W) (response : UserResponse)
      → write uc request given (c ∷ columns) w ≡ (ok response, w')
      → (row : User) × (v : W) × (uc.users.update given (c ∷ columns) w ≡ (ok row, v))
        × (revoke uc request.password row v ≡ (ok tt, w'))
  cons_steps request given c columns w w' response h =
      let (row, v, updated, h₁) =
        continue_ok (on_error (wrap (text "update user: ")) (uc.users.update given (c ∷ columns)))
          (λ row. do revoke uc request.password row; pure (user_to_response row)) w w' h in
      let (_, v', revoked, h₂) =
        continue_ok (revoke uc request.password row) (λ _. pure (user_to_response row)) v w' h₁ in
      (
        row,
        v,
        on_error_ok (wrap (text "update user: ")) (uc.users.update given (c ∷ columns)) w v updated,
        revoked ∙ ap (λ p. (ok tt, p.1)) h₂,
      )

  write_steps :
      (request : UpdateUserRequest) (given : User) (names : List (Text × Text)) (c : Text × Text)
      (w w' : W) (response : UserResponse)
      → write uc request given (names ++ (c ∷ [])) w ≡ (ok response, w')
      → (row : User) × (v : W) × (uc.users.update given (names ++ (c ∷ [])) w ≡ (ok row, v))
        × (revoke uc request.password row v ≡ (ok tt, w'))
  write_steps request given [] c = cons_steps request given c []
  write_steps request given (n ∷ names) c = cons_steps request given n (names ++ (c ∷ []))

module _ {W : Type 0} {r : RedisClient W} (laws : RedisLaws r) (uc : UserUseCase W)
    (frame : UserFrame laws (record uc { sessions = session_repository r })) where
  abbrev over : UserUseCase W
  over = record uc { sessions = session_repository r }

  reject_if_same : (o : Option Error) (w v : W) → reject_if o w ≡ (ok tt, v) → w ≡ v
  reject_if_same none w v h = ap (λ p. p.1) h
  reject_if_same (some e) w v h = cc

  revoked_sessions :
      (given : Option Text) (password id : Text) (row : User) (v w' : W)
      → given ≡ some password
      → row.id ≡ id
      → revoke over given row v ≡ (ok tt, w')
      → delete_all_for_user r id v ≡ (ok tt, w')
  revoked_sessions given password id row v w' same owner h =
      let revoked : revoke over (some password) row v ≡ (ok tt, w') =
        subst (λ g. revoke over g row v ≡ (ok tt, w')) same h in
      subst (λ i. delete_all_for_user r i v ≡ (ok tt, w')) owner revoked

  module _ (token password : Text) (request : UpdateUserRequest)
      (given : request.password ≡ some password) where
    -- The index of the user knows the session of the token.
    abbrev IsIndexed : W → Type 0
    IsIndexed w = In (session_key r token) (laws.members w (user_index_key request.user_id))

    IsIndexed-of_members :
        (w v : W)
        → laws.members v (user_index_key request.user_id)
          ≡ laws.members w (user_index_key request.user_id)
        → IsIndexed w
        → IsIndexed v
    IsIndexed-of_members w v same = subst (λ l. In (session_key r token) l) (sym same)

    after_write :
        (row : User) (names : List (Text × Text)) (c : Text × Text) (w w' : W)
        (response : UserResponse)
        → row.id ≡ request.user_id
        → IsIndexed w
        → write over request row (names ++ (c ∷ [])) w ≡ (ok response, w')
        → (find_user_id r token w').0 ≡ err (sentinel unauthorized)
    after_write row names c w w' response owner indexed h =
        let (written, v, updated, revoked) = write_steps over request row names c w w' response h in
        let kept =
          sym (ap (λ p. laws.members p.1 (user_index_key request.user_id)) updated)
          ∙ frame.update_keeps row (names ++ (c ∷ [])) (user_index_key request.user_id) w in
        indexed_unauthorized r laws request.user_id token v w'
          (IsIndexed-of_members w v kept indexed)
          (revoked_sessions request.password password request.user_id written v w' given
            (frame.updated_id row written (names ++ (c ∷ [])) w v updated ∙ owner) revoked)

    after_found :
        (row : User) (w w' : W) (response : UserResponse)
        → row.id ≡ request.user_id
        → IsIndexed w
        → (do
          hashed ← password_column over (some password)
          write over request row (name_column request.name ++ hashed))
            w
          ≡ (ok response, w')
        → (find_user_id r token w').0 ≡ err (sentinel unauthorized)
    after_found row w w' response owner indexed h =
        let (columns, v, hashed, h₁) =
          continue_ok (password_column over (some password))
            (λ hashed. write over request row (name_column request.name ++ hashed)) w w' h in
        let (hash, v', generated, h₂) =
          continue_ok (on_error (wrap (text "hash password: ")) (uc.generate password))
            (λ hash. pure ((text "password_hash", hash) ∷ [])) w v hashed in
        let kept =
          sym (
            ap (λ p. laws.members p.1 (user_index_key request.user_id))
              (generated ∙ ap (λ p. (ok hash, p.1)) h₂))
          ∙ frame.generate_keeps password (user_index_key request.user_id) w in
        after_write row (name_column request.name) (text "password_hash", hash) v w' response owner
          (IsIndexed-of_members w v kept indexed)
          (subst (λ l. write over request row (name_column request.name ++ l) v ≡ (ok response, w'))
            (sym (pure_ok ((text "password_hash", hash) ∷ []) columns v' v h₂)) h₁)

    -- A session that the index of the user knows is not found after the change.
    pub changed_unauthorized :
        (w w' : W) (response : UserResponse)
        → IsIndexed w
        → User.update over request w ≡ (ok response, w')
        → (find_user_id r token w').0 ≡ err (sentinel unauthorized)
    unfolding User.update
    changed_unauthorized w w' response indexed h =
        let (_, v, passed, h₁) =
          continue_ok (reject_if (validate_struct (uc.validate_update request)))
            (λ _. do
              found ←
                  on_error (not_found_or (text "find user by id: "))
                    (uc.users.find_by_id request.user_id)
              hashed ← password_column over request.password
              write over request found (name_column request.name ++ hashed))
            w w' h in
        let (row, v', found, h₂) =
          continue_ok
            (on_error (not_found_or (text "find user by id: "))
              (uc.users.find_by_id request.user_id))
            (λ found. do
              hashed ← password_column over request.password
              write over request found (name_column request.name ++ hashed))
            v w' h₁ in
        let kept =
          sym (ap (λ p. laws.members p.1 (user_index_key request.user_id)) found)
          ∙ frame.find_keeps request.user_id (user_index_key request.user_id) v
          ∙ ap (λ u. laws.members u (user_index_key request.user_id))
              (sym (reject_if_same (validate_struct (uc.validate_update request)) w v passed)) in
        after_found row v' w' response
          (frame.found_id request.user_id v v' row (
            on_error_ok (not_found_or (text "find user by id: "))
              (uc.users.find_by_id request.user_id) v v' found))
          (IsIndexed-of_members w v' kept indexed)
          (subst
            (λ p.
              (do
                hashed ← password_column over p
                write over request row (name_column request.name ++ hashed))
                v'
              ≡ (ok response, w'))
            given h₂)
