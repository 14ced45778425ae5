-- ===== src/Repository/Baselines/Replaced.antt =====
-- The transaction of a calibration, over the table.
use audiax_backend.Common.{
  ◌≡◌, refl, sym, ap, subst, ◌∙◌, inl, inr, true, false, arith, List, ◌∷◌, map, Bool-cases,
}
use audiax_backend.Common.Text.{Text, text, ◌==◌}
use audiax_backend.Common.Text.Search.{eq_iff}
use audiax_backend.Errors.{wrap}
use audiax_backend.Exec.{
  pure_ok, Result, ok, err, pure, on_error, on_error_ok, continue_ok, lift, total, ◌>>=◌,
}
use audiax_backend.Floats.{Floats}
use audiax_backend.Entity.{Time, Baseline}
use audiax_backend.Model.{AiBaseline}
use audiax_backend.Usecase
use audiax_backend.Usecase.Codec.{Codec}
use audiax_backend.Usecase.Baseline.{
  BaselineUseCase, Encoded, checked_columns, time_or_now, baseline_entity,
  find_owned_machine_for_baseline, audio_path, recorded, record_audio_path, store_calibration_audio,
  replace_baseline, calibrated, calibrate, list,
}
use audiax_backend.Repository.Gorm.{Table, bool_value}
use audiax_backend.Repository.Gorm.Laws.{IsStored, TableLaws}
use audiax_backend.Repository.Schemas.{baseline_schema, baseline_text}
use audiax_backend.Repository.Baselines.{deactivate_all_for_machine, active_for_machine}
use audiax_backend.Repository.Baselines.Active.{
  active_of, active_count, IsSingle, deactivated, active_count_silenced, active_count-map-le, fewer,
}
use audiax_backend.Repository.Base
use audiax_backend.Repository.Baselines.Frame.{Keeps, Frame, bind-Keeps, over_table}

pub machine_column : (b : Baseline) → baseline_text (text "machine_id") b ≡ b.machine_id
unfolding baseline_text ◌==◌
machine_column b = refl

-- The new row is the only active one of its machine.
created-IsSingle :
    (machine_id : Text) (given row : Baseline) (old : List Baseline)
    → IsStored baseline_schema given row
    → given.machine_id ≡ machine_id
    → IsSingle old
    → IsSingle (row ∷ map (deactivated machine_id) old)
created-IsSingle machine_id given row old stored named single other =
    elim (Bool-cases (active_of other row)) [
      | inl active ↦
          let same : other ≡ machine_id =
            sym ((eq_iff row.machine_id other).0 (ground arith))
            ∙ sym (machine_column row)
            ∙ stored.same_text (text "machine_id")
            ∙ machine_column given
            ∙ named in
          let none_left : active_count other (map (deactivated machine_id) old) ≡ 0 =
            subst (λ m. active_count m (map (deactivated machine_id) old) ≡ 0) (sym same)
              (active_count_silenced machine_id old) in
          rw (active, none_left) (omega arith)
      | inr idle ↦ rw idle (
          omega (
            arith,
            single other,
            active_count-map-le (deactivated machine_id) other old (fewer machine_id other),
          ))
    ]

module _ {fl : Floats} {c : Codec} {W : Type 0} {rows : W → List Baseline} {db : Table Baseline W}
    (laws : TableLaws baseline_schema rows db) (uc : BaselineUseCase fl c W)
    (frame : Frame rows uc) where
  abbrev over : BaselineUseCase fl c W
  over = over_table db uc

  -- A committed transaction: the active baselines are deactivated and the new row is added.
  pub replaced :
      (machine_id : Text) (given row : Baseline) (w w' : W)
      → uc.transaction (replace_baseline over machine_id given) w ≡ (ok row, w')
      → IsStored baseline_schema given row × (rows w' ≡ row ∷ map (deactivated machine_id) (rows w))
  unfolding replace_baseline deactivate_all_for_machine Base.create
  replaced machine_id given row w w' h =
      let (v, body, committed) =
        frame.commits (replace_baseline over machine_id given) w w' row h in
      let deactivating =
        db.update (active_for_machine machine_id) (text "is_active") (bool_value false) in
      let (_, u, done, created) =
        continue_ok (on_error (wrap (text "deactivate baselines: ")) deactivating)
          (λ _. on_error (wrap (text "create baseline: ")) (db.create given)) w v body in
      let (stored, added) =
        laws.create_row given u v row
          (on_error_ok (wrap (text "create baseline: ")) (db.create given) u v created) in
      let changed =
        laws.update_rows (active_for_machine machine_id) (text "is_active") (bool_value false) w u
          (on_error_ok (wrap (text "deactivate baselines: ")) deactivating w u done) in
      (stored, committed ∙ added ∙ ap (λ l. row ∷ l) changed)

  pub transaction-IsSingle :
      (machine_id : Text) (given : Baseline) (w : W)
      → given.machine_id ≡ machine_id
      → IsSingle (rows w)
      → IsSingle (rows (uc.transaction (replace_baseline over machine_id given) w).1)
  transaction-IsSingle machine_id given w named single =
      by_result (uc.transaction (replace_baseline over machine_id given) w) refl
    where
      by_result :
          (p : Result Baseline × W)
          → uc.transaction (replace_baseline over machine_id given) w ≡ p
          → IsSingle (rows p.1)
      by_result (ok row, w') h =
          let (stored, changed) = replaced machine_id given row w w' h in
          subst IsSingle (sym changed)
            (created-IsSingle machine_id given row (rows w) stored named single)
      by_result (err e, w') h =
          subst IsSingle (sym (frame.rolls_back (replace_baseline over machine_id given) w w' e h))
            single

  pub entity_row :
      (machine_id : Text) (ai : AiBaseline c.Stats c.Notes) (w w' : W) (b : Baseline)
      → baseline_entity over machine_id ai w ≡ (ok b, w')
      → (b.machine_id ≡ machine_id) × (b.is_active ≡ true)
  unfolding baseline_entity
  entity_row machine_id ai w w' b h =
      let (e, w₁, _, h₁) =
        continue_ok (lift (checked_columns c ai))
          (λ e. do
            calibrated_at ← time_or_now over (c.parse_time ai.created_at)
            id ← total uc.new_id
            pure (Usecase.Baseline.row c id machine_id calibrated_at ai e))
          w w' h in
      let (t, w₂, _, h₂) =
        continue_ok (time_or_now over (c.parse_time ai.created_at))
          (λ calibrated_at. do
            id ← total uc.new_id
            pure (Usecase.Baseline.row c id machine_id calibrated_at ai e))
          w₁ w' h₁ in
      let same =
        pure_ok (Usecase.Baseline.row c (uc.new_id w₂).0 machine_id t ai e) b (uc.new_id w₂).1 w'
          h₂ in
      (sym (ap (λ r. r.machine_id) same), sym (ap (λ r. r.is_active) same))

  time_or_now-Keeps : (t : Result Time) → Keeps rows (time_or_now over t)
  time_or_now-Keeps (ok t) w = refl
  time_or_now-Keeps (err e) w = frame.now_keeps w

  pub baseline_entity-Keeps :
      (machine_id : Text) (ai : AiBaseline c.Stats c.Notes)
      → Keeps rows (baseline_entity over machine_id ai)
  unfolding baseline_entity
  baseline_entity-Keeps machine_id ai =
      bind-Keeps rows (lift (checked_columns c ai)) _ (λ w. refl)
        λ e.
          bind-Keeps rows (time_or_now over (c.parse_time ai.created_at)) _
            (time_or_now-Keeps (c.parse_time ai.created_at)) λ t w. frame.new_id_keeps w
