-- ===== src/Repository/Baselines/Stored.antt =====
-- What the recording of a calibration changes in the table: one column of one row.
use audiax_backend.Common.{ℕ, ◌≡◌, refl, sym, subst, List, map}
use audiax_backend.Common.Text.{Text, text}
use audiax_backend.Constants.{audio_content_type}
use audiax_backend.Exec.{Result, ok, err}
use audiax_backend.Floats.{Floats}
use audiax_backend.Entity.{Baseline}
use audiax_backend.Usecase.Codec.{Codec}
use audiax_backend.Usecase.Baseline.{
  BaselineUseCase, audio_path, record_audio_path, store_calibration_audio,
}
use audiax_backend.Repository.Gorm.{Table, text_value}
use audiax_backend.Repository.Gorm.Laws.{TableLaws}
use audiax_backend.Repository.Schemas.{baseline_schema}
use audiax_backend.Repository.Baselines.{update_audio_path}
use audiax_backend.Repository.Baselines.Active.{pathed, by_id}
use audiax_backend.Repository.Baselines.Frame.{Frame, over_table}

module _ {fl : Floats} {c : Codec} {W : Type 0} {rows : W → List Baseline} {db : Table Baseline W}
    (laws : TableLaws baseline_schema rows db) (uc : BaselineUseCase fl c W) (frame : Frame rows uc)
    (P : List Baseline → Type 0)
    (path_keeps : (id path : Text) (l : List Baseline) → P l → P (map (pathed id path) l)) where
  abbrev over : BaselineUseCase fl c W
  over = over_table db uc

  path_written : (id path : Text) (w : W) → P (rows w) → P (rows (update_audio_path db id path w).1)
  unfolding update_audio_path
  path_written id path w start =
      by_result (db.update (by_id id) (text "calibration_audio_path") (text_value path) w) refl
    where
      by_result :
          (p : Result Unit × W)
          → db.update (by_id id) (text "calibration_audio_path") (text_value path) w ≡ p
          → P (rows p.1)
      by_result (ok tt, w') h =
          subst P
            (sym (
              laws.update_rows (by_id id) (text "calibration_audio_path") (text_value path) w w' h))
            (path_keeps id path (rows w) start)
      by_result (err e, w') h =
          subst P
            (sym (
              laws.update_fails (by_id id) (text "calibration_audio_path") (text_value path) w w' e
                h))
            start

  recorded_keeps :
      (b : Baseline) (stored : Result {0} Unit) (w : W)
      → P (rows w)
      → P (rows (record_audio_path over b stored w).1)
  recorded_keeps b (ok _) w start = path_written b.id (audio_path over b) w start
  recorded_keeps b (err e) w start = start

  pub store_keeps :
      (b : Baseline) (audio : List ℕ) (w : W)
      → P (rows w)
      → P (rows (store_calibration_audio over b audio w).1)
  unfolding store_calibration_audio
  store_keeps b audio w start =
      let put = uc.store.put (audio_path over b) audio audio_content_type in
      recorded_keeps b (put w).0 (put w).1
        (subst P (sym (frame.store_keeps (audio_path over b) audio audio_content_type w)) start)
