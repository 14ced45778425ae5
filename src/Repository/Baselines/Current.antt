-- ===== src/Repository/Baselines/Current.antt =====
-- The one active baseline of a machine, as a lookup sees it.
use audiax_backend.Common.{
  ◌≡◌, refl, sym, ap, subst, ◌∙◌, inl, inr, Bool, true, false, ◌&&◌, some, In, In-map,
  In-map-source, List, ◌∷◌, map, Bool-cases, if◌then◌else◌,
}
use audiax_backend.Common.Text.{Text, text, ◌==◌}
use audiax_backend.Common.Text.Search.{eq_iff}
use audiax_backend.Errors.{Error, record_not_found, is}
use audiax_backend.Exec.{ok, err}
use audiax_backend.Entity.{Baseline}
use audiax_backend.Repository.Gorm.{Table}
use audiax_backend.Repository.Gorm.Laws.{TableLaws, selects}
use audiax_backend.Repository.Schemas.{baseline_schema, baseline_text, baseline_flag, baseline_set}
use audiax_backend.Repository.Baselines.{find_active_for_machine, active_for_machine}
use audiax_backend.Repository.Baselines.Active.{
  active_of, deactivated, pathed, selects_active, silenced, and_flag,
}

-- One active baseline of the machine, which has that id.
pub record IsCurrent (machine_id id : Text) (rows : List Baseline) : Type 0 where
  pub present : (b : Baseline) × In b rows × (active_of machine_id b ≡ true)
  pub unique : (b : Baseline) → In b rows → active_of machine_id b ≡ true → b.id ≡ id

pub IsCurrent-subst :
    {m m' i i' : Text} {l : List Baseline} → m ≡ m' → i ≡ i' → IsCurrent m i l → IsCurrent m' i' l
IsCurrent-subst {m} {m'} {i} {i'} {l} same_machine same_id c =
    subst (λ k. IsCurrent k i' l) same_machine (subst (λ k. IsCurrent m k l) same_id c)

pub created-IsCurrent :
    (machine_id : Text) (row : Baseline) (old : List Baseline)
    → active_of machine_id row ≡ true
    → IsCurrent machine_id row.id (row ∷ map (deactivated machine_id) old)
created-IsCurrent machine_id row old active = record {
  present = (row, inl refl, active);
  unique = unique;
}
  where
    unique :
        (b : Baseline)
        → In b (row ∷ map (deactivated machine_id) old)
        → active_of machine_id b ≡ true
        → b.id ≡ row.id
    unique b (inl e) h = ap (λ r. r.id) e
    unique b (inr i) h =
        let (a, _, e) = In-map-source (deactivated machine_id) b old i in
        let clash : true ≡ false = sym h ∙ ap (active_of machine_id) e ∙ silenced machine_id a in
        absurd cc

pathed_same :
    (id path other : Text) (row : Baseline)
    → ((pathed id path row).id ≡ row.id)
      × (active_of other (pathed id path row) ≡ active_of other row)
unfolding baseline_set baseline_text ◌==◌
pathed_same id path other row = by_match (row.id == id && true)
  where
    by_match :
        (b : Bool)
        → ((if b then record row { calibration_audio_path = some path } else row).id ≡ row.id)
          × (active_of other (if b then record row { calibration_audio_path = some path } else row)
              ≡ active_of other row)
    by_match true = (refl, refl)
    by_match false = (refl, refl)

pub pathed-IsCurrent :
    (machine_id current id path : Text) (l : List Baseline)
    → IsCurrent machine_id current l
    → IsCurrent machine_id current (map (pathed id path) l)
pathed-IsCurrent machine_id current id path l c = record {
  present =
      let (b, i, active) = c.present in
      (
        pathed id path b,
        In-map (pathed id path) b l i,
        (pathed_same id path machine_id b).1 ∙ active,
      );
  unique = unique;
}
  where
    unique :
        (b : Baseline)
        → In b (map (pathed id path) l)
        → active_of machine_id b ≡ true
        → b.id ≡ current
    unique b i h =
        let (a, j, e) = In-map-source (pathed id path) b l i in
        let (same, lit) = pathed_same id path machine_id a in
        ap (λ r. r.id) e ∙ same ∙ c.unique a j (sym lit ∙ sym (ap (active_of machine_id) e) ∙ h)

active_iff :
    (machine_id : Text) (b : Baseline)
    → selects baseline_schema (active_for_machine machine_id) b ≡ active_of machine_id b
active_iff machine_id b =
    selects_active machine_id b ∙ and_flag (b.machine_id == machine_id) b.is_active

pub machine_active : (b : Baseline) → b.is_active ≡ true → active_of b.machine_id b ≡ true
machine_active b h = rw ((eq_iff b.machine_id b.machine_id).1 refl, h) refl

pub active_column : (b : Baseline) → baseline_flag (text "is_active") b ≡ b.is_active
unfolding baseline_flag ◌==◌
active_column b = refl

module _ {W : Type 0} {rows : W → List Baseline} {db : Table Baseline W}
    (laws : TableLaws baseline_schema rows db) where
  -- What `FindActiveForMachine` may answer then.
  pub found_current :
      (machine_id id : Text) (w : W)
      → IsCurrent machine_id id (rows w)
      → ((b : Baseline) (w' : W) → find_active_for_machine db machine_id w ≡ (ok b, w') → b.id ≡ id)
        × ((e : Error) (w' : W)
            → find_active_for_machine db machine_id w ≡ (err e, w')
            → is e record_not_found ≡ false)
  unfolding find_active_for_machine
  found_current machine_id id w c = (
    λ b w' h.
        let (i, selected) = laws.take_row (active_for_machine machine_id) w w' b h in
        c.unique b i (sym (active_iff machine_id b) ∙ selected),
    λ e w' h. elim (Bool-cases (is e record_not_found)) [
      | inl missing ↦
          let (b, i, active) = c.present in
          let clash : true ≡ false =
            sym active
            ∙ sym (active_iff machine_id b)
            ∙ laws.take_none (active_for_machine machine_id) w w' e h missing b i in
          absurd cc
      | inr other ↦ other
    ],
  )
