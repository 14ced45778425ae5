-- ===== src/Repository/Baselines/Frame.antt =====
-- What a calibration relies on of the calls that do not write the table of the baselines.
use audiax_backend.Common.{ℕ, ◌≡◌, refl, sym, ap, subst, ◌∙◌, Option, none, some, List}
use audiax_backend.Common.Text.{Text}
use audiax_backend.Errors.{Error}
use audiax_backend.Exec.{Result, ok, err, Exec, continue, total, reject_if, ◌>>=◌}
use audiax_backend.Floats.{Floats}
use audiax_backend.Entity.{Baseline}
use audiax_backend.Usecase.Codec.{Codec}
use audiax_backend.Usecase.Baseline.{BaselineUseCase}
use audiax_backend.Repository.Gorm.{Table}
use audiax_backend.Repository.Baselines.{baseline_repository}

-- A call of something else does not write the table of the baselines.
abbrev pub Keeps : {A W : Type 0} → (W → List Baseline) → Exec W A → Type 0
Keeps {A} {W} rows m = (w : W) → rows (m w).1 ≡ rows w

-- What is used of the other parts of a calibration.
pub record Frame {fl : Floats} {c : Codec} {W : Type 0} (rows : W → List Baseline)
    (uc : BaselineUseCase fl c W) : Type 0 where
  pub machines_keep : (id user_id : Text) → Keeps rows (uc.machines.find_by_id_for_user id user_id)
  pub ai_keeps :
      (audio : List ℕ) (filename label : Text) → Keeps rows (uc.ai.calibrate audio filename label)
  pub store_keeps :
      (path : Text) (audio : List ℕ) (type : Text) → Keeps rows (uc.store.put path audio type)
  pub now_keeps : Keeps rows (total uc.now)
  pub new_id_keeps : Keeps rows (total uc.new_id)
  -- (*gorm.DB).Transaction: committed as the body left it, or rolled back.
  pub commits :
      (body : Exec W Baseline) (w w' : W) (b : Baseline)
      → uc.transaction body w ≡ (ok b, w')
      → (v : W) × (body w ≡ (ok b, v)) × (rows w' ≡ rows v)
  pub rolls_back :
      (body : Exec W Baseline) (w w' : W) (e : Error)
      → uc.transaction body w ≡ (err e, w')
      → rows w' ≡ rows w

module _ {A B W : Type 0} (rows : W → List Baseline) (P : List Baseline → Type 0) where
  -- `P` of the table after `m >>= f`, when it holds after `m` and `f` keeps it.
  pub then_holds :
      (m : Exec W A) (f : A → Exec W B) (w : W)
      → P (rows (m w).1)
      → ((a : A) (v : W) → m w ≡ (ok a, v) → P (rows v) → P (rows (f a v).1))
      → P (rows ((m >>= f) w).1)
  then_holds m f w start rest = stepped (m w) refl
    where
      stepped : (p : Result A × W) → m w ≡ p → P (rows (continue p.0 f p.1).1)
      stepped (ok a, v) e = rest a v e (subst P (ap (λ p. rows p.1) e) start)
      stepped (err x, v) e = subst P (ap (λ p. rows p.1) e) start

  -- The same, when `m` does not write the table.
  pub after_reading :
      (m : Exec W A) (f : A → Exec W B) (w : W)
      → Keeps rows m
      → P (rows w)
      → ((a : A) (v : W) → m w ≡ (ok a, v) → P (rows v) → P (rows (f a v).1))
      → P (rows ((m >>= f) w).1)
  after_reading m f w keeps start rest = then_holds m f w (subst P (sym (keeps w)) start) rest

module _ {A B W : Type 0} (rows : W → List Baseline) where
  pub bind-Keeps :
      (m : Exec W A) (f : A → Exec W B)
      → Keeps rows m
      → ((a : A) → Keeps rows (f a))
      → Keeps rows (m >>= f)
  bind-Keeps m f first rest w =
      after_reading rows (λ l. l ≡ rows w) m f w first refl λ a v _ same. rest a v ∙ same

pub reject_if-Keeps :
    {W : Type 0} (rows : W → List Baseline) (outcome : Option Error)
    → Keeps rows (reject_if outcome)
reject_if-Keeps rows none w = refl
reject_if-Keeps rows (some e) w = refl

-- The use case over the table of the baselines.
abbrev pub over_table :
    {fl : Floats} {c : Codec} {W : Type 0}
    → Table Baseline W
    → BaselineUseCase fl c W
    → BaselineUseCase fl c W
over_table db uc = record uc { baselines = baseline_repository db }
