-- ===== src/Tests/Tables.antt =====
-- A table in memory, which keeps the laws of the tables.
use audiax_backend.Common.{
  ◌≡◌, ◌≢◌, refl, sym, ap, ◌∙◌, inl, inr, true, false, not, List, [], ◌∷◌, map, In, In-map-source,
  select, select-In, Bool-cases, if◌then◌else◌,
}
use audiax_backend.Common.Text.{text, ◌==◌}
use audiax_backend.Common.Text.Search.{eq_iff}
use audiax_backend.Errors.{Error, opaque, sentinel, record_not_found}
use audiax_backend.Exec.{Result, ok, err, pure, raise}
use audiax_backend.Repository.Gorm.{Query, Table}
use audiax_backend.Repository.Gorm.Laws.{Schema, TableLaws, IsStored, selects, written}

abbrev read_only : Error
read_only = opaque (text "read-only table")

module _ {A : Type 0} (s : Schema A) where
  abbrev pub first_row : Query → List A → Result A
  first_row q [] = err (sentinel record_not_found)
  first_row q (row ∷ rows) = if selects s q row then ok row else first_row q rows

  first_row_sound :
      (q : Query) (rows : List A) (row : A)
      → first_row q rows ≡ ok row
      → In row rows × (selects s q row ≡ true)
  first_row_sound q [] row h = cc
  first_row_sound q (r ∷ rows) row h = elim (Bool-cases (selects s q r)) [
    | inl hit ↦
        let same : ok r ≡ ok row = rw hit at h in
        let e : r ≡ row = cc in (inl (sym e), rw (← e) hit)
    | inr miss ↦ let (i, selected) = first_row_sound q rows row (rw miss at h) in (inr i, selected)
  ]

  first_row_complete :
      (q : Query) (rows : List A) (e : Error)
      → first_row q rows ≡ err e
      → (row : A) → In row rows
      → selects s q row ≡ false
  first_row_complete q [] e h row i = absurd i
  first_row_complete q (r ∷ rows) e h row i = elim (Bool-cases (selects s q r)) [
    | inl hit ↦ let clash : ok r ≡ err e = rw hit at h in cc
    | inr miss ↦ elim i [
      | inl same ↦ rw same miss
      | inr later ↦ first_row_complete q rows e (rw miss at h) row later
    ]
  ]

  -- What DELETE leaves: the rows with another id, or with a mark on those of this id.
  abbrev pub removed : A → List A → List A
  removed given = select λ row. not (s.id row == s.id given)

  abbrev pub marked : (A → A) → A → List A → List A
  marked kill given = map λ row. if s.id row == s.id given then kill row else row

  -- After a deletion no row of that id is seen.
  abbrev pub IsDeletion : (A → List A → List A) → Type 0
  IsDeletion deletion =
      (given : A) (rows : List A) (row : A)
      → In row (deletion given rows)
      → s.id row ≡ s.id given
      → s.is_live row ≡ false

  true-ne-false : true ≢ false
  true-ne-false e = cc

  pub removed-IsDeletion : IsDeletion removed
  removed-IsDeletion given rows row i named =
      let (_, other) = (select-In (λ r. not (s.id r == s.id given)) rows row).0 i in
      let same : (s.id row == s.id given) ≡ true = (eq_iff _ _).1 named in
      absurd (true-ne-false (sym other ∙ ap not same))

  pub marked-IsDeletion :
      (kill : A → A) → ((a : A) → s.is_live (kill a) ≡ false) → IsDeletion (marked kill)
  marked-IsDeletion kill dead given rows row i named =
      let (a, _, e) = In-map-source (λ r. if s.id r == s.id given then kill r else r) row rows i in
      elim (Bool-cases (s.id a == s.id given)) [
        | inl hit ↦ ap s.is_live (e ∙ rw hit refl) ∙ dead a
        | inr miss ↦
            let kept : row ≡ a = e ∙ rw miss refl in
            let same : (s.id a == s.id given) ≡ true =
              (eq_iff _ _).1 (ap s.id (sym kept) ∙ named) in
            absurd (true-ne-false (sym same ∙ miss))
      ]

  module _ (deletion : A → List A → List A) where
    abbrev pub memory : Table A (List A)
    memory = record {
      create = λ row rows. (ok row, row ∷ rows);
      take = λ q rows. (first_row q rows, rows);
      find = λ q rows. (ok (select (selects s q) rows), rows);
      updates = λ row columns. pure row;
      update = λ q column value rows. (ok tt, map (written s q column value) rows);
      delete = λ given rows. (ok tt, deletion given rows);
    }

    left :
        {B : Type 0} {b c : B} {u v : List A} → Path (Result B × List A) (ok b, u) (ok c, v) → u ≡ v
    left h = ap (λ p. p.1) h

    found_rows :
        (q : Query) (w w' found : List A)
        → memory.find q w ≡ (ok found, w')
        → select (selects s q) w ≡ found
    found_rows q w w' found h = cc

    IsStored-refl : (row : A) → IsStored s row row
    IsStored-refl row = record {
      same_text = λ column. refl;
      same_flag = λ column. refl;
      same_id = refl;
      same_life = refl;
    }

    pub memory_laws : IsDeletion deletion → TableLaws s (λ rows. rows) memory
    memory_laws gone = record {
      take_row = λ q w w' row h. first_row_sound q w row (ap (λ p. p.0) h);
      take_none = λ q w w' e h missing row i. first_row_complete q w e (ap (λ p. p.0) h) row i;
      find_rows = λ q w w' found h row i.
          (select-In (selects s q) w row).0 (rw (found_rows q w w' found h) i);
      take_reads = λ q w. refl;
      find_reads = λ q w. refl;
      create_row = λ given w w' row h.
          let e : given ≡ row = cc in (rw e (IsStored-refl row), sym (left h) ∙ ap (λ r. r ∷ w) e);
      create_fails = λ given w w' e h. cc;
      update_rows = λ q column value w w' h. sym (left h);
      update_fails = λ q column value w w' e h. cc;
      delete_row = λ given w w' h row i named. gone given w row (rw (left h) i) named;
    }

  -- A table of rows that nothing changes, in any world: every statement that writes fails.
  module _ {W : Type 0} (rows : List A) where
    abbrev pub fixed : Table A W
    fixed = record {
      create = λ row. raise read_only;
      take = λ q w. (first_row q rows, w);
      find = λ q. pure (select (selects s q) rows);
      updates = λ row columns. raise read_only;
      update = λ q column value. raise read_only;
      delete = λ given. raise read_only;
    }

    fixed_rows :
        (q : Query) (w w' : W) (found : List A)
        → fixed.find q w ≡ (ok found, w')
        → select (selects s q) rows ≡ found
    fixed_rows q w w' found h = cc

    pub fixed_laws : TableLaws s (λ w. rows) fixed
    fixed_laws = record {
      take_row = λ q w w' row h. first_row_sound q rows row (ap (λ p. p.0) h);
      take_none = λ q w w' e h missing row i. first_row_complete q rows e (ap (λ p. p.0) h) row i;
      find_rows = λ q w w' found h row i.
          (select-In (selects s q) rows row).0 (rw (fixed_rows q w w' found h) i);
      take_reads = λ q w. refl;
      find_reads = λ q w. refl;
      create_row = λ given w w' row h. cc;
      create_fails = λ given w w' e h. refl;
      update_rows = λ q column value w w' h. cc;
      update_fails = λ q column value w w' e h. refl;
      delete_row = λ given w w' h row i named. cc;
    }
