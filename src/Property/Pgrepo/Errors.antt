-- ===== src/Property/Pgrepo/Errors.antt =====
-- What internal/property/pgrepo/pgrepo.go makes of the errors of the database.
use chuchu.Prelude.{◌≡◌, some, if◌then◌else◌, Bool-cases, inl, inr}
use chuchu.Apperr.{
  GoError, no_rows, new, property_duplicate, property_not_found, errors_is, as_error,
}
use chuchu.Effect.{err}
use chuchu.Outside.{Outside}
use chuchu.Property.{Property}
use chuchu.Property.Pgrepo.{
  Db, to_model, translate_insert, translate_select, as_pg_error, is_unique_violation, create,
  get_by_id,
}

as_error-translate_insert :
    (e : GoError)
    → as_error (translate_insert e) ≡ (
        if is_unique_violation (as_pg_error e)
        then some (new property_duplicate "相同門牌的物件已存在")
        else as_error e)
unfolding translate_insert as_error
as_error-translate_insert e = elim (Bool-cases (is_unique_violation (as_pg_error e))) [
  | inl h ↦ rw h
  | inr h ↦ rw h
]

as_error-translate_select :
    (e : GoError)
    → as_error (translate_select e)
      ≡ (if errors_is e no_rows then some (new property_not_found "找不到指定的物件") else as_error e)
unfolding translate_select as_error
as_error-translate_select e = elim (Bool-cases (errors_is e no_rows)) [
  | inl h ↦ rw h
  | inr h ↦ rw h
]

module _ (o : Outside) {S : Type 0} (db : Db o S) where
  -- When the `INSERT` fails, `Create` fails in the same state. The error is that of a duplicate
  -- exactly when Postgres reported a violated unique key; any other error is wrapped, and carries
  -- the application error that the error of the database carries, mostly none.
  pub create_fails :
      (p : Property o) (s : S) {e : GoError}
      → (db.insert (to_model o p) s).0 ≡ err e
      → (create o db p s ≡ (err (translate_insert e), (db.insert (to_model o p) s).1))
        × (as_error (translate_insert e) ≡ (
            if is_unique_violation (as_pg_error e)
            then some (new property_duplicate "相同門牌的物件已存在")
            else as_error e))
  unfolding create
  create_fails p s {e} h = (rw h, as_error-translate_insert e)

  -- When the `SELECT` fails, so does `GetByID`: with the error "not found" exactly for
  -- `sql.ErrNoRows`, and with a wrapped error otherwise.
  pub get_by_id_fails :
      (id : o.Uuid) (s : S) {e : GoError}
      → (db.select_by_id id s).0 ≡ err e
      → (get_by_id o db id s ≡ (err (translate_select e), (db.select_by_id id s).1))
        × (as_error (translate_select e) ≡ (
            if errors_is e no_rows then some (new property_not_found "找不到指定的物件") else as_error e))
  unfolding get_by_id
  get_by_id_fails id s {e} h = (rw h, as_error-translate_select e)
