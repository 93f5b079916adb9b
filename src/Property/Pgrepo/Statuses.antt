-- ===== src/Property/Pgrepo/Statuses.antt =====
-- The statuses by which the errors of internal/property/pgrepo are answered, when the errors of the
-- database carry none of the service's own.
use chuchu.Prelude.{ℤ, ◌≡◌, refl, ap, ◌∙◌, true, inl, inr, Bool-cases, String, [], ◌∷◌, none}
use chuchu.Apperr.{GoError, wrapped, no_rows, http_status, errors_is, as_error}
use chuchu.Effect.{Result, ok, err, map_err, map_err-eq_ok}
use chuchu.Outside.{Outside}
use chuchu.Property.{Property}
use chuchu.Property.Service.Failures.{IsAnswerable}
use chuchu.Property.Pgrepo.{
  PropertyModel, PageQuery, Db, to_model, translate_insert, translate_select, check_affected,
  as_pg_error, is_unique_violation, is_zero, page_query, create, get_by_id, update, list,
  repository,
}
use chuchu.Httpx.Failures.{error_status, has, Fails, Fails-map_err, Fails-continue}

-- An error of the driver is none of the application errors, and wraps none.
pub record IsForeign (o : Outside) {S : Type 0} (db : Db o S) : Type 0 where
  pub insert_foreign :
      (m : PropertyModel o) (s : S) (e : GoError) → (db.insert m s).0 ≡ err e → as_error e ≡ none
  pub select_foreign :
      (id : o.Uuid) (s : S) (e : GoError) → (db.select_by_id id s).0 ≡ err e → as_error e ≡ none
  pub page_foreign :
      (q : PageQuery) (s : S) (e : GoError) → (db.select_page q s).0 ≡ err e → as_error e ≡ none
  pub update_foreign :
      (m : PropertyModel o) (s : S) (e : GoError)
      → (db.update_by_pk m s).0 ≡ err e
      → as_error e ≡ none
  pub affected_foreign :
      (m : PropertyModel o) (s : S) (e : GoError)
      → (db.update_by_pk m s).0 ≡ ok (err e)
      → as_error e ≡ none

wrapped_status :
    (msg : String) (e : GoError) → as_error e ≡ none → error_status (wrapped msg e) ≡ 500
unfolding error_status as_error http_status
wrapped_status msg e h = rw h refl

module _ (o : Outside) {S : Type 0} (db : Db o S) (f : IsForeign o db) where
  translate_insert-Fails :
      (e : GoError)
      → as_error e ≡ none
      → has (409 ∷ 500 ∷ []) (error_status (translate_insert e)) ≡ true
  unfolding translate_insert error_status as_error http_status
  translate_insert-Fails e h = elim (Bool-cases (is_unique_violation (as_pg_error e))) [
    | inl duplicate ↦ rw duplicate refl
    | inr other ↦ rw (other, h) refl
  ]

  translate_select-Fails :
      (e : GoError)
      → as_error e ≡ none
      → has (404 ∷ 500 ∷ []) (error_status (translate_select e)) ≡ true
  unfolding translate_select error_status as_error http_status
  translate_select-Fails e h = elim (Bool-cases (errors_is e no_rows)) [
    | inl missing ↦ rw missing refl
    | inr other ↦ rw (other, h) refl
  ]

  check_affected-Fails :
      (r : Result ℤ)
      → ((e : GoError) → r ≡ err e → as_error e ≡ none)
      → Fails (404 ∷ 500 ∷ []) (check_affected r)
  unfolding check_affected error_status as_error http_status
  check_affected-Fails (err e) h = rw (h e refl) refl
  check_affected-Fails (ok n) h = elim (Bool-cases (is_zero n)) [
    | inl zero_rows ↦ rw zero_rows refl
    | inr some_rows ↦ rw some_rows tt
  ]

  update-Fails : (p : Property o) (s : S) → Fails (404 ∷ 500 ∷ []) (update o db p s).0
  unfolding update
  update-Fails p s =
      Fails-continue (404 ∷ 500 ∷ [])
        (map_err (wrapped "更新物件失敗: ") (db.update_by_pk (to_model o p) s).0) _ _
        (Fails-map_err (404 ∷ 500 ∷ []) (wrapped "更新物件失敗: ") _
          λ e h. rw (wrapped_status "更新物件失敗: " e (f.update_foreign (to_model o p) s e h)) refl)
        λ r found. check_affected-Fails r λ e h.
          f.affected_foreign (to_model o p) s e
            (map_err-eq_ok (wrapped "更新物件失敗: ") _ found ∙ ap ok h)

  -- Over such a database the errors of the repository are answered by 409 for a duplicate, 404 for a
  -- missing property and 500 for the rest.
  pub repository-IsAnswerable : IsAnswerable o (repository o db)
  unfolding create get_by_id list
  repository-IsAnswerable = record {
    create_fails_as = λ p s.
        Fails-map_err (409 ∷ 500 ∷ []) translate_insert _
          λ e h. translate_insert-Fails e (f.insert_foreign (to_model o p) s e h);
    get_fails_as = λ id s.
        Fails-continue (404 ∷ 500 ∷ []) (map_err translate_select (db.select_by_id id s).0) _ _
          (Fails-map_err (404 ∷ 500 ∷ []) translate_select _
            λ e h. translate_select-Fails e (f.select_foreign id s e h))
          λ _ _. tt;
    list_fails_as = λ q s.
        Fails-continue (500 ∷ [])
          (map_err (wrapped "查詢物件列表失敗: ") (db.select_page (page_query q) s).0) _ _
          (Fails-map_err (500 ∷ []) (wrapped "查詢物件列表失敗: ") _
            λ e h. rw (wrapped_status "查詢物件列表失敗: " e (f.page_foreign (page_query q) s e h)) refl)
          λ _ _. tt;
    update_fails_as = update-Fails;
  }
