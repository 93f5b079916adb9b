-- ===== src/Property/Httpapi/Failures.antt =====
-- The statuses by which the errors of the five operations of internal/property/httpapi are answered.
use chuchu.Prelude.{refl, not, inl, inr, Bool-cases, String, [], ◌∷◌, Option, none, some}
use chuchu.Apperr.{http_status, as_error}
use chuchu.Outside.{Outside}
use chuchu.Property.{status_valid}
use chuchu.Property.Service
use chuchu.Property.Service.{Repository, change_status}
use chuchu.Property.Service.Failures.{
  IsAnswerable, create-Fails, update-Fails, change_status-Fails, get-Fails, list-Fails,
}
use chuchu.Property.Httpapi.{
  CreatePropertyRequest, UpdatePropertyRequest, ListPropertiesParams, list_properties,
  create_property, get_property, update_property, change_property_status, to_list_filter,
  to_create_input, to_update_input,
}
use chuchu.Httpx.Failures.{error_status, Fails, Fails-mono, Fails-continue}

module _ (o : Outside) {S : Type 0} (repo : Repository o S) (a : IsAnswerable o repo) where
  pub list_properties-Fails :
      (params : ListPropertiesParams) (s : S)
      → Fails (400 ∷ 500 ∷ []) (list_properties o repo params s).0
  unfolding list_properties
  list_properties-Fails params s =
      Fails-continue (400 ∷ 500 ∷ []) (Service.list o repo (to_list_filter params) s).0 _ _
        (Fails-mono (500 ∷ []) (400 ∷ 500 ∷ []) _ refl
          (list-Fails o repo a (to_list_filter params) s))
        λ _ _. tt

  pub create_property-Fails :
      (id : o.Uuid) (now : o.Time) (body : Option CreatePropertyRequest) (s : S)
      → Fails (400 ∷ 409 ∷ 500 ∷ []) (create_property o repo id now body s).0
  unfolding create_property error_status as_error http_status
  create_property-Fails id now none s = refl
  create_property-Fails id now (some body) s =
      Fails-continue (400 ∷ 409 ∷ 500 ∷ [])
        (Service.create o repo id now (to_create_input body) s).0 _ _
        (create-Fails o repo a id now (to_create_input body) s) λ _ _. tt

  pub get_property-Fails :
      (id : o.Uuid) (s : S) → Fails (404 ∷ 500 ∷ []) (get_property o repo id s).0
  unfolding get_property
  get_property-Fails id s =
      Fails-continue (404 ∷ 500 ∷ []) (Service.get o repo id s).0 _ _ (get-Fails o repo a id s)
        λ _ _. tt

  pub update_property-Fails :
      (now : o.Time) (id : o.Uuid) (body : Option UpdatePropertyRequest) (s : S)
      → Fails (400 ∷ 404 ∷ 500 ∷ []) (update_property o repo now id body s).0
  unfolding update_property error_status as_error http_status
  update_property-Fails now id none s = refl
  update_property-Fails now id (some body) s =
      Fails-continue (400 ∷ 404 ∷ 500 ∷ [])
        (Service.update o repo now id (to_update_input body) s).0 _ _
        (update-Fails o repo a now id (to_update_input body) s) λ _ _. tt

  pub change_property_status-Fails :
      (now : o.Time) (id : o.Uuid) (body : Option String) (s : S)
      → Fails (400 ∷ 404 ∷ 409 ∷ 500 ∷ []) (change_property_status o repo now id body s).0
  unfolding change_property_status error_status as_error http_status
  change_property_status-Fails now id none s = refl
  change_property_status-Fails now id (some target) s =
      elim (Bool-cases (not (status_valid target))) [
        | inl bad ↦ rw bad refl
        | inr good ↦ rw good (
            Fails-continue (400 ∷ 404 ∷ 409 ∷ 500 ∷ []) (change_status o repo now id target s).0 _ _
              (Fails-mono (404 ∷ 409 ∷ 500 ∷ []) (400 ∷ 404 ∷ 409 ∷ 500 ∷ []) _ refl
                (change_status-Fails o repo a now id target s))
              λ _ _. tt)
      ]
