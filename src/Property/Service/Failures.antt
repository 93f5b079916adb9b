-- ===== src/Property/Service/Failures.antt =====
-- The statuses by which the errors of the property service are answered, over a repository whose own
-- errors are answered by given ones.
use chuchu.Prelude.{
  ℕ, ◌≡◌, refl, true, inl, inr, not, Bool-cases, String, List, [], ◌∷◌, Option, none, some,
  is_empty, ◌==◌,
}
use chuchu.Apperr.{http_status, as_error}
use chuchu.Effect.{Result, lift, pure, ◌>>=◌, ◌>>◌, map_err}
use chuchu.Outside.{Outside}
use chuchu.Property.{Status, Property, can_transition}
use chuchu.Property.Input.{
  CreateInput, UpdateInput, ListFilter, validate, validate_update, normalize,
}
use chuchu.Property.Service.{
  Repository, parse_error, parse_fee, parse_input, new_rent, new_fee, apply_update, apply_status,
  create, update, change_status, get, list,
}
use chuchu.Httpx.Failures.{
  error_status, has, Fails, Fails-mono, Fails-map_err, Fails-and_then, Fails-continue,
}

-- 409 for a duplicate, 404 for a missing property, 500 for all that the database reports.
pub record IsAnswerable (o : Outside) {S : Type 0} (repo : Repository o S) : Type 0 where
  pub create_fails_as : (p : Property o) (s : S) → Fails (409 ∷ 500 ∷ []) (repo.create p s).0
  pub get_fails_as : (id : o.Uuid) (s : S) → Fails (404 ∷ 500 ∷ []) (repo.get_by_id id s).0
  pub list_fails_as : (f : ListFilter) (s : S) → Fails (500 ∷ []) (repo.list f s).0
  pub update_fails_as : (p : Property o) (s : S) → Fails (404 ∷ 500 ∷ []) (repo.update p s).0

abbrev bad_request : List ℕ
bad_request = 400 ∷ []

module _ (o : Outside) where
  parse-Fails :
      {A : Type 0} (msg : String) (r : Result A) → Fails bad_request (map_err (parse_error msg) r)
  unfolding error_status as_error http_status
  parse-Fails msg r = Fails-map_err bad_request (parse_error msg) r (λ e h. refl)

  parse_fee-Fails : (s : String) → Fails bad_request (parse_fee o s)
  unfolding parse_fee
  parse_fee-Fails s = elim (Bool-cases (s == "")) [
    | inl empty ↦ rw empty tt
    | inr given ↦ rw given (parse-Fails "management_fee 解析失敗" (o.new_from_string s))
  ]

  parse_input-Fails :
      (id : o.Uuid) (now : o.Time) (input : CreateInput)
      → Fails bad_request (parse_input o id now input)
  unfolding parse_input
  parse_input-Fails id now input =
      Fails-and_then bad_request _ _
        (parse-Fails "area_ping 解析失敗" (o.new_from_string input.area_ping))
        λ area _.
          Fails-and_then bad_request _ _
            (parse-Fails "monthly_rent 解析失敗" (o.new_from_string input.monthly_rent))
            λ rent _.
              Fails-and_then bad_request _ _ (parse_fee-Fails input.management_fee) λ fee _. tt

  new_rent-Fails : (p : Property o) (s : Option String) → Fails bad_request (new_rent o p s)
  new_rent-Fails p none = tt
  new_rent-Fails p (some s) = parse-Fails "monthly_rent 解析失敗" (o.new_from_string s)

  new_fee-Fails : (p : Property o) (s : Option String) → Fails bad_request (new_fee o p s)
  new_fee-Fails p none = tt
  new_fee-Fails p (some s) = parse_fee-Fails s

  apply_update-Fails :
      (now : o.Time) (input : UpdateInput) (p : Property o)
      → Fails bad_request (apply_update o now input p)
  unfolding apply_update
  apply_update-Fails now input p =
      Fails-and_then bad_request _ _ (new_rent-Fails p input.monthly_rent)
        λ rent _. Fails-and_then bad_request _ _ (new_fee-Fails p input.management_fee) λ fee _. tt

  apply_status-Fails :
      (now : o.Time) (target : Status) (p : Property o)
      → Fails (409 ∷ []) (apply_status o now target p)
  unfolding apply_status error_status as_error http_status
  apply_status-Fails now target p = elim (Bool-cases (can_transition p.status target)) [
    | inl edge ↦ rw edge tt
    | inr no_edge ↦ rw no_edge refl
  ]

  module _ {S : Type 0} (repo : Repository o S) (a : IsAnswerable o repo) where
    pub create-Fails :
        (id : o.Uuid) (now : o.Time) (input : CreateInput) (s : S)
        → Fails (400 ∷ 409 ∷ 500 ∷ []) (create o repo id now input s).0
    unfolding create error_status as_error http_status
    create-Fails id now input s = elim (Bool-cases (not (is_empty (validate o input)))) [
      | inl bad ↦ rw bad refl
      | inr good ↦ rw good (
          Fails-continue (400 ∷ 409 ∷ 500 ∷ []) (parse_input o id now input) _ s
            (Fails-mono bad_request (400 ∷ 409 ∷ 500 ∷ []) _ refl (parse_input-Fails id now input))
            λ p _.
              Fails-continue (400 ∷ 409 ∷ 500 ∷ []) (repo.create p s).0 _ _
                (Fails-mono (409 ∷ 500 ∷ []) (400 ∷ 409 ∷ 500 ∷ []) _ refl (a.create_fails_as p s))
                λ _ _. tt)
    ]

    -- `GetByID`, a change of the property, `Update`
    modify-Fails :
        (codes : List ℕ) (id : o.Uuid) (f : Property o → Result (Property o)) (s : S)
        → ((p : Property o) → Fails codes (f p))
        → has codes 404 ≡ true
        → has codes 500 ≡ true
        → Fails codes
            ((repo.get_by_id id >>= λ p. lift (f p) >>= λ p'. repo.update p' >> pure p') s).0
    modify-Fails codes id f s change h404 h500 =
        Fails-continue codes (repo.get_by_id id s).0 _ _
          (Fails-mono (404 ∷ 500 ∷ []) codes _ (rw (h404, h500) refl) (a.get_fails_as id s))
          λ p _. Fails-continue codes (f p) _ _ (change p) λ p' _.
            Fails-continue codes (repo.update p' _).0 _ _
              (Fails-mono (404 ∷ 500 ∷ []) codes _ (rw (h404, h500) refl) (a.update_fails_as p' _))
              λ _ _. tt

    pub update-Fails :
        (now : o.Time) (id : o.Uuid) (input : UpdateInput) (s : S)
        → Fails (400 ∷ 404 ∷ 500 ∷ []) (update o repo now id input s).0
    unfolding update error_status as_error http_status
    update-Fails now id input s = elim (Bool-cases (not (is_empty (validate_update o input)))) [
      | inl bad ↦ rw bad refl
      | inr good ↦ rw good (
          modify-Fails (400 ∷ 404 ∷ 500 ∷ []) id (apply_update o now input) s
            (λ p.
              Fails-mono bad_request (400 ∷ 404 ∷ 500 ∷ []) _ refl (apply_update-Fails now input p))
            refl refl)
    ]

    pub change_status-Fails :
        (now : o.Time) (id : o.Uuid) (target : Status) (s : S)
        → Fails (404 ∷ 409 ∷ 500 ∷ []) (change_status o repo now id target s).0
    unfolding change_status
    change_status-Fails now id target s =
        modify-Fails (404 ∷ 409 ∷ 500 ∷ []) id (apply_status o now target) s
          (λ p.
            Fails-mono (409 ∷ []) (404 ∷ 409 ∷ 500 ∷ []) _ refl (apply_status-Fails now target p))
          refl refl

    pub get-Fails : (id : o.Uuid) (s : S) → Fails (404 ∷ 500 ∷ []) (get o repo id s).0
    unfolding get
    get-Fails id s = a.get_fails_as id s

    pub list-Fails : (f : ListFilter) (s : S) → Fails (500 ∷ []) (list o repo f s).0
    unfolding list
    list-Fails f s = a.list_fails_as (normalize f) s
