-- ===== src/Property/Httpapi/Creates.antt =====
-- What a successful answer to `POST /properties` of internal/property/httpapi means.
use chuchu.Prelude.{◌≡◌, ap, ◌∙◌, sym, not, inl, inr, Bool-cases, Option, some, is_empty}
use mathlib.Core.Path.{subst}
use chuchu.Effect.{◌>>◌, ok, continue-eq_ok, ok_injective, pure}
use chuchu.Outside.{Outside, DecimalLaws}
use chuchu.Property.{Property, vacant}
use chuchu.Property.Input.{CreateInput, validate}
use chuchu.Property.Validation.{validate-eq_nil_iff}
use chuchu.Property.Service.{Repository, create, parse_input}
use chuchu.Property.Service.Contract.{stored, Wrote, IsRepository}
use chuchu.Property.Service.Runs.{is_empty_of}
use chuchu.Property.Service.Keeps.{IsSound, parse_input-IsSound}
use chuchu.Property.Httpapi.{
  CreatePropertyRequest, ApiProperty, to_create_input, to_api_property, create_property,
}

module _ (o : Outside) {S : Type 0} (rows : S → o.Uuid → Option (Property o)) (d : DecimalLaws o)
    (repo : Repository o S) (law : IsRepository o rows repo) (id : o.Uuid) (now : o.Time)
    (s : S) where
  -- What the columns keep of a sound, vacant property was written under the new id, and nothing else.
  pub record Created (p : Property o) (t : S) : Type 0 where
    pub sound : IsSound o p
    pub status : p.status ≡ vacant
    pub same_id : p.id ≡ id
    pub wrote : Wrote o rows (stored o p) s t

  stored-Created :
      (q : Property o) {p : Property o}
      → IsSound o q × (q.status ≡ vacant) × (q.id ≡ id)
      → ((repo.create q >> pure q) s).0 ≡ ok p
      → Created p ((repo.create q >> pure q) s).1
  stored-Created q {p} (sound, is_vacant, same_id) h =
      let (stored, done, e) =
        continue-eq_ok (repo.create q s).0 (λ _. pure q) (repo.create q s).1 h in
      let same : q ≡ p = ok_injective (sym (ap (λ r. r.0) e) ∙ h) in
      rw e (
        subst (λ x. Created x (repo.create q s).1) same
          (record {
            sound = sound;
            status = is_vacant;
            same_id = same_id;
            wrote = law.create_ok q s done;
          }))

  create-Created :
      (input : CreateInput) {p : Property o}
      → (create o repo id now input s).0 ≡ ok p
      → Created p (create o repo id now input s).1
  unfolding create
  create-Created input {p} h = elim (Bool-cases (not (is_empty (validate o input)))) [
    | inl bad ↦ cc bad
    | inr good ↦
        let h' = rw good at h in
        let (q, parsed, e) =
          continue-eq_ok (parse_input o id now input) (λ q. repo.create q >> pure q) s h' in
        let valid = (validate-eq_nil_iff o input).0 (is_empty_of (validate o input) good) in
        rw (good, e)
          (stored-Created q (parse_input-IsSound o d id now input valid parsed)
            (sym (ap (λ r. r.0) e) ∙ h'))
  ]

  pub create_property-Created :
      (body : CreatePropertyRequest) (a : ApiProperty o)
      → (create_property o repo id now (some body) s).0 ≡ ok a
      → (p : Property o) × Created p (create_property o repo id now (some body) s).1
        × (to_api_property o p ≡ a)
  unfolding create_property
  create_property-Created body a h =
      let u = (create o repo id now (to_create_input body) s).1 in
      let (p, done, e) =
        continue-eq_ok (create o repo id now (to_create_input body) s).0
          (λ p. pure (to_api_property o p)) u h in
      rw e (p, create-Created (to_create_input body) done, ok_injective (sym (ap (λ r. r.0) e) ∙ h))
