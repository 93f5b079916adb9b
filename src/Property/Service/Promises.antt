-- ===== src/Property/Service/Promises.antt =====
-- The promises on the interface `Repository` of internal/property/service.go that say what its calls
-- return: the duplicate, the missing property, and the page and the total of a list.
use chuchu.Prelude.{
  ◌≡◌, ◌≢◌, ◌↔◌, ℕ, suc, pos, ◌*◌, ◌<◌, Bool, true, ◌&&◌, ◌||◌, ◌==◌, String, Option, none, some,
  List, length, filter, take, drop, IsIn, get_elem?,
}
use chuchu.Apperr.{GoError, Error, Code, as_error, property_duplicate, property_not_found}
use chuchu.Effect.{Result, ok, err}
use chuchu.Outside.{Outside}
use chuchu.Property.{Property}
use chuchu.Property.Input.{ListFilter}
use chuchu.Property.Service.{Repository}
use chuchu.Property.Service.Overlap.Kept.{address}

-- The call returns an application error with this code.
abbrev pub FailsAs : {A : Type 0} → Code → Result A → Type 0
FailsAs {A} code r =
    (e : GoError) × ((x : Error) × (r ≡ err e) × (as_error e ≡ some x) × (x.code ≡ code))

-- A filter that is not given takes everything.
abbrev pub agrees : Option String → String → Bool
agrees none s = true
agrees (some t) s = s == t

abbrev pub matches : {o : Outside} → ListFilter → Property o → Bool
matches f p =
    agrees f.status p.status
    && agrees f.rental_mode p.rental_mode
    && ((f.city == "") || (p.city == f.city))

-- When the database answers: it carries out a query (`answers`), or a statement with this property as far as
-- its keys (`takes`). `ordered` is the order in which it lists all properties.
pub record Terms (o : Outside) (S : Type 0) : Type 1 where
  pub takes : Property o → S → Type 0
  pub answers : S → Type 0
  pub ordered : S → List (Property o)

module _ (o : Outside) {S : Type 0} (rows : S → o.Uuid → Option (Property o)) where
  pub record KeepsPromises (terms : Terms o S) (repo : Repository o S) : Type 0 where
    pub create_adds :
        (p : Property o) (s : S)
        → terms.takes p s
        → rows s p.id ≡ none
        → ((j : o.Uuid) (q : Property o) → rows s j ≡ some q → address q ≢ address p)
        → (repo.create p s).0 ≡ ok tt
    pub create_duplicate :
        (p q : Property o) (j : o.Uuid) (s : S)
        → terms.takes p s
        → rows s j ≡ some q
        → address q ≡ address p
        → FailsAs property_duplicate (repo.create p s).0
    pub get_found :
        (j : o.Uuid) (p : Property o) (s : S)
        → terms.answers s
        → rows s j ≡ some p
        → (repo.get_by_id j s).0 ≡ ok p
    pub get_missing :
        (j : o.Uuid) (s : S)
        → terms.answers s
        → rows s j ≡ none
        → FailsAs property_not_found (repo.get_by_id j s).0
    pub update_stores :
        (p old : Property o) (s : S)
        → terms.takes p s
        → rows s p.id ≡ some old
        → ((j : o.Uuid) (q : Property o) → rows s j ≡ some q → j ≢ p.id → address q ≢ address p)
        → (repo.update p s).0 ≡ ok tt
    pub update_missing :
        (p : Property o) (s : S)
        → terms.takes p s
        → rows s p.id ≡ none
        → FailsAs property_not_found (repo.update p s).0
    pub lists_all : (p : Property o) (s : S) → IsIn p (terms.ordered s) ↔ (rows s p.id ≡ some p)
    pub lists_once :
        (p q : Property o) (i j : ℕ) (s : S)
        → get_elem? (terms.ordered s) i ≡ some p
        → get_elem? (terms.ordered s) j ≡ some q
        → p.id ≡ q.id
        → i ≡ j
    -- the page of the properties that match, and how many match
    pub list_page :
        (f : ListFilter) (n k : ℕ) (s : S)
        → terms.answers s
        → f.page ≡ pos (suc n)
        → f.page_size ≡ pos (suc k)
        → n * suc k < 0x8000000000000000
        → let matching = filter (matches f) (terms.ordered s) in
          (repo.list f s).0
          ≡ ok (record {
            items = take (suc k) (drop (n * suc k) matching);
            total = pos (length matching);
          })
