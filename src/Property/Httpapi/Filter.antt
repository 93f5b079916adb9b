-- ===== src/Property/Httpapi/Filter.antt =====
-- The filter with which `GET /properties` of internal/property/httpapi reaches the repository.
use chuchu.Prelude.{
  pos, leb_ℤ, ◌≡◌, refl, inl, inr, Bool, true, Bool-cases, Option, none, some, String, arith,
}
use chuchu.Effect.{◌>>=◌, pure}
use chuchu.Outside.{Outside}
use chuchu.Property.{status_valid, rental_mode_valid}
use chuchu.Property.Input.{ListFilter, normalize}
use chuchu.Property.Service.{Repository, list}
use chuchu.Property.Httpapi.{
  ListPropertiesParams, if_valid, to_list_filter, to_property_list, list_properties,
}

-- Not given, or valid.
pub data IsChoice (valid : String → Bool) : Option String → Type 0 where
  absent : IsChoice valid none
  present : {s : String} → valid s ≡ true → IsChoice valid (some s)

pub record IsServed (f : ListFilter) : Type 0 where
  pub page : leb_ℤ (pos 1) f.page ≡ true
  pub at_least_one : leb_ℤ (pos 1) f.page_size ≡ true
  pub at_most_hundred : leb_ℤ f.page_size (pos 100) ≡ true
  pub status : IsChoice status_valid f.status
  pub rental_mode : IsChoice rental_mode_valid f.rental_mode

if_valid-IsChoice : (valid : String → Bool) (s : Option String) → IsChoice valid (if_valid valid s)
if_valid-IsChoice valid none = absent
if_valid-IsChoice valid (some s) = elim (Bool-cases (valid s)) [
  | inl holds ↦ rw holds (present holds)
  | inr fails ↦ rw fails absent
]

served : (params : ListPropertiesParams) → IsServed (normalize (to_list_filter params))
unfolding normalize to_list_filter
served params = record {
  page = ground arith;
  at_least_one = ground arith;
  at_most_hundred = ground arith;
  status = if_valid-IsChoice status_valid params.status;
  rental_mode = if_valid-IsChoice rental_mode_valid params.rental_mode;
}

-- Whatever the parameters are, the repository is asked for a page from 1 on, of 1 to 100 properties,
-- with no filter on the status and the mode but a valid one, and its answer is returned.
pub list_properties-IsServed :
    (o : Outside) {S : Type 0} (repo : Repository o S) (params : ListPropertiesParams) (s : S)
    → (f : ListFilter) × IsServed f
      × (list_properties o repo params s ≡ (repo.list f >>= λ r. pure (to_property_list o r)) s)
unfolding list_properties list
list_properties-IsServed o repo params s = (normalize (to_list_filter params), served params, refl)
