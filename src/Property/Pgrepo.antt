-- ===== src/Property/Pgrepo.antt =====
-- internal/property/pgrepo/pgrepo.go: the repository of properties over Postgres. The calls of bun
-- that it makes are the fields of `Db`; each takes the statement that the code builds.
pub mod Refines
pub mod Errors
pub mod Statuses
pub mod Indexes
pub mod Promises
use chuchu.Prelude.{
  ℕ, ℤ, pos, negsuc, ◌-ℤ◌, ◌*ℤ◌, wrap64, eqb, Bool, true, false, String, List, [], ◌∷◌, map, Option,
  none, some, ◌==◌, ◌&&◌, if◌then◌else◌,
}
use chuchu.Apperr.{
  GoError, app, wrapped, foreign, no_rows, invalid_signature, pg_error, param_error, Cause, nil,
  cause, to_go, new, property_duplicate, property_not_found, errors_is,
}
use chuchu.Effect.{Result, ok, err, Exec, pure, raise, lift, ◌>>=◌, ◌>>◌, map_err}
use chuchu.Outside.{Outside}
use chuchu.Property.{RentalMode, Status, Property}
use chuchu.Property.Input.{ListFilter, ListResult}
use chuchu.Property.Service.{Repository}

pub record PropertyModel (o : Outside) : Type 0 where
  pub id : o.Uuid
  pub city : String
  pub district : String
  pub street_address : String
  pub floor : String
  pub room_no : String
  pub layout : String
  pub area_ping : o.Decimal
  pub monthly_rent : o.Decimal
  pub management_fee : o.Decimal
  pub deposit_months : ℤ
  pub rental_mode : String
  pub status : String
  pub landlord_name : String
  pub landlord_phone : String
  pub created_at : o.Time
  pub updated_at : o.Time

-- The query that `List` builds. Its order is always `created_at DESC, id DESC`.
pub record PageQuery : Type 0 where
  pub where_status : Option String
  pub where_rental_mode : Option String
  pub where_city : Option String
  pub limit : ℤ
  pub offset : ℤ

-- What the code calls of bun. An `UPDATE` returns what `RowsAffected` will say.
pub record Db (o : Outside) (S : Type 0) : Type 0 where
  pub insert : PropertyModel o → Exec S (Unit {0})
  pub select_by_id : o.Uuid → Exec S (PropertyModel o)
  pub update_by_pk : PropertyModel o → Exec S (Result ℤ)
  pub select_page : PageQuery → Exec S (List (PropertyModel o) × ℤ)

unfoldable pub to_model : (o : Outside) → Property o → PropertyModel o
to_model o p = record {
  id = p.id;
  city = p.city;
  district = p.district;
  street_address = p.street_address;
  floor = p.floor;
  room_no = p.room_no;
  layout = p.layout;
  area_ping = p.area_ping;
  monthly_rent = p.monthly_rent;
  management_fee = p.management_fee;
  deposit_months = p.deposit_months;
  rental_mode = p.rental_mode;
  status = p.status;
  landlord_name = p.landlord_name;
  landlord_phone = p.landlord_phone;
  created_at = p.created_at;
  updated_at = p.updated_at;
}

unfoldable pub to_domain : (o : Outside) → PropertyModel o → Property o
to_domain o m = record {
  id = m.id;
  city = m.city;
  district = m.district;
  street_address = m.street_address;
  floor = m.floor;
  room_no = m.room_no;
  layout = m.layout;
  area_ping = m.area_ping;
  monthly_rent = m.monthly_rent;
  management_fee = m.management_fee;
  deposit_months = m.deposit_months;
  rental_mode = m.rental_mode;
  status = m.status;
  landlord_name = m.landlord_name;
  landlord_phone = m.landlord_phone;
  created_at = m.created_at;
  updated_at = m.updated_at;
}

-- `errors.AsType[pgdriver.Error]` of the standard library
unfoldable mutual
  pub as_pg_error : GoError → Option (ℕ → String)
  as_pg_error (app c m d k) = cause_as_pg_error k
  as_pg_error (wrapped m e) = as_pg_error e
  as_pg_error (foreign m) = none
  as_pg_error no_rows = none
  as_pg_error invalid_signature = none
  as_pg_error (pg_error f) = some f
  as_pg_error (param_error p n k) = cause_as_pg_error k

  pub cause_as_pg_error : Cause → Option (ℕ → String)
  cause_as_pg_error nil = none
  cause_as_pg_error (cause e) = as_pg_error e

abbrev pub pg_unique_violation : String
pg_unique_violation = "23505"

-- `ok && pgErr.Field('C') == pgUniqueViolation`
abbrev pub is_unique_violation : Option (ℕ → String) → Bool
is_unique_violation none = false
is_unique_violation (some field) = field b'C' == pg_unique_violation

abbrev pub duplicate_error : GoError
duplicate_error = to_go (new property_duplicate "相同門牌的物件已存在")

abbrev pub not_found_error : GoError
not_found_error = to_go (new property_not_found "找不到指定的物件")

-- the error branches of `Create` and of `GetByID`
unfoldable pub translate_insert : GoError → GoError
translate_insert e =
    if is_unique_violation (as_pg_error e) then duplicate_error else wrapped "新增物件失敗: " e

unfoldable pub translate_select : GoError → GoError
translate_select e = if errors_is e no_rows then not_found_error else wrapped "查詢物件失敗: " e

abbrev is_zero : ℤ → Bool
is_zero (pos n) = eqb n 0
is_zero (negsuc n) = false

-- the end of `Update`, on what `RowsAffected` says
unfoldable pub check_affected : Result ℤ → Result (Unit {0})
check_affected (err e) = err (wrapped "讀取更新物件影響筆數失敗: " e)
check_affected (ok n) = if is_zero n then err not_found_error else ok tt

-- `if f.City != ""`
abbrev pub where_text : String → Option String
where_text s = if s == "" then none else some s

unfoldable pub page_query : ListFilter → PageQuery
page_query f = record {
  where_status = f.status;
  where_rental_mode = f.rental_mode;
  where_city = where_text f.city;
  limit = f.page_size;
  offset = wrap64 (wrap64 (f.page -ℤ pos 1) *ℤ f.page_size);
}

-- a call whose error is replaced
abbrev pub on_error : {S A : Type 0} → (GoError → GoError) → Exec S A → Exec S A
on_error g m s = (map_err g (m s).0, (m s).1)

module _ (o : Outside) {S : Type 0} (db : Db o S) where
  unfoldable pub create : Property o → Exec S (Unit {0})
  create p = on_error translate_insert (db.insert (to_model o p))

  unfoldable pub get_by_id : o.Uuid → Exec S (Property o)
  get_by_id id = do m ← on_error translate_select (db.select_by_id id); pure (to_domain o m)

  unfoldable pub update : Property o → Exec S (Unit {0})
  update p = do
    res ← on_error (wrapped "更新物件失敗: ") (db.update_by_pk (to_model o p))
    lift (check_affected res)

  abbrev pub to_result : List (PropertyModel o) × ℤ → ListResult o
  to_result (models, total) = record { items = map (to_domain o) models; total = total }

  unfoldable pub list : ListFilter → Exec S (ListResult o)
  list f = do
    page ← on_error (wrapped "查詢物件列表失敗: ") (db.select_page (page_query f))
    pure (to_result page)

  -- `PropertyRepository`, as the interface that the service takes
  abbrev pub repository : Repository o S
  repository = record { create = create; get_by_id = get_by_id; list = list; update = update }
