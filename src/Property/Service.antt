-- ===== src/Property/Service.antt =====
-- The property service: service.go, and the methods of create.go, update.go and query.go in
-- internal/property. `Repository` is the interface of service.go over an explicit state `S`, which
-- stands for the database; `time.Now().UTC()` and `uuid.New()` enter as the arguments `now` and `id`.
pub mod Contract
pub mod Refusals
pub mod Keeps
pub mod Runs
pub mod History
pub mod Lost
pub mod Overlap
pub mod Promises
pub mod Failures
use Prim.Native.String.{◌++◌ as str_append}
use mathlib.Core.Option
use chuchu.Prelude.{
  Bool, true, false, not, String, List, [], ◌∷◌, Option, none, some, ◌==◌, if◌then◌else◌, is_empty,
}
use chuchu.Apperr.{
  to_go, GoError, new, wrap, validation, validation_failed, invalid_status_transition,
}
use chuchu.Effect.{Result, ok, err, Exec, pure, raise, lift, ◌>>=◌, ◌>>◌, and_then, map_err}
use chuchu.Outside.{Outside}
use chuchu.Property.{Status, Property, vacant, can_transition}
use chuchu.Property.Input.{
  CreateInput, UpdateInput, ListFilter, ListResult, validate, validate_update, normalize,
}

-- An `error` that is returned alone is a result with no value.
pub record Repository (o : Outside) (S : Type 0) : Type 0 where
  pub create : Property o → Exec S (Unit {0})
  pub get_by_id : o.Uuid → Exec S (Property o)
  pub list : ListFilter → Exec S (ListResult o)
  pub update : Property o → Exec S (Unit {0})

-- `apperr.Wrap(apperr.CodeValidationFailed, msg, err)`
abbrev pub parse_error : String → GoError → GoError
parse_error msg e = to_go (wrap validation_failed msg e)

module _ (o : Outside) where
  open o use {Uuid, Time, Decimal, new_from_string, zero}

  -- `managementFee` of `Create` and `fee` of `Update`: zero for the empty text
  unfoldable pub parse_fee : String → Result Decimal
  parse_fee s =
      if s == "" then ok zero else map_err (parse_error "management_fee 解析失敗") (new_from_string s)

  -- The property that `Create` builds from a valid input.
  unfoldable pub build : Uuid → Time → CreateInput → Decimal → Decimal → Decimal → Property o
  build id now input area_ping monthly_rent management_fee = record {
    id = id;
    city = input.city;
    district = input.district;
    street_address = input.street_address;
    floor = input.floor;
    room_no = input.room_no;
    layout = input.layout;
    area_ping = area_ping;
    monthly_rent = monthly_rent;
    management_fee = management_fee;
    deposit_months = input.deposit_months;
    rental_mode = input.rental_mode;
    status = vacant;
    landlord_name = input.landlord_name;
    landlord_phone = input.landlord_phone;
    created_at = now;
    updated_at = now;
  }

  -- The part of `Create` after the validation and before the repository is called.
  unfoldable pub parse_input : Uuid → Time → CreateInput → Result (Property o)
  unfolding parse_fee build
  parse_input id now input =
      and_then (map_err (parse_error "area_ping 解析失敗") (new_from_string input.area_ping)) λ area.
        and_then (map_err (parse_error "monthly_rent 解析失敗") (new_from_string input.monthly_rent))
          λ rent.
            and_then (parse_fee input.management_fee) λ fee. ok (build id now input area rent fee)

  abbrev pub new_rent : Property o → Option String → Result Decimal
  new_rent p none = ok p.monthly_rent
  new_rent p (some s) = map_err (parse_error "monthly_rent 解析失敗") (new_from_string s)

  abbrev pub new_fee : Property o → Option String → Result Decimal
  new_fee p none = ok p.management_fee
  new_fee p (some s) = parse_fee s

  -- The assignments of `Update` between `GetByID` and `repo.Update`.
  abbrev pub assign_update : Time → UpdateInput → Property o → Decimal → Decimal → Property o
  assign_update now input p rent fee = record p {
    monthly_rent = rent;
    management_fee = fee;
    deposit_months = Option.get_or input.deposit_months p.deposit_months;
    layout = Option.get_or input.layout p.layout;
    landlord_name = Option.get_or input.landlord_name p.landlord_name;
    landlord_phone = Option.get_or input.landlord_phone p.landlord_phone;
    updated_at = now;
  }

  unfoldable pub apply_update : Time → UpdateInput → Property o → Result (Property o)
  apply_update now input p = and_then (new_rent p input.monthly_rent) λ rent.
      and_then (new_fee p input.management_fee) λ fee. ok (assign_update now input p rent fee)

  abbrev pub transition_error : Status → Status → GoError
  transition_error from to = to_go (
      new invalid_status_transition
        (str_append "不允許把物件狀態從 " (str_append from (str_append " 轉換到 " to))))

  -- The check and the assignments of `ChangeStatus` between `GetByID` and `repo.Update`.
  unfoldable pub apply_status : Time → Status → Property o → Result (Property o)
  apply_status now target p =
      if not (can_transition p.status target)
      then err (transition_error p.status target)
      else ok (record p { status = target; updated_at = now })

  module _ {S : Type 0} (repo : Repository o S) where
    -- `Service.Create`
    unfoldable pub create : Uuid → Time → CreateInput → Exec S (Property o)
    create id now input =
        if not (is_empty (validate o input))
        then raise (to_go (validation (validate o input)))
        else do p ← lift (parse_input id now input); repo.create p; pure p

    -- What `Update` does after `GetByID` returned `p`.
    abbrev pub finish_update : Time → UpdateInput → Property o → Exec S (Property o)
    finish_update now input p = do p' ← lift (apply_update now input p); repo.update p'; pure p'

    -- What `ChangeStatus` does after `GetByID` returned `p`.
    abbrev pub finish_status : Time → Status → Property o → Exec S (Property o)
    finish_status now target p = do p' ← lift (apply_status now target p); repo.update p'; pure p'

    -- `Service.Update`
    unfoldable pub update : Time → Uuid → UpdateInput → Exec S (Property o)
    update now id input =
        if not (is_empty (validate_update o input))
        then raise (to_go (validation (validate_update o input)))
        else do p ← repo.get_by_id id; p' ← lift (apply_update now input p); repo.update p'; pure p'

    -- `Service.ChangeStatus`
    unfoldable pub change_status : Time → Uuid → Status → Exec S (Property o)
    change_status now id target = do p ← repo.get_by_id id; finish_status now target p

    -- `Service.Get`
    unfoldable pub get : Uuid → Exec S (Property o)
    get id = repo.get_by_id id

    -- `Service.List`
    unfoldable pub list : ListFilter → Exec S (ListResult o)
    list f = repo.list (normalize f)
