-- ===== src/Property/Service/Keeps.antt =====
-- What the operations of the property service keep of the stored properties: each is well formed,
-- and an existing one changes only in the fields that its operation may write.
use mathlib.Core.Option
use mathlib.Core.Path.{subst}
use chuchu.Prelude.{
  ◌≡◌, refl, sym, ap, ◌∙◌, ◌⊎◌, inl, inr, Bool, true, false, not, String, Option, none, some, ◌==◌,
  Bool-cases, eq_true_of_not, eq_false_of_not, is_blank,
}
use chuchu.Effect.{ok, and_then-eq_ok, map_err-eq_ok, ok_injective}
use chuchu.Outside.{Outside, DecimalLaws}
use chuchu.Property.{
  RentalMode, Status, Property, vacant, rental_mode_valid, status_valid, layout_valid,
  can_transition,
}
use chuchu.Property.StateMachine.{Edge, Edge-valid, can_transition_iff}
use chuchu.Property.Input.{CreateInput, UpdateInput}
use chuchu.Property.Validation.{is_amount, is_fee, IsValid}
use chuchu.Property.Validation.Update.{breaks, is_deposit, IsValidUpdate}
use chuchu.Property.Service.Contract.{stored}
use chuchu.Property.Service.{
  parse_fee, build, parse_input, new_rent, new_fee, assign_update, apply_update, apply_status,
}

-- A stored property is well formed; the column may have rounded its rent or its area to zero.
pub record IsSound (o : Outside) (p : Property o) : Type 0 where
  pub city : is_blank p.city ≡ false
  pub street_address : is_blank p.street_address ≡ false
  pub layout : layout_valid p.layout ≡ true
  pub area_ping : o.is_negative p.area_ping ≡ false
  pub monthly_rent : o.is_negative p.monthly_rent ≡ false
  pub management_fee : o.is_negative p.management_fee ≡ false
  pub deposit_months : is_deposit p.deposit_months ≡ true
  pub rental_mode : rental_mode_valid p.rental_mode ≡ true
  pub status : status_valid p.status ≡ true

-- What no operation may change once a property is stored.
abbrev pub identity :
    (o : Outside)
    → Property o
    → o.Uuid × String × String × String × String × String × o.Decimal × RentalMode × o.Time
identity o p = (
  p.id, p.city, p.district, p.street_address, p.floor, p.room_no, p.area_ping, p.rental_mode,
  p.created_at,
)

-- `q` is `p` after one operation: its identity is kept, and its status is kept or has moved along an
-- edge of the state machine.
pub record Evolves (o : Outside) (p q : Property o) : Type 0 where
  pub identity_kept : identity o q ≡ identity o p
  pub status : (q.status ≡ p.status) ⊎ Edge p.status q.status

pub Evolves-refl : (o : Outside) (p : Property o) → Evolves o p p
Evolves-refl o p = record { identity_kept = refl; status = inl refl }

-- what the columns keep of an identity
abbrev fit_identity :
    (o : Outside)
    → o.Uuid × String × String × String × String × String × o.Decimal × RentalMode × o.Time
    → o.Uuid × String × String × String × String × String × o.Decimal × RentalMode × o.Time
fit_identity o x = (x.0, x.1, x.2, x.3, x.4, x.5, o.round_amount x.6, x.7, o.round_time x.8)

pub stored-identity :
    (o : Outside) (p q : Property o)
    → stored o p ≡ p
    → identity o q ≡ identity o p
    → identity o (stored o q) ≡ identity o p
stored-identity o p q fitted same = ap (fit_identity o) same ∙ ap (identity o) fitted

-- A row that has evolved is stored as one that has.
pub stored-Evolves :
    (o : Outside) (p q : Property o) → stored o p ≡ p → Evolves o p q → Evolves o p (stored o q)
stored-Evolves o p q fitted ev = record {
  identity_kept = stored-identity o p q fitted ev.identity_kept;
  status = ev.status;
}

-- The assignments of `Update` and of `ChangeStatus` leave the other fields alone.
assign_update-Evolves :
    (o : Outside) (now : o.Time) (input : UpdateInput) (p : Property o) (rent fee : o.Decimal)
    → Evolves o p (assign_update o now input p rent fee)
assign_update-Evolves o now input p rent fee = record { identity_kept = refl; status = inl refl }

status-Evolves :
    (o : Outside) (now : o.Time) (target : Status) (p : Property o)
    → Edge p.status target
    → Evolves o p (record p { status = target; updated_at = now })
status-Evolves o now target p e = record { identity_kept = refl; status = inr e }

given_or_old :
    {A : Type 0} (rule : A → Bool) (given : Option A) (old : A)
    → breaks rule given ≡ false
    → rule old ≡ true
    → rule (Option.get_or given old) ≡ true
given_or_old rule none old h keeps = keeps
given_or_old rule (some a) old h keeps = eq_true_of_not h

module _ (o : Outside) (d : DecimalLaws o) where
  is_positive_of_is_amount :
      (s : String) {x : o.Decimal}
      → is_amount o s ≡ true
      → o.new_from_string s ≡ ok x
      → o.is_positive x ≡ true
  is_positive_of_is_amount s h r = rw r at h

  not_negative_of_is_fee :
      (s : String) {x : o.Decimal}
      → is_fee o s ≡ true
      → parse_fee o s ≡ ok x
      → o.is_negative x ≡ false
  unfolding parse_fee
  not_negative_of_is_fee s {x} h r = elim (Bool-cases (s == "")) [
    | inl empty ↦ ap o.is_negative (sym (ok_injective (rw empty at r))) ∙ d.zero_sign
    | inr given ↦
        let parsed = map_err-eq_ok _ (o.new_from_string s) (rw given at r) in
        elim (Bool-cases (is_blank s)) [
          | inl blank ↦ cc (parsed, (d.blank_rejected s blank).1)
          | inr written ↦ eq_false_of_not (rw (written, parsed) at h)
        ]
  ]

  is_amount-not_negative :
      (s : String) {x : o.Decimal}
      → is_amount o s ≡ true
      → o.new_from_string s ≡ ok x
      → o.is_negative x ≡ false
  is_amount-not_negative s {x} h r = d.positive_sign x (is_positive_of_is_amount s h r)

  -- The columns keep a sound property sound, and what they held already.
  pub stored-IsSound : (p : Property o) → IsSound o p → IsSound o (stored o p)
  unfolding status_valid
  stored-IsSound p h = record {
    city = h.city;
    street_address = h.street_address;
    layout = h.layout;
    area_ping = d.round_sign p.area_ping h.area_ping;
    monthly_rent = d.round_sign p.monthly_rent h.monthly_rent;
    management_fee = d.round_sign p.management_fee h.management_fee;
    deposit_months = h.deposit_months;
    rental_mode = h.rental_mode;
    status = h.status;
  }

  build-IsSound :
      (id : o.Uuid) (now : o.Time) (input : CreateInput) {area rent fee : o.Decimal}
      → IsValid o input
      → o.is_negative area ≡ false
      → o.is_negative rent ≡ false
      → o.is_negative fee ≡ false
      → IsSound o (build o id now input area rent fee)
  unfolding build status_valid
  build-IsSound id now input v area rent fee = record {
    city = v.city;
    street_address = v.street_address;
    layout = v.layout;
    area_ping = area;
    monthly_rent = rent;
    management_fee = fee;
    deposit_months = ap not v.deposit_months;
    rental_mode = v.rental_mode;
    status = refl;
  }

  -- What `Create` hands to the repository: a sound, vacant property.
  pub parse_input-IsSound :
      (id : o.Uuid) (now : o.Time) (input : CreateInput) {p : Property o}
      → IsValid o input
      → parse_input o id now input ≡ ok p
      → IsSound o p × (p.status ≡ vacant) × (p.id ≡ id)
  unfolding parse_input build
  parse_input-IsSound id now input v h =
      let (area, ra, h) = and_then-eq_ok _ _ h in
      let (rent, rr, h) = and_then-eq_ok _ _ h in
      let (fee, rf, h) = and_then-eq_ok _ _ h in
      subst (λ p. IsSound o p × (p.status ≡ vacant) × (p.id ≡ id)) (ok_injective h)
        (
          build-IsSound id now input v (is_amount-not_negative _ v.area_ping (map_err-eq_ok _ _ ra))
              (is_amount-not_negative _ v.monthly_rent (map_err-eq_ok _ _ rr))
              (not_negative_of_is_fee input.management_fee v.management_fee rf),
          refl,
          refl,
        )

  -- the rent and the fee that an update assigns: those given, or the old ones
  new_rent-not_negative :
      (p : Property o) (s : Option String) {x : o.Decimal}
      → o.is_negative p.monthly_rent ≡ false
      → breaks (is_amount o) s ≡ false
      → new_rent o p s ≡ ok x
      → o.is_negative x ≡ false
  new_rent-not_negative p none old h r = ap o.is_negative (sym (ok_injective r)) ∙ old
  new_rent-not_negative p (some s) old h r =
      is_amount-not_negative s (eq_true_of_not h) (map_err-eq_ok _ _ r)

  new_fee-not_negative :
      (p : Property o) (s : Option String) {x : o.Decimal}
      → o.is_negative p.management_fee ≡ false
      → breaks (is_fee o) s ≡ false
      → new_fee o p s ≡ ok x
      → o.is_negative x ≡ false
  new_fee-not_negative p none old h r = ap o.is_negative (sym (ok_injective r)) ∙ old
  new_fee-not_negative p (some s) old h r = not_negative_of_is_fee s (eq_true_of_not h) r

  pub apply_update-IsSound :
      (now : o.Time) (input : UpdateInput) (p : Property o) {q : Property o}
      → IsValidUpdate o input
      → IsSound o p
      → apply_update o now input p ≡ ok q
      → IsSound o q × Evolves o p q
  unfolding apply_update
  apply_update-IsSound now input p v old h =
      let (rent, rr, h) = and_then-eq_ok _ _ h in
      let (fee, rf, h) = and_then-eq_ok _ _ h in
      subst (λ q. IsSound o q × Evolves o p q) (ok_injective h)
        (
          record {
            city = old.city;
            street_address = old.street_address;
            layout = given_or_old layout_valid input.layout _ v.layout old.layout;
            area_ping = old.area_ping;
            monthly_rent =
                new_rent-not_negative p input.monthly_rent old.monthly_rent v.monthly_rent rr;
            management_fee =
                new_fee-not_negative p input.management_fee old.management_fee v.management_fee rf;
            deposit_months =
                given_or_old is_deposit input.deposit_months _ v.deposit_months old.deposit_months;
            rental_mode = old.rental_mode;
            status = old.status;
          },
          assign_update-Evolves o now input p rent fee,
        )

status-IsSound :
    {o : Outside} (p : Property o) (now : o.Time) (target : Status)
    → IsSound o p
    → status_valid target ≡ true
    → IsSound o (record p { status = target; updated_at = now })
status-IsSound p now target old v = assumption

pub apply_status-IsSound :
    (o : Outside) (now : o.Time) (target : Status) (p : Property o) {q : Property o}
    → IsSound o p
    → apply_status o now target p ≡ ok q
    → IsSound o q × Evolves o p q × Edge p.status q.status
unfolding apply_status
apply_status-IsSound o now target p old h = elim (Bool-cases (can_transition p.status target)) [
  | inl allowed ↦
      let e = (can_transition_iff p.status target).0 allowed in
      subst (λ q. IsSound o q × Evolves o p q × Edge p.status q.status)
        (ok_injective (rw allowed at h))
        (status-IsSound p now target old (Edge-valid e).1, status-Evolves o now target p e, e)
  | inr refused ↦ cc (rw refused at h)
]
