-- ===== src/Property/Service/Lost.antt =====
-- What happens to `Update` and `ChangeStatus` of internal/property/update.go when another request
-- writes between their `GetByID` and their `Update`: nothing checks that the property is still as it
-- was read.
use chuchu.Prelude.{◌≡◌, refl, ap, ◌∙◌, sym, ◌≢◌, ◌⊎◌, inl, inr, Option, some}
use mathlib.Core.Path.{subst}
use chuchu.Effect.{Result, ok, err, continue, ◌>>◌, pure, and_then-eq_ok, ok_injective}
use chuchu.Outside.{Outside}
use chuchu.Property.{Status, Property}
use chuchu.Property.StateMachine.{Edge}
use chuchu.Property.Input.{UpdateInput}
use chuchu.Property.Service.{Repository, new_rent, new_fee, apply_update, finish_update}
use chuchu.Property.Service.Contract.{stored, IsRepository}
use chuchu.Property.Service.Keeps.{Evolves}

pub apply_update-status :
    (o : Outside) (now : o.Time) (input : UpdateInput) (p : Property o) {q : Property o}
    → apply_update o now input p ≡ ok q
    → (q.status ≡ p.status) × (q.id ≡ p.id)
unfolding apply_update
apply_update-status o now input p h =
    let (rent, _, h') = and_then-eq_ok (new_rent o p input.monthly_rent) _ h in
    let (fee, _, h'') = and_then-eq_ok (new_fee o p input.management_fee) _ h' in
    subst (λ (q : Property o). (q.status ≡ p.status) × (q.id ≡ p.id)) (ok_injective h'')
      (refl, refl)

refute : (a : Status) {b : Status} → a ≢ b → ¬ Edge a b → ¬ ((b ≡ a) ⊎ Edge a b)
refute a moved no_edge (inl p) = moved (sym p)
refute a moved no_edge (inr e) = no_edge e

module _ (o : Outside) {S : Type 0} (rows : S → o.Uuid → Option (Property o))
    (repo : Repository o S) (law : IsRepository o rows repo) where
  module _ (u : S) where
    after_write :
        (p : Property o) {q : Property o} (r : Result (Unit {0}))
        → (repo.update p u).0 ≡ r
        → (continue r (λ _. pure p) (repo.update p u).1).0 ≡ ok q
        → (rows (continue r (λ _. pure p) (repo.update p u).1).1 q.id ≡ some (stored o q)) × (p ≡ q)
    after_write p (ok _) e h =
        let same = ok_injective h in
        (
          subst (λ (x : Property o). rows (repo.update p u).1 x.id ≡ some (stored o x)) same
              (law.update_ok p u e).written,
          same,
        )
    after_write p (err g) e h = cc

    pub after_change :
        {q : Property o} (r : Result (Property o))
        → let t = continue r (λ p. repo.update p >> pure p) u in
          t.0 ≡ ok q → (rows t.1 q.id ≡ some (stored o q)) × (r ≡ ok q)
    after_change (ok p) h =
        let (held, same) = after_write p (repo.update p u).0 refl h in (held, ap ok same)
    after_change (err e) h = cc

  -- When a `PATCH` that read the property `p` finishes without an error, on a repository that keeps its
  -- promises, the row holds what its columns keep of the property that is returned, with the status that
  -- was read, whatever property `r` stood there before the write. If `r` has another status, from which the
  -- state machine does not lead to the one that was read, the row has made a move that is no edge.
  pub lost_transition :
      (now : o.Time) (input : UpdateInput) (p r : Property o) (u : S) {q : Property o}
      → rows u p.id ≡ some r
      → (finish_update o repo now input p u).0 ≡ ok q
      → (rows (finish_update o repo now input p u).1 p.id ≡ some (stored o q))
        × ((stored o q).status ≡ p.status)
        × ¬ ((r.status ≢ p.status) × (¬ Edge r.status p.status) × Evolves o r (stored o q))
  lost_transition now input p r u held h =
      let (stored, changed) = after_change u (apply_update o now input p) h in
      let (same, same_id) = apply_update-status o now input p changed in
      (
        ap (rows (finish_update o repo now input p u).1) (sym same_id) ∙ stored,
        same,
        λ (moved, no_edge, ev).
            refute r.status moved no_edge
              (subst (λ x. (x ≡ r.status) ⊎ Edge r.status x) same ev.status),
      )
