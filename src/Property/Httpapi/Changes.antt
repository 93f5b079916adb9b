-- ===== src/Property/Httpapi/Changes.antt =====
-- What a successful answer to `POST /properties/{id}/status` of internal/property/httpapi means.
use chuchu.Prelude.{◌≡◌, refl, ap, ◌∙◌, sym, true, inl, inr, Bool-cases, Option, some}
use mathlib.Core.Path.{subst}
use chuchu.Effect.{Result, ok, continue-eq_ok, ok_injective, pure}
use chuchu.Outside.{Outside}
use chuchu.Property.{Status, Property, status_valid, can_transition}
use chuchu.Property.StateMachine.{Edge, can_transition_iff}
use chuchu.Property.Service.{Repository, apply_status, change_status, finish_status}
use chuchu.Property.Service.Contract.{stored, IsRepository}
use chuchu.Property.Service.Lost.{after_change}
use chuchu.Property.Httpapi.{ApiProperty, to_api_property, change_property_status}

-- The property with another status.
abbrev pub moved : (o : Outside) → o.Time → Status → Property o → Property o
moved o now target p = record p { status = target; updated_at = now }

apply_status-Edge :
    (o : Outside) (now : o.Time) (target : Status) (p : Property o) {q : Property o}
    → apply_status o now target p ≡ ok q
    → Edge p.status target × (moved o now target p ≡ q)
unfolding apply_status
apply_status-Edge o now target p h = elim (Bool-cases (can_transition p.status target)) [
  | inl holds ↦ ((can_transition_iff p.status target).0 holds, ok_injective (rw holds at h))
  | inr fails ↦ cc (rw fails at h)
]

module _ (o : Outside) {S : Type 0} (rows : S → o.Uuid → Option (Property o))
    (repo : Repository o S) (law : IsRepository o rows repo) (now : o.Time) (id : o.Uuid)
    (target : Status) (s : S) where
  -- The property was read and moved along an edge, and the row holds what its columns keep of it.
  pub record Moved (q : Property o) (t : S) : Type 0 where
    pub old : Property o
    pub read : rows s id ≡ some old
    pub edge : Edge old.status target
    pub new : moved o now target old ≡ q
    pub held : rows t id ≡ some (stored o q)

  finish_status-Moved :
      (p : Property o) (u : S) {q : Property o}
      → rows s id ≡ some p
      → (finish_status o repo now target p u).0 ≡ ok q
      → Moved q (finish_status o repo now target p u).1
  finish_status-Moved p u {q} read h =
      let (held, changed) = after_change o rows repo law u (apply_status o now target p) h in
      let (edge, new) = apply_status-Edge o now target p changed in
      let same_id : q.id ≡ id = sym (ap (λ (x : Property o). x.id) new) ∙ law.keyed s id p read in
      record {
        old = p;
        read = read;
        edge = edge;
        new = new;
        held =
            subst (λ j. rows (finish_status o repo now target p u).1 j ≡ some (stored o q)) same_id
              held;
      }

  change_status-Moved :
      {q : Property o}
      → (change_status o repo now id target s).0 ≡ ok q
      → Moved q (change_status o repo now id target s).1
  unfolding change_status
  change_status-Moved {q} h =
      let u = (repo.get_by_id id s).1 in
      let (p, found, e) =
        continue-eq_ok (repo.get_by_id id s).0 (finish_status o repo now target) u h in
      subst (λ (r : Result (Property o) × S). Moved q r.1) (sym e)
        (finish_status-Moved p u (law.get_reads id s p found) (sym (ap (λ r. r.0) e) ∙ h))

  -- When a status change is answered by a property, the request named a valid status, the state
  -- machine has the edge from the stored status to it, and the row holds what its columns keep of what is answered.
  pub change_property_status-Moved :
      (a : ApiProperty o)
      → (change_property_status o repo now id (some target) s).0 ≡ ok a
      → (status_valid target ≡ true)
        × ((q : Property o) × Moved q (change_property_status o repo now id (some target) s).1
            × (to_api_property o q ≡ a))
  unfolding change_property_status
  change_property_status-Moved a h = elim (Bool-cases (status_valid target)) [
    | inl valid ↦
        let h' = rw valid at h in
        let u = (change_status o repo now id target s).1 in
        let (q, done, e) =
          continue-eq_ok (change_status o repo now id target s).0 (λ p. pure (to_api_property o p))
            u h' in
        rw (valid, e)
          (refl, (q, change_status-Moved done, ok_injective (sym (ap (λ r. r.0) e) ∙ h')))
    | inr invalid ↦ cc (rw invalid at h)
  ]
