-- ===== src/Property/Service/History.antt =====
-- The history of the stored properties over any sequence of operations of the property service.
use chuchu.Prelude.{
  ◌≡◌, refl, sym, some_injective, ◌∙◌, ◌⊎◌, inl, inr, List, [], ◌∷◌, Option, none, some,
  Option-cases,
}
use mathlib.Core.Path.{subst}
use chuchu.Outside.{Outside, DecimalLaws}
use chuchu.Property.{Status, Property, vacant}
use chuchu.Property.StateMachine.{Edge}
use chuchu.Property.Service.{Repository}
use chuchu.Property.Service.Contract.{IsRepository}
use chuchu.Property.Service.Keeps.{identity}
use chuchu.Property.Service.Runs.{Op, run_op, run_ops, AllSound, run_op-Good}

-- A path of the state machine.
pub data Walk (a : Status) : Status → Type 0 where
  stay : Walk a a
  move : {b c : Status} → Walk a b → Edge b c → Walk a c

Walk-trans : {a b c : Status} → Walk a b → Walk b c → Walk a c
Walk-trans w stay = w
Walk-trans w (move v e) = move (Walk-trans w v) e

Walk-of_step : {a b : Status} → (b ≡ a) ⊎ Edge a b → Walk a b
Walk-of_step {a} (inl same) = subst (Walk a) (sym same) stay
Walk-of_step (inr e) = move stay e

module _ (o : Outside) {S : Type 0} (rows : S → o.Uuid → Option (Property o)) where
  -- Every property of `s` is in `t` with its identity and a status that the state machine leads to,
  -- and so is every other property of `t`, from `vacant`.
  pub record Follows (s t : S) : Type 0 where
    pub kept :
        (j : o.Uuid) (p : Property o)
        → rows s j ≡ some p
        → (q : Property o) × (rows t j ≡ some q)
          × (identity o q ≡ identity o p)
          × Walk p.status q.status
    pub added :
        (j : o.Uuid) (q : Property o) → rows s j ≡ none → rows t j ≡ some q → Walk vacant q.status

  module _ (d : DecimalLaws o) (repo : Repository o S) (law : IsRepository o rows repo) where
    -- Whatever operations run on sound properties, with whatever inputs and results, all properties
    -- are sound after them; none is lost or changes its identity, and every status, from the old one
    -- or from `vacant` for a new property, was reached along the edges of the state machine.
    pub run_ops-Follows :
        (ops : List (Op o)) (s : S)
        → AllSound o rows s
        → AllSound o rows (run_ops o repo ops s) × Follows s (run_ops o repo ops s)
    unfolding run_ops
    run_ops-Follows [] s h =
        (h, record { kept = λ j p e. (p, e, refl, stay); added = λ j q e f. cc (sym e ∙ f) })
    run_ops-Follows (op ∷ ops) s h =
        let (h', first) = run_op-Good o rows d repo law s h op in
        let (h'', rest) = run_ops-Follows ops (run_op o repo op s) h' in
        (
          h'',
          record {
            kept = λ j p e.
                let (p', e', ev) = first.kept j p e in
                let (q, e'', same, w) = rest.kept j p' e' in
                (q, e'', same ∙ ev.identity_kept, Walk-trans (Walk-of_step ev.status) w);
            added = λ j q e f. elim (Option-cases (rows (run_op o repo op s) j)) [
              | inl still ↦ rest.added j q still f
              | inr (p, e') ↦
                  let (q', f', _, w) = rest.kept j p e' in
                  let is_vacant = first.added j p e e' in
                  subst (λ x. Walk x q.status) is_vacant
                    (subst (λ (x : Property o). Walk p.status x.status)
                      (some_injective (sym f' ∙ f)) w)
            ];
          },
        )
