-- ===== src/Health/Arrivals.antt =====
-- The report of internal/health under different orders in which the results arrive.
use chuchu.Prelude.{
  ℕ, all, ◌≡◌, refl, ap, ◌∙◌, sym, ◌≢◌, Bool, true, Bool-cases, inl, inr, String, List, [], ◌∷◌,
  Option, none, some, ◌==◌, ◌&&◌, if◌then◌else◌, arith, eq_iff,
}
use chuchu.Health.{
  Report, GetHealthzResponseObject, get_healthz_200, get_healthz_503, CheckResult, set_check, mark,
  collect, check, get_healthz,
}

-- Two orders of arrival: exchanges of neighbours with different names.
pub data Rearranged : List CheckResult → List CheckResult → Type 0 where
  same : (rs : List CheckResult) → Rearranged rs rs
  keep :
      (r : CheckResult) {rs ts : List CheckResult} → Rearranged rs ts → Rearranged (r ∷ rs) (r ∷ ts)
  swap :
      (a b : CheckResult) (rs : List CheckResult)
      → a.name ≢ b.name
      → Rearranged (a ∷ b ∷ rs) (b ∷ a ∷ rs)
  trans : {rs ts us : List CheckResult} → Rearranged rs ts → Rearranged ts us → Rearranged rs us

abbrev Checks : Type 0
Checks = String → Option String

pub collect-ok :
    (rs : List CheckResult) (c : Checks) (b : Bool)
    → (collect rs c b).1 ≡ (b && all (λ r. r.is_ok) rs)
unfolding collect
collect-ok [] c b = ground arith
collect-ok (r ∷ rs) c b = collect-ok rs _ _ ∙ ground arith

-- The loop reads the report so far by its values alone.
collect-values :
    (rs : List CheckResult) (c d : Checks) (b e : Bool) (k : String)
    → ((j : String) → c j ≡ d j)
    → (collect rs c b).0 k ≡ (collect rs d e).0 k
unfolding collect
collect-values [] c d b e k h = h k
collect-values (r ∷ rs) c d b e k h =
    collect-values rs _ _ _ _ k λ j. ap (λ x. if j == r.name then some (mark r.is_ok) else x) (h j)

set_check-swap :
    (a b : CheckResult) (c : Checks) (j : String)
    → a.name ≢ b.name
    → set_check b.name (mark b.is_ok) (set_check a.name (mark a.is_ok) c) j
      ≡ set_check a.name (mark a.is_ok) (set_check b.name (mark b.is_ok) c) j
set_check-swap a b c j ne = ground (arith, eq_iff j a.name, eq_iff j b.name)

collect-Rearranged :
    {rs ts : List CheckResult} (c : Checks) (b : Bool) (k : String)
    → Rearranged rs ts
    → (collect rs c b).0 k ≡ (collect ts c b).0 k
unfolding collect
collect-Rearranged c b k (same rs) = refl
collect-Rearranged c b k (keep r h) = collect-Rearranged _ _ k h
collect-Rearranged c b k (swap x y rs ne) =
    collect-values rs _ _ _ _ k (λ j. set_check-swap x y c j ne)
collect-Rearranged c b k (trans h i) = collect-Rearranged c b k h ∙ collect-Rearranged c b k i

all-Rearranged :
    {rs ts : List CheckResult} → Rearranged rs ts → all (λ r. r.is_ok) rs ≡ all (λ r. r.is_ok) ts
all-Rearranged (same rs) = refl
all-Rearranged (keep r h) = ap (λ x. r.is_ok && x) (all-Rearranged h)
all-Rearranged (swap x y rs ne) = ground arith
all-Rearranged (trans h i) = all-Rearranged h ∙ all-Rearranged i

abbrev pub healthz_status : GetHealthzResponseObject → ℕ
healthz_status (get_healthz_200 r) = 200
healthz_status (get_healthz_503 r) = 503

abbrev pub healthz_report : GetHealthzResponseObject → Report
healthz_report (get_healthz_200 r) = r
healthz_report (get_healthz_503 r) = r

pub get_healthz_lem :
    (rs : List CheckResult)
    → (healthz_status (get_healthz rs) ≡ (if all (λ r. r.is_ok) rs then 200 else 503))
      × (healthz_report (get_healthz rs) ≡ check rs)
unfolding check get_healthz
get_healthz_lem rs = elim (Bool-cases (all (λ r. r.is_ok) rs)) [
  | inl fine ↦ rw (collect-ok rs (λ k. none) true, fine) (refl, refl)
  | inr bad ↦ rw (collect-ok rs (λ k. none) true, bad) (refl, refl)
]

-- The answer to a request for the health is 200 if every check has passed, and 503 otherwise; and
-- whatever the order in which the results arrive, the answer has the same status and reports the
-- same of every checker.
pub get_healthz-Rearranged :
    {rs ts : List CheckResult} (k : String)
    → Rearranged rs ts
    → (healthz_status (get_healthz rs) ≡ (if all (λ r. r.is_ok) rs then 200 else 503))
      × (healthz_status (get_healthz ts) ≡ healthz_status (get_healthz rs))
      × ((healthz_report (get_healthz ts)).checks k ≡ (healthz_report (get_healthz rs)).checks k)
unfolding check
get_healthz-Rearranged {rs} {ts} k h =
    let (status, report) = get_healthz_lem rs in
    let (status', report') = get_healthz_lem ts in
    (
      status,
      status' ∙ sym (ap (λ b. if b then 200 else 503) (all-Rearranged h)) ∙ sym status,
      ap (λ (r : Report). r.checks k) report'
          ∙ sym (collect-Rearranged (λ k. none) true k h)
          ∙ sym (ap (λ (r : Report). r.checks k) report),
    )
