-- ===== src/Tests/World.antt =====
-- A small world: identifiers and instants are numbers, decimals are integers with a few spellings,
-- and the table `properties` is a list of rows.
use chuchu.Prelude.{
  Bool-cases, some_injective, ℕ, ◌/◌, ◌*◌, ℤ, pos, negsuc, ltb_ℤ, ◌≡◌, refl, ap, sym, Option-cases,
  ◌≢◌, ◌⊎◌, inl, inr, eqb, String, List, [], ◌∷◌, Option, none, some, if◌then◌else◌, Bool, ◌==◌,
  ◌&&◌, lookup, is_blank, arith,
}
use native.Mathlib.Decide.{ℕ_discrete}
use mathlib.Core.Path.{subst}
use chuchu.Property.Pgrepo.Statuses.{IsForeign}
use chuchu.Apperr.{GoError, as_error, foreign, no_rows, pg_error}
use chuchu.Effect.{Result, ok, err, ok_injective, Exec}
use chuchu.Outside.{Outside, DecimalLaws}
use chuchu.Property.Pgrepo.{PropertyModel, Db}
use chuchu.Property.Pgrepo.Refines.{fit, IsDb, SameRows, WroteRow}

abbrev spellings : List (String × ℤ)
spellings = ("25000", pos 25000) ∷ ("28.5", pos 28) ∷ ("0", pos 0) ∷ ("-1", negsuc 0) ∷ []

abbrev of_spelling : Option ℤ → Result ℤ
of_spelling none = err (foreign "can't convert to decimal")
of_spelling (some z) = ok z

abbrev pub world : Outside
world = record {
  Uuid = ℕ;
  uuid_eq = ℕ_discrete;
  Time = ℕ;
  Decimal = ℤ;
  new_from_string = λ s.
      if is_blank s
      then err (foreign "can't convert to decimal")
      else of_spelling (lookup s spellings);
  zero = pos 0;
  is_positive = λ d. ltb_ℤ (pos 0) d;
  is_negative = λ d. ltb_ℤ d (pos 0);
  round_amount = λ d. d;
  -- a clock of half the resolution
  round_time = λ t. t / 2 * 2;
  string_fixed = λ d n. if ltb_ℤ d (pos 1) then "0.00" else "1.00";
}

pub world-DecimalLaws : DecimalLaws world
world-DecimalLaws = record {
  zero_sign = refl;
  positive_sign = λ d h. ground arith;
  round_sign = λ d h. h;
  round_fixed = λ d. refl;
  blank_rejected = λ s h. (foreign "can't convert to decimal", rw h);
}

abbrev pub Table : Type 0
Table = List (PropertyModel world)

abbrev pub find : Table → ℕ → Option (PropertyModel world)
find [] j = none
find (m ∷ ms) j = if eqb m.id j then some (fit world m) else find ms j

abbrev pub same_address : PropertyModel world → PropertyModel world → Bool
same_address x m =
    (x.city == m.city)
    && (x.district == m.district)
    && (x.street_address == m.street_address)
    && (x.floor == m.floor)
    && (x.room_no == m.room_no)

abbrev pub find_address : Table → PropertyModel world → Option (PropertyModel world)
find_address [] m = none
find_address (x ∷ xs) m = if same_address x m then some x else find_address xs m

abbrev or_else :
    Option (PropertyModel world) → Option (PropertyModel world) → Option (PropertyModel world)
or_else none q = q
or_else (some x) q = some x

-- The row that keeps a new one out of the table
abbrev pub clash : Table → PropertyModel world → Option (PropertyModel world)
clash s m = or_else (find s m.id) (find_address s m)

abbrev replace : PropertyModel world → Table → Table
replace m [] = []
replace m (x ∷ xs) = if eqb x.id m.id then m ∷ xs else x ∷ replace m xs

abbrev pub insert_row : Option (PropertyModel world) → PropertyModel world → Exec Table (Unit {0})
insert_row none m s = (ok tt, m ∷ s)
insert_row (some x) m s = (err (pg_error (λ k. "23505")), s)

abbrev found_row : Option (PropertyModel world) → Result (PropertyModel world)
found_row none = err no_rows
found_row (some m) = ok m

abbrev affected : Option (PropertyModel world) → ℤ
affected none = pos 0
affected (some m) = pos 1

abbrev pub memory : Db world Table
memory = record {
  insert = λ m s. insert_row (clash s m) m s;
  select_by_id = λ j s. (found_row (find s j), s);
  update_by_pk = λ m s. (ok (ok (affected (find s m.id))), replace m s);
  select_page = λ q s. (ok (s, pos 0), s);
}

halved : (n : ℕ) → n / 2 * 2 / 2 * 2 ≡ n / 2 * 2
halved n = omega arith

-- What the columns have kept they keep.
pub fit_again : (m : PropertyModel world) → fit world (fit world m) ≡ fit world m
fit_again m = rw (halved m.created_at, halved m.updated_at) refl

find-fitted : (s : Table) (j : ℕ) (m : PropertyModel world) → find s j ≡ some m → fit world m ≡ m
find-fitted [] j m h = cc
find-fitted (x ∷ xs) j m h = elim (Bool-cases (eqb x.id j)) [
  | inl here ↦ subst (λ y. fit world y ≡ y) (some_injective (rw here at h)) (fit_again x)
  | inr other ↦ find-fitted xs j m (rw other at h)
]

find-keyed : (s : Table) (j : ℕ) (m : PropertyModel world) → find s j ≡ some m → m.id ≡ j
find-keyed [] j m h = cc
find-keyed (x ∷ xs) j m h = ground (arith, find-keyed xs j m)

find-replace_self :
    (m : PropertyModel world) (s : Table) (x : PropertyModel world)
    → find s m.id ≡ some x
    → find (replace m s) m.id ≡ some (fit world m)
find-replace_self m [] x h = cc
find-replace_self m (y ∷ ys) x h = ground (arith, find-replace_self m ys x)

find-replace_ne :
    (m : PropertyModel world) (s : Table) (j : ℕ) → j ≢ m.id → find (replace m s) j ≡ find s j
find-replace_ne m [] j ne = refl
find-replace_ne m (x ∷ xs) j ne = ground (arith, find-replace_ne m xs j)

replace-none : (m : PropertyModel world) (s : Table) → find s m.id ≡ none → replace m s ≡ s
replace-none m [] h = refl
replace-none m (x ∷ xs) h = ground (arith, replace-none m xs)

find-cons_self : (m : PropertyModel world) (s : Table) → find (m ∷ s) m.id ≡ some (fit world m)
find-cons_self m s = ground arith

or_else-none : (p q : Option (PropertyModel world)) → or_else p q ≡ none → p ≡ none
or_else-none none q h = refl
or_else-none (some x) q h = cc

inserted :
    (m : PropertyModel world) (s : Table)
    → (found : Option (PropertyModel world)) → clash s m ≡ found
    → SameRows world find s (insert_row found m s).1
      ⊎ ((find s m.id ≡ none) × WroteRow world find (fit world m) s (insert_row found m s).1)
inserted m s none h =
    inr (or_else-none _ _ h, record { written = find-cons_self m s; others = λ j ne. ground arith })
inserted m s (some x) h = inl (λ j. refl)

inserted_ok :
    (m : PropertyModel world) (s : Table)
    → (found : Option (PropertyModel world)) → (insert_row found m s).0 ≡ ok tt
    → WroteRow world find (fit world m) s (insert_row found m s).1
inserted_ok m s none h = record { written = find-cons_self m s; others = λ j ne. ground arith }
inserted_ok m s (some x) h = cc

replaced :
    (m : PropertyModel world) (s : Table)
    → SameRows world find s (replace m s) ⊎ WroteRow world find (fit world m) s (replace m s)
replaced m s = elim (Option-cases (find s m.id)) [
  | inl missing ↦ inl (λ j. rw (replace-none m s missing))
  | inr (x, e) ↦ inr (record { written = find-replace_self m s x e; others = find-replace_ne m s })
]

replaced_ok :
    (m : PropertyModel world) (s : Table) (n : ℤ)
    → ok (ok (affected (find s m.id))) ≡ ok (ok n)
    → n ≢ pos 0
    → WroteRow world find (fit world m) s (replace m s)
replaced_ok m s n h ne = elim (Option-cases (find s m.id)) [
  | inl missing ↦ absurd (ne (sym (ok_injective (ok_injective (rw missing at h)))))
  | inr (x, e) ↦ record { written = find-replace_self m s x e; others = find-replace_ne m s }
]

selected :
    (s : Table) (j : ℕ) (m : PropertyModel world) → found_row (find s j) ≡ ok m → find s j ≡ some m
selected s j m h = elim (Option-cases (find s j)) [
  | inl missing ↦ cc (rw missing at h)
  | inr (x, e) ↦ cc (rw e at h)
]

pub memory-IsDb : IsDb world find memory
memory-IsDb = record {
  keyed = find-keyed;
  fitted = find-fitted;
  insert_writes = λ m s. inserted m s (clash s m) refl;
  insert_ok = λ m s. inserted_ok m s (clash s m);
  select_same = λ j s i. refl;
  select_reads = λ j s m. selected s j m;
  page_same = λ q s j. refl;
  update_writes = replaced;
  update_affects = replaced_ok;
}

insert_row-foreign :
    (found : Option (PropertyModel world)) (m : PropertyModel world) (s : Table) (e : GoError)
    → (insert_row found m s).0 ≡ err e
    → as_error e ≡ none
unfolding as_error
insert_row-foreign none m s e h = cc
insert_row-foreign (some x) m s e h =
    let same : pg_error (λ k. "23505") ≡ e = cc in ap as_error (sym same)

found_row-foreign :
    (found : Option (PropertyModel world)) (e : GoError)
    → found_row found ≡ err e
    → as_error e ≡ none
unfolding as_error
found_row-foreign none e h = let same : no_rows ≡ e = cc in ap as_error (sym same)
found_row-foreign (some x) e h = cc

pub memory-IsForeign : IsForeign world memory
memory-IsForeign = record {
  insert_foreign = λ m s. insert_row-foreign (clash s m) m s;
  select_foreign = λ j s. found_row-foreign (find s j);
  page_foreign = λ q s e h. cc;
  update_foreign = λ m s e h. cc;
  affected_foreign = λ m s e h. cc;
}
