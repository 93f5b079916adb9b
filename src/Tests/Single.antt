-- ===== src/Tests/Single.antt =====
-- A table `properties` with room for one row, in the small world of Tests/World.
use chuchu.Prelude.{
  ℕ, ℤ, zero, suc, pos, pos_part, ◌≡◌, ◌≢◌, refl, sym, ap, ◌∙◌, ◌⊎◌, inl, inr, eqb, Bool-cases,
  true, Option, none, some, some_injective, List, [], ◌∷◌, length, filter, take, drop, IsIn,
  get_elem?, if◌then◌else◌, arith,
}
use mathlib.Core.Path.{subst}
use chuchu.Apperr.{GoError, pg_error, no_rows}
use chuchu.Effect.{Result, ok, err, Exec, ok_injective}
use chuchu.Property.Pgrepo.{
  PropertyModel, PageQuery, Db, repository, as_pg_error, is_unique_violation,
}
use chuchu.Property.Pgrepo.Refines.{fit, IsDb, SameRows, WroteRow, rows}
use chuchu.Property.Pgrepo.Indexes.{columns}
use chuchu.Property.Pgrepo.Promises.{where_matches, IsServing, terms, repository-Refines}
use chuchu.Property.Service.Contract.{IsRepository}
use chuchu.Property.Service.Promises.{KeepsPromises}
use chuchu.Tests.World.{world, fit_again}

abbrev Row : Type 0
Row = PropertyModel world

abbrev Single : Type 0
Single = Option Row

abbrev at : Single → ℕ → Option Row
at none j = none
at (some x) j = if eqb x.id j then some (fit world x) else none

abbrev all_rows : Single → List Row
all_rows none = []
all_rows (some x) = fit world x ∷ []

abbrev put : Row → Exec Single (Unit {0})
put m none = (ok tt, some m)
put m (some x) = (err (pg_error (λ k. "23505")), some x)

abbrev answer : Option Row → Result Row
answer none = err no_rows
answer (some m) = ok m

abbrev change : Row → Exec Single (Result ℤ)
change m none = (ok (ok (pos 0)), none)
change m (some x) = if eqb x.id m.id then (ok (ok (pos 1)), some m) else (ok (ok (pos 0)), some x)

abbrev page : PageQuery → Single → List Row × ℤ
page q s =
    let matching = filter (where_matches q) (all_rows s) in
    (take (pos_part q.limit) (drop (pos_part q.offset) matching), pos (length matching))

abbrev single : Db world Single
single = record {
  insert = put;
  select_by_id = λ j s. (answer (at s j), s);
  update_by_pk = change;
  select_page = λ q s. (ok (page q s), s);
}

at-fitted : (s : Single) (j : ℕ) (m : Row) → at s j ≡ some m → fit world m ≡ m
at-fitted none j m h = cc
at-fitted (some x) j m h = elim (Bool-cases (eqb x.id j)) [
  | inl here ↦ subst (λ y. fit world y ≡ y) (some_injective (rw here at h)) (fit_again x)
  | inr other ↦ cc (rw other at h)
]

at-keyed : (s : Single) (j : ℕ) (m : Row) → at s j ≡ some m → m.id ≡ j
at-keyed none j m h = cc
at-keyed (some x) j m h = ground arith

put-written :
    (m : Row) (s : Single)
    → SameRows world at s (put m s).1
      ⊎ ((at s m.id ≡ none) × WroteRow world at (fit world m) s (put m s).1)
put-written m none = inr (refl, record { written = ground arith; others = λ j ne. ground arith })
put-written m (some x) = inl (λ j. refl)

put_ok :
    (m : Row) (s : Single) → (put m s).0 ≡ ok tt → WroteRow world at (fit world m) s (put m s).1
put_ok m none h = record { written = ground arith; others = λ j ne. ground arith }
put_ok m (some x) h = cc

answer_ok : (r : Option Row) (m : Row) → answer r ≡ ok m → r ≡ some m
answer_ok none m h = cc
answer_ok (some x) m h = ap some (ok_injective h)

change-written :
    (m : Row) (s : Single)
    → SameRows world at s (change m s).1 ⊎ WroteRow world at (fit world m) s (change m s).1
change-written m none = inl (λ j. refl)
change-written m (some x) = elim (Bool-cases (eqb x.id m.id)) [
  | inl here ↦ rw here (inr (record { written = ground arith; others = λ j ne. ground arith }))
  | inr other ↦ rw other (inl (λ j. refl))
]

changed :
    (m : Row) (s : Single) (n : ℤ)
    → (change m s).0 ≡ ok (ok n)
    → n ≢ pos 0
    → WroteRow world at (fit world m) s (change m s).1
changed m none n h ne = absurd (ne (sym (ok_injective (ok_injective h))))
changed m (some x) n h ne = elim (Bool-cases (eqb x.id m.id)) [
  | inl here ↦ rw here (record { written = ground arith; others = λ j ne. ground arith })
  | inr other ↦ absurd (ne (sym (ok_injective (ok_injective (rw other at h)))))
]

single-IsDb : IsDb world at single
single-IsDb = record {
  keyed = at-keyed;
  fitted = at-fitted;
  insert_writes = put-written;
  insert_ok = put_ok;
  select_same = λ j s i. refl;
  select_reads = λ j s m. answer_ok (at s j) m;
  page_same = λ q s j. refl;
  update_writes = change-written;
  update_affects = changed;
}

-- There is room for the row if there is none yet, or if its address is taken.
abbrev HasRoom : Row → Single → Type 0
HasRoom m none = Unit
HasRoom m (some x) = columns x ≡ columns m

at_self : (x : Row) → at (some x) x.id ≡ some (fit world x)
at_self x = ground arith

all_rows-at : (m : Row) (s : Single) → IsIn m (all_rows s) → at s m.id ≡ some m
all_rows-at m none (i, h) = cc h
all_rows-at m (some x) (zero, h) =
    ap (λ (y : Row). at (some x) y.id) (sym (some_injective h)) ∙ at_self x ∙ h
all_rows-at m (some x) (suc k, h) = cc h

at-all_rows : (m : Row) (s : Single) → at s m.id ≡ some m → IsIn m (all_rows s)
at-all_rows m none h = cc h
at-all_rows m (some x) h = (0, ground arith)

all_rows-once :
    (i j : ℕ) (m n : Row) (s : Single)
    → get_elem? (all_rows s) i ≡ some m
    → get_elem? (all_rows s) j ≡ some n
    → i ≡ j
all_rows-once i j m n none h k = cc h
all_rows-once zero zero m n (some x) h k = refl
all_rows-once (suc i) j m n (some x) h k = cc h
all_rows-once zero (suc j) m n (some x) h k = cc k

put-adds :
    (m : Row) (s : Single)
    → HasRoom m s
    → ((j : ℕ) (n : Row) → at s j ≡ some n → columns n ≢ columns m)
    → (put m s).0 ≡ ok tt
put-adds m none room new = refl
put-adds m (some x) room new = absurd (new x.id (fit world x) (at_self x) room)

put-violates :
    (m n : Row) (j : ℕ) (s : Single)
    → at s j ≡ some n
    → (e : GoError) × ((put m s).0 ≡ err e) × (is_unique_violation (as_pg_error e) ≡ true)
unfolding as_pg_error
put-violates m n j none h = cc h
put-violates m n j (some x) h = (pg_error (λ k. "23505"), refl, refl)

change-one : (m old : Row) (s : Single) → at s m.id ≡ some old → (change m s).0 ≡ ok (ok (pos 1))
change-one m old none h = cc h
change-one m old (some x) h = ground arith

change-none : (m : Row) (s : Single) → at s m.id ≡ none → (change m s).0 ≡ ok (ok (pos 0))
change-none m none h = refl
change-none m (some x) h = ground arith

single-IsServing : IsServing world at single
single-IsServing = record {
  takes = HasRoom;
  answers = λ s. Unit;
  sorted = all_rows;
  sorted_rows = λ m s. (all_rows-at m s, at-all_rows m s);
  sorted_once = λ m n i j s h k same. all_rows-once i j m n s h k;
  insert_adds = λ m s room fresh new. put-adds m s room new;
  insert_violates = λ m n j s room held same. put-violates m n j s held;
  select_finds = λ j m s up held. rw held refl;
  select_misses = λ j s up missing. rw missing refl;
  update_changes = λ m old s room held new. change-one m old s held;
  update_misses = λ m s room missing. change-none m s missing;
  page_shows = λ q n k s up limit offset. rw (limit, offset) refl;
}

repository-Refines_example :
    IsRepository world (rows world at) (repository world single)
    × KeepsPromises world
        (rows world at)
        (terms world at single single-IsServing)
        (repository world single)
repository-Refines_example = repository-Refines world at single single-IsDb single-IsServing
