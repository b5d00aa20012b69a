-- ===== src/Tests/Iterator.antt =====
-- lib/src/dbs/iterator.rs on records that are numbers: 0 is ignored, and a record is an array of
-- the numbers below it where SPLIT is asked for.
use surreal_dbservice.Base.{ℕ, zero, suc, ◌+◌, ◌≡◌, refl, false, none, some, List, [], ◌∷◌, leb}
use surreal_dbservice.Err.{Result, ok, err, ignore}
use surreal_dbservice.Dbs.Iterator.{World, Clauses, output}

abbrev answer : ℕ → Result ℕ
answer zero = err ignore
answer (suc n) = ok n

abbrev below : ℕ → List ℕ
below zero = []
below (suc n) = n ∷ below n

abbrev numbers : World
numbers = record {
  State = ℕ;
  V = ℕ;
  Doc = ℕ;
  Idiom = Unit;
  compute = λ d s. (answer d, s + 1);
  done = λ s. leb 100 s;
  pick = λ v p. v;
  items = λ v. some (below v);
  set = λ obj p v s. (ok v, s);
  group_all = λ vs s. (ok vs, s);
  order_all = λ vs. vs;
  fetch_all = λ vs s. (ok vs, s);
}

abbrev second : Clauses (Unit {0})
second = record {
  split = none;
  group = false;
  order = false;
  start = some 1;
  limit = some 1;
  fetch = false;
}

abbrev records : List ℕ
records = 5 ∷ 0 ∷ 6 ∷ 7 ∷ 8 ∷ []

-- the exit leaves the last two records unread: the clock stands at 3
second_run : output numbers second records 0 ≡ (ok (5 ∷ []), 3)
unfolding output
second_run = refl

-- Under SPLIT the exit counts records and not rows: the first record has no row, the second has one.
split_run :
    output numbers (record second { split = some (tt ∷ []); start = none }) (1 ∷ 2 ∷ []) 0
    ≡ (ok [], 1)
unfolding output
split_run = refl
