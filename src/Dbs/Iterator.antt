-- ===== src/Dbs/Iterator.antt =====
-- lib/src/dbs/iterator.rs: the records of a statement, their results, and the clauses over them. The
-- sequential `iterate` is modelled, over the records that the entries yield; that a scan behind an
-- entry fails is left out.
pub mod Early
use surreal_dbservice.Base.{
  ℕ, ◌+◌, Bool, true, false, not, ◌&&◌, ◌||◌, Option, none, some, List, [], ◌∷◌, ◌++◌, ◌==◌,
  is_some, if◌then◌else◌,
}
use surreal_dbservice.Base.Lists.{length, take, drop}
use surreal_dbservice.Err.{Error, Result, ok, err, ignore}

-- What the iterator calls: documents (lib/src/doc), which work on the transaction and take time, and
-- the clauses that evaluate expressions. `State` is what they work on, the flags and the clock
-- included, and `done` is what the context says besides the flag of this iterator.
pub record World : Type 1 where
  pub State : Type 0
  pub V : Type 0
  pub Doc : Type 0
  pub Idiom : Type 0
  pub compute : Doc → State → Result V × State
  pub done : State → Bool
  pub pick : V → Idiom → V
  -- the items, if the value is an array
  pub items : V → Option (List V)
  pub set : V → Idiom → V → State → Result V × State
  pub group_all : List V → State → Result (List V) × State
  pub order_all : List V → List V
  pub fetch_all : List V → State → Result (List V) × State

-- The clauses of lib/src/dbs/statement.rs, each present or not.
pub record Clauses (Idiom : Type 0) : Type 0 where
  pub split : Option (List Idiom)
  pub group : Bool
  pub order : Bool
  pub start : Option ℕ
  pub limit : Option ℕ
  pub fetch : Bool

module _ (W : World) where
  -- `run` is the flag behind the canceller
  pub record Iterator : Type 0 where
    pub run : Bool
    pub error : Option Error
    pub results : List W.V

  abbrev pub cancel : Iterator → Iterator
  cancel it = record it { run = true }

  -- the number of results at which the iterator can stop
  abbrev pub enough : Option ℕ → Option ℕ → Option ℕ
  enough none _ = none
  enough (some l) (some s) = some (l + s)
  enough (some l) none = some l

  abbrev pub exit_at : Option ℕ → Iterator → Iterator
  exit_at none it = it
  exit_at (some n) it = if length it.results == n then cancel it else it

  unfoldable pub result : Clauses W.Idiom → Result W.V → Iterator → Iterator
  result c (err ignore) it = it
  result c (err e) it = record it { run = true; error = some e }
  result c (ok v) it =
      let it' : Iterator = record it { results = it.results ++ v ∷ [] } in
      if not c.group && not c.order then exit_at (enough c.limit c.start) it' else it'

  abbrev pub accept : Clauses W.Idiom → Iterator → Result W.V × W.State → Iterator × W.State
  accept c it (res, s) = (result c res it, s)

  unfoldable pub process : Clauses W.Idiom → W.Doc → Iterator × W.State → Iterator × W.State
  unfolding result
  process c doc (it, s) = if W.done s || it.run then (it, s) else accept c it (W.compute doc s)

  unfoldable pub iterate : Clauses W.Idiom → List W.Doc → Iterator × W.State → Iterator × W.State
  unfolding process
  iterate c [] x = x
  iterate c (doc ∷ docs) x = iterate c docs (process c doc x)

  -- the `?` in a loop that pushes
  abbrev pub pushed :
      (List W.V → W.State → Result (List W.V) × W.State)
      → List W.V
      → Result W.V × W.State
      → Result (List W.V) × W.State
  pushed rest out (err e, s) = (err e, s)
  pushed rest out (ok v, s) = rest (out ++ v ∷ []) s

  -- the copies of a record for the items of its array
  abbrev pub split_items :
      W.Idiom → W.V → List W.V → List W.V → W.State → Result (List W.V) × W.State
  split_items p obj [] out s = (ok out, s)
  split_items p obj (v ∷ vs) out s = pushed (split_items p obj vs) out (W.set obj p v s)

  abbrev pub values_of : W.V → Option (List W.V) → List W.V
  values_of val none = val ∷ []
  values_of val (some vs) = vs

  abbrev pub then_split :
      (List W.V → W.State → Result (List W.V) × W.State)
      → Result (List W.V) × W.State
      → Result (List W.V) × W.State
  then_split rest (err e, s) = (err e, s)
  then_split rest (ok out, s) = rest out s

  -- one clause of SPLIT over the records
  unfoldable pub split_one : W.Idiom → List W.V → List W.V → W.State → Result (List W.V) × W.State
  split_one p [] out s = (ok out, s)
  split_one p (obj ∷ res) out s =
      then_split (split_one p res)
        (split_items p obj (values_of (W.pick obj p) (W.items (W.pick obj p))) out s)

  unfoldable pub split_all : List W.Idiom → List W.V → W.State → Result (List W.V) × W.State
  unfolding split_one
  split_all [] res s = (ok res, s)
  split_all (p ∷ ps) res s = then_split (split_all ps) (split_one p res [] s)

  abbrev pub output_split : Option (List W.Idiom) → List W.V → W.State → Result (List W.V) × W.State
  output_split none res s = (ok res, s)
  output_split (some ps) res s = split_all ps res s

  abbrev pub output_start : Option ℕ → List W.V → List W.V
  output_start none res = res
  output_start (some n) res = drop n res

  abbrev pub output_limit : Option ℕ → List W.V → List W.V
  output_limit none res = res
  output_limit (some n) res = take n res

  -- START, then LIMIT
  unfoldable pub window : Clauses W.Idiom → List W.V → List W.V
  window c res = output_limit c.limit (output_start c.start res)

  abbrev pub when :
      Bool
      → (List W.V → W.State → Result (List W.V) × W.State)
      → List W.V
      → W.State
      → Result (List W.V) × W.State
  when true f res s = f res s
  when false f res s = (ok res, s)

  abbrev pub fresh : Iterator
  fresh = record { run = false; error = none; results = [] }

  -- the clauses of `output`, in their order
  unfoldable pub finish : Clauses W.Idiom → Iterator × W.State → Result (List W.V) × W.State
  unfolding split_all window
  finish c (it, s) = elim it.error [
    | some e ↦ (err e, s)
    | none ↦
        then_split
          (λ res s.
            then_split
              (λ res s.
                when c.fetch W.fetch_all (window c (if c.order then W.order_all res else res)) s)
              (when c.group W.group_all res s))
          (output_split c.split it.results s)
  ]

  unfoldable pub output : Clauses W.Idiom → List W.Doc → W.State → Result (List W.V) × W.State
  unfolding iterate finish
  output c docs s = finish c (iterate c docs (fresh, s))
