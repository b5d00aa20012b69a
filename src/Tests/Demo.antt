-- ===== src/Tests/Demo.antt =====
-- A store in memory for the tests: a sorted list of pairs, with what lib/src/kvs asks of a store.
use surreal_dbservice.Base.{
  ℕ, ◌≤◌, ◌≡◌, refl, subst, Bool, true, some, [], ◌∷◌, arith, Bool-cases, inl, inr, is_some,
  if◌then◌else◌,
}
use surreal_dbservice.Base.Lists.{length, take, length-take}
use surreal_dbservice.Kvs.Engine.{Engine, Reply, good, bad, key_already_exists, other, Key, Val}
use surreal_dbservice.Kvs.Cache.{Catalog, key_eq, key_eq_sound}
use surreal_dbservice.Kvs.Find.{key_eq_sym}
use surreal_dbservice.Kvs.Laws.{ScanLaws, ScanBound, EndLaws, PointLaws, find, without}
use surreal_dbservice.Kvs.Order.{
  Pairs, key_ltb, key_ltb_total, range, IsSorted, AllAbove, AllAbove-below,
}

pub record Table : Type 0 where
  pub pairs : Pairs
  pub sorted : IsSorted pairs

AllAbove-without : (j k : Key) (xs : Pairs) → AllAbove j xs → AllAbove j (without k xs)
unfolding without
AllAbove-without j k [] h = tt
AllAbove-without j k ((i, v) ∷ xs) h = ground (arith, AllAbove-without j k xs h.1)

pub without-IsSorted : (k : Key) (xs : Pairs) → IsSorted xs → IsSorted (without k xs)
unfolding without
without-IsSorted k [] h = tt
without-IsSorted k ((i, v) ∷ xs) h =
    ground (arith, without-IsSorted k xs h.1, AllAbove-without i k xs h.0)

abbrev pub erase : Key → Table → Table
erase k t = record { pairs = without k t.pairs; sorted = without-IsSorted k t.pairs t.sorted }

-- a pair in its place among the others, over what stands under its key
unfoldable pub insert : Key → Val → Pairs → Pairs
insert k v [] = (k, v) ∷ []
insert k v ((j, w) ∷ xs) =
    if key_eq j k
    then (k, v) ∷ xs
    else if key_ltb k j
    then (k, v) ∷ (j, w) ∷ xs
    else (j, w) ∷ insert k v xs

AllAbove-insert :
    (j k : Key) (v : Val) (xs : Pairs)
    → key_ltb j k ≡ true
    → AllAbove j xs
    → AllAbove j (insert k v xs)
unfolding insert
AllAbove-insert j k v [] lt h = (lt, tt)
AllAbove-insert j k v ((i, w) ∷ xs) lt h = ground (arith, AllAbove-insert j k v xs lt h.1)

pub insert-IsSorted : (k : Key) (v : Val) (xs : Pairs) → IsSorted xs → IsSorted (insert k v xs)
unfolding insert
insert-IsSorted k v [] h = (tt, tt)
insert-IsSorted k v ((j, w) ∷ xs) h = elim (Bool-cases (key_eq j k)) [
  | inl same ↦ let e = key_eq_sound j k same in rw same (rw (← e) h)
  | inr apart ↦ elim (Bool-cases (key_ltb k j)) [
    | inl before ↦ rw (apart, before) ((before, AllAbove-below k j xs before h.0), h)
    | inr behind ↦
        rw (apart, behind)
          (
            AllAbove-insert j k v xs (key_ltb_total j k apart behind) h.0,
            insert-IsSorted k v xs h.1,
          )
  ]
]

find-insert :
    (k : Key) (v : Val) (j : Key) (xs : Pairs)
    → find j (insert k v xs) ≡ (if key_eq k j then some v else find j xs)
unfolding insert find
find-insert k v j [] = refl
find-insert k v j ((i, w) ∷ xs) = elim (Bool-cases (key_eq i k)) [
  | inl same ↦ let e = key_eq_sound i k same in rw same (rw e (ground arith))
  | inr apart ↦ elim (Bool-cases (key_ltb k i)) [
    | inl before ↦ rw (apart, before) refl
    | inr behind ↦ elim (Bool-cases (key_eq i j)) [
      | inl here ↦
          let e = key_eq_sound i j here in
          rw (apart, behind, here) (rw (← e) (rw (key_eq_sym i k apart) refl))
      | inr away ↦ rw (apart, behind, away) (find-insert k v j xs)
    ]
  ]
]

unfoldable pub write : Key → Val → Table → Reply (Unit {0}) × Table
write k v t =
    (good tt, record { pairs = insert k v t.pairs; sorted = insert-IsSorted k v t.pairs t.sorted })

-- The store, which opens a transaction if `up`.
abbrev pub store : Bool → Engine
store up = record {
  Db = Table;
  Tx = Table;
  exists_text = "key already exists";
  begin = λ w db. if up then good db else bad (other "the store is down");
  cancel = λ x db. (good tt, x, db);
  commit = λ x db. (good tt, x, x);
  exi = λ k x. (good (is_some (find k x.pairs)), x);
  get = λ k x. (good (find k x.pairs), x);
  set = write;
  put = λ k v x. if is_some (find k x.pairs) then (bad key_already_exists, x) else write k v x;
  putc = λ k v c x. if is_some (find k x.pairs) then (bad (other "condition"), x) else write k v x;
  del = λ k x. (good tt, erase k x);
  delc = λ k c x. (good tt, erase k x);
  scan = λ a b n x. (good (take n (range a b x.pairs)), x);
}

abbrev pub scan_laws : (up : Bool) → ScanLaws (store up)
scan_laws up = record {
  IsLive = λ x. Unit;
  view = λ x. x.pairs;
  view_sorted = λ x. x.sorted;
  scan_lem = λ a b n x h. refl;
  del_good = λ k x h. refl;
  del_live = λ k x h. tt;
  view-del = λ k x h. refl;
}

abbrev reply_length : Reply Pairs → ℕ
reply_length (good ps) = length ps
reply_length (bad e) = 0

pub scan_bound : (up : Bool) → ScanBound (store up)
scan_bound up = record { at_most = λ a b n x ps e. bounded n (range a b x.pairs) ps e }
  where
    bounded : (n : ℕ) (xs ps : Pairs) → good (take n xs) ≡ good ps → length ps ≤ n
    bounded n xs ps e = subst (λ r. reply_length r ≤ n) e (rw (length-take n xs) (omega arith))

pub point_laws : (up : Bool) → PointLaws (store up) (scan_laws up)
unfolding write
point_laws up = record {
  get_lem = λ k x h. refl;
  set_good = λ k v x h. refl;
  set_live = λ k v x h. tt;
  find-set = λ k v j x h. find-insert k v j x.pairs;
  put_lem = λ k v x h e. rw e refl;
  putc_lem = λ k v x h e. rw e refl;
  putc_held = λ k v w x h e. (other "condition", rw e refl);
  delc_lem = λ k v x h e. refl;
}

pub end_laws : (up : Bool) → EndLaws (store up)
end_laws up = record { cancel_keeps = λ x db. refl; failed_commit_keeps = λ x db h. cc }

abbrev pub no_catalog : Catalog
no_catalog = record {
  Namespace = Unit;
  Database = Unit;
  Table = Unit;
  Login = Unit;
  Token = Unit;
  Scope = Unit;
  Event = Unit;
  Field = Unit;
  Index = Unit;
  Live = Unit;
}

-- three keys, the last with a byte 0xff behind the prefix
pub three-IsSorted :
    IsSorted ((1 ∷ [], 10 ∷ []) ∷ (1 ∷ 5 ∷ [], 20 ∷ []) ∷ (1 ∷ 0xff ∷ [], 30 ∷ []) ∷ [])
unfolding key_ltb
three-IsSorted = ((refl, (refl, tt)), ((refl, tt), (tt, tt)))

abbrev pub three : Table
three = record {
  pairs = (1 ∷ [], 10 ∷ []) ∷ (1 ∷ 5 ∷ [], 20 ∷ []) ∷ (1 ∷ 0xff ∷ [], 30 ∷ []) ∷ [];
  sorted = three-IsSorted;
}
