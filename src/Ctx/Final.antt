-- ===== src/Ctx/Final.antt =====
-- What `check` of lib/src/ctx/context.rs answers as the clock goes on and flags are raised.
use surreal_dbservice.Base.{
  ℕ, ◌≡◌, refl, ap, ◌≤◌, Bool, true, false, Option, none, some, arith, is_some, not, if◌then◌else◌,
}
use surreal_dbservice.Ctx.{
  Flags, Context, root, child, cancel, done, check, checked, stop, is_err, is_ok, passed, Reason,
  timedout, canceled,
}

-- Every flag that is raised in the one store is raised in the other.
abbrev pub Raises : Flags → Flags → Type 0
Raises fl later = (i : ℕ) → fl.raised i ≡ true → later.raised i ≡ true

pub Raises-cancel : (n : ℕ) (fl : Flags) → Raises fl (cancel n fl)
Raises-cancel n fl i h = ground arith

passed_on :
    (d : Option ℕ) (now later : ℕ) → now ≤ later → passed d now ≡ true → passed d later ≡ true
passed_on none now later l h = h
passed_on (some d) now later l h = ground arith

-- one test of a verdict, which answers `r` or goes on
is_some_on :
    (b c : Bool) (r : Reason) (o p : Option Reason)
    → (b ≡ true → c ≡ true)
    → (is_some o ≡ true → is_some p ≡ true)
    → is_some (if b then some r else o) ≡ true
    → is_some (if c then some r else p) ≡ true
is_some_on b true r o p hb ho h = refl
is_some_on true false r o p hb ho h = ground (arith, hb refl)
is_some_on false false r o p hb ho h = ho h

checked-is_some :
    (o : Option Reason) → is_some o ≡ true → (reason : Reason) × (checked o ≡ stop reason)
checked-is_some (some reason) h = (reason, refl)
checked-is_some none h = ground arith

module _ {V : Type 0} where
  done_on :
      (c : Context V) (fl fl' : Flags) (now later : ℕ)
      → now ≤ later
      → Raises fl fl'
      → is_some (done c fl now) ≡ true
      → is_some (done c fl' later) ≡ true
  unfolding done
  done_on (root f) fl fl' now later l r h =
      is_some_on _ _ timedout _ _ (passed_on f.deadline now later l)
        (is_some_on _ _ canceled none none (r f.cancelled) (λ e. e)) h
  done_on (child p f) fl fl' now later l r h =
      is_some_on _ _ timedout _ _ (passed_on f.deadline now later l)
        (is_some_on _ _ canceled _ _ (r f.cancelled) (done_on p fl fl' now later l r)) h

  -- Once a context is to be stopped it stays so: at every later time, and whatever further flags
  -- have been raised, `is_ok` refuses and `check` answers with a reason.
  pub stop_is_final :
      (c : Context V) (fl fl' : Flags) (now later : ℕ)
      → now ≤ later
      → Raises fl fl'
      → is_err c fl now ≡ true
      → (is_ok c fl' later ≡ false) × ((reason : Reason) × (check c fl' later ≡ stop reason))
  unfolding is_err is_ok check
  stop_is_final c fl fl' now later l r h =
      let stays = done_on c fl fl' now later l r h in
      (ap not stays, checked-is_some (done c fl' later) stays)
