-- ===== src/Ctx.antt =====
-- lib/src/ctx: the context of a query: its deadline, its cancellation and its parameters.
-- A child borrows its parent, which stays frozen, so it holds a copy of it. The `Arc<AtomicBool>` of
-- a context is shared with its cancellers: it is a number into the store `Flags`. Instants and
-- durations are numbers, and `now` is the reading of the clock.
pub mod Params
pub mod Stop
pub mod Final
use surreal_dbservice.Base.{
  ℕ, suc, ◌+◌, String, Bool, true, false, Option, none, some, [], ltb, leb, ◌==◌, is_some, not,
  if◌then◌else◌,
}
use surreal_dbservice.Base.Assoc.{Assoc, lookup, insert}
use surreal_dbservice.Err.{Error, query_timedout, query_cancelled}

pub data Reason : Type 0 where
  timedout canceled : Reason

-- `From<Reason> for Error`
unfoldable pub error_of : Reason → Error
error_of timedout = query_timedout
error_of canceled = query_cancelled

-- The atomic flags that have been allocated.
pub record Flags : Type 0 where
  pub count : ℕ
  pub raised : ℕ → Bool

-- `Arc::new(AtomicBool::new(false))`: the next number, lowered.
abbrev pub alloc : Flags → Flags
alloc fl = record {
  count = suc fl.count;
  raised = λ i. if i == fl.count then false else fl.raised i;
}

-- `Canceller::cancel`
abbrev pub cancel : ℕ → Flags → Flags
cancel c fl = record fl { raised = λ i. if i == c then true else fl.raised i }

pub record Frame (V : Type 0) : Type 0 where
  pub deadline : Option ℕ
  pub cancelled : ℕ
  pub values : Option (Assoc V)

pub data Context (V : Type 0) : Type 0 where
  root : Frame V → Context V
  child : Context V → Frame V → Context V

-- the sooner deadline stays
abbrev pub sooner : Option ℕ → ℕ → Option ℕ
sooner none d = some d
sooner (some current) d = if ltb current d then some current else some d

abbrev pub passed : Option ℕ → ℕ → Bool
passed none now = false
passed (some d) now = leb d now

abbrev pub is_cancel : Option Reason → Bool
is_cancel (some canceled) = true
is_cancel _ = false

-- `Result<(), Reason>`
pub data Checked : Type 0 where
  proceed : Checked
  stop : Reason → Checked

abbrev pub checked : Option Reason → Checked
checked (some reason) = stop reason
checked none = proceed

abbrev pub is_timeout : Option Reason → Bool
is_timeout (some timedout) = true
is_timeout _ = false

module _ {V : Type 0} where
  abbrev pub frame : Context V → Frame V
  frame (root f) = f
  frame (child p f) = f

  abbrev pub with_frame : Context V → Frame V → Context V
  with_frame (root f) g = root g
  with_frame (child p f) g = child p g

  abbrev pub background : Flags → Context V × Flags
  background fl = (root (record { deadline = none; cancelled = fl.count; values = none }), alloc fl)

  unfoldable pub new : Context V → Flags → Context V × Flags
  new parent fl = (
    child parent
        (record { deadline = (frame parent).deadline; cancelled = fl.count; values = none }),
    alloc fl,
  )

  abbrev pub add_cancel : Context V → ℕ
  add_cancel c = (frame c).cancelled

  unfoldable pub add_deadline : ℕ → Context V → Context V
  add_deadline d c = with_frame c (record (frame c) { deadline = sooner (frame c).deadline d })

  unfoldable pub add_timeout : ℕ → ℕ → Context V → Context V
  unfolding add_deadline
  add_timeout now timeout c = add_deadline (now + timeout) c

  -- the map is made by the first insertion
  abbrev pub add_to : String → V → Option (Assoc V) → Option (Assoc V)
  add_to k v (some m) = some (insert k v m)
  add_to k v none = some (insert k v [])

  unfoldable pub add_value : String → V → Context V → Context V
  add_value k v c = with_frame c (record (frame c) { values = add_to k v (frame c).values })

  unfoldable pub done : Context V → Flags → ℕ → Option Reason
  done (root f) fl now =
      if passed f.deadline now
      then some timedout
      else if fl.raised f.cancelled
      then some canceled
      else none
  done (child p f) fl now =
      let up = done p fl now in
      if passed f.deadline now
      then some timedout
      else if fl.raised f.cancelled
      then some canceled
      else up

  unfoldable pub is_done : Context V → Flags → ℕ → Bool
  unfolding done
  is_done c fl now = is_some (done c fl now)

  unfoldable pub is_timedout : Context V → Flags → ℕ → Bool
  unfolding done
  is_timedout c fl now = is_timeout (done c fl now)

  unfoldable pub is_cancelled : Context V → Flags → ℕ → Bool
  unfolding done
  is_cancelled c fl now = is_cancel (done c fl now)

  unfoldable pub is_ok : Context V → Flags → ℕ → Bool
  unfolding done
  is_ok c fl now = not (is_some (done c fl now))

  unfoldable pub is_err : Context V → Flags → ℕ → Bool
  unfolding done
  is_err c fl now = is_some (done c fl now)

  unfoldable pub check : Context V → Flags → ℕ → Checked
  unfolding done
  check c fl now = checked (done c fl now)

  abbrev pub deadline : Context V → Option ℕ
  deadline c = (frame c).deadline

  abbrev pub find : String → Option (Assoc V) → Option V
  find k none = none
  find k (some m) = lookup k m

  abbrev pub or_else : Option V → Option V → Option V
  or_else (some v) w = some v
  or_else none w = w

  unfoldable pub value : Context V → String → Option V
  value (root f) k = find k f.values
  value (child p f) k = or_else (find k f.values) (value p k)
