-- ===== src/Ctx/Stop.antt =====
-- Deadlines and cancellation of lib/src/ctx/context.rs.
use surreal_dbservice.Base.{ℕ, String, ◌≡◌, ◌<◌, ◌≤◌, true, arith, is_some}
use surreal_dbservice.Ctx.{
  Flags, Frame, Context, root, child, frame, new, alloc, cancel, add_cancel, add_value,
  add_deadline, done, is_done, is_timedout, passed,
}

module _ {V : Type 0} where
  -- `Within c d`: the context `d` is `c` or was derived from it by a child.
  pub data Within (c : Context V) : Context V → Type 0 where
    here : Within c c
    below : {p : Context V} (f : Frame V) → Within c p → Within c (child p f)

  done_self :
      (c : Context V) (fl : Flags) (now : ℕ)
      → fl.raised (frame c).cancelled ≡ true
      → is_some (done c fl now) ≡ true
  unfolding done
  done_self (root f) fl now h = ground arith
  done_self (child p f) fl now h = ground arith

  done-Within :
      (c : Context V) {d : Context V} (fl : Flags) (now : ℕ)
      → Within c d
      → fl.raised (frame c).cancelled ≡ true
      → is_some (done d fl now) ≡ true
  unfolding done
  done-Within c fl now here h = done_self c fl now h
  done-Within c fl now (below f w) h = ground (arith, done-Within c fl now w h)

  -- Cancelling a context stops it and everything derived from it.
  pub cancel_reaches :
      (c : Context V) {d : Context V} (fl : Flags) (now : ℕ)
      → Within c d
      → is_done d (cancel (add_cancel c) fl) now ≡ true
  unfolding is_done
  cancel_reaches c fl now w = done-Within c (cancel (add_cancel c) fl) now w (ground arith)

  -- Every flag of the context has been allocated.
  abbrev pub Allocated : Flags → Context V → Type 0
  Allocated fl (root f) = f.cancelled < fl.count
  Allocated fl (child p f) = Allocated fl p × (f.cancelled < fl.count)

  done-cancel_new :
      (c : Context V) (fl : Flags) (now : ℕ)
      → (n : ℕ) → fl.count ≤ n
      → Allocated fl c
      → done c (cancel n (alloc fl)) now ≡ done c fl now
  unfolding done
  done-cancel_new (root f) fl now n h a = ground arith
  done-cancel_new (child p f) fl now n h a = ground (arith, done-cancel_new p fl now n h a.0)

  -- Cancelling a child leaves its parent running: the flag of a child is its own.
  pub cancel_child_spares_parent :
      (c : Context V) (fl : Flags) (now : ℕ)
      → Allocated fl c
      → let (d, fl') = new c fl in done c (cancel (add_cancel d) fl') now ≡ done c fl now
  unfolding new
  cancel_child_spares_parent c fl now a = done-cancel_new c fl now fl.count (omega arith) a

  -- `Derived c d`: the context `d` was made from `c` by new children, deadlines and parameters.
  pub data Derived (c : Context V) : Context V → Type 0 where
    same : Derived c c
    by_new : {d : Context V} (fl : Flags) → Derived c d → Derived c (new d fl).0
    by_deadline : {d : Context V} (t : ℕ) → Derived c d → Derived c (add_deadline t d)
    by_value : {d : Context V} (k : String) (v : V) → Derived c d → Derived c (add_value k v d)

  passed-add_deadline :
      (t : ℕ) (d : Context V) (now : ℕ)
      → passed (frame d).deadline now ≡ true
      → passed (frame (add_deadline t d)).deadline now ≡ true
  unfolding add_deadline
  passed-add_deadline t (root f) now h = ground arith
  passed-add_deadline t (child p f) now h = ground arith

  passed-add_value :
      (k : String) (v : V) (d : Context V) (now : ℕ)
      → passed (frame d).deadline now ≡ true
      → passed (frame (add_value k v d)).deadline now ≡ true
  unfolding add_value
  passed-add_value k v (root f) now h = h
  passed-add_value k v (child p f) now h = h

  passed-new :
      (d : Context V) (fl : Flags) (now : ℕ)
      → passed (frame d).deadline now ≡ true
      → passed (frame (new d fl).0).deadline now ≡ true
  unfolding new
  passed-new d fl now h = h

  passed-Derived :
      (c : Context V) {d : Context V} (now : ℕ)
      → Derived c d
      → passed (frame c).deadline now ≡ true
      → passed (frame d).deadline now ≡ true
  passed-Derived c now same h = h
  passed-Derived c now (by_new {d} fl r) h = passed-new d fl now (passed-Derived c now r h)
  passed-Derived c now (by_deadline {d} t r) h =
      passed-add_deadline t d now (passed-Derived c now r h)
  passed-Derived c now (by_value {d} k v r) h =
      passed-add_value k v d now (passed-Derived c now r h)

  is_timedout-passed :
      (d : Context V) (fl : Flags) (now : ℕ)
      → passed (frame d).deadline now ≡ true
      → is_timedout d fl now ≡ true
  unfolding is_timedout
  is_timedout-passed (root f) fl now h = ground arith
  is_timedout-passed (child p f) fl now h = ground arith

  -- Once the deadline of a context has passed, everything made from it has timed out, whatever
  -- later deadlines were added and whatever was cancelled.
  pub timeout_reaches :
      (c : Context V) {d : Context V} (fl : Flags) (now : ℕ)
      → Derived c d
      → passed (frame c).deadline now ≡ true
      → is_timedout d fl now ≡ true
  timeout_reaches c {d} fl now r h = is_timedout-passed d fl now (passed-Derived c now r h)
