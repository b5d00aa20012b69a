-- ===== src/Tests/Ctx.antt =====
-- lib/src/ctx on concrete contexts.
use surreal_dbservice.Base.{ℕ, ◌≡◌, refl, true, false, false, arith}
use surreal_dbservice.Ctx
use surreal_dbservice.Ctx.{
  Flags, Context, background, new, add_cancel, add_deadline, add_value, cancel, done, is_done,
  is_timedout, value, is_err, is_ok, check, stop, Reason,
}
use surreal_dbservice.Ctx.Final.{Raises-cancel, stop_is_final}
use surreal_dbservice.Ctx.Stop.{Allocated}

abbrev pub no_flags : Flags
no_flags = record { count = 0; raised = λ i. false }

-- a context with a deadline at 50
abbrev base : Context ℕ
base = add_deadline 50 (background no_flags).0

abbrev base_flags : Flags
base_flags = Ctx.alloc no_flags

base-Allocated : Allocated base_flags base
unfolding add_deadline
base-Allocated = ground arith

base-passed : Ctx.passed (Ctx.frame base).deadline 60 ≡ true
unfolding add_deadline
base-passed = refl

base_stopped : is_err base base_flags 60 ≡ true
unfolding add_deadline is_err
base_stopped = refl

stop_is_final_example :
    (is_ok base (cancel 0 base_flags) 70 ≡ false)
    × ((reason : Reason) × (check base (cancel 0 base_flags) 70 ≡ stop reason))
stop_is_final_example =
    stop_is_final base base_flags (cancel 0 base_flags) 60 70 (omega arith)
      (Raises-cancel 0 base_flags) base_stopped
