-- ===== src/Fiber/ThisFiber.antt =====
-- The functions of `this_fiber` (src/fiber.cpp) that count.
use emilua.Common.{ℕ, ◌+◌, ◌-◌, none, some, ◌==◌, if◌then◌else◌}
use emilua.Runtime.{
  Error, interruption_already_allowed, suspension_already_allowed, Disabled, flag, counter, Fiber,
  M, done, fail, put_fiber, lookup_fiber,
}

-- `lua_tointeger` of the counter's field.
abbrev pub to_counter : Disabled → ℕ
to_counter (flag b) = 0
to_counter (counter n) = n

-- The two counters of a fiber that `this_fiber` changes.
pub data Counter : Type 0 where
  interruption_disabled suspension_disallowed : Counter

unfoldable pub read_counter : Counter → Fiber → ℕ
read_counter interruption_disabled fiber = to_counter fiber.interruption_disabled
read_counter suspension_disallowed fiber = fiber.suspension_disallowed

unfoldable pub write_counter : Counter → ℕ → Fiber → Fiber
write_counter interruption_disabled n fiber = record fiber { interruption_disabled = counter n }
write_counter suspension_disallowed n fiber = record fiber { suspension_disallowed = n }

-- Counters do not reach the end of `lua_Integer`, which the source asserts.
unfoldable pub increment_this_fiber_counter : Counter → M (Unit {0})
increment_this_fiber_counter c v =
    if v.current_fiber == v.async_event_thread
    then done tt v
    else elim (lookup_fiber v v.current_fiber) [
      | none ↦ done tt v
      | some fiber ↦
          done tt
            (put_fiber v.current_fiber (some (write_counter c (read_counter c fiber + 1) fiber)) v)
    ]

unfoldable pub decrement_this_fiber_counter : Counter → Error → M (Unit {0})
decrement_this_fiber_counter c e v =
    if v.current_fiber == v.async_event_thread
    then done tt v
    else elim (lookup_fiber v v.current_fiber) [
      | none ↦ done tt v
      | some fiber ↦
          if read_counter c fiber == 0
          then fail e v
          else done tt (
              put_fiber v.current_fiber (some (write_counter c (read_counter c fiber - 1) fiber)) v)
    ]

abbrev pub disable_interruption : M (Unit {0})
disable_interruption = increment_this_fiber_counter interruption_disabled

abbrev pub restore_interruption : M (Unit {0})
restore_interruption =
    decrement_this_fiber_counter interruption_disabled interruption_already_allowed

abbrev pub forbid_suspend : M (Unit {0})
forbid_suspend = increment_this_fiber_counter suspension_disallowed

abbrev pub allow_suspend : M (Unit {0})
allow_suspend = decrement_this_fiber_counter suspension_disallowed suspension_already_allowed
