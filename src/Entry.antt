-- ===== src/Entry.antt =====
-- What a thread does with a signal once it alone has control (libudirt/src/udirt-posix.c, the middle of
-- `signal_entry_impl`): it decodes the event, places the breakpoint of a single step, reports errors and
-- waits for requests; and the event breakpoints of udirt-posix-sys.c.
pub mod Reached
use udi.Breakpoint.{load, store, create_breakpoint, find_breakpoint, install_breakpoint}
use udi.Cmd.{Cmd, ok, fault, pure, ◌>>=◌, ◌>>◌}
use udi.Format.{ℤ, u64}
use udi.Machine.{Ptr, null, Machine, SiCode, update, decode_memory_access_event}
use udi.Msg.{Cbor}
use udi.Msg.Debuggee.{
  Status, success, error, failure, Debuggee, on_machine, gets, modify, set_message,
}
use udi.Msg.Events.{handle_unknown_event, handle_error_event}
use udi.Msg.Hit.{Outcome, outcome, decode_breakpoint, is_stepping}
use udi.Msg.Thread.{set_thread}
use udi.Register.{Context, reg_rip, get_pc}
use udi.Runtime.{Process, on_debuggee, wait_and_execute_command}
use udi.X86.{Instruction, get_ctf_successor}
use udi.Prelude.{
  ℕ, ◌+◌, ◌-◌, ◌%◌, ◌^◌, Bool, true, false, ◌||◌, Option, List, [], ◌∷◌, ◌==◌, if◌then◌else◌,
}

abbrev pub sigtrap : ℕ
sigtrap = 5

abbrev pub sigbus : ℕ
sigbus = 7

abbrev pub sigsegv : ℕ
sigsegv = 11

-- `exit_bp` is kept even if it cannot be put in memory. True is the result 0; `exit` is the address
-- of the function.
pub install_event_breakpoints : ℕ → Cmd Debuggee Bool
install_event_breakpoints exit = do
  bp ← on_machine (create_breakpoint exit)
  modify (λ d. record d { exit_bp = bp })
  if bp == null then pure false else on_machine (install_breakpoint bp)

unfoldable pub get_trap_address : Context → ℕ
get_trap_address context = (get_pc context + 2 ^ 64 - 1) % 2 ^ 64

module _ (cbor : Cbor) (disassemble : Machine → ℕ → Option Instruction) (strerror : ℤ → List ℕ)
    (abort_label : ℕ) where
  -- A trap at an address without a breakpoint aborts.
  pub decode_trap : Ptr → Context → Bool → Cmd Debuggee (Outcome × Context)
  decode_trap thr context wait = do
    bp ← on_machine (find_breakpoint (get_trap_address context))
    if bp == null then (λ d. fault) else decode_breakpoint cbor disassemble thr bp context wait

  -- `decode_memory_access_event`: if an access of the library is to be aborted, control goes to the
  -- abort label.
  decode_fault : SiCode → Context → Bool → Cmd Debuggee (Outcome × Context)
  decode_fault code context false = pure (outcome success true, context)
  decode_fault code context true = do
    retry ← on_machine (decode_memory_access_event code)
    pure (outcome success false, if retry then context else update context reg_rip abort_label)

  -- The `switch` over the signal.
  pub decode_event : ℕ → SiCode → Ptr → Context → Cmd Debuggee (Outcome × Context)
  decode_event signal code thr context =
      if (signal == sigbus) || (signal == sigsegv)
      then (do
        performing ← gets (λ d. d.machine.performing_mem_access)
        decode_fault code context performing)
      else if signal == sigtrap
      then decode_trap thr context true
      else do
        tid ← gets (λ d. d.user_thread_id)
        result ← handle_unknown_event cbor tid
        pure (outcome result true, context)

  abbrev status_of : Status → Bool → Status
  status_of result true = result
  status_of result false = error

  install_step : Ptr → Ptr → Status → Cmd Debuggee Status
  install_step thr bp result = do
    b ← on_machine (load bp)
    on_machine (store bp (record b { thread = thr }))
    installed ← on_machine (install_breakpoint bp)
    pure (status_of result installed)

  -- A breakpoint at the successor, unless there is one.
  step_to : Ptr → ℕ → Status → Cmd Debuggee Status
  step_to thr successor result = do
    existing_bp ← on_machine (find_breakpoint successor)
    if existing_bp == null
        then (do
          bp ← on_machine (create_breakpoint successor)
          set_thread thr (λ t. record t { single_step_bp = bp })
          if bp == null then pure error else install_step thr bp result)
        else pure result

  place_step : Ptr → Context → Status → Cmd Debuggee Status
  place_step thr context result = do
    successor ← on_machine (get_ctf_successor disassemble (get_pc context) context)
    if successor == 0 then pure error else step_to thr successor result

  single_step : Ptr → Context → Status → Cmd Debuggee Status
  single_step thr context result = do
    stepping ← is_stepping thr
    if stepping then place_step thr context result else pure result

  abort_unless : Status → Cmd Debuggee (Unit {0})
  abort_unless success = pure tt
  abort_unless _ = λ d. fault

  -- After an error event, the result is a success.
  report_error : Status → Cmd Debuggee (Unit {0})
  report_error success = pure tt
  report_error result = do
    tid ← gets (λ d. d.user_thread_id)
    reported ← handle_error_event cbor strerror tid
    abort_unless reported

  -- A request that ends in an error aborts.
  end_of_wait : Status × Ptr → Cmd Process Status
  end_of_wait (error, thr) = λ p. fault
  end_of_wait (result, thr) = pure result

  pub await_requests : Bool → Cmd Process Status
  await_requests false = pure success
  await_requests true = do
    executed ← wait_and_execute_command cbor disassemble strerror null
    end_of_wait executed

  -- The result, and the context that the signal returns to. The other threads are released on a
  -- success, unless a continue breakpoint stands.
  pub handle_signal : ℕ → SiCode → Ptr → Context → Cmd Process (Status × Context)
  handle_signal signal code thr context = do
    (decoded, context') ← on_debuggee (decode_event signal code thr context)
    result ← on_debuggee (single_step thr context' decoded.result)
    on_debuggee (report_error result)
    waited ← await_requests decoded.wait_for_request
    pure (waited, context')
