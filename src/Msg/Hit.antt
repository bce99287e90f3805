-- ===== src/Msg/Hit.antt =====
-- `decode_breakpoint` of udirt-msg.c: what the process does when it runs into a breakpoint; with the
-- exit breakpoint of udirt-posix-sys.c.
pub mod Original
pub mod Decoded
use udi.Breakpoint.{
  load, create_breakpoint, find_breakpoint, install_breakpoint, remove_breakpoint_for_continue,
  delete_breakpoint, set_in_memory,
}
use udi.Cmd.{Cmd, ok, fault, pure, ◌>>=◌, ◌>>◌}
use udi.Format.{u64}
use udi.Machine.{Ptr, null, Breakpoint, Machine}
use udi.Msg.{Cbor, uint64_item}
use udi.Msg.Debuggee.{
  Status, success, error, failure, Thread, Debuggee, on_machine, gets, modify, set_message,
}
use udi.Msg.Events.{
  write_event, write_event_no_data, handle_exit_event, udi_event_breakpoint, udi_event_single_step,
}
use udi.Msg.Thread.{thread_at, set_thread}
use udi.Msg.Write.{one_pair}
use udi.Register.{Context, rewind_pc}
use udi.X86.{Instruction, get_ctf_successor}
use udi.Prelude.{
  ℕ, ◌%◌, ◌^◌, Bool, true, false, not, ◌&&◌, Option, none, some, List, [], ◌∷◌, ◌==◌, if◌then◌else◌,
}

-- What it returns: the result, and `*wait_for_request`.
pub record Outcome : Type 0 where
  pub result : Status
  pub wait_for_request : Bool

abbrev pub outcome : Status → Bool → Outcome
outcome result wait = record { result = result; wait_for_request = wait }

-- RDI as an `int`, by its bits.
pub get_exit_argument : Context → ℕ
get_exit_argument context = context 8 % 2 ^ 32

rewind_thread : Ptr → Cmd Debuggee (Unit {0})
rewind_thread thr =
    if thr == null
    then pure tt
    else do t ← thread_at thr; set_thread thr (λ u. record u { context = rewind_pc u.context })

-- `thr != NULL && get_single_step_breakpoint(thr) == bp`
is_single_step_bp : Ptr → Ptr → Cmd Debuggee Bool
is_single_step_bp thr bp =
    if thr == null then pure false else do t ← thread_at thr; pure (t.single_step_bp == bp)

-- `thr != NULL && is_single_step(thr)`
pub is_stepping : Ptr → Cmd Debuggee Bool
is_stepping thr = if thr == null then pure false else do t ← thread_at thr; pure t.single_step

set_continue_bp : Ptr → Cmd Debuggee (Unit {0})
set_continue_bp bp = modify λ d. record d { continue_bp = bp }

set_last_bp_address : ℕ → Cmd Debuggee (Unit {0})
set_last_bp_address address = modify λ d. record d { last_bp_address = address }

-- The original breakpoint is put back where it should be in memory; false if that fails.
pub reinstall : Ptr → Cmd Debuggee Bool
reinstall bp = do
  b ← on_machine (load bp)
  if b.in_memory
      then (do on_machine (set_in_memory bp false); on_machine (install_breakpoint bp))
      else pure true

restore_original : Cmd Debuggee Bool
restore_original = do
  address ← gets (λ d. d.last_bp_address)
  original ← on_machine (find_breakpoint address)
  if original == null then pure true else do set_last_bp_address 0; reinstall original

module _ (cbor : Cbor) (disassemble : Machine → ℕ → Option Instruction) where
  -- A single step breakpoint.
  single_step_hit : Ptr → Ptr → Bool → Cmd Debuggee Outcome
  single_step_hit thr bp wait = do
    deleted ← on_machine (delete_breakpoint bp)
    if not deleted
        then (do
          b ← on_machine (load bp)
          set_message "failed to delete breakpoint at %a" (u64 b.address ∷ [])
          pure (outcome error wait))
        else do
          t ← thread_at thr
          result ← write_event_no_data cbor udi_event_single_step t.id
          set_thread thr (λ u. record u { single_step_bp = null })
          pure (outcome result wait)

  report_step : Ptr → Cmd Debuggee Outcome
  report_step thr = do
    t ← thread_at thr
    result ← write_event_no_data cbor udi_event_single_step t.id
    pure (outcome result true)

  -- The breakpoint behind the one that the process was continued from.
  continue_hit : Ptr → Ptr → Cmd Debuggee Outcome
  continue_hit thr bp = do
    set_continue_bp null
    deleted ← on_machine (delete_breakpoint bp)
    restored ← restore_original
    stepping ← is_stepping thr
    if deleted && restored
        then (if stepping then report_step thr else pure (outcome success false))
        else pure (outcome error false)

  handle_exit_breakpoint : Context → Cmd Debuggee Status
  handle_exit_breakpoint context = do
    modify (λ d. record d { exiting = true })
    tid ← gets (λ d. d.user_thread_id)
    handle_exit_event cbor tid (get_exit_argument context)

  report_breakpoint : Ptr → ℕ → Bool → Cmd Debuggee Outcome
  report_breakpoint thr address wait = do
    t ← thread_at thr
    result ←
        write_event cbor udi_event_breakpoint t.id (some (one_pair "addr" (uint64_item address)))
    pure (outcome result wait)

  -- Once the continue breakpoint stands. Of another thread's breakpoint, both ids are read.
  classify : Ptr → Ptr → Context → Bool → Cmd Debuggee Outcome
  classify thr bp context wait = do
    b ← on_machine (load bp)
    set_last_bp_address b.address
    exit_bp ← gets (λ d. d.exit_bp)
    if bp == exit_bp
        then (do result ← handle_exit_breakpoint context; pure (outcome result wait))
        else if not (b.thread == null) && not (b.thread == thr)
        then (do _ ← thread_at b.thread; _ ← thread_at thr; pure (outcome error false))
        else report_breakpoint thr b.address wait

  -- Any other breakpoint: one for the continue is made at the successor.
  breakpoint_hit : Ptr → Ptr → Context → Bool → Cmd Debuggee Outcome
  breakpoint_hit thr bp context wait = do
    b ← on_machine (load bp)
    successor ← on_machine (get_ctf_successor disassemble b.address context)
    if successor == 0 then pure (outcome error wait) else do
      continue_bp ← on_machine (create_breakpoint successor)
      set_continue_bp continue_bp
      if continue_bp == null then pure (outcome error wait) else classify thr bp context wait

  -- `context` is what `rewind_pc` has made of the context of the trap.
  decode_at : Ptr → Ptr → Context → Bool → Cmd Debuggee Outcome
  decode_at thr bp context wait = do
    step ← is_single_step_bp thr bp
    if step then single_step_hit thr bp wait else do
      removed ← on_machine (remove_breakpoint_for_continue bp)
      continue_bp ← gets (λ d. d.continue_bp)
      if not removed
          then pure (outcome error wait)
          else if continue_bp == bp
          then continue_hit thr bp
          else breakpoint_hit thr bp context wait

  -- The outcome, and the context that the trap returns to.
  pub decode_breakpoint : Ptr → Ptr → Context → Bool → Cmd Debuggee (Outcome × Context)
  decode_breakpoint thr bp context wait = do
    rewind_thread thr
    o ← decode_at thr bp (rewind_pc context) wait
    pure (o, rewind_pc context)
