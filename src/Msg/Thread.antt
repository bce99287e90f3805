-- ===== src/Msg/Thread.antt =====
-- The requests for one thread (udirt-msg.c), their dispatch, and the init handshake. A thread is named
-- by the address of its structure; a handler for a thread that there is not is a fault.
pub mod Suspend
use udi.Cmd.{Cmd, fault, pure, ◌>>=◌, ◌>>◌}
use udi.Breakpoint.{delete_breakpoint}
use udi.Format.{ℤ, text, u64}
use udi.Machine.{Ptr, null, Machine}
use udi.Msg.{Event, uint8, uint16, uint32, uint64, boolean, Cbor, Item, uint64_item, bool_item}
use udi.Msg.Request.{MsgConfig}
use udi.Msg.Debuggee.{
  Status, error, failure, running, suspended, Thread, Debuggee, on_machine, gets, modify,
  set_message,
}
use udi.Msg.Fields.{entry}
use udi.Msg.Process.{state_map}
use udi.Msg.Write.{
  read_request_data, write_response, write_response_no_data, handle_request, when_success, one_pair,
  udi_req_read_register, udi_req_write_register, udi_req_state, udi_req_thread_suspend,
  udi_req_thread_resume, udi_req_next_instruction, udi_req_single_step, udi_resp_valid,
}
use udi.Register.{Context, get_register, set_register, get_pc}
use udi.X86.{Instruction, get_ctf_successor}
use udi.Prelude.{
  ℕ, Bool, true, false, not, ◌&&◌, Option, none, some, List, [], ◌∷◌, codes, ◌==◌, if◌then◌else◌,
  get_elem?,
}

pub record WriteRegReq : Type 0 where
  pub reg : ℕ
  pub register_value : ℕ

read_reg : Event → Option (ℕ → ℕ)
read_reg (uint16 value) = some (λ _. value)
read_reg (uint8 value) = some (λ _. value)
read_reg _ = none

pub read_reg_config : MsgConfig ℕ
read_reg_config = entry "reg" read_reg ∷ []

write_reg : Event → Option (WriteRegReq → WriteRegReq)
write_reg (uint16 value) = some (λ r. record r { reg = value })
write_reg (uint8 value) = some (λ r. record r { reg = value })
write_reg _ = none

write_reg_value : Event → Option (WriteRegReq → WriteRegReq)
write_reg_value (uint64 value) = some (λ r. record r { register_value = value })
write_reg_value (uint32 value) = some (λ r. record r { register_value = value })
write_reg_value (uint16 value) = some (λ r. record r { register_value = value })
write_reg_value (uint8 value) = some (λ r. record r { register_value = value })
write_reg_value _ = none

pub write_reg_config : MsgConfig WriteRegReq
write_reg_config = entry "reg" write_reg ∷ entry "value" write_reg_value ∷ []

single_step_setting : Event → Option (Bool → Bool)
single_step_setting (boolean value) = some (λ _. value)
single_step_setting _ = none

pub single_step_config : MsgConfig Bool
single_step_config = entry "value" single_step_setting ∷ []

-- `*thr`
unfoldable pub find_thread : Ptr → List Thread → Option Thread
find_thread self [] = none
find_thread self (t ∷ ts) = if t.self == self then some t else find_thread self ts

unfoldable pub change_thread : Ptr → (Thread → Thread) → List Thread → List Thread
change_thread self f [] = []
change_thread self f (t ∷ ts) = if t.self == self then f t ∷ ts else t ∷ change_thread self f ts

found : Option Thread → Cmd Debuggee Thread
found none = λ _. fault
found (some t) = pure t

pub thread_at : Ptr → Cmd Debuggee Thread
thread_at thr = do t ← gets (λ d. find_thread thr d.threads); found t

unfoldable pub with_threads : (List Thread → List Thread) → Debuggee → Debuggee
with_threads f d = record d { threads = f d.threads }

unfoldable pub set_thread : Ptr → (Thread → Thread) → Cmd Debuggee (Unit {0})
set_thread thr f = modify (with_threads (change_thread thr f))

pub thr_invalid_handler : Cmd Debuggee Status
thr_invalid_handler = do set_message "invalid request for thread" []; pure error

context_unavailable : Cmd Debuggee Status
context_unavailable = do
  set_message "%s" (text (codes "register context is unavailable") ∷ [])
  pure failure

pub data ThreadHandler : Type 0 where
  thr_invalid read_register write_register thr_state : ThreadHandler
  thr_suspend thr_resume next_instr single_step_request : ThreadHandler

pub thr_request_handlers : List ThreadHandler
thr_request_handlers =
    thr_invalid ∷ thr_invalid ∷ thr_invalid ∷ thr_invalid ∷ read_register ∷ write_register
    ∷ thr_state ∷ thr_invalid ∷ thr_invalid ∷ thr_invalid ∷ thr_invalid ∷ thr_invalid ∷ thr_suspend
    ∷ thr_resume ∷ next_instr ∷ single_step_request ∷ []

module _ (cbor : Cbor) (disassemble : Machine → ℕ → Option Instruction) where
  respond : ℕ → Option Item → Cmd Debuggee Status
  respond req_type item = write_response cbor udi_resp_valid req_type item

  respond_value : Option ℕ → Cmd Debuggee Status
  respond_value none = pure failure
  respond_value (some value) =
      respond udi_req_read_register (some (one_pair "value" (uint64_item value)))

  read_register_of : Ptr → ℕ → Cmd Debuggee Status
  read_register_of thr reg = do
    t ← thread_at thr
    if not t.context_valid
        then context_unavailable
        else do value ← on_machine (get_register reg t.context); respond_value value

  pub read_register_handler : Ptr → Cmd Debuggee Status
  read_register_handler thr = do
    (result, reg) ← read_request_data cbor read_reg_config 0
    when_success result (read_register_of thr reg)

  store_context : Ptr → Option Context → Cmd Debuggee Status
  store_context thr none = pure failure
  store_context thr (some context) = do
    set_thread thr (λ t. record t { context = context })
    write_response_no_data cbor udi_resp_valid udi_req_write_register

  write_register_of : Ptr → WriteRegReq → Cmd Debuggee Status
  write_register_of thr req = do
    t ← thread_at thr
    if not t.context_valid then context_unavailable else do
      context ← on_machine (set_register req.reg req.register_value t.context)
      store_context thr context

  pub write_register_handler : Ptr → Cmd Debuggee Status
  write_register_handler thr = do
    (result, req) ← read_request_data cbor write_reg_config (record { reg = 0; register_value = 0 })
    when_success result (write_register_of thr req)

  pub thr_state_handler : Ptr → Cmd Debuggee Status
  thr_state_handler thr = do t ← thread_at thr; respond udi_req_state (some (state_map t))

  next_instr_of : Thread → Cmd Debuggee Status
  next_instr_of t = do
    address ← on_machine (get_ctf_successor disassemble (get_pc t.context) t.context)
    if address == 0
        then (do
          set_message "failed to determine successor instruction from %a"
              (u64 (get_pc t.context) ∷ [])
          pure failure)
        else respond udi_req_next_instruction (some (one_pair "addr" (uint64_item address)))

  pub next_instr_handler : Ptr → Cmd Debuggee Status
  next_instr_handler thr = do
    t ← thread_at thr
    if not t.context_valid
        then (do set_message "register context unavailable" []; pure failure)
        else next_instr_of t

  pub thr_suspend_handler : Ptr → Cmd Debuggee Status
  thr_suspend_handler thr = do
    _ ← thread_at thr
    set_thread thr (λ t. record t { ts = suspended })
    write_response_no_data cbor udi_resp_valid udi_req_thread_suspend

  pub thr_resume_handler : Ptr → Cmd Debuggee Status
  thr_resume_handler thr = do
    _ ← thread_at thr
    set_thread thr (λ t. record t { ts = running })
    write_response_no_data cbor udi_resp_valid udi_req_thread_resume

  -- The removal of the single step breakpoint when the mode is left; true unless it failed.
  drop_single_step_bp : Ptr → Bool → Ptr → Cmd Debuggee Bool
  drop_single_step_bp thr setting bp =
      if not setting && not (bp == null)
      then (do
        deleted ← on_machine (delete_breakpoint bp)
        if deleted
            then (do set_thread thr (λ t. record t { single_step_bp = null }); pure true)
            else pure false)
      else pure true

  single_step_of : Ptr → Bool → Cmd Debuggee Status
  single_step_of thr setting = do
    t ← thread_at thr
    set_thread thr (λ t. record t { single_step = setting })
    done ← drop_single_step_bp thr setting t.single_step_bp
    if done
        then respond udi_req_single_step (some (one_pair "value" (bool_item t.single_step)))
        else pure failure

  pub single_step_handler : Ptr → Cmd Debuggee Status
  single_step_handler thr = do
    (result, setting) ← read_request_data cbor single_step_config false
    when_success result (single_step_of thr setting)

  pub run_thread_handler : Ptr → ThreadHandler → Cmd Debuggee Status
  run_thread_handler thr thr_invalid = thr_invalid_handler
  run_thread_handler thr read_register = read_register_handler thr
  run_thread_handler thr write_register = write_register_handler thr
  run_thread_handler thr thr_state = thr_state_handler thr
  run_thread_handler thr thr_suspend = thr_suspend_handler thr
  run_thread_handler thr thr_resume = thr_resume_handler thr
  run_thread_handler thr next_instr = next_instr_handler thr
  run_thread_handler thr single_step_request = single_step_handler thr

  -- `thr_request_handlers[*type]`: an index past the table is undefined.
  pub thr_dispatch : Ptr → Option ThreadHandler → Cmd Debuggee Status
  thr_dispatch thr none = λ _. fault
  thr_dispatch thr (some handler) = run_thread_handler thr handler

  pub handle_thread_request : (ℤ → List ℕ) → Ptr → ℕ → Cmd Debuggee (Status × ℕ)
  handle_thread_request strerror thr before =
      handle_request cbor strerror
        (λ req_type. thr_dispatch thr (get_elem? thr_request_handlers req_type)) before
