-- ===== src/Msg/Process.antt =====
-- The requests for the process (udirt-msg.c): continue, memory, state, breakpoints, and their dispatch.
pub mod Dispatch
pub mod Breakpoints
use udi.Msg.Fields.{
  ReadMemReq, WriteMemReq, entry, continue_config, read_config, write_config, breakpoint_addr,
  breakpoint_config,
}
use udi.Cmd.{Cmd, ok, fault, pure, ◌>>=◌, ◌>>◌}
use udi.Breakpoint.{
  create_breakpoint, find_breakpoint, install_breakpoint, remove_breakpoint, delete_breakpoint,
}
use udi.Format.{ℤ, text, u64}
use udi.Machine.{Ptr, null, read_memory, write_memory, get_mem_errstr}
use udi.Msg.{
  Event, uint8, uint16, uint32, uint64, byte_string, Cbor, Item, uint16_item, uint64_item,
  bytestring_item, array_item, map_item, Items, no_items, item_then, no_pairs, pair_then,
}
use udi.Msg.Files.{thread_death_handshake}
use udi.Msg.Request.{MsgConfig, MsgItem}
use udi.Msg.Debuggee.{
  Status, success, error, failure, ThreadState, running, suspended, Thread, Debuggee, on_machine,
  gets, modify, set_message, post_continue_hook,
}
use udi.Msg.Write.{
  read_request_data, write_response, write_response_no_data, handle_request, when_success, one_pair,
  udi_req_invalid, udi_req_continue, udi_req_read_mem, udi_req_write_mem, udi_req_state,
  udi_req_create_breakpoint, udi_req_install_breakpoint, udi_req_remove_breakpoint, udi_resp_valid,
}
use udi.Prelude.{
  ℕ, zero, suc, ◌+◌, ◌%◌, ◌^◌, Bool, true, false, not, Option, none, some, List, [], ◌∷◌, String,
  codes, ◌==◌, ltb, if◌then◌else◌, length, get_elem?,
}

pub any_running : List Thread → Bool
any_running [] = false
any_running (t ∷ ts) = elim t.ts [ running ↦ true | suspended ↦ any_running ts ]

-- `install_result` of a continue from a breakpoint is only logged.
install_continue_bp : Ptr → Cmd Debuggee (Unit {0})
install_continue_bp bp =
    if bp == null then pure tt else do _ ← on_machine (install_breakpoint bp); pure tt

-- The loop over the threads; true unless a handshake failed.
dead_handshakes : List Thread → Cmd Debuggee Bool
dead_handshakes [] = pure true
dead_handshakes (t ∷ ts) = do
  done ← (if t.dead then thread_death_handshake t else pure true)
  if done then dead_handshakes ts else pure false

abbrev state_code : ThreadState → ℕ
state_code running = 0
state_code suspended = 1

pub state_map : Thread → Item
state_map t = map_item (
    pair_then "tid" (uint64_item t.id) (pair_then "state" (uint16_item (state_code t.ts)) no_pairs))

state_maps : List Thread → Items
state_maps [] = no_items
state_maps (t ∷ ts) = item_then (state_map t) (state_maps ts)

pub invalid_handler : Cmd Debuggee Status
invalid_handler = do set_message "invalid request for process" []; pure error

-- A handler that failed to reach debuggee memory.
memory_failure : Cmd Debuggee Status
memory_failure = do
  code ← gets (λ d. d.machine.failed_si_code)
  set_message "%s" (text (get_mem_errstr code) ∷ [])
  pure failure

pub data Handler : Type 0 where
  invalid continue read write state : Handler
  breakpoint_create breakpoint_install breakpoint_remove breakpoint_delete : Handler

unfoldable pub request_handlers : List Handler
request_handlers =
    invalid ∷ continue ∷ read ∷ write ∷ invalid ∷ invalid ∷ state ∷ invalid ∷ breakpoint_create
    ∷ breakpoint_install ∷ breakpoint_remove ∷ breakpoint_delete ∷ invalid ∷ invalid ∷ invalid
    ∷ invalid ∷ []

module _ (cbor : Cbor) where
  respond : ℕ → Option Item → Cmd Debuggee Status
  respond req_type item = write_response cbor udi_resp_valid req_type item

  respond_no_data : ℕ → Cmd Debuggee Status
  respond_no_data req_type = write_response_no_data cbor udi_resp_valid req_type

  resume : ℕ → Status → Cmd Debuggee Status
  resume sig success = do post_continue_hook sig; pure success
  resume sig status = pure status

  continue_process : ℕ → Cmd Debuggee Status
  continue_process sig = do
    threads ← gets (λ d. d.threads)
    if not (any_running threads)
        then (do set_message "cannot continue process, all threads are suspended" []; pure failure)
        else do
          bp ← gets (λ d. d.continue_bp)
          install_continue_bp bp
          multithreaded ← gets (λ d. d.multithread_capable)
          done ← (if multithreaded then dead_handshakes threads else pure true)
          if not done
              then pure error
              else do result ← respond_no_data udi_req_continue; resume sig result

  pub continue_handler : Cmd Debuggee Status
  continue_handler = do
    (result, sig) ← read_request_data cbor continue_config 0
    when_success result (continue_process sig)

  read_process : ReadMemReq → Cmd Debuggee Status
  read_process req =
      if not (cbor.can_allocate req.len)
      then (do set_message "failed to allocate memory" []; pure error)
      else do
        (done, bytes) ← on_machine (read_memory req.addr req.len)
        if not done
            then memory_failure
            else respond udi_req_read_mem (some (one_pair "data" (bytestring_item bytes)))

  pub read_handler : Cmd Debuggee Status
  read_handler = do
    (result, req) ← read_request_data cbor read_config (record { addr = 0; len = 0 })
    when_success result (read_process req)

  write_process : WriteMemReq → Cmd Debuggee Status
  write_process req = do
    (done, _) ← on_machine (write_memory req.addr req.bytes (length req.bytes))
    if not done then memory_failure else respond_no_data udi_req_write_mem

  pub write_handler : Cmd Debuggee Status
  write_handler = do
    (result, req) ← read_request_data cbor (write_config cbor) (record { addr = 0; bytes = [] })
    when_success result (write_process req)

  -- The array is allocated for `num_threads` members; one more fails an assertion.
  pub state_handler : Cmd Debuggee Status
  state_handler = do
    threads ← gets (λ d. d.threads)
    size ← gets (λ d. d.num_threads)
    if ltb size (length threads)
        then (λ _. fault)
        else respond udi_req_state (some (one_pair "states" (array_item (state_maps threads))))

  unfoldable pub read_breakpoint_addr : Cmd Debuggee (Status × ℕ)
  read_breakpoint_addr = read_request_data cbor breakpoint_config 0

  create_at : ℕ → Cmd Debuggee Status
  create_at addr = do
    old ← on_machine (find_breakpoint addr)
    if not (old == null)
        then (do set_message "breakpoint already exists at %a" (u64 addr ∷ []); pure failure)
        else do
          bp ← on_machine (create_breakpoint addr)
          if bp == null
              then (do
                set_message "failed to create breakpoint at %a" (u64 addr ∷ [])
                pure failure)
              else respond_no_data udi_req_create_breakpoint

  pub breakpoint_create_handler : Cmd Debuggee Status
  breakpoint_create_handler = do
    (result, addr) ← read_breakpoint_addr
    when_success result (create_at addr)

  -- `read_breakpoint` and the part of a handler behind it; the test for NULL is on the wrong pointer,
  -- so the structure may be NULL.
  with_breakpoint : (Ptr → Cmd Debuggee Status) → Cmd Debuggee Status
  with_breakpoint next = do
    (result, addr) ← read_breakpoint_addr
    when_success result (do bp ← on_machine (find_breakpoint addr); next bp)

  -- A breakpoint operation, and its response.
  operate : Cmd Debuggee Bool → ℕ → Cmd Debuggee Status
  operate operation req_type = do
    done ← operation
    if done then respond_no_data req_type else pure failure

  pub breakpoint_install_handler : Cmd Debuggee Status
  breakpoint_install_handler =
      with_breakpoint λ bp. operate (on_machine (install_breakpoint bp)) udi_req_install_breakpoint

  pub breakpoint_remove_handler : Cmd Debuggee Status
  breakpoint_remove_handler =
      with_breakpoint λ bp. operate (on_machine (remove_breakpoint bp)) udi_req_remove_breakpoint

  pub breakpoint_delete_handler : Cmd Debuggee Status
  breakpoint_delete_handler =
      with_breakpoint λ bp. operate (on_machine (delete_breakpoint bp)) udi_req_remove_breakpoint

  pub run_handler : Handler → Cmd Debuggee Status
  run_handler invalid = invalid_handler
  run_handler continue = continue_handler
  run_handler read = read_handler
  run_handler write = write_handler
  run_handler state = state_handler
  run_handler breakpoint_create = breakpoint_create_handler
  run_handler breakpoint_install = breakpoint_install_handler
  run_handler breakpoint_remove = breakpoint_remove_handler
  run_handler breakpoint_delete = breakpoint_delete_handler

  -- `request_handlers[*type]`: an index past the table is undefined.
  pub dispatch : Option Handler → Cmd Debuggee Status
  dispatch none = λ _. fault
  dispatch (some handler) = run_handler handler

  pub handle_process_request : (ℤ → List ℕ) → ℕ → Cmd Debuggee (Status × ℕ)
  handle_process_request strerror before =
      handle_request cbor strerror (λ req_type. dispatch (get_elem? request_handlers req_type))
        before
