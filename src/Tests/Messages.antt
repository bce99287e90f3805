-- ===== src/Tests/Messages.antt =====
-- The theorems on the messages at concrete inputs.
use udi.Breakpoint.{breakpoint_hash}
use udi.Breakpoint.Chain.{Holds, find_in}
use udi.Cmd.{ok, fault}
use udi.Format.{ℤ}
use udi.Machine.{Machine, update}
use udi.Msg.{strncmp_equal, uint16_item, map_item, no_pairs}
use udi.Msg.Debuggee.{Debuggee, success}
use udi.Msg.Read.{after_decode, round, read_items, read_cbor_items, Ended}
use udi.Msg.Read.Returns.{Ends, read_cbor_items-Ends}
use udi.Msg.Request.{
  fresh, ReqDataState, request_data_callbacks, request_data_map_start, map_start_in, check_length,
  request_data_string, string_in, locate, select, value_callback, checked, item_callback,
  complete_item, request_type_callbacks,
}
use udi.Msg.Fields.{breakpoint_addr, breakpoint_config}
use udi.Msg.Process.{
  read_breakpoint_addr, breakpoint_create_handler, breakpoint_install_handler,
  breakpoint_remove_handler, breakpoint_delete_handler, handle_process_request,
}
use udi.Msg.Process.Breakpoints.{breakpoint_create_handler-new, missing_breakpoint-fault}
use udi.Msg.Process.Dispatch.{handled_as, handle_process_request-handled_as}
use udi.Msg.Write.{
  write_response, read_request_data, read_with, finish, read_status, read_request_type,
  udi_resp_valid, udi_req_create_breakpoint,
}
use udi.Msg.Write.Responses.{sent, bytes_of, write_response-sent}
use udi.Msg.Write.Counted.{read_request_data-counted}
use udi.Tests.Samples.{
  machine, machine-Holds, no_cells, with_breakpoint, one_cell, cbor, cbor-serializes,
  cbor-AsksForMore, debuggee, addr_request,
}
use udi.Prelude.{
  ℕ, ◌≤◌, ◌≡◌, refl, true, false, none, some, List, [], ◌∷◌, ◌++◌, arith, length, ◌==◌,
}

abbrev no_strerror : ℤ → List ℕ
no_strerror e = []

write_response-sent_example :
    write_response cbor 0 2 (some (map_item no_pairs)) (debuggee machine [])
    ≡ ok success (
        sent (debuggee machine []) (
          cbor.cbor_serialize (uint16_item 0)
          ++ (cbor.cbor_serialize (uint16_item 2) ++ bytes_of cbor (some (map_item no_pairs)))))
write_response-sent_example =
    write_response-sent cbor cbor-serializes (debuggee machine []) 0 2 (some (map_item no_pairs))
      refl

abbrev broken : Debuggee
broken = record (debuggee machine []) { write_errors = 32 ∷ [] }

read_cbor_items-Ends_example : Ends (
    read_cbor_items cbor
      (request_data_callbacks cbor breakpoint_config)
      (record { input = addr_request 5; input_error = 0 })
      (fresh 0)
      machine.errmsg)
read_cbor_items-Ends_example =
    read_cbor_items-Ends cbor (request_data_callbacks cbor breakpoint_config) cbor-AsksForMore
      (record { input = addr_request 5; input_error = 0 }) (fresh 0) machine.errmsg

-- What is left of the sample request, and its address.
read_addr_test :
    read_breakpoint_addr cbor (debuggee machine (addr_request 5))
    ≡ ok (success, 5) (debuggee machine [])
unfolding read_breakpoint_addr breakpoint_config breakpoint_addr read_request_data read_with finish
    read_status after_decode round read_items read_cbor_items request_data_callbacks
    request_data_map_start map_start_in check_length request_data_string string_in locate select
    value_callback checked item_callback complete_item strncmp_equal
read_addr_test = refl

-- The same for the request with the address 70 and a table that holds it.
read_held_addr_test :
    read_breakpoint_addr cbor (debuggee with_breakpoint (addr_request 70))
    ≡ ok (success, 70) (debuggee with_breakpoint [])
unfolding read_breakpoint_addr breakpoint_config breakpoint_addr read_request_data read_with finish
    read_status after_decode round read_items read_cbor_items request_data_callbacks
    request_data_map_start map_start_in check_length request_data_string string_in locate select
    value_callback checked item_callback complete_item strncmp_equal
read_held_addr_test = refl

breakpoint_create_handler-new_example :
    (m' : Machine) × (breakpoint_create_handler cbor (debuggee machine (addr_request 5))
      ≡ ok success (
          sent
            (record (debuggee machine []) { machine = m' })
            (cbor.cbor_serialize (uint16_item udi_resp_valid)
              ++ (cbor.cbor_serialize (uint16_item udi_req_create_breakpoint) ++ []))))
    × Holds m'
        (update no_cells (breakpoint_hash 5) (no_cells (breakpoint_hash 5) ++ ((500, 5) ∷ [])))
breakpoint_create_handler-new_example =
    breakpoint_create_handler-new cbor 5 500 (600 ∷ []) no_cells (debuggee machine (addr_request 5))
      (debuggee machine []) cbor-serializes read_addr_test machine-Holds refl refl (ground arith)
      refl refl

held : (find_in 70 (one_cell (breakpoint_hash 70)) == 500) ≡ true
unfolding find_in breakpoint_hash
held = refl

missing_breakpoint-fault_example :
    (breakpoint_install_handler cbor (debuggee machine (addr_request 5)) ≡ fault)
    × (breakpoint_remove_handler cbor (debuggee machine (addr_request 5)) ≡ fault)
    × (breakpoint_delete_handler cbor (debuggee machine (addr_request 5)) ≡ fault)
missing_breakpoint-fault_example =
    missing_breakpoint-fault cbor 5 no_cells (debuggee machine (addr_request 5))
      (debuggee machine []) read_addr_test machine-Holds refl

-- The read of a whole sample request.
abbrev complete : Ended (ReqDataState ℕ)
complete = record {
  success = true;
  pipe = record { input = []; input_error = 0 };
  state = record {
    done = true;
    ctx = record { current_item = none; item_count = 1; error = false; payload = 5 };
    errmsg = machine.errmsg;
  };
}

read_test :
    read_cbor_items cbor
      (request_data_callbacks cbor breakpoint_config)
      (record { input = addr_request 5; input_error = 0 })
      (fresh 0)
      machine.errmsg
    ≡ some complete
unfolding breakpoint_config breakpoint_addr after_decode round read_items read_cbor_items
    request_data_callbacks request_data_map_start map_start_in check_length request_data_string
    string_in locate select value_callback checked item_callback complete_item strncmp_equal
read_test = refl

read_request_data-counted_example :
    (complete.state.done ≡ true) × (length breakpoint_config ≤ complete.state.ctx.item_count)
unfolding read_status
read_request_data-counted_example =
    read_request_data-counted cbor breakpoint_config
      (record { input = addr_request 5; input_error = 0 }) 0 machine.errmsg complete read_test refl

read_type_test :
    read_request_type cbor 0 (debuggee machine (20 ∷ [])) ≡ ok (success, 20) (debuggee machine [])
unfolding read_request_type read_with finish read_status after_decode round read_items
    read_cbor_items request_type_callbacks
read_type_test = refl

read_init_test :
    read_request_type cbor 0 (debuggee machine (7 ∷ [])) ≡ ok (success, 7) (debuggee machine [])
unfolding read_request_type read_with finish read_status after_decode round read_items
    read_cbor_items request_type_callbacks
read_init_test = refl

handle_process_request-handled_as_example :
    handle_process_request cbor no_strerror 0 (debuggee machine (7 ∷ []))
    ≡ handled_as cbor no_strerror 7 (debuggee machine [])
handle_process_request-handled_as_example =
    handle_process_request-handled_as cbor no_strerror 0 7 (debuggee machine (7 ∷ []))
      (debuggee machine []) read_init_test
