-- ===== src/Msg/Write.antt =====
-- Reading a request from the pipe into the debuggee's state, and the responses of udirt-msg.c.
pub mod Responses
pub mod Counted
use udi.Cmd.{Cmd, Run, ok, fault, stuck, pure, ◌>>=◌, ◌>>◌}
use udi.Format.{ℤ, int, text, pos}
use udi.Machine.{Machine}
use udi.Msg.{Cbor, Item, uint16_item, string_item, map_item, no_pairs, pair_then}
use udi.Msg.Read.{Callbacks, Ended, read_cbor_items}
use udi.Msg.Request.{ReqDataState, MsgConfig, fresh, request_data_callbacks, request_type_callbacks}
use udi.Msg.Debuggee.{
  Status, success, error, failure, Debuggee, gets, modify, set_message, write_to, errmsg_text,
}
use udi.Prelude.{
  ℕ, zero, suc, Bool, true, false, Option, none, some, List, [], ◌∷◌, String, codes, ◌==◌,
  if◌then◌else◌,
}

-- The request types of udi.h
abbrev pub udi_req_invalid : ℕ
udi_req_invalid = 0

abbrev pub udi_req_continue : ℕ
udi_req_continue = 1

abbrev pub udi_req_read_mem : ℕ
udi_req_read_mem = 2

abbrev pub udi_req_write_mem : ℕ
udi_req_write_mem = 3

abbrev pub udi_req_read_register : ℕ
udi_req_read_register = 4

abbrev pub udi_req_write_register : ℕ
udi_req_write_register = 5

abbrev pub udi_req_state : ℕ
udi_req_state = 6

abbrev pub udi_req_init : ℕ
udi_req_init = 7

abbrev pub udi_req_create_breakpoint : ℕ
udi_req_create_breakpoint = 8

abbrev pub udi_req_install_breakpoint : ℕ
udi_req_install_breakpoint = 9

abbrev pub udi_req_remove_breakpoint : ℕ
udi_req_remove_breakpoint = 10

abbrev pub udi_req_delete_breakpoint : ℕ
udi_req_delete_breakpoint = 11

abbrev pub udi_req_thread_suspend : ℕ
udi_req_thread_suspend = 12

abbrev pub udi_req_thread_resume : ℕ
udi_req_thread_resume = 13

abbrev pub udi_req_next_instruction : ℕ
udi_req_next_instruction = 14

abbrev pub udi_req_single_step : ℕ
udi_req_single_step = 15

abbrev pub udi_resp_valid : ℕ
udi_resp_valid = 0

abbrev pub udi_resp_error : ℕ
udi_resp_error = 1

module _ {D : Type 0} where
  -- The status of a message that the read loop ended with, and its data.
  unfoldable pub read_status : Ended (ReqDataState D) → Status
  read_status e = if e.success then (if e.state.ctx.error then failure else success) else error

  unfoldable pub finish : Debuggee → Option (Ended (ReqDataState D)) → Run Debuggee (Status × D)
  finish d none = stuck
  finish d (some e) =
      ok (read_status e, e.state.ctx.payload)
        (record d { pipe = e.pipe; machine = record d.machine { errmsg = e.state.errmsg } })

  -- `read_cbor_items` with a fresh `struct req_data_state`, and the result.
  unfoldable pub read_with : Cbor → Callbacks (ReqDataState D) → D → Cmd Debuggee (Status × D)
  read_with cbor callbacks blank d =
      finish d (read_cbor_items cbor callbacks d.pipe (fresh blank) d.machine.errmsg)

  unfoldable pub read_request_data : Cbor → MsgConfig D → D → Cmd Debuggee (Status × D)
  read_request_data cbor config = read_with cbor (request_data_callbacks cbor config)

-- `before` is what `*type` held.
unfoldable pub read_request_type : Cbor → ℕ → Cmd Debuggee (Status × ℕ)
read_request_type cbor before = read_with cbor request_type_callbacks before

write_serialized : String → List ℕ → Cmd Debuggee Status
write_serialized name [] = do
  set_message "failed to serialize %s" (text (codes name) ∷ [])
  pure error
write_serialized name (b ∷ bytes) = do
  errnum ← write_to (b ∷ bytes)
  if errnum == 0 then pure success else do
    set_message "failed to write %s: %e" (text (codes name) ∷ int (pos errnum) ∷ [])
    pure error

pub write_cbor_item : Cbor → Item → String → Cmd Debuggee Status
write_cbor_item cbor item name = write_serialized name (cbor.cbor_serialize item)

-- The rest of a function that returns early unless the result is `RESULT_SUCCESS`.
abbrev pub when_success : Status → Cmd Debuggee Status → Cmd Debuggee Status
when_success success next = next
when_success status next = pure status

write_data : Cbor → Option Item → Cmd Debuggee Status
write_data cbor none = pure success
write_data cbor (some item) = write_cbor_item cbor item "response data"

pub write_response : Cbor → ℕ → ℕ → Option Item → Cmd Debuggee Status
write_response cbor resp_type req_type item = do
  result ← write_cbor_item cbor (uint16_item resp_type) "response type"
  when_success result (do
    result' ← write_cbor_item cbor (uint16_item req_type) "request type"
    when_success result' (write_data cbor item))

unfoldable pub write_response_no_data : Cbor → ℕ → ℕ → Cmd Debuggee Status
write_response_no_data cbor resp_type req_type = write_response cbor resp_type req_type none

-- Only its first item: what a map of one key holds.
abbrev pub one_pair : String → Item → Item
one_pair key item = map_item (pair_then key item no_pairs)

pub abort_if_none : Option (List ℕ) → Cmd Debuggee (List ℕ)
abort_if_none none = λ _. fault
abort_if_none (some bytes) = pure bytes

-- Failures of the write go into a message of their own.
pub write_error_response : Cbor → (ℤ → List ℕ) → ℕ → Cmd Debuggee Status
write_error_response cbor strerror req_type = do
  errmsg ← gets (λ d. d.machine.errmsg)
  msg ← abort_if_none (errmsg_text strerror errmsg)
  result ← write_response cbor udi_resp_error req_type (some (one_pair "msg" (string_item msg)))
  modify (λ d. record d { machine = record d.machine { errmsg = errmsg } })
  pure result

-- A request type that was read, and what its handler did; `UDI_REQ_INVALID` if there was none.
unfoldable pub handle_type : (ℕ → Cmd Debuggee Status) → Status × ℕ → Cmd Debuggee (Status × ℕ)
handle_type handlers (success, req_type) = do result ← handlers req_type; pure (result, req_type)
handle_type handlers (status, req_type) = pure (status, udi_req_invalid)

-- A failure becomes an error if its response cannot be written.
abbrev pub worse : Status → Status → Status
worse failure error = error
worse result error_result = result

unfoldable pub respond_to_error : Cbor → (ℤ → List ℕ) → Status × ℕ → Cmd Debuggee (Status × ℕ)
respond_to_error cbor strerror (success, req_type) = pure (success, req_type)
respond_to_error cbor strerror (status, req_type) = do
  error_result ← write_error_response cbor strerror req_type
  pure (worse status error_result, req_type)

-- `handle_process_request` and `handle_thread_request`, by their tables: the status, and `*type`, which
-- was `before`.
unfoldable pub handle_request :
    Cbor → (ℤ → List ℕ) → (ℕ → Cmd Debuggee Status) → ℕ → Cmd Debuggee (Status × ℕ)
handle_request cbor strerror handlers before = do
  read ← read_request_type cbor before
  handled ← handle_type handlers read
  respond_to_error cbor strerror handled
