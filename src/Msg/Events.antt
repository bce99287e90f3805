-- ===== src/Msg/Events.antt =====
-- The events that udirt-msg.c reports to the debugger.
pub mod Reported
use udi.Cmd.{Cmd, ok, fault, pure, ◌>>=◌, ◌>>◌}
use udi.Format.{ℤ, pos, negsuc}
use udi.Msg.{Cbor, Item, uint16_item, uint32_item, uint64_item, negint32_item, string_item}
use udi.Msg.Debuggee.{Status, success, Debuggee, gets, errmsg_text, on_events}
use udi.Msg.Write.{write_cbor_item, when_success, one_pair, abort_if_none}
use udi.Prelude.{
  ℕ, ◌-◌, ◌%◌, ◌^◌, Bool, true, false, Option, none, some, List, [], ◌∷◌, ltb, if◌then◌else◌,
}

-- The event types of udi.h
abbrev pub udi_event_unknown : ℕ
udi_event_unknown = 0

abbrev pub udi_event_error : ℕ
udi_event_error = 1

abbrev pub udi_event_breakpoint : ℕ
udi_event_breakpoint = 3

abbrev pub udi_event_thread_create : ℕ
udi_event_thread_create = 4

abbrev pub udi_event_thread_death : ℕ
udi_event_thread_death = 5

abbrev pub udi_event_process_exit : ℕ
udi_event_process_exit = 6

abbrev pub udi_event_process_fork : ℕ
udi_event_process_fork = 7

abbrev pub udi_event_single_step : ℕ
udi_event_single_step = 9

-- The item that stands for `status`, an `int32_t` given by its bits.
unfoldable pub exit_code : ℕ → Item
exit_code status = if ltb status (2 ^ 31) then uint32_item status else negint32_item status

module _ (cbor : Cbor) where
  write_event_data : Option Item → Cmd Debuggee Status
  write_event_data none = pure success
  write_event_data (some item) = write_cbor_item cbor item "event data"

  -- On the descriptor `events_handle`, as all calls have it.
  pub write_event : ℕ → ℕ → Option Item → Cmd Debuggee Status
  write_event event_type tid item = on_events (do
    result ← write_cbor_item cbor (uint16_item event_type) "event type"
    when_success result (do
      result' ← write_cbor_item cbor (uint64_item tid) "tid"
      when_success result' (write_event_data item)))

  pub write_event_no_data : ℕ → ℕ → Cmd Debuggee Status
  write_event_no_data event_type tid = write_event event_type tid none

  pub handle_thread_death_event : ℕ → Cmd Debuggee Status
  handle_thread_death_event tid = write_event_no_data udi_event_thread_death tid

  unfoldable pub handle_exit_event : ℕ → ℕ → Cmd Debuggee Status
  handle_exit_event tid status =
      write_event udi_event_process_exit tid (some (one_pair "code" (exit_code status)))

  unfoldable pub handle_fork_event : ℕ → ℕ → Cmd Debuggee Status
  handle_fork_event tid pid =
      write_event udi_event_process_fork tid (some (one_pair "pid" (uint32_item (pid % 2 ^ 32))))

  unfoldable pub handle_thread_create_event : ℕ → ℕ → Cmd Debuggee Status
  handle_thread_create_event creator_tid tid =
      write_event udi_event_thread_create creator_tid (some (one_pair "tid" (uint64_item tid)))

  pub handle_unknown_event : ℕ → Cmd Debuggee Status
  handle_unknown_event tid = write_event_no_data udi_event_unknown tid

  -- The message is the one that is set when the call is made.
  pub handle_error_event : (ℤ → List ℕ) → ℕ → Cmd Debuggee Status
  handle_error_event strerror tid = do
    errmsg ← gets (λ d. d.machine.errmsg)
    msg ← abort_if_none (errmsg_text strerror errmsg)
    write_event udi_event_error tid (some (one_pair "msg" (string_item msg)))
