-- ===== src/Msg/Init.antt =====
-- The init handshake of libudirt/src/udirt-msg.c, for the process and for a thread, with
-- `request_type_str` and `get_protocol_version` of udirt.c and `get_architecture` of udirt-x86.c.
pub mod Handshake
use udi.Cmd.{Cmd, ok, fault, pure, ◌>>=◌, ◌>>◌}
use udi.Format.{ℤ, text}
use udi.Msg.{
  Cbor, Item, uint16_item, uint32_item, uint64_item, bool_item, map_item, no_pairs, pair_then,
}
use udi.Msg.Debuggee.{Status, success, error, failure, Debuggee, gets, set_message}
use udi.Msg.Write.{
  read_request_type, write_response, write_error_response, udi_req_invalid, udi_req_init,
  udi_resp_valid,
}
use udi.Prelude.{
  ℕ, Bool, true, false, Option, none, some, List, [], ◌∷◌, String, codes, ◌==◌, if◌then◌else◌,
  get_elem?,
}

abbrev pub get_protocol_version : ℕ
get_protocol_version = 1

-- `UDI_ARCH_X86_64`
abbrev pub get_architecture : ℕ
get_architecture = 1

abbrev request_names : List String
request_names =
    "UDI_REQ_INVALID" ∷ "UDI_REQ_CONTINUE" ∷ "UDI_REQ_READ_MEM" ∷ "UDI_REQ_WRITE_MEM"
    ∷ "UDI_REQ_READ_REGISTER" ∷ "UDI_REQ_WRITE_REGISTER" ∷ "UDI_REQ_STATE" ∷ "UDI_REQ_INIT"
    ∷ "UDI_REQ_CREATE_BREAKPOINT" ∷ "UDI_REQ_INSTALL_BREAKPOINT" ∷ "UDI_REQ_REMOVE_BREAKPOINT"
    ∷ "UDI_REQ_DELETE_BREAKPOINT" ∷ "UDI_REQ_THREAD_SUSPEND" ∷ "UDI_REQ_THREAD_RESUME"
    ∷ "UDI_REQ_NEXT_INSTRUCTION" ∷ "UDI_REQ_SINGLE_STEP" ∷ []

name_or_unknown : Option String → String
name_or_unknown none = "UNKNOWN"
name_or_unknown (some name) = name

pub request_type_str : ℕ → String
request_type_str req_type = name_or_unknown (get_elem? request_names req_type)

-- The map of the response.
abbrev pub init_data : Bool → ℕ → Item
init_data mt tid = map_item (
    pair_then "v" (uint32_item get_protocol_version) (
      pair_then "arch" (uint16_item get_architecture)
        (pair_then "mt" (bool_item mt) (pair_then "tid" (uint64_item tid) no_pairs))))

module _ (cbor : Cbor) where
  init_handler : ℕ → Cmd Debuggee Status
  init_handler tid = do
    mt ← gets (λ d. d.multithread_capable)
    write_response cbor udi_resp_valid udi_req_init (some (init_data mt tid))

  -- Once the response pipe is open.
  answer_init : (ℤ → List ℕ) → ℕ → ℕ → Cmd Debuggee Status
  answer_init strerror tid req_type = if req_type == udi_req_init then init_handler tid else do
    set_message "received invalid request type(%s) as init request"
        (text (codes (request_type_str req_type)) ∷ [])
    _ ← write_error_response cbor strerror req_type
    pure error

  open_and_answer : (ℤ → List ℕ) → ℕ → ℕ → Status → Cmd Debuggee Status
  open_and_answer strerror tid req_type success = answer_init strerror tid req_type
  open_and_answer strerror tid req_type status = pure status

  after_type : (ℤ → List ℕ) → Cmd Debuggee Status → ℕ → Status × ℕ → Cmd Debuggee Status
  after_type strerror callback tid (success, req_type) = do
    result ← callback
    open_and_answer strerror tid req_type result
  after_type strerror callback tid (status, req_type) = pure status

  -- `callback` opens the response pipe.
  pub perform_init_handshake : (ℤ → List ℕ) → Cmd Debuggee Status → ℕ → Cmd Debuggee Status
  perform_init_handshake strerror callback tid = do
    read ← read_request_type cbor udi_req_invalid
    after_type strerror callback tid read
