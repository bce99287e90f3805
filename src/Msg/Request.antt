-- ===== src/Msg/Request.antt =====
-- The callbacks of udirt-msg.c that take a request apart: the request type, and its data, a map whose
-- keys a table of items lists.
pub mod Complete
use udi.Format.{int, text, size_t, pos}
use udi.Msg.{Event, uint8, uint16, map_start, string, name, strncmp_equal, Cbor}
use udi.Msg.Read.{ReadState, Callbacks, message}
use udi.Prelude.{
  ℕ, zero, suc, ◌+◌, Bool, true, false, Option, none, some, List, [], ◌∷◌, leb, ◌==◌, if◌then◌else◌,
  length, codes, String,
}

-- `struct msg_item`: a key, and the item's callbacks for data `D`: how an event is taken into the data;
-- `none` stands for an entry of `invalid_callbacks`.
pub record MsgItem (D : Type 0) : Type 0 where
  pub key : List ℕ
  pub accepts : Event → Option (D → D)

-- `struct msg_config`
abbrev pub MsgConfig : Type 0 → Type 0
MsgConfig D = List (MsgItem D)

-- `struct req_data_state`; `payload` is what its `data` points to.
pub record ReqDataState (D : Type 0) : Type 0 where
  pub current_item : Option (MsgItem D)
  pub item_count : ℕ
  pub error : Bool
  pub payload : D

abbrev pub fresh : {D : Type 0} → D → ReqDataState D
fresh d = record { current_item = none; item_count = 0; error = false; payload = d }

abbrev pub State : Type 0 → Type 0
State D = ReadState (ReqDataState D)

module _ {D : Type 0} where
  pub set_invalid_error : Event → State D → State D
  set_invalid_error e state = record state {
    done = true;
    ctx = record state.ctx { error = true };
    errmsg = message "received unexpected data item of type %s" (text (codes (name e)) ∷ []);
  }

  unfoldable pub complete_item : MsgConfig D → State D → State D
  complete_item config state = record state {
    done = if leb (length config) (state.ctx.item_count + 1) then true else state.done;
    ctx = record state.ctx { item_count = state.ctx.item_count + 1; current_item = none };
  }

  -- A callback of the current item.
  unfoldable pub item_callback : MsgConfig D → Event → Option (D → D) → State D → State D
  item_callback config e none state = set_invalid_error e state
  item_callback config e (some f) state =
      complete_item config
        (record state { ctx = record state.ctx { payload = f state.ctx.payload } })

  -- `check_state`, and the callback of the item that it returns.
  unfoldable pub checked : MsgConfig D → Event → Option (MsgItem D) → State D → State D
  checked config e none state = record state {
    done = true;
    ctx = record state.ctx { error = true };
    errmsg =
        message "received unexpected data item of type %s instead of map"
          (text (codes (name e)) ∷ []);
  }
  checked config e (some item) state = item_callback config e (item.accepts e) state

  unfoldable pub value_callback : MsgConfig D → Event → State D → State D
  value_callback config e state =
      if state.ctx.error then state else checked config e state.ctx.current_item state

  unfoldable pub check_length : MsgConfig D → ℕ → State D → State D
  check_length config len state = if length config == len then state else record state {
    ctx = record state.ctx { error = true };
    errmsg =
        message "Unexpected number of data items in map (expected %d, actual %l)"
          (int (pos (length config)) ∷ size_t len ∷ []);
  }

  unfoldable pub map_start_in : MsgConfig D → ℕ → Option (MsgItem D) → State D → State D
  map_start_in config len none state = check_length config len state
  map_start_in config len (some item) state = value_callback config (map_start len) state

  unfoldable pub request_data_map_start : MsgConfig D → ℕ → State D → State D
  request_data_map_start config len state =
      if state.ctx.error then state else map_start_in config len state.ctx.current_item state

  -- The first item whose key starts with the bytes.
  unfoldable pub locate : List ℕ → MsgConfig D → Option (MsgItem D)
  locate bytes [] = none
  locate bytes (item ∷ items) =
      if strncmp_equal bytes item.key then some item else locate bytes items

  unfoldable pub select : Cbor → List ℕ → Option (MsgItem D) → State D → State D
  select cbor bytes (some item) state = record state {
    ctx = record state.ctx { current_item = some item };
  }
  select cbor bytes none state = record state {
    ctx = record state.ctx { error = true };
    errmsg =
        message "failed to locate config item for %s"
          (text (if cbor.can_allocate (length bytes + 1) then bytes else codes "(no memory)") ∷ []);
  }

  unfoldable pub string_in : Cbor → MsgConfig D → List ℕ → Option (MsgItem D) → State D → State D
  string_in cbor config bytes none state = select cbor bytes (locate bytes config) state
  string_in cbor config bytes (some item) state = value_callback config (string bytes) state

  unfoldable pub request_data_string : Cbor → MsgConfig D → List ℕ → State D → State D
  request_data_string cbor config bytes state =
      if state.ctx.error then state else string_in cbor config bytes state.ctx.current_item state

  -- The callbacks of `read_request_data`.
  unfoldable pub request_data_callbacks : Cbor → MsgConfig D → Callbacks (ReqDataState D)
  request_data_callbacks cbor config (map_start len) = request_data_map_start config len
  request_data_callbacks cbor config (string bytes) = request_data_string cbor config bytes
  request_data_callbacks cbor config e = value_callback config e

-- `*type = value`, and the request is complete.
abbrev set_type : ℕ → State ℕ → State ℕ
set_type value state = record state { done = true; ctx = record state.ctx { payload = value } }

-- The callbacks of `read_request_type`.
unfoldable pub request_type_callbacks : Callbacks (ReqDataState ℕ)
request_type_callbacks (uint16 value) = set_type value
request_type_callbacks (uint8 value) = set_type value
request_type_callbacks e = set_invalid_error e
