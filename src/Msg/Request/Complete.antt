-- ===== src/Msg/Request/Complete.antt =====
-- A request is complete only with an error or with as many values as the table has items.
use udi.Msg.{Event, map_start, string, Cbor}
use udi.Msg.Request.{
  MsgItem, MsgConfig, State, set_invalid_error, complete_item, item_callback, checked,
  value_callback, check_length, map_start_in, request_data_map_start, locate, select, string_in,
  request_data_string, request_data_callbacks,
}
use udi.Prelude.{ℕ, ◌≤◌, ◌≡◌, true, false, Option, none, some, List, arith, length}

-- Not complete, or with an error, or with a value for each item.
abbrev pub IsSound : {D : Type 0} → MsgConfig D → State D → Type 0
IsSound config s = s.done ≡ true → s.ctx.error ≡ false → length config ≤ s.ctx.item_count

module _ {D : Type 0} (cbor : Cbor) (config : MsgConfig D) where
  checked-IsSound :
      (e : Event) (item : Option (MsgItem D)) (s : State D)
      → IsSound config s
      → IsSound config (checked config e item s)
  unfolding checked item_callback set_invalid_error complete_item
  checked-IsSound e none s p = ground arith
  checked-IsSound e (some item) s p = ground arith

  value_callback-IsSound :
      (e : Event) (s : State D) → IsSound config s → IsSound config (value_callback config e s)
  unfolding value_callback
  value_callback-IsSound e s p = ground (arith, checked-IsSound e s.ctx.current_item s p)

  map_start-IsSound :
      (len : ℕ) (item : Option (MsgItem D)) (s : State D)
      → IsSound config s
      → IsSound config (map_start_in config len item s)
  unfolding map_start_in check_length
  map_start-IsSound len none s p = ground arith
  map_start-IsSound len (some item) s p = value_callback-IsSound (map_start len) s p

  select-IsSound :
      (bytes : List ℕ) (item : Option (MsgItem D)) (s : State D)
      → IsSound config s
      → IsSound config (select cbor bytes item s)
  unfolding select
  select-IsSound bytes none s p = ground arith
  select-IsSound bytes (some item) s p = p

  string-IsSound :
      (bytes : List ℕ) (item : Option (MsgItem D)) (s : State D)
      → IsSound config s
      → IsSound config (string_in cbor config bytes item s)
  unfolding string_in
  string-IsSound bytes none s p = select-IsSound bytes (locate bytes config) s p
  string-IsSound bytes (some item) s p = value_callback-IsSound (string bytes) s p

  -- Every callback of `read_request_data` keeps a state sound.
  pub callbacks-IsSound :
      (e : Event) (s : State D)
      → IsSound config s
      → IsSound config (request_data_callbacks cbor config e s)
  unfolding request_data_callbacks request_data_map_start request_data_string
  callbacks-IsSound (map_start len) s p =
      ground (arith, map_start-IsSound len s.ctx.current_item s p)
  callbacks-IsSound (string bytes) s p = ground (arith, string-IsSound bytes s.ctx.current_item s p)
  callbacks-IsSound e s p = value_callback-IsSound e s p
