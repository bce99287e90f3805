-- ===== src/Msg/Fields.antt =====
-- The fields of the requests for the process and what is stored of each (udirt-msg.c, udi.h).
use udi.Msg.{Event, uint8, uint16, uint32, uint64, byte_string, Cbor}
use udi.Msg.Request.{MsgConfig, MsgItem}
use udi.Prelude.{ℕ, Option, none, some, List, [], ◌∷◌, String, codes, if◌then◌else◌, length}

-- `read_mem_req` and `write_mem_req`; the bytes to write are `data` and `len`.
pub record ReadMemReq : Type 0 where
  pub addr : ℕ
  pub len : ℕ

pub record WriteMemReq : Type 0 where
  pub addr : ℕ
  pub bytes : List ℕ

abbrev pub entry : {D : Type 0} → String → (Event → Option (D → D)) → MsgItem D
entry key accepts = record { key = codes key; accepts = accepts }

continue_sig : Event → Option (ℕ → ℕ)
continue_sig (uint32 value) = some (λ _. value)
continue_sig (uint16 value) = some (λ _. value)
continue_sig (uint8 value) = some (λ _. value)
continue_sig _ = none

pub continue_config : MsgConfig ℕ
continue_config = entry "sig" continue_sig ∷ []

read_addr : Event → Option (ReadMemReq → ReadMemReq)
read_addr (uint64 value) = some (λ r. record r { addr = value })
read_addr _ = none

read_len : Event → Option (ReadMemReq → ReadMemReq)
read_len (uint32 value) = some (λ r. record r { len = value })
read_len _ = none

pub read_config : MsgConfig ReadMemReq
read_config = entry "addr" read_addr ∷ entry "len" read_len ∷ []

write_addr : Event → Option (WriteMemReq → WriteMemReq)
write_addr (uint64 value) = some (λ r. record r { addr = value })
write_addr _ = none

-- Where the copy cannot be allocated, the length keeps its 0.
write_data : Cbor → Event → Option (WriteMemReq → WriteMemReq)
write_data cbor (byte_string bytes) =
    some (λ r. if cbor.can_allocate (length bytes) then record r { bytes = bytes } else r)
write_data cbor _ = none

pub write_config : Cbor → MsgConfig WriteMemReq
write_config cbor = entry "addr" write_addr ∷ entry "data" (write_data cbor) ∷ []

unfoldable pub breakpoint_addr : Event → Option (ℕ → ℕ)
breakpoint_addr (uint64 value) = some (λ _. value)
breakpoint_addr (uint32 value) = some (λ _. value)
breakpoint_addr (uint16 value) = some (λ _. value)
breakpoint_addr (uint8 value) = some (λ _. value)
breakpoint_addr _ = none

unfoldable pub breakpoint_config : MsgConfig ℕ
breakpoint_config = entry "addr" breakpoint_addr ∷ []
