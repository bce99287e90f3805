-- ===== src/Msg/Events/Reported.antt =====
-- What goes out on the events pipe, and what the exit code of an exit event stands for.
use mathlib.Core.List.{append_assoc, append-nil}
use udi.Cmd.{ok}
use udi.Format.{ℤ, pos, negsuc}
use udi.Msg.{Cbor, Item, uint16_item, uint32_item, uint64_item, negint32_item}
use udi.Msg.Debuggee.{success, Debuggee}
use udi.Msg.Events.{exit_code, write_event, write_event_data}
use udi.Msg.Write.Responses.{sent, write_cbor_item-sent, bytes_of}
use udi.Prelude.{
  ℕ, ◌-◌, ◌^◌, ◌<◌, ◌≡◌, ◌≢◌, ◌↔◌, refl, Option, none, some, List, [], ◌++◌, arith, ltb,
  if◌then◌else◌,
}

-- The number that an integer item of the wire stands for.
pub denoted : Item → ℤ
denoted (negint32_item n) = negsuc n
denoted (uint32_item n) = pos n
denoted _ = pos 0

-- The number that 32 bits stand for as an `int32_t`.
pub int32 : ℕ → ℤ
int32 bits = if ltb bits (2 ^ 31) then pos bits else negsuc (2 ^ 32 - 1 - bits)

-- For 32 bits, the item of the exit code stands for the exit status as a signed number exactly if
-- it is not negative.
pub exit_code-denoted :
    (status : ℕ) → status < 2 ^ 32 → (denoted (exit_code status) ≡ int32 status) ↔ (status < 2 ^ 31)
unfolding exit_code denoted int32
exit_code-denoted status h = ground arith

-- `d` with more bytes on an unbroken events pipe.
abbrev pub reported : Debuggee → List ℕ → Debuggee
reported d bytes = record d { events = d.events ++ bytes; write_errors = [] }

-- `d` as a function sees it that is given the events pipe.
abbrev inside : Debuggee → Debuggee
inside d = record d { output = d.events }

module _ (cbor : Cbor) (serializes : (item : Item) → cbor.cbor_serialize item ≢ []) where
  -- With a serializer that gives bytes for every item and an events pipe whose writes succeed,
  -- `write_event` succeeds and appends to the events exactly the bytes of the event type, of the
  -- thread's id and of the data, if there is any, in this order; no response is written, and nothing
  -- else changes.
  pub write_event-reported :
      (d : Debuggee) (event_type tid : ℕ) (item : Option Item)
      → d.write_errors ≡ []
      → write_event cbor event_type tid item d
        ≡ ok success (
            reported d (
              cbor.cbor_serialize (uint16_item event_type)
              ++ (cbor.cbor_serialize (uint64_item tid) ++ bytes_of cbor item)))
  unfolding write_event write_event_data
  write_event-reported d event_type tid none e =
      rw (write_cbor_item-sent cbor serializes (inside d) (uint16_item event_type) "event type" e) (
        rw
          (write_cbor_item-sent cbor serializes
            (sent (inside d) (cbor.cbor_serialize (uint16_item event_type))) (uint64_item tid) "tid"
            refl)
          (simp (append_assoc, append-nil)))
  write_event-reported d event_type tid (some item) e =
      rw (write_cbor_item-sent cbor serializes (inside d) (uint16_item event_type) "event type" e) (
        rw
          (write_cbor_item-sent cbor serializes
            (sent (inside d) (cbor.cbor_serialize (uint16_item event_type))) (uint64_item tid) "tid"
            refl)
          (rw
            (write_cbor_item-sent cbor serializes
              (sent (sent (inside d) (cbor.cbor_serialize (uint16_item event_type)))
                (cbor.cbor_serialize (uint64_item tid)))
              item "event data" refl)
            (simp (append_assoc, append-nil))))
