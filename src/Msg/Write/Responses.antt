-- ===== src/Msg/Write/Responses.antt =====
-- What goes out on the response pipe.
use mathlib.Core.List.{append_assoc, append-nil}
use udi.Cmd.{ok}
use udi.Format.{text, int, pos}
use udi.Machine.{set_errmsg}
use udi.Msg.{Cbor, Item, uint16_item}
use udi.Msg.Debuggee.{success, error, Debuggee, write_to, set_message, epipe}
use udi.Msg.Write.{write_serialized, write_cbor_item, write_data, write_response}
use udi.Prelude.{
  ℕ, ◌≡◌, ◌≢◌, refl, true, Option, none, some, List, [], ◌∷◌, ◌++◌, arith, String, codes, ◌||◌,
  ◌==◌, if◌then◌else◌, ==_ne,
}

-- The bytes of an item that may be missing.
abbrev pub bytes_of : Cbor → Option Item → List ℕ
bytes_of cbor none = []
bytes_of cbor (some item) = cbor.cbor_serialize item

-- `d` with more bytes on an unbroken response pipe.
abbrev pub sent : Debuggee → List ℕ → Debuggee
sent d bytes = record d { output = d.output ++ bytes; write_errors = [] }

write_serialized-sent :
    (d : Debuggee) (name : String) (bytes : List ℕ)
    → d.write_errors ≡ []
    → bytes ≢ []
    → write_serialized name bytes d ≡ ok success (sent d bytes)
unfolding write_serialized write_to
write_serialized-sent d name [] e ne = absurd (ne refl)
write_serialized-sent d name (b ∷ bytes) e ne = rw e

write_serialized-broken :
    (d : Debuggee) (name : String) (bytes : List ℕ) {errnum : ℕ} {later : List ℕ}
    → d.write_errors ≡ errnum ∷ later
    → errnum ≢ 0
    → bytes ≢ []
    → (d' : Debuggee) × (write_serialized name bytes d ≡ ok error d')
      × (d'.output ≡ d.output)
      × (d'.write_errors ≡ later)
      × (d'.pipe_write_failure ≡ (d.pipe_write_failure || (errnum == epipe)))
unfolding write_serialized write_to set_message set_errmsg
write_serialized-broken d name [] e z ne = absurd (ne refl)
write_serialized-broken d name (b ∷ bytes) {errnum} {later} e z ne = (
  record d {
    write_errors = later;
    pipe_write_failure = if errnum == epipe then true else d.pipe_write_failure;
    machine = record d.machine {
      errmsg = record {
        format = "failed to write %s: %e";
        args = text (codes name) ∷ int (pos errnum) ∷ [];
      };
    };
  },
  rw (e, ==_ne errnum 0 z) refl,
  refl,
  refl,
  ground arith,
)

module _ (cbor : Cbor) (serializes : (item : Item) → cbor.cbor_serialize item ≢ []) where
  pub write_cbor_item-sent :
      (d : Debuggee) (item : Item) (name : String)
      → d.write_errors ≡ []
      → write_cbor_item cbor item name d ≡ ok success (sent d (cbor.cbor_serialize item))
  unfolding write_cbor_item
  write_cbor_item-sent d item name e = write_serialized-sent d name _ e (serializes item)

  -- With a serializer that gives bytes for every item and a response pipe whose writes succeed,
  -- `write_response` succeeds and appends exactly the bytes of the response type, of the request type
  -- and of the data, in this order; without data, only the first two. Nothing else changes.
  pub write_response-sent :
      (d : Debuggee) (resp_type req_type : ℕ) (item : Option Item)
      → d.write_errors ≡ []
      → write_response cbor resp_type req_type item d
        ≡ ok success (
            sent d (
              cbor.cbor_serialize (uint16_item resp_type)
              ++ (cbor.cbor_serialize (uint16_item req_type) ++ bytes_of cbor item)))
  unfolding write_response write_data
  write_response-sent d resp_type req_type none e =
      rw (write_cbor_item-sent d (uint16_item resp_type) "response type" e) (
        rw
          (write_cbor_item-sent (sent d (cbor.cbor_serialize (uint16_item resp_type)))
            (uint16_item req_type) "request type" refl)
          (simp (append_assoc, append-nil)))
  write_response-sent d resp_type req_type (some item) e =
      rw (write_cbor_item-sent d (uint16_item resp_type) "response type" e) (
        rw
          (write_cbor_item-sent (sent d (cbor.cbor_serialize (uint16_item resp_type)))
            (uint16_item req_type) "request type" refl)
          (rw
            (write_cbor_item-sent
              (sent (sent d (cbor.cbor_serialize (uint16_item resp_type)))
                (cbor.cbor_serialize (uint16_item req_type)))
              item "response data" refl)
            (simp (append_assoc, append-nil))))

  -- With a serializer that gives bytes for every item, if writing the response type fails, the result
  -- is an error, nothing more is written, and EPIPE is recorded as a broken pipe.
  pub write_response-broken :
      (d : Debuggee) (resp_type req_type errnum : ℕ) (item : Option Item) (later : List ℕ)
      → d.write_errors ≡ errnum ∷ later
      → errnum ≢ 0
      → (d' : Debuggee) × (write_response cbor resp_type req_type item d ≡ ok error d')
        × (d'.output ≡ d.output)
        × (d'.write_errors ≡ later)
        × (d'.pipe_write_failure ≡ (d.pipe_write_failure || (errnum == epipe)))
  unfolding write_response write_cbor_item
  write_response-broken d resp_type req_type errnum item later e ne =
      let (d', run, out, rest, flag) =
        write_serialized-broken d "response type" _ e ne (serializes (uint16_item resp_type)) in
      (d', rw run refl, out, rest, flag)
