-- ===== src/Tests/Handshake.antt =====
-- The theorems on the init handshake and on the events pipe at concrete inputs.
use udi.Cmd.{Cmd, ok, pure, ◌>>=◌, ◌>>◌}
use udi.Format.{ℤ, text}
use udi.Msg.{uint16_item}
use udi.Msg.Debuggee.{Status, success, error, Debuggee, set_message}
use udi.Msg.Init.{init_data, perform_init_handshake, request_type_str}
use udi.Msg.Init.Handshake.{perform_init_handshake-answers}
use udi.Msg.Read.{after_decode, round, read_items, read_cbor_items}
use udi.Msg.Request.{request_type_callbacks}
use udi.Msg.Write.{
  read_request_type, read_with, finish, read_status, write_error_response, udi_req_init,
  udi_resp_valid,
}
use udi.Msg.Write.Responses.{sent}
use udi.Tests.Samples.{machine, cbor, cbor-serializes, debuggee}
use udi.Prelude.{ℕ, ◌≡◌, refl, List, [], ◌∷◌, ◌++◌, codes, ◌==◌, if◌then◌else◌}

abbrev no_strerror : ℤ → List ℕ
no_strerror e = []

abbrev opens : Cmd Debuggee Status
opens = pure success

other_type_test :
    read_request_type cbor 0 (debuggee machine (1 ∷ [])) ≡ ok (success, 1) (debuggee machine [])
unfolding read_request_type read_with finish read_status after_decode round read_items
    read_cbor_items request_type_callbacks
other_type_test = refl

perform_init_handshake-answers_example :
    perform_init_handshake cbor no_strerror opens 41 (debuggee machine (1 ∷ [])) ≡ (
      if 1 == udi_req_init
      then ok success (
          sent (debuggee machine []) (
            cbor.cbor_serialize (uint16_item udi_resp_valid)
            ++ (cbor.cbor_serialize (uint16_item udi_req_init)
                ++ cbor.cbor_serialize (init_data (debuggee machine []).multithread_capable 41))))
      else (do
        set_message "received invalid request type(%s) as init request"
            (text (codes (request_type_str 1)) ∷ [])
        _ ← write_error_response cbor no_strerror 1
        pure error)
          (debuggee machine []))
perform_init_handshake-answers_example =
    perform_init_handshake-answers cbor no_strerror opens 41 1 (debuggee machine (1 ∷ []))
      (debuggee machine []) (debuggee machine []) cbor-serializes other_type_test refl refl
