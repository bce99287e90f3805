-- ===== src/Msg/Read.antt =====
-- `read_cbor_items` and `read_from`: bytes are read as the decoder asks for them until a callback says
-- that the message is complete.
pub mod Returns
pub mod Stream
use udi.Format.{Arg, int, pos}
use udi.Machine.{Message}
use udi.Msg.{Event, Decoded, error, needs, finished, Cbor}
use udi.Prelude.{
  ℕ, zero, suc, ◌+◌, ◌-◌, Bool, true, false, not, ◌&&◌, Option, none, some, List, [], ◌∷◌, ◌++◌,
  String, ltb, leb, ◌==◌, if◌then◌else◌, length, take, drop,
}

-- `struct cbor_read_state` with the request state `Q` that `ctx` points to, and the error message.
pub record ReadState (Q : Type 0) : Type 0 where
  pub done : Bool
  pub ctx : Q
  pub errmsg : Message

-- The request pipe: the bytes to come, and what `read` does behind them: 0 is the end of file, any
-- other number an `errno`.
pub record Pipe : Type 0 where
  pub input : List ℕ
  pub input_error : ℕ

abbrev pub message : String → List Arg → Message
message format args = record { format = format; args = args }

-- `data`, a `struct cbor_callbacks` as one function.
abbrev pub Callbacks : Type 0 → Type 0
Callbacks Q = Event → ReadState Q → ReadState Q

-- What the loop ends with: whether its result is 0, the pipe and the state.
pub record Ended (Q : Type 0) : Type 0 where
  pub success : Bool
  pub pipe : Pipe
  pub state : ReadState Q

abbrev larger : ℕ → ℕ → ℕ
larger maxbuflen buflen = if ltb maxbuflen buflen then buflen else maxbuflen

module _ {Q : Type 0} where
  pub fail_with : String → List Arg → Pipe → ReadState Q → Ended Q
  fail_with format args pipe state = record {
    success = false;
    pipe = pipe;
    state = record state { errmsg = message format args };
  }

  pub read_failure : Pipe → ReadState Q → Ended Q
  read_failure pipe state =
      if pipe.input_error == 0
      then fail_with "failed to read CBOR data due to unexpected end-of-file" []
          (record pipe { input = [] }) state
      else fail_with "failed to read CBOR data: %e" (int (pos pipe.input_error) ∷ [])
          (record pipe { input = [] }) state

  -- The loop, where `again` is the next round: with a buffer of the bytes so far, the size allocated
  -- and the size wanted.
  unfoldable pub after_decode :
      Callbacks Q
      → (List ℕ → ℕ → Pipe → ReadState Q → Option (Ended Q))
      → List ℕ
      → Pipe
      → ReadState Q
      → Decoded
      → Option (Ended Q)
  after_decode callbacks again buffer pipe state error =
      some (fail_with "failed to decode CBOR data" [] pipe state)
  after_decode callbacks again buffer pipe state (needs n) = again buffer n pipe state
  after_decode callbacks again buffer pipe state (finished e) =
      let state' = callbacks e state in
      let next = again [] 1 pipe state' in
      if state'.done then some (record { success = true; pipe = pipe; state = state' }) else next

  -- One round: grow the buffer, read the missing bytes, decode.
  unfoldable pub round :
      Cbor
      → Callbacks Q
      → (ℕ → List ℕ → ℕ → Pipe → ReadState Q → Option (Ended Q))
      → ℕ
      → List ℕ
      → ℕ
      → Pipe
      → ReadState Q
      → Option (Ended Q)
  round cbor callbacks again maxbuflen buffer buflen pipe state =
      let missing = buflen - length buffer in
      let buffer' = buffer ++ take missing pipe.input in
      let pipe' = record pipe { input = drop missing pipe.input } in
      let next =
        after_decode callbacks (again (larger maxbuflen buflen)) buffer' pipe' state
          (cbor.cbor_stream_decode buffer') in
      if ltb maxbuflen buflen && not (cbor.can_allocate buflen)
      then some (fail_with "failed to allocate memory" [] pipe state)
      else if leb missing (length pipe.input)
      then next
      else some (read_failure pipe state)

  unfoldable pub read_items :
      Cbor → Callbacks Q → ℕ → ℕ → List ℕ → ℕ → Pipe → ReadState Q → Option (Ended Q)
  read_items cbor callbacks zero maxbuflen buffer buflen pipe state = none
  read_items cbor callbacks (suc k) maxbuflen buffer buflen pipe state =
      round cbor callbacks (read_items cbor callbacks k) maxbuflen buffer buflen pipe state

  -- `none` would be a loop that needs more rounds: one more than there are bytes is always enough
  -- for a decoder that asks for more than it has.
  unfoldable pub read_cbor_items : Cbor → Callbacks Q → Pipe → Q → Message → Option (Ended Q)
  read_cbor_items cbor callbacks pipe ctx errmsg =
      read_items cbor callbacks (suc (length pipe.input)) 0 [] 1 pipe
        (record { done = false; ctx = ctx; errmsg = errmsg })
