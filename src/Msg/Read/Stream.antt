-- ===== src/Msg/Read/Stream.antt =====
-- What the read loop keeps: a property of the state that every callback preserves.
use udi.Msg.{Event, Decoded, error, needs, finished, Cbor}
use udi.Msg.Read.{
  Pipe, Callbacks, Ended, ReadState, after_decode, round, read_items, read_cbor_items, larger,
  fail_with, read_failure,
}
use udi.Machine.{Message}
use udi.Prelude.{
  ℕ, zero, suc, ◌-◌, ◌≡◌, refl, Bool, true, false, not, ◌&&◌, Option, none, some, List, [], arith,
  ltb, leb, length, if◌then◌else◌,
}

module _ {Q : Type 0} (P : ReadState Q → Type 0) where
  -- If the loop ended with success, its last callback completed the message in a state with `P`.
  abbrev pub Good : Option (Ended Q) → Type 0
  Good none = Unit
  Good (some e) = e.success ≡ true → (e.state.done ≡ true) × P e.state

  if-Good :
      (b : Bool) (x y : Option (Ended Q))
      → (b ≡ true → Good x)
      → (b ≡ false → Good y)
      → Good (if b then x else y)
  if-Good true x y f g = f refl
  if-Good false x y f g = g refl

  read_failure-Good : (pipe : Pipe) (state : ReadState Q) → Good (some (read_failure pipe state))
  unfolding read_failure fail_with
  read_failure-Good pipe state = ground arith

  module _ (cbor : Cbor) (callbacks : Callbacks Q)
      (keeps : (e : Event) (s : ReadState Q) → P s → P (callbacks e s)) where
    after_decode-Good :
        (again : List ℕ → ℕ → Pipe → ReadState Q → Option (Ended Q)) (buffer : List ℕ) (pipe : Pipe)
        (state : ReadState Q) (d : Decoded)
        → P state
        → ((b : List ℕ) (n : ℕ) (s : ReadState Q) → P s → Good (again b n pipe s))
        → Good (after_decode callbacks again buffer pipe state d)
    unfolding after_decode fail_with
    after_decode-Good again buffer pipe state error p ih = λ h. ground arith
    after_decode-Good again buffer pipe state (needs n) p ih = ih buffer n state p
    after_decode-Good again buffer pipe state (finished ev) p ih =
        if-Good (ReadState.done (callbacks ev state)) _ _ (λ e h. (e, keeps ev state p))
          (λ e. ih [] 1 _ (keeps ev state p))

    read_items-Good :
        (k maxbuflen : ℕ) (buffer : List ℕ) (buflen : ℕ) (pipe : Pipe) (state : ReadState Q)
        → P state
        → Good (read_items cbor callbacks k maxbuflen buffer buflen pipe state)
    unfolding read_items round fail_with
    read_items-Good zero maxbuflen buffer buflen pipe state p = tt
    read_items-Good (suc k) maxbuflen buffer buflen pipe state p =
        if-Good (ltb maxbuflen buflen && not (cbor.can_allocate buflen)) _ _ (λ e h. ground arith)
          (λ e.
            if-Good (leb (buflen - length buffer) (length pipe.input)) _ _
              (λ enough.
                after_decode-Good (read_items cbor callbacks k (larger maxbuflen buflen)) _ _ state
                  _ p (λ b n s. read_items-Good k (larger maxbuflen buflen) b n _ s))
              (λ e. read_failure-Good pipe state))

    -- A property of the state that holds at the start and that every callback preserves holds when
    -- the loop ends with success, and the message was then completed by a callback.
    pub read_cbor_items-Good :
        (pipe : Pipe) (ctx : Q) (errmsg : Message)
        → P (record { done = false; ctx = ctx; errmsg = errmsg })
        → Good (read_cbor_items cbor callbacks pipe ctx errmsg)
    unfolding read_cbor_items
    read_cbor_items-Good pipe ctx errmsg p =
        read_items-Good (suc (length pipe.input)) 0 [] 1 pipe _ p
