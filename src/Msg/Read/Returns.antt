-- ===== src/Msg/Read/Returns.antt =====
-- The read loop ends.
use udi.Msg.{Decoded, error, needs, finished, Cbor, AsksForMore}
use udi.Msg.Read.{
  Pipe, Callbacks, Ended, ReadState, after_decode, round, read_items, read_cbor_items, larger,
}
use udi.Machine.{Message}
use udi.Prelude.{
  ℕ, zero, suc, ◌-◌, ◌<◌, ◌≡◌, refl, Bool, true, false, not, ◌&&◌, Option, some, List, [], arith,
  ltb, leb, length, length-drop, if◌then◌else◌,
}

-- The loop came to an end.
abbrev pub Ends : {Q : Type 0} → Option (Ended Q) → Type 0
Ends r = (e : Ended _) × (r ≡ some e)

if-Ends :
    {Q : Type 0} (b : Bool)
    → {x y : Option (Ended Q)} → Ends x
    → (b ≡ false → Ends y)
    → Ends (if b then x else y)
if-Ends true x y = x
if-Ends false x y = y refl

if-Ends' :
    {Q : Type 0} (b : Bool)
    → {x y : Option (Ended Q)} → (b ≡ true → Ends x)
    → Ends y
    → Ends (if b then x else y)
if-Ends' true x y = x refl
if-Ends' false x y = y

module _ {Q : Type 0} (cbor : Cbor) (callbacks : Callbacks Q) (law : AsksForMore cbor) where
  after_decode-Ends :
      (again : List ℕ → ℕ → Pipe → ReadState Q → Option (Ended Q)) (buffer : List ℕ) (pipe : Pipe)
      (state : ReadState Q) (d : Decoded)
      → cbor.cbor_stream_decode buffer ≡ d
      → ((b : List ℕ) (n : ℕ) (s : ReadState Q) → length b < n → Ends (again b n pipe s))
      → Ends (after_decode callbacks again buffer pipe state d)
  unfolding after_decode
  after_decode-Ends again buffer pipe state error at ih = (_, refl)
  after_decode-Ends again buffer pipe state (needs n) at ih =
      ih buffer n state (law.more buffer n at)
  after_decode-Ends again buffer pipe state (finished ev) at ih =
      if-Ends (ReadState.done (callbacks ev state)) (_, refl) (λ e. ih [] 1 _ (omega arith))

  read_items-Ends :
      (k maxbuflen : ℕ) (buffer : List ℕ) (buflen : ℕ) (pipe : Pipe) (state : ReadState Q)
      → length buffer < buflen
      → length pipe.input < k
      → Ends (read_items cbor callbacks k maxbuflen buffer buflen pipe state)
  unfolding read_items round
  read_items-Ends zero maxbuflen buffer buflen pipe state wanted h = elim h [ ]
  read_items-Ends (suc k) maxbuflen buffer buflen pipe state wanted h =
      if-Ends (ltb maxbuflen buflen && not (cbor.can_allocate buflen)) (_, refl)
        (λ e.
          if-Ends' (leb (buflen - length buffer) (length pipe.input))
            (λ enough.
              after_decode-Ends (read_items cbor callbacks k (larger maxbuflen buflen)) _ _ state _
                refl
                (λ b n s want.
                  read_items-Ends k (larger maxbuflen buflen) b n _ s want
                    (ground (arith, length-drop (buflen - length buffer) pipe.input))))
            (_, refl))

  -- For a decoder that only ever asks for more bytes than it has, the read loop comes to an end, with
  -- success or a failure, on every input, every callback table and every allocation outcome.
  pub read_cbor_items-Ends :
      (pipe : Pipe) (ctx : Q) (errmsg : Message)
      → Ends (read_cbor_items cbor callbacks pipe ctx errmsg)
  unfolding read_cbor_items
  read_cbor_items-Ends pipe ctx errmsg =
      read_items-Ends (suc (length pipe.input)) 0 [] 1 pipe _ (omega arith) (omega arith)
