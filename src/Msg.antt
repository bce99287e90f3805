-- ===== src/Msg.antt =====
-- The wire messages of libudirt/src/udirt-msg.c. CBOR is libcbor's, an interface: its decoder turns
-- the bytes collected so far into an event, asks for more, or fails; its serializer gives the bytes of
-- an item, none on failure.
pub mod Read
pub mod Request
pub mod Debuggee
pub mod Files
pub mod Write
pub mod Fields
pub mod Process
pub mod Thread
pub mod Events
pub mod Hit
pub mod Init
use udi.Prelude.{
  ℕ, suc, ◌+◌, ◌<◌, ◌≡◌, Bool, true, false, ◌&&◌, ◌||◌, List, [], ◌∷◌, ◌==◌, String, codes, length,
}

-- What `cbor_stream_decode` calls back with: the callbacks of `struct cbor_callbacks`. The values of
-- floating-point items are never used.
pub data Event : Type 0 where
  uint8 uint16 uint32 uint64 : ℕ → Event
  negint8 negint16 negint32 negint64 : ℕ → Event
  byte_string string : List ℕ → Event
  byte_string_start string_start : Event
  array_start map_start tag : ℕ → Event
  indef_array_start indef_map_start : Event
  float2 float4 float8 : Event
  undefined null_value indef_break : Event
  boolean : Bool → Event

-- The name that the callback macros give an event, in messages.
pub name : Event → String
name (uint8 n) = "uint8"
name (uint16 n) = "uint16"
name (uint32 n) = "uint32"
name (uint64 n) = "uint64"
name (negint8 n) = "negint8"
name (negint16 n) = "negint16"
name (negint32 n) = "negint32"
name (negint64 n) = "negint64"
name (byte_string bytes) = "byte_string"
name (string bytes) = "string"
name byte_string_start = "byte_string_start"
name string_start = "string_start"
name (array_start n) = "array_start"
name (map_start n) = "map_start"
name (tag n) = "tag"
name indef_array_start = "indef_array_start"
name indef_map_start = "indef_map_start"
name float2 = "float2"
name float4 = "float4"
name float8 = "float8"
name undefined = "undefined"
name null_value = "null"
name indef_break = "indef_break"
name (boolean b) = "boolean"

-- `struct cbor_decoder_result`; on `finished` the callback has been called with the event.
pub data Decoded : Type 0 where
  error : Decoded
  needs : ℕ → Decoded
  finished : Event → Decoded

-- `cbor_item_t`, as far as the code builds items.
mutual
  pub data Item : Type 0 where
    uint16_item uint32_item uint64_item negint32_item : ℕ → Item
    bool_item : Bool → Item
    bytestring_item string_item : List ℕ → Item
    array_item : Items → Item
    map_item : Pairs → Item

  pub data Items : Type 0 where
    no_items : Items
    item_then : Item → Items → Items

  pub data Pairs : Type 0 where
    no_pairs : Pairs
    pair_then : String → Item → Pairs → Pairs

-- `strncmp(data, key, length data) == 0`, where `key` is followed by a NUL.
unfoldable pub strncmp_equal : List ℕ → List ℕ → Bool
strncmp_equal [] key = true
strncmp_equal (c ∷ data') [] = c == 0
strncmp_equal (c ∷ data') (k ∷ key) = (c == k) && ((c == 0) || strncmp_equal data' key)

-- libcbor, and which sizes the allocator grants.
pub record Cbor : Type 0 where
  pub cbor_stream_decode : List ℕ → Decoded
  pub cbor_serialize : Item → List ℕ
  pub can_allocate : ℕ → Bool

-- The documented behaviour of the decoder that the read loop needs to end: the size that it asks for
-- is more than it was given.
pub record AsksForMore (cbor : Cbor) : Type 0 where
  pub more :
      (buffer : List ℕ) (n : ℕ) → Cbor.cbor_stream_decode cbor buffer ≡ needs n → length buffer < n
