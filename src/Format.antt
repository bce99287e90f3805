-- ===== src/Format.antt =====
-- The signal-safe formatter of libudirt/src/udirt.c: `udi_log_varargs` and the functions below it,
-- and `udi_formatted_str`, which fills the fixed-size error message buffers.
-- A sink call `cb(ctx, data, len)` is one chunk of bytes, and a run of the formatter is the list of
-- its chunks. `none` is undefined behaviour: a missing or ill-typed argument, a read behind the
-- end of the format, the negation of INT_MIN, or a copy past the end of the buffer.
pub mod Hex
pub mod Names
pub mod Numbered
pub mod Decimal
pub mod Bounds
mod Tests
use mathlib.Core.List.{reverse}
use udi.Prelude.{
  ℕ, zero, suc, ◌+◌, ◌-◌, ◌*◌, ◌/◌, ◌%◌, ◌^◌, Bool, true, false, Option, none, some, List, [], ◌∷◌,
  ◌++◌, map, ltb, leb, ◌==◌, if◌then◌else◌, codes, length, take, drop,
}

abbrev pub Chunk : Type 0
Chunk = List ℕ

-- A C `int`; `negsuc n` is -(n + 1).
pub data ℤ : Type 0 where
  pos : ℕ → ℤ
  negsuc : ℕ → ℤ

-- What the caller passes behind the format.
pub data Arg : Type 0 where
  u64 : ℕ → Arg
  int : ℤ → Arg
  size_t : ℕ → Arg
  text : List ℕ → Arg

-- The magnitude after `value = -value`.
magnitude : ℤ → Option ℕ
magnitude (pos n) = some n
magnitude (negsuc n) = if n == 2 ^ 31 - 1 then none else some (n + 1)

-- The digits in `buf`, the lowest first; the first argument is `10 - i`.
pub int_digits : ℕ → ℕ → List ℕ
int_digits zero value = []
int_digits (suc r) value =
    (value % 10 + b'0') ∷ (if ltb 0 (value / 10) then int_digits r (value / 10) else [])

pub sign_chunks : ℤ → List Chunk
sign_chunks (pos n) = []
sign_chunks (negsuc n) = codes "-" ∷ []

-- The digits are written one by one, the highest first.
pub log_integer : ℤ → Option (List Chunk)
unfolding magnitude int_digits sign_chunks
log_integer value = elim (magnitude value) [
  | none ↦ none
  | some n ↦ some (sign_chunks value ++ map (λ d. d ∷ []) (reverse (int_digits 10 n)))
]

log_nibble : ℕ → List Chunk
log_nibble nibble = ((if ltb nibble 10 then nibble + b'0' else (nibble - 10) + b'a') ∷ []) ∷ []

-- `(byte & 0xf0) >> 4` and `byte & 0x0f` are `byte / 16 % 16` and `byte % 16`.
log_byte : ℕ → List Chunk
unfolding log_nibble
log_byte byte = log_nibble (byte / 16 % 16) ++ log_nibble (byte % 16)

-- The loop over `shift`, which is eight times the first argument, and the last byte.
log_shifts : ℕ → ℕ → List Chunk
log_shifts zero address = log_byte (address % 256)
log_shifts (suc k) address = log_byte (address / 2 ^ (8 * suc k) % 256) ++ log_shifts k address

pub log_64bit : ℕ → List Chunk
unfolding log_shifts log_byte
log_64bit address = log_shifts 7 address

pub log_address : ℕ → List Chunk
unfolding log_64bit
log_address address = codes "0x" ∷ log_64bit address

log_string : List ℕ → List Chunk
log_string s = s ∷ []

-- `(int)value`
to_int : ℕ → ℤ
to_int value = let w = value % 2 ^ 32 in if ltb w (2 ^ 31) then pos w else negsuc (2 ^ 32 - w - 1)

log_size_t : ℕ → Option (List Chunk)
unfolding log_integer to_int
log_size_t value = log_integer (to_int value)

-- `(uint8_t)value`
to_byte : ℤ → ℕ
to_byte (pos n) = n % 256
to_byte (negsuc n) = 255 - n % 256

abbrev Rest : Type 0
Rest = Option (List Chunk × List Arg)

with_u64 : (ℕ → List Chunk) → List Arg → Rest
with_u64 f (u64 n ∷ args) = some (f n, args)
with_u64 f _ = none

with_int : (ℤ → Option (List Chunk)) → List Arg → Rest
with_int f (int n ∷ args) = elim (f n) [ none ↦ none | some out ↦ some (out, args) ]
with_int f _ = none

with_size : List Arg → Rest
unfolding log_size_t
with_size (size_t n ∷ args) = elim (log_size_t n) [ none ↦ none | some out ↦ some (out, args) ]
with_size _ = none

with_text : List Arg → Rest
unfolding log_string
with_text (text s ∷ args) = some (log_string s, args)
with_text _ = none

emit : List Chunk → Option (List Chunk) → Option (List Chunk)
emit out none = none
emit out (some rest) = some (out ++ rest)

-- `strerror` is what `udi_log_error` gets from `strerror_r`.
module _ (strerror : ℤ → List ℕ) where
  log_error : ℤ → List Chunk
  unfolding log_string
  log_error e = log_string (strerror e)

  -- The `switch` on the character behind a `%`.
  directive : ℕ → List Arg → Rest
  unfolding log_error log_address log_integer log_byte to_byte with_u64 with_int with_size with_text
  directive d args =
      if d == b'a'
      then with_u64 log_address args
      else if d == b'e'
      then with_int (λ e. some (log_error e)) args
      else if d == b's'
      then with_text args
      else if d == b'd'
      then with_int log_integer args
      else if d == b'b'
      then with_int (λ b. some (log_byte (to_byte b))) args
      else if d == b'l'
      then with_size args
      else if d == b'x'
      then with_u64 log_64bit args
      else some ((d ∷ []) ∷ [], args)

  pub log_varargs : List ℕ → List Arg → Option (List Chunk)
  unfolding directive emit
  log_varargs [] args = some []
  log_varargs (c ∷ []) args = if c == b'%' then none else some ((c ∷ []) ∷ [])
  log_varargs (c ∷ d ∷ format) args = elim (c == b'%') [
    | false ↦ emit ((c ∷ []) ∷ []) (log_varargs (d ∷ format) args)
    | true ↦ elim (directive d args) [
      | none ↦ none
      | some (out, args') ↦ emit out (log_varargs format args')
    ]
  ]

-- The sink of `udi_formatted_str`: a buffer, the bytes usable for text, and the write position.
pub record StrCtx : Type 0 where
  pub str : List ℕ
  pub size : ℕ
  pub idx : ℕ

-- `memcpy(str + idx, data, length data)`
memcpy_at : List ℕ → ℕ → List ℕ → Option (List ℕ)
memcpy_at str idx bytes =
    if leb (idx + length bytes) (length str)
    then some (take idx str ++ (bytes ++ drop (idx + length bytes) str))
    else none

copy_len : StrCtx → ℕ → ℕ
copy_len ctx len =
    if ltb ctx.size (ctx.idx + len) then (ctx.size + 2 ^ 64 - ctx.idx) % 2 ^ 64 else len

advance : StrCtx → ℕ → Option (List ℕ) → Option StrCtx
advance ctx n none = none
advance ctx n (some str) = some (record ctx { str = str; idx = ctx.idx + n })

write_n : StrCtx → List ℕ → ℕ → Option StrCtx
unfolding memcpy_at advance
write_n ctx bytes n =
    if ltb 0 n then advance ctx n (memcpy_at ctx.str ctx.idx (take n bytes)) else some ctx

write_string : StrCtx → List ℕ → Option StrCtx
unfolding copy_len write_n
write_string ctx bytes = write_n ctx bytes (copy_len ctx (length bytes))

write_strings : StrCtx → List Chunk → Option StrCtx
write_strings ctx [] = some ctx
write_strings ctx (c ∷ cs) = elim (write_string ctx c) [
  | none ↦ none
  | some ctx' ↦ write_strings ctx' cs
]

-- The context that `udi_formatted_str` starts with: `size - 1` in a `size_t`.
fresh_ctx : List ℕ → ℕ → StrCtx
fresh_ctx str size = record { str = str; size = (size + 2 ^ 64 - 1) % 2 ^ 64; idx = 0 }

terminate : Option StrCtx → Option (List ℕ)
unfolding memcpy_at
terminate none = none
terminate (some ctx) = memcpy_at ctx.str ctx.idx (0 ∷ [])

-- The buffer after `udi_formatted_str(str, size, format, args)`.
pub formatted_str : (ℤ → List ℕ) → List ℕ → ℕ → List ℕ → List Arg → Option (List ℕ)
unfolding write_strings write_string fresh_ctx terminate log_varargs
formatted_str strerror str size format args = elim (log_varargs strerror format args) [
  | none ↦ none
  | some chunks ↦ terminate (write_strings (fresh_ctx str size) chunks)
]

-- The members before the first NUL.
unfoldable pub until_nul : List ℕ → List ℕ
until_nul [] = []
until_nul (c ∷ cs) = if c == 0 then [] else c ∷ until_nul cs

-- The text in a buffer.
unfoldable pub text_of : Option (List ℕ) → Option (List ℕ)
text_of none = none
text_of (some buffer) = some (until_nul buffer)
