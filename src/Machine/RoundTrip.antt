-- ===== src/Machine/RoundTrip.antt =====
-- Bytes that were written are read back.
use udi.Cmd.{ok}
use udi.Machine.{Machine, update, read_memory, write_memory}
use udi.Machine.Access.{
  IsOpen, accessed, mapped_bytes, all_mapped, write_bytes, read_memory-mapped, write_memory-mapped,
}
use udi.Prelude.{
  ℕ, zero, suc, ◌+◌, ◌<◌, ◌≤◌, ◌≡◌, refl, true, Option, some, List, [], ◌∷◌, arith, ◌⊎◌, inl, inr,
  Option-cases, length,
}

-- A write changes only its range.
write_bytes-outside :
    (mem : ℕ → Option ℕ) (bytes : List ℕ) (dest a : ℕ)
    → (a < dest) ⊎ (dest + length bytes ≤ a)
    → write_bytes mem bytes dest a ≡ mem a
unfolding write_bytes
write_bytes-outside mem [] dest a h = refl
write_bytes-outside mem (b ∷ bytes) dest a h =
    ground (arith, write_bytes-outside (update mem dest (some b)) bytes (dest + 1) a (ground arith))

all_mapped-next :
    (mem : ℕ → Option ℕ) (n src a b : ℕ)
    → a < src
    → all_mapped mem n src ≡ true
    → all_mapped (update mem a (some b)) n src ≡ true
unfolding all_mapped
all_mapped-next mem zero src a b h e = refl
all_mapped-next mem (suc n) src a b h e = ground (arith, all_mapped-next mem n (src + 1) a b)

written :
    (mem : ℕ → Option ℕ) (bytes : List ℕ) (dest : ℕ)
    → all_mapped mem (length bytes) dest ≡ true
    → (all_mapped (write_bytes mem bytes dest) (length bytes) dest ≡ true)
      × (mapped_bytes (write_bytes mem bytes dest) (length bytes) dest ≡ bytes)
unfolding all_mapped mapped_bytes write_bytes
written mem [] dest e = (refl, refl)
written mem (b ∷ bytes) dest e = elim (Option-cases (mem dest)) [
  | inl z ↦ absurd (ground arith)
  | inr (o, z) ↦
      let keep =
        write_bytes-outside (update mem dest (some b)) bytes (dest + 1) dest (ground arith) in
      let (mapped, back) =
        written (update mem dest (some b)) bytes (dest + 1) (
          all_mapped-next mem (length bytes) (dest + 1) dest b (omega arith) (ground (arith, z))) in
      (ground (arith, mapped, keep, z), ground (arith, back, keep, z))
]

-- With accessible pages, no failing hook and a mapped range, `write_memory` followed by `read_memory`
-- of the same range returns the bytes written; memory outside the range is unchanged.
pub read_memory-write_memory :
    (m : Machine) (dest : ℕ) (bytes : List ℕ)
    → IsOpen m
    → m.pre_hooks ≡ []
    → m.post_hooks ≡ []
    → all_mapped m.mem (length bytes) dest ≡ true
    → (m' m'' : Machine) × (write_memory dest bytes (length bytes) m ≡ ok (true, tt) m')
      × (read_memory dest (length bytes) m' ≡ ok (true, bytes) m'')
      × ((a : ℕ) → (a < dest) ⊎ (dest + length bytes ≤ a) → m''.mem a ≡ m.mem a)
read_memory-write_memory m dest bytes o pre post mapped = (
  m',
  accessed m' dest (length bytes),
  rw (write_memory-mapped m dest bytes o, mapped) refl,
  rw (read_memory-mapped m' dest (length bytes) still, again.0, again.1) refl,
  λ a h. write_bytes-outside m.mem bytes dest a h,
)
  where
    m' : Machine
    m' = record (accessed m dest (length bytes)) { mem = write_bytes m.mem bytes dest }

    again :
        (all_mapped (write_bytes m.mem bytes dest) (length bytes) dest ≡ true)
        × (mapped_bytes (write_bytes m.mem bytes dest) (length bytes) dest ≡ bytes)
    again = written m.mem bytes dest mapped

    still : IsOpen m'
    still = record {
      readable = o.readable;
      writable = o.writable;
      rounds = o.rounds;
      idle = o.idle;
      pre = rw pre;
      post = rw post;
    }
