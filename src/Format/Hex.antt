-- ===== src/Format/Hex.antt =====
-- The hexadecimal output of `udi_log_64bit` reads back as the number that was printed.
use mathlib.Core.List.{flatten}
use udi.Prelude.{
  ℕ, suc, ◌+◌, ◌-◌, ◌*◌, ◌/◌, ◌%◌, ◌^◌, ◌<◌, ◌≡◌, refl, List, [], ◌∷◌, ◌++◌, arith, ltb,
  if◌then◌else◌, length,
}
use udi.Format.{log_nibble, log_byte, log_shifts, log_64bit}

abbrev hex_digit : ℕ → ℕ
hex_digit d = if ltb d b'a' then d - b'0' else d - b'a' + 10

-- The number that a run of hexadecimal digits spells, behind those already read.
pub hex_value : ℕ → List ℕ → ℕ
hex_value acc [] = acc
hex_value acc (d ∷ ds) = hex_value (acc * 16 + hex_digit d) ds

log_byte-hex :
    (acc b : ℕ) (ds : List ℕ)
    → b < 256
    → hex_value acc (flatten (log_byte b) ++ ds) ≡ hex_value (acc * 256 + b) ds
unfolding hex_value log_byte log_nibble flatten
log_byte-hex acc b ds h = ground arith

log_shifts-hex :
    (acc k a : ℕ)
    → hex_value acc (flatten (log_shifts (suc k) a))
      ≡ hex_value (acc * 256 + a / 2 ^ (8 * suc k) % 256) (flatten (log_shifts k a))
unfolding log_shifts log_byte log_nibble flatten
log_shifts-hex acc k a =
    log_byte-hex acc (a / 2 ^ (8 * suc k) % 256) (flatten (log_shifts k a)) (omega arith)

last_byte-hex : (acc a : ℕ) → hex_value acc (flatten (log_shifts 0 a)) ≡ acc * 256 + a % 256
unfolding log_shifts hex_value log_byte log_nibble flatten
last_byte-hex acc a = log_byte-hex acc (a % 256) [] (omega arith)

-- Printing a 64-bit value gives sixteen hexadecimal digits that read back as the value.
pub hex_value-log_64bit :
    (a : ℕ)
    → a < 2 ^ 64
    → (length (flatten (log_64bit a)) ≡ 16) × (hex_value 0 (flatten (log_64bit a)) ≡ a)
hex_value-log_64bit a h = (
  unfold log_64bit log_shifts log_byte log_nibble flatten in refl,
  unfold log_64bit in
      rw
        (
          log_shifts-hex, log_shifts-hex, log_shifts-hex, log_shifts-hex, log_shifts-hex,
          log_shifts-hex, log_shifts-hex, last_byte-hex,
        )
        (omega arith),
)
