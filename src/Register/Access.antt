-- ===== src/Register/Access.antt =====
-- What `get_register` and `set_register` do with the registers of a context.
use udi.Cmd.{ok}
use udi.Format.{text, int, pos}
use udi.Machine.{Message, Machine, set_errmsg, update}
use udi.Register.{
  register_str, arch_str, Context, read_fp, get_fp_register, index, minus_one, get_architecture,
  x86_64, outside, validate_register, gregs_of, get_udi_reg_context_offset, read_at, write_at,
  get_register, set_register,
}
use udi.Prelude.{
  codes, [], ◌∷◌, sym, ==_refl, ◌⊎◌, ℕ, ◌-◌, ◌≤◌, ◌≡◌, ◌≢◌, refl, true, false, none, some, arith,
  leb, ◌==◌, if◌then◌else◌,
}

-- The place in `gregs` of a general-purpose register.
slot : ℕ → ℕ
slot reg = if leb reg 43 then reg - 27 else if leb reg 44 then 18 else 17

gregs_of_lem : (reg : ℕ) → gregs_of reg ≡ index (slot reg)
unfolding gregs_of slot
gregs_of_lem reg = ground arith

slot-apart : (a b : ℕ) → 27 ≤ a → a ≤ 45 → 27 ≤ b → b ≤ 45 → a ≢ b → (slot a == slot b) ≡ false
unfolding slot
slot-apart a b la ha lb hb ne = ground arith

module _ (m : Machine) (reg : ℕ) (low : 27 ≤ reg) (high : reg ≤ 45) where
  valid : validate_register reg m ≡ ok true m
  unfolding validate_register outside get_architecture
  valid = ground arith

  offset : get_udi_reg_context_offset reg ≡ index (slot reg)
  unfolding get_udi_reg_context_offset
  offset = ground (arith, gregs_of_lem reg)

  get_register-slot :
      (context : Context) → get_register reg context m ≡ ok (some (context (slot reg))) m
  unfolding get_register read_at
  get_register-slot context = rw (valid, offset)

  set_register-slot :
      (value : ℕ) (context : Context)
      → set_register reg value context m ≡ ok (some (update context (slot reg) value)) m
  unfolding set_register write_at
  set_register-slot value context = rw (valid, offset)

-- `set_register` of a 64-bit general-purpose register succeeds; `get_register` then returns the
-- value, and what it returned before for every other such register.
pub get_register-set_register :
    (m : Machine) (context : Context) (reg value : ℕ)
    → 27 ≤ reg
    → reg ≤ 45
    → (context' : Context) × (set_register reg value context m ≡ ok (some context') m)
      × (get_register reg context' m ≡ ok (some value) m)
      × ((other : ℕ)
          → 27 ≤ other
          → other ≤ 45
          → reg ≢ other
          → get_register other context' m ≡ get_register other context m)
get_register-set_register m context reg value low high = (
  update context (slot reg) value,
  set_register-slot m reg low high value context,
  rw (get_register-slot m reg low high, ==_refl (slot reg)),
  λ other l h ne.
      rw (get_register-slot m other l h, slot-apart reg other low high l h ne)
        (sym (get_register-slot m other l h context)),
)

outside-invalid : (reg : ℕ) → (reg ≤ 26) ⊎ (70 ≤ reg) → outside x86_64 reg ≡ true
unfolding outside
outside-invalid reg h = ground arith

abbrev message_for : ℕ → Message
message_for reg = record {
  format = "invalid register %s for architecture %s";
  args = text (codes (register_str reg)) ∷ text (codes (arch_str x86_64)) ∷ [];
}

register-invalid :
    (m : Machine) (context : Context) (reg value : ℕ)
    → (reg ≤ 26) ⊎ (70 ≤ reg)
    → (m' : Machine) × (get_register reg context m ≡ ok none m')
      × (set_register reg value context m ≡ ok none m')
unfolding get_register set_register validate_register get_architecture set_errmsg
register-invalid m context reg value h = (
  record m { errmsg = message_for reg },
  rw (outside-invalid reg h) refl,
  rw (outside-invalid reg h) refl,
)

module _ (m : Machine) (reg : ℕ) (low : 46 ≤ reg) (high : reg ≤ 69) where
  fp_valid : validate_register reg m ≡ ok true m
  unfolding validate_register outside get_architecture
  fp_valid = ground arith

  fp_offset : get_udi_reg_context_offset reg ≡ minus_one
  unfolding get_udi_reg_context_offset
  fp_offset = ground arith

fp_register-ignored :
    (m : Machine) (context : Context) (reg value : ℕ)
    → 46 ≤ reg
    → reg ≤ 69
    → (set_register reg value context m ≡ ok (some context) m)
      × ((m' : Machine) × (get_register reg context m ≡ ok none m'))
unfolding get_register set_register read_at write_at read_fp get_fp_register set_errmsg
fp_register-ignored m context reg value low high = (
  rw (fp_valid m reg low high, fp_offset m reg low high),
  (
    record m { errmsg = record { format = "invalid register %d"; args = int (pos reg) ∷ [] } },
    rw (fp_valid m reg low high, fp_offset m reg low high),
  ),
)

-- A number outside the 64-bit registers is rejected by `get_register` and by `set_register`; for an
-- x87 or SSE register, `set_register` reports success and changes nothing, while `get_register` fails.
pub register-unsupported :
    (m : Machine) (context : Context) (reg fp_reg value : ℕ)
    → (reg ≤ 26) ⊎ (70 ≤ reg)
    → 46 ≤ fp_reg
    → fp_reg ≤ 69
    → ((m' : Machine) × (get_register reg context m ≡ ok none m')
        × (set_register reg value context m ≡ ok none m'))
      × (set_register fp_reg value context m ≡ ok (some context) m)
      × ((m' : Machine) × (get_register fp_reg context m ≡ ok none m'))
register-unsupported m context reg fp_reg value h low high = (
  register-invalid m context reg value h,
  (fp_register-ignored m context fp_reg value low high).0,
  (fp_register-ignored m context fp_reg value low high).1,
)
