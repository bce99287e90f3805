-- ===== src/X86/Successor.antt =====
-- Where control goes after a return, a relative jump and an instruction that falls through.
use udi.Cmd.{ok}
use udi.Machine.{Machine}
use udi.Machine.Access.{IsOpen, accessed, noted, mapped_bytes, all_mapped, read_memory-mapped}
use udi.Register.{Context}
use udi.X86.{
  ret, other, Instruction, Operand, OperandType, op_jimm, sign_extend, compute_relative_location,
  target_of, compute_target, little_endian, kind, conditional, abort_if_none, report_zero,
  next_address, successor_of, decoded, get_ctf_successor, ctf_condition_met,
}
use udi.Prelude.{
  Bool-cases, inl, inr, ℕ, ◌+◌, ◌%◌, ◌^◌, ◌≡◌, ◌≢◌, refl, Bool, true, false, ◌||◌, Option, some,
  arith, ◌==◌, if◌then◌else◌, ==_ne,
}

abbrev pub is_jump_size : ℕ → Bool
is_jump_size n = (n == 8) || ((n == 16) || ((n == 32) || (n == 64)))

-- Where a relative jump goes: taken or not.
abbrev pub jump_goal : Instruction → ℕ → Bool → ℕ
jump_goal insn pc true =
    ((pc + insn.insn_len) % 2 ^ 64 + sign_extend insn.operand.size insn.operand.lval) % 2 ^ 64
jump_goal insn pc false = (pc + insn.insn_len) % 2 ^ 64

relative :
    (op : Operand) (pc : ℕ)
    → is_jump_size op.size ≡ true
    → compute_relative_location op pc ≡ (pc + sign_extend op.size op.lval) % 2 ^ 64
unfolding compute_relative_location
relative op pc s = ground arith

target_of-jimm :
    (type : OperandType) (op : Operand) (pc : ℕ) (context : Context)
    → type ≡ op_jimm
    → is_jump_size op.size ≡ true
    → target_of type op pc context ≡ some ((pc + sign_extend op.size op.lval) % 2 ^ 64)
unfolding target_of
target_of-jimm type op pc context t s = rw (t, relative op pc s)

report_zero-nonzero :
    (m : Machine) (pc successor : ℕ) → successor ≢ 0 → report_zero pc successor m ≡ ok successor m
unfolding report_zero
report_zero-nonzero m pc successor ne = rw (==_ne successor 0 ne)

module _ (disassemble : Machine → ℕ → Option Instruction) where
  -- The successor of a RET is the 8-byte little-endian number at the stack pointer, or 0 where one of
  -- these bytes is not mapped.
  pub get_ctf_successor-ret :
      (m : Machine) (pc : ℕ) (context : Context) (insn : Instruction)
      → IsOpen m
      → disassemble m pc ≡ some insn
      → insn.mnemonic ≡ ret
      → (let done = all_mapped m.mem 8 (context 15) in
          get_ctf_successor disassemble pc context m
          ≡ ok
              (if done then little_endian (mapped_bytes m.mem 8 (context 15)) else 0)
              (noted (accessed m (context 15) 8) done))
  unfolding get_ctf_successor decoded successor_of kind
  get_ctf_successor-ret m pc context insn o d r =
      rw (d, decoded, r, kind, successor_of, read_memory-mapped m (context 15) 8 o) refl

  -- The successor of a conditional jump with an 8-, 16-, 32- or 64-bit displacement is the next
  -- instruction's address plus the sign-extended displacement if its condition is met, and the next
  -- instruction's address if not, unless that number is 0.
  pub get_ctf_successor-relative :
      (m : Machine) (pc : ℕ) (context : Context) (insn : Instruction)
      → disassemble m pc ≡ some insn
      → kind insn.mnemonic ≡ conditional
      → insn.operand.type ≡ op_jimm
      → is_jump_size insn.operand.size ≡ true
      → jump_goal insn pc (ctf_condition_met insn.mnemonic context) ≢ 0
      → get_ctf_successor disassemble pc context m
        ≡ ok (jump_goal insn pc (ctf_condition_met insn.mnemonic context)) m
  unfolding get_ctf_successor decoded successor_of compute_target abort_if_none next_address
  get_ctf_successor-relative m pc context insn d k t s ne =
      elim (Bool-cases (ctf_condition_met insn.mnemonic context)) [
        | inl e ↦
            rw
              (
                d,
                decoded,
                k,
                successor_of,
                e,
                target_of-jimm insn.operand.type insn.operand (next_address pc insn) context t s,
              )
              (report_zero-nonzero m pc _ (rw e at ne))
        | inr e ↦ rw (d, decoded, k, successor_of, e) (report_zero-nonzero m pc _ (rw e at ne))
      ]

  -- The successor of an instruction that is no jump is the next one.
  pub get_ctf_successor-other :
      (m : Machine) (pc : ℕ) (context : Context) (insn : Instruction)
      → disassemble m pc ≡ some insn
      → insn.mnemonic ≡ other
      → (pc + insn.insn_len) % 2 ^ 64 ≢ 0
      → get_ctf_successor disassemble pc context m ≡ ok ((pc + insn.insn_len) % 2 ^ 64) m
  unfolding get_ctf_successor decoded successor_of next_address kind
  get_ctf_successor-other m pc context insn d o ne =
      rw (d, decoded, o, kind, successor_of) (report_zero-nonzero m pc _ ne)
