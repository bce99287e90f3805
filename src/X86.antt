-- ===== src/X86.antt =====
-- Control flow on x86_64 (libudirt/src/udirt-x86.c): where an instruction goes next. The decoder is
-- udis86, a parameter: it gives the mnemonic, the length and the first operand of an instruction.
pub mod Condition
pub mod Successor
use mathlib.Core.Option
use udi.Cmd.{Cmd, ok, fault, pure, ◌>>=◌, ◌>>◌}
use udi.Format.{u64}
use udi.Machine.{Machine, set_errmsg, read_memory}
use udi.Register.{Context, get_flags}
use udi.Prelude.{
  ℕ, zero, suc, ◌+◌, ◌-◌, ◌*◌, ◌/◌, ◌%◌, ◌^◌, Bool, true, false, not, ◌&&◌, ◌||◌, Option, none,
  some, List, [], ◌∷◌, ltb, ◌==◌, if◌then◌else◌,
}

-- `ud_mnemonic_code_t`, as far as the code tells the instructions apart
pub data Mnemonic : Type 0 where
  call jmp ret other : Mnemonic
  ja jae jb jbe jcxz jecxz jrcxz jg jge jl jle jno jnp jns jnz jo jp js jz : Mnemonic
  loopne loope loop : Mnemonic

-- `ud_type_t`, the registers of `get_reg_context_offset` by the 64-bit register and the part, and
-- those that it does not have
pub data UdRegister : Type 0 where
  al ah ax eax rax cl ch cx ecx rcx dl dh dx edx rdx bl bh bx ebx rbx rip : UdRegister
  spl sp esp rsp bpl bp ebp rbp sil si esi rsi dil di edi rdi : UdRegister
  numbered : ℕ → UdRegister
  other_register : UdRegister

pub data OperandType : Type 0 where
  op_reg op_mem op_jimm op_other : OperandType

-- `struct ud_operand`; `base` and `index` are `none` for UD_NONE, and `lval` is the 64 bits of the
-- union.
pub record Operand : Type 0 where
  pub type : OperandType
  pub size : ℕ
  pub base : Option UdRegister
  pub index : Option UdRegister
  pub offset : ℕ
  pub scale : ℕ
  pub lval : ℕ

pub record Instruction : Type 0 where
  pub mnemonic : Mnemonic
  pub insn_len : ℕ
  pub operand : Operand

-- The index into `gregs`, `none` for -1. R8 to R15 are `numbered 0` to `numbered 7`.
pub get_reg_context_offset : UdRegister → Option ℕ
get_reg_context_offset al = some 13
get_reg_context_offset ah = some 13
get_reg_context_offset ax = some 13
get_reg_context_offset eax = some 13
get_reg_context_offset rax = some 13
get_reg_context_offset cl = some 14
get_reg_context_offset ch = some 14
get_reg_context_offset cx = some 14
get_reg_context_offset ecx = some 14
get_reg_context_offset rcx = some 14
get_reg_context_offset dl = some 12
get_reg_context_offset dh = some 12
get_reg_context_offset edx = some 12
get_reg_context_offset rdx = some 12
get_reg_context_offset bl = some 11
get_reg_context_offset bh = some 11
get_reg_context_offset ebx = some 11
get_reg_context_offset rbx = some 11
get_reg_context_offset rip = some 16
get_reg_context_offset spl = some 15
get_reg_context_offset sp = some 15
get_reg_context_offset esp = some 15
get_reg_context_offset rsp = some 15
get_reg_context_offset bpl = some 10
get_reg_context_offset bp = some 10
get_reg_context_offset ebp = some 10
get_reg_context_offset rbp = some 10
get_reg_context_offset sil = some 9
get_reg_context_offset si = some 9
get_reg_context_offset esi = some 9
get_reg_context_offset rsi = some 9
get_reg_context_offset dil = some 8
get_reg_context_offset di = some 8
get_reg_context_offset edi = some 8
get_reg_context_offset rdi = some 8
get_reg_context_offset (numbered n) = if ltb n 8 then some n else none
get_reg_context_offset _ = none

-- `none` is the abort on an unknown register. The whole 64-bit register is read.
pub get_register_ud_type : UdRegister → Context → Option ℕ
get_register_ud_type reg context = Option.map context (get_reg_context_offset reg)

-- The low `w` bits of `x` as a signed number, in 64 bits.
unfoldable pub sign_extend : ℕ → ℕ → ℕ
sign_extend w x = let y = x % 2 ^ w in if ltb y (2 ^ (w - 1)) then y else y + 2 ^ 64 - 2 ^ w

pub compute_relative_location : Operand → ℕ → ℕ
compute_relative_location op pc =
    if op.size == 8
    then (pc + sign_extend 8 op.lval) % 2 ^ 64
    else if op.size == 16
    then (pc + sign_extend 16 op.lval) % 2 ^ 64
    else if op.size == 32
    then (pc + sign_extend 32 op.lval) % 2 ^ 64
    else if op.size == 64
    then (pc + sign_extend 64 op.lval) % 2 ^ 64
    else pc

abbrev pub CF : ℕ
CF = 0x1

abbrev pub PF : ℕ
PF = 0x4

abbrev pub ZF : ℕ
ZF = 0x40

abbrev pub SF : ℕ
SF = 0x80

abbrev pub OF : ℕ
OF = 0x800

-- `mask & flags`, for a mask of one bit
unfoldable pub masked : ℕ → ℕ → ℕ
masked mask flags = (flags / mask % 2) * mask

-- `!(mask & flags)`
abbrev pub clear : ℕ → ℕ → Bool
clear mask flags = masked mask flags == 0

-- `mask & flags` as a condition
abbrev pub is_set : ℕ → ℕ → Bool
is_set mask flags = not (clear mask flags)

-- `(SF & flags) == (OF & flags)`
abbrev pub same_sign : ℕ → Bool
same_sign flags = masked SF flags == masked OF flags

-- `(cx-1) != 0` on an `unsigned long`
abbrev pub more_rounds : ℕ → Bool
more_rounds count = not ((count + 2 ^ 64 - 1) % 2 ^ 64 == 0)

-- The condition, of the flags and of RCX, which all three of CX, ECX and RCX stand for.
unfoldable pub condition : Mnemonic → ℕ → ℕ → Bool
condition ja flags count = clear CF flags && clear ZF flags
condition jae flags count = clear CF flags
condition jb flags count = is_set CF flags
condition jbe flags count = is_set CF flags || is_set ZF flags
condition jcxz flags count = count == 0
condition jecxz flags count = count == 0
condition jrcxz flags count = count == 0
condition jg flags count = clear ZF flags && same_sign flags
condition jge flags count = same_sign flags
condition jl flags count = not (same_sign flags)
condition jle flags count = is_set ZF flags || not (same_sign flags)
condition jno flags count = clear OF flags
condition jnp flags count = clear PF flags
condition jns flags count = clear SF flags
condition jnz flags count = clear ZF flags
condition jo flags count = is_set OF flags
condition jp flags count = is_set PF flags
condition js flags count = is_set SF flags
condition jz flags count = is_set ZF flags
condition loopne flags count = clear ZF flags && more_rounds count
condition loope flags count = is_set ZF flags && more_rounds count
condition loop flags count = more_rounds count
condition _ flags count = false

unfoldable pub ctf_condition_met : Mnemonic → Context → Bool
ctf_condition_met mnemonic context = condition mnemonic (get_flags context) (context 14)

register_or_zero : Option UdRegister → Context → Option ℕ
register_or_zero none context = some 0
register_or_zero (some reg) context = get_register_ud_type reg context

-- The displacement is not sign-extended.
pub displacement : Operand → ℕ
displacement op =
    if op.offset == 8
    then op.lval % 2 ^ 8
    else if op.offset == 16
    then op.lval % 2 ^ 16
    else if op.offset == 32
    then op.lval % 2 ^ 32
    else if op.offset == 64
    then op.lval % 2 ^ 64
    else 0

memory_target : Operand → Option ℕ → Option ℕ → Option ℕ
memory_target op (some base) (some index) =
    some ((base + index * op.scale + displacement op) % 2 ^ 64)
memory_target op _ _ = none

-- `none` is the abort on an unknown register.
target_of : OperandType → Operand → ℕ → Context → Option ℕ
target_of op_reg op effective_pc context =
    Option.bind op.base (λ reg. get_register_ud_type reg context)
target_of op_mem op effective_pc context =
    memory_target op (register_or_zero op.base context) (register_or_zero op.index context)
target_of op_jimm op effective_pc context = some (compute_relative_location op effective_pc)
target_of op_other op effective_pc context = some 0

pub compute_target : Operand → ℕ → Context → Option ℕ
compute_target op effective_pc context = target_of op.type op effective_pc context

-- The `unsigned long` that the bytes make, the lowest first.
pub little_endian : List ℕ → ℕ
little_endian [] = 0
little_endian (b ∷ bytes) = b + 256 * little_endian bytes

pub data Kind : Type 0 where
  unconditional conditional return sequential : Kind

-- The `switch` of `get_ctf_successor`.
unfoldable pub kind : Mnemonic → Kind
kind call = unconditional
kind jmp = unconditional
kind ret = return
kind other = sequential
kind _ = conditional

abort_if_none : Option ℕ → Cmd Machine ℕ
abort_if_none none m = fault
abort_if_none (some a) m = ok a m

report_zero : ℕ → ℕ → Cmd Machine ℕ
report_zero pc successor =
    if successor == 0
    then (do set_errmsg "failed to determine ctf successor at %a" (u64 pc ∷ []); pure 0)
    else pure successor

next_address : ℕ → Instruction → ℕ
next_address pc insn = (pc + insn.insn_len) % 2 ^ 64

successor_of : Kind → Instruction → ℕ → Context → Cmd Machine ℕ
successor_of unconditional insn pc context = do
  target ← abort_if_none (compute_target insn.operand (next_address pc insn) context)
  report_zero pc target
successor_of conditional insn pc context =
    if ctf_condition_met insn.mnemonic context
    then (do
      target ← abort_if_none (compute_target insn.operand (next_address pc insn) context)
      report_zero pc target)
    else report_zero pc (next_address pc insn)
successor_of return insn pc context = do
  (done, bytes) ← read_memory (context 15) 8
  pure (if done then little_endian bytes else 0)
successor_of sequential insn pc context = report_zero pc (next_address pc insn)

-- udis86: what it decodes at an address, `none` if `ud_disassemble` returns 0.
module _ (disassemble : Machine → ℕ → Option Instruction) where
  decoded : Option Instruction → ℕ → Context → Cmd Machine ℕ
  decoded none pc context = do
    set_errmsg "disassembling instruction at %a failed" (u64 pc ∷ [])
    pure 0
  decoded (some insn) pc context = successor_of (kind insn.mnemonic) insn pc context

  -- 0 is a failure.
  pub get_ctf_successor : ℕ → Context → Cmd Machine ℕ
  get_ctf_successor pc context = λ m. decoded (disassemble m pc) pc context m
