-- ===== src/Register.antt =====
-- Registers: the numbers of libudirt/src/udi.h, `validate_register` of udirt.c, the classes of
-- udirt-x86.c, and the access to a `ucontext_t` of udirt-linux-x86.c on x86_64 Linux, where the
-- 32-bit register indices but that of the flags are undefined (-1).
pub mod Access
use udi.Format.{Arg, text, int, pos}
use udi.Machine.{Machine, update, set_errmsg}
use udi.Cmd.{Cmd, ok, pure, ◌>>=◌, ◌>>◌}
use udi.Prelude.{
  ℕ, zero, suc, ◌+◌, ◌-◌, ◌^◌, ◌%◌, Bool, true, false, ◌&&◌, ◌||◌, Option, none, some, List, [],
  ◌∷◌, String, ◌==◌, ltb, leb, if◌then◌else◌, codes, get_elem?,
}

-- `gregs` of a machine context
abbrev pub Context : Type 0
Context = ℕ → ℕ

pub data Arch : Type 0 where
  x86 x86_64 : Arch

-- __WORDSIZE is 64.
pub get_architecture : Arch
get_architecture = x86_64

abbrev pub udi_x86_min : ℕ
udi_x86_min = 0

abbrev pub udi_x86_max : ℕ
udi_x86_max = 25

abbrev pub udi_x86_64_min : ℕ
udi_x86_64_min = 26

abbrev pub udi_x86_64_st0 : ℕ
udi_x86_64_st0 = 46

abbrev pub udi_x86_64_max : ℕ
udi_x86_64_max = 70

-- The names in the order of the enumeration.
register_names : List String
register_names =
    "UDI_X86_MIN" ∷ "UDI_X86_GS" ∷ "UDI_X86_FS" ∷ "UDI_X86_ES" ∷ "UDI_X86_DS" ∷ "UDI_X86_EDI"
    ∷ "UDI_X86_ESI" ∷ "UDI_X86_EBP" ∷ "UDI_X86_ESP" ∷ "UDI_X86_EBX" ∷ "UDI_X86_EDX" ∷ "UDI_X86_ECX"
    ∷ "UDI_X86_EAX" ∷ "UDI_X86_CS" ∷ "UDI_X86_SS" ∷ "UDI_X86_EIP" ∷ "UDI_X86_FLAGS" ∷ "UDI_X86_ST0"
    ∷ "UDI_X86_ST1" ∷ "UDI_X86_ST2" ∷ "UDI_X86_ST3" ∷ "UDI_X86_ST4" ∷ "UDI_X86_ST5" ∷ "UDI_X86_ST6"
    ∷ "UDI_X86_ST7" ∷ "UDI_X86_MAX" ∷ "UDI_X86_64_MIN" ∷ "UDI_X86_64_R8" ∷ "UDI_X86_64_R9"
    ∷ "UDI_X86_64_R10" ∷ "UDI_X86_64_R11" ∷ "UDI_X86_64_R12" ∷ "UDI_X86_64_R13" ∷ "UDI_X86_64_R14"
    ∷ "UDI_X86_64_R15" ∷ "UDI_X86_64_RDI" ∷ "UDI_X86_64_RSI" ∷ "UDI_X86_64_RBP" ∷ "UDI_X86_64_RBX"
    ∷ "UDI_X86_64_RDX" ∷ "UDI_X86_64_RAX" ∷ "UDI_X86_64_RCX" ∷ "UDI_X86_64_RSP" ∷ "UDI_X86_64_RIP"
    ∷ "UDI_X86_64_CSGSFS" ∷ "UDI_X86_64_FLAGS" ∷ "UDI_X86_64_ST0" ∷ "UDI_X86_64_ST1"
    ∷ "UDI_X86_64_ST2" ∷ "UDI_X86_64_ST3" ∷ "UDI_X86_64_ST4" ∷ "UDI_X86_64_ST5" ∷ "UDI_X86_64_ST6"
    ∷ "UDI_X86_64_ST7" ∷ "UDI_X86_64_XMM0" ∷ "UDI_X86_64_XMM1" ∷ "UDI_X86_64_XMM2"
    ∷ "UDI_X86_64_XMM3" ∷ "UDI_X86_64_XMM4" ∷ "UDI_X86_64_XMM5" ∷ "UDI_X86_64_XMM6"
    ∷ "UDI_X86_64_XMM7" ∷ "UDI_X86_64_XMM8" ∷ "UDI_X86_64_XMM9" ∷ "UDI_X86_64_XMM10"
    ∷ "UDI_X86_64_XMM11" ∷ "UDI_X86_64_XMM12" ∷ "UDI_X86_64_XMM13" ∷ "UDI_X86_64_XMM14"
    ∷ "UDI_X86_64_XMM15" ∷ "UDI_X86_64_MAX" ∷ []

-- `switch` with a `default`
or_default : String → Option String → String
or_default d none = d
or_default d (some s) = s

pub register_str : ℕ → String
register_str reg = or_default "UNSPECIFIED" (get_elem? register_names reg)

arch_str : Arch → String
arch_str x86 = "UDI_ARCH_X86"
arch_str x86_64 = "UDI_ARCH_X86_64"

outside : Arch → ℕ → Bool
outside x86 reg = leb reg udi_x86_min || leb udi_x86_max reg
outside x86_64 reg = leb reg udi_x86_64_min || leb udi_x86_64_max reg

-- True is the result 0.
pub validate_register : ℕ → Cmd Machine Bool
validate_register reg =
    if outside get_architecture reg
    then (do
      set_errmsg "invalid register %s for architecture %s"
          (text (codes (register_str reg)) ∷ text (codes (arch_str get_architecture)) ∷ [])
      pure false)
    else pure true

-- GS to FLAGS, and R8 to FLAGS
pub is_gp_register : ℕ → Bool
is_gp_register reg = (leb 1 reg && leb reg 16) || (leb 27 reg && leb reg 45)

-- ST0 to ST7, and ST0 to XMM15
pub is_fp_register : ℕ → Bool
is_fp_register reg = (leb 17 reg && leb reg 24) || (leb 46 reg && leb reg 69)

-- An index into `gregs`, -1 or -2.
pub data Offset : Type 0 where
  index : ℕ → Offset
  minus_one minus_two : Offset

-- REG_R8 to REG_CSGSFS and REG_EFL of glibc, in the order of the registers R8 to FLAGS:
-- R8 to R15 are 0 to 7, then RDI RSI RBP RBX RDX RAX RCX RSP RIP are 8 to 16, EFL 17, CSGSFS 18.
gregs_of : ℕ → Offset
gregs_of reg = if leb reg 43 then index (reg - 27) else if leb reg 44 then index 18 else index 17

-- `UDI_X86_FLAGS` is the one register of x86 whose name in glibc, REG_EFL, x86_64 has as well.
abbrev udi_x86_flags : ℕ
udi_x86_flags = 16

pub get_udi_reg_context_offset : ℕ → Offset
get_udi_reg_context_offset reg =
    if leb 27 reg && leb reg 45
    then gregs_of reg
    else if reg == udi_x86_flags
    then index 17
    else if leb 1 reg && leb reg 24
    then minus_one
    else if leb 46 reg && leb reg 69
    then minus_one
    else minus_two

-- `get_fp_register` is not implemented: it always fails.
get_fp_register : ℕ → Context → Option ℕ
get_fp_register reg context = none

read_fp : ℕ → Option ℕ → Cmd Machine (Option ℕ)
read_fp reg none = do set_errmsg "invalid register %d" (int (pos reg) ∷ []); pure none
read_fp reg (some value) = pure (some value)

read_at : ℕ → Context → Offset → Cmd Machine (Option ℕ)
read_at reg context (index n) = pure (some (context n))
read_at reg context minus_one = read_fp reg (get_fp_register reg context)
read_at reg context minus_two = do set_errmsg "invalid register %d" (int (pos reg) ∷ []); pure none

-- The value, or `none` for the result -1.
pub get_register : ℕ → Context → Cmd Machine (Option ℕ)
get_register reg context = do
  valid ← validate_register reg
  if valid then read_at reg context (get_udi_reg_context_offset reg) else pure none

write_at : ℕ → ℕ → Context → Offset → Cmd Machine (Option Context)
write_at reg value context (index n) = pure (some (update context n value))
write_at reg value context minus_one = pure (some context)
write_at reg value context minus_two = do
  set_errmsg "invalid register %d" (int (pos reg) ∷ [])
  pure none

-- The context afterwards, or `none` for the result -1.
pub set_register : ℕ → ℕ → Context → Cmd Machine (Option Context)
set_register reg value context = do
  valid ← validate_register reg
  if valid then write_at reg value context (get_udi_reg_context_offset reg) else pure none

abbrev pub reg_rcx : ℕ
reg_rcx = 14

abbrev pub reg_rsp : ℕ
reg_rsp = 15

abbrev pub reg_rip : ℕ
reg_rip = 16

abbrev pub reg_efl : ℕ
reg_efl = 17

-- `gregs[RIP]--`
pub rewind_pc : Context → Context
rewind_pc context = update context reg_rip ((context reg_rip + 2 ^ 64 - 1) % 2 ^ 64)

unfoldable pub get_pc : Context → ℕ
get_pc context = context reg_rip

unfoldable pub get_flags : Context → ℕ
get_flags context = context reg_efl
