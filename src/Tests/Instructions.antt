-- ===== src/Tests/Instructions.antt =====
-- The theorems on the control flow of instructions at concrete inputs.
use udi.Cmd.{ok}
use udi.Machine.{Machine}
use udi.Register.{Context, get_flags}
use udi.X86.{
  jl, jz, ret, Instruction, Operand, op_jimm, SF, OF, condition, ctf_condition_met, sign_extend,
  kind, masked, get_ctf_successor,
}
use udi.X86.Condition.{flag, manual, condition-manual, is_signed, is_less}
use udi.X86.Successor.{get_ctf_successor-relative, jump_goal}
use udi.Tests.Samples.{machine}
use udi.Prelude.{ℕ, ◌≡◌, refl, ◌&&◌, Option, none, some, arith, ◌==◌, if◌then◌else◌}

-- SF and OF.
condition-manual_example :
    condition jl 0x880 5
    ≡ (if is_signed jl && (flag SF 0x880 && flag OF 0x880) then is_less jl else manual jl 0x880 5)
condition-manual_example = condition-manual jl 0x880 5 (omega arith)

abbrev operand : Operand
operand = record {
  type = op_jimm;
  size = 8;
  base = none;
  index = none;
  offset = 0;
  scale = 0;
  lval = 0xfe;
}

-- RET at 100, and JZ to itself anywhere else.
abbrev disassemble : Machine → ℕ → Option Instruction
disassemble m pc =
    if pc == 100
    then some (record { mnemonic = ret; insn_len = 1; operand = operand })
    else some (record { mnemonic = jz; insn_len = 2; operand = operand })

abbrev context : Context
context n = 0x140

get_ctf_successor-relative_example :
    get_ctf_successor disassemble 200 context machine
    ≡ ok
        (jump_goal
          (record { mnemonic = jz; insn_len = 2; operand = operand })
          200
          (ctf_condition_met jz context))
        machine
unfolding ctf_condition_met condition masked get_flags sign_extend kind
get_ctf_successor-relative_example =
    get_ctf_successor-relative disassemble machine 200 context
      (record { mnemonic = jz; insn_len = 2; operand = operand }) refl refl refl refl (ground arith)
