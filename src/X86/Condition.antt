-- ===== src/X86/Condition.antt =====
-- The conditions of the conditional jumps against the ones of the architecture manual.
use udi.X86.{
  Mnemonic, ja, jae, jb, jbe, jcxz, jecxz, jrcxz, jg, jge, jl, jle, jno, jnp, jns, jnz, jo, jp, js,
  jz, loopne, loope, loop, call, jmp, ret, other, more_rounds, CF, PF, ZF, SF, OF, masked,
  condition,
}
use udi.Prelude.{
  if◌then◌else◌, ℕ, ◌^◌, ◌/◌, ◌%◌, ◌<◌, ◌≡◌, refl, Bool, true, false, not, ◌&&◌, ◌||◌, arith, ◌==◌,
}

-- The flag of the mask.
unfoldable pub flag : ℕ → ℕ → Bool
flag mask flags = flags / mask % 2 == 1

abbrev differ : Bool → Bool → Bool
differ true b = not b
differ false b = b

-- The manual's conditions, by the flags and by CX, ECX and RCX, which are the low bits of `count`.
pub manual : Mnemonic → ℕ → ℕ → Bool
manual ja flags count = not (flag CF flags || flag ZF flags)
manual jae flags count = not (flag CF flags)
manual jb flags count = flag CF flags
manual jbe flags count = flag CF flags || flag ZF flags
manual jcxz flags count = count % 2 ^ 16 == 0
manual jecxz flags count = count % 2 ^ 32 == 0
manual jrcxz flags count = count == 0
manual jg flags count = not (flag ZF flags) && not (differ (flag SF flags) (flag OF flags))
manual jge flags count = not (differ (flag SF flags) (flag OF flags))
manual jl flags count = differ (flag SF flags) (flag OF flags)
manual jle flags count = flag ZF flags || differ (flag SF flags) (flag OF flags)
manual jno flags count = not (flag OF flags)
manual jnp flags count = not (flag PF flags)
manual jns flags count = not (flag SF flags)
manual jnz flags count = not (flag ZF flags)
manual jo flags count = flag OF flags
manual jp flags count = flag PF flags
manual js flags count = flag SF flags
manual jz flags count = flag ZF flags
manual loopne flags count = not (flag ZF flags) && not (count == 1)
manual loope flags count = flag ZF flags && not (count == 1)
manual loop flags count = not (count == 1)
manual _ flags count = false

rounds : (count : ℕ) → count < 2 ^ 16 → more_rounds count ≡ not (count == 1)
rounds count h = ground arith

-- The instructions that compare signed numbers.
abbrev pub is_signed : Mnemonic → Bool
is_signed jg = true
is_signed jge = true
is_signed jl = true
is_signed jle = true
is_signed _ = false

abbrev pub is_less : Mnemonic → Bool
is_less jl = true
is_less jle = true
is_less _ = false

-- With a count below 2 ^ 16, the condition of every instruction is the manual's, but for JL, JLE, JG and
-- JGE where SF and OF are both set: there, the first two are taken and the last two are not, whatever
-- the other flags are.
pub condition-manual :
    (mnemonic : Mnemonic) (flags count : ℕ)
    → count < 2 ^ 16
    → condition mnemonic flags count ≡ (
        if is_signed mnemonic && (flag SF flags && flag OF flags)
        then is_less mnemonic
        else manual mnemonic flags count)
unfolding condition manual masked flag
condition-manual call flags count c = refl
condition-manual jmp flags count c = refl
condition-manual ret flags count c = refl
condition-manual other flags count c = refl
condition-manual ja flags count c = ground arith
condition-manual jae flags count c = ground arith
condition-manual jb flags count c = ground arith
condition-manual jbe flags count c = ground arith
condition-manual jcxz flags count c = ground arith
condition-manual jecxz flags count c = ground arith
condition-manual jrcxz flags count c = ground arith
condition-manual jg flags count c = ground arith
condition-manual jge flags count c = ground arith
condition-manual jl flags count c = ground arith
condition-manual jle flags count c = ground arith
condition-manual jno flags count c = ground arith
condition-manual jnp flags count c = ground arith
condition-manual jns flags count c = ground arith
condition-manual jnz flags count c = ground arith
condition-manual jo flags count c = ground arith
condition-manual jp flags count c = ground arith
condition-manual js flags count c = ground arith
condition-manual jz flags count c = ground arith
condition-manual loopne flags count c = ground (arith, rounds count c)
condition-manual loope flags count c = ground (arith, rounds count c)
condition-manual loop flags count c = ground (arith, rounds count c)
