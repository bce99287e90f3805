-- ===== src/Tests/Runtime.antt =====
-- The theorems on memory, breakpoints and registers at concrete inputs.
use udi.Breakpoint.{
  delete_breakpoint, breakpoint_insn, blank, install_breakpoint, remove_breakpoint,
  create_breakpoint, breakpoint_hash,
}
use udi.Breakpoint.Chain.{Holds}
use udi.Breakpoint.Create.{Becomes, create_breakpoint-Becomes, created, insert_in}
use udi.Breakpoint.Delete.{delete_breakpoint-first}
use udi.Breakpoint.Unlink.{without, delete_breakpoint-later}
use udi.Breakpoint.Install.{remove_breakpoint-install_breakpoint}
use udi.Cmd.{ok}
use udi.Machine.{Machine, read_memory, write_memory, update}
use udi.Machine.Access.{
  accessed, noted, all_mapped, mapped_bytes, write_bytes, read_memory-mapped, write_memory-mapped,
}
use udi.Machine.RoundTrip.{read_memory-write_memory}
use udi.Register.{get_register, set_register}
use udi.Register.Access.{get_register-set_register}
use udi.Tests.Samples.{
  linked, with_two, two_cells, with_two-Holds, machine, machine-IsOpen, with_breakpoint,
  with_breakpoint-IsCalm, with_breakpoint-Holds, one_cell,
}
use udi.Prelude.{◌<◌, ◌⊎◌, ℕ, ◌≤◌, ◌≡◌, ◌≢◌, refl, true, some, [], ◌∷◌, arith}

-- The last two bytes of the mapped range, and the first behind it.
read_memory-mapped_example :
    read_memory 4094 3 machine
    ≡ ok
        (all_mapped machine.mem 3 4094, mapped_bytes machine.mem 3 4094)
        (noted (accessed machine 4094 3) (all_mapped machine.mem 3 4094))
read_memory-mapped_example = read_memory-mapped machine 4094 3 machine-IsOpen

partial : mapped_bytes machine.mem 3 4094 ≡ 254 ∷ 255 ∷ []
unfolding mapped_bytes
partial = refl

write_memory-mapped_example :
    write_memory 70 (1 ∷ 2 ∷ []) 2 machine
    ≡ ok
        (all_mapped machine.mem 2 70, tt)
        (noted
          (record (accessed machine 70 2) { mem = write_bytes machine.mem (1 ∷ 2 ∷ []) 70 })
          (all_mapped machine.mem 2 70))
write_memory-mapped_example = write_memory-mapped machine 70 (1 ∷ 2 ∷ []) machine-IsOpen

-- 326 is in the bucket of 70.
create_breakpoint-Becomes_example :
    (m' : Machine) × (create_breakpoint 326 with_breakpoint
      ≡ ok (created 326 600 (one_cell (breakpoint_hash 326))) m')
    × Becomes with_breakpoint m'
        (update one_cell (breakpoint_hash 326) (insert_in 326 600 (one_cell (breakpoint_hash 326))))
create_breakpoint-Becomes_example =
    create_breakpoint-Becomes with_breakpoint one_cell 326 600 [] with_breakpoint-Holds refl
      (ground arith) refl

remove_breakpoint-install_breakpoint_example :
    (m' m'' : Machine) × (install_breakpoint 500 with_breakpoint ≡ ok true m')
    × (m'.mem 70 ≡ some breakpoint_insn)
    × (install_breakpoint 500 m' ≡ ok true m')
    × (remove_breakpoint 500 m' ≡ ok true m'')
    × ((a : ℕ) → m''.mem a ≡ with_breakpoint.mem a)
remove_breakpoint-install_breakpoint_example =
    remove_breakpoint-install_breakpoint with_breakpoint 500 70 (blank 70) with_breakpoint-IsCalm
      (ground arith) refl refl refl

-- RAX is 38.
get_register-set_register_example :
    (context' : ℕ → ℕ) × (set_register 38 7 (λ n. n) machine ≡ ok (some context') machine)
    × (get_register 38 context' machine ≡ ok (some 7) machine)
    × ((other : ℕ)
        → 27 ≤ other
        → other ≤ 45
        → 38 ≢ other
        → get_register other context' machine ≡ get_register other (λ n. n) machine)
get_register-set_register_example =
    get_register-set_register machine (λ n. n) 38 7 (omega arith) (omega arith)

delete_breakpoint-first_example :
    (m' : Machine) × (delete_breakpoint 500 with_two ≡ ok true m')
    × Holds m' (update two_cells (breakpoint_hash 70) [])
    × (m'.mem ≡ with_two.mem)
unfolding breakpoint_hash
delete_breakpoint-first_example =
    delete_breakpoint-first with_two two_cells with_two-Holds 500 linked ((600, 326) ∷ [])
      (ground arith) refl refl refl

delete_breakpoint-later_example :
    (m' : Machine) × (delete_breakpoint 600 with_two ≡ ok true m')
    × Holds m' (update two_cells (breakpoint_hash 326) ((500, 70) ∷ without 600 ((600, 326) ∷ [])))
    × (m'.mem ≡ with_two.mem)
unfolding breakpoint_hash
delete_breakpoint-later_example =
    delete_breakpoint-later with_two two_cells with_two-Holds 600 (blank 326) 500 70
      ((600, 326) ∷ []) (ground arith) refl refl refl refl

read_memory-write_memory_example :
    (m' m'' : Machine) × (write_memory 70 (1 ∷ 2 ∷ []) 2 machine ≡ ok (true, tt) m')
    × (read_memory 70 2 m' ≡ ok (true, 1 ∷ 2 ∷ []) m'')
    × ((a : ℕ) → (a < 70) ⊎ (72 ≤ a) → m''.mem a ≡ machine.mem a)
unfolding all_mapped
read_memory-write_memory_example =
    read_memory-write_memory machine 70 (1 ∷ 2 ∷ []) machine-IsOpen refl refl refl
