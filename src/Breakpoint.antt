-- ===== src/Breakpoint.antt =====
-- The breakpoint table of libudirt/src/udirt.c: an array of buckets, each a chain of breakpoint
-- structures linked by `next_breakpoint`, over an explicit heap; and the x86 code that writes the
-- breakpoint instruction (libudirt/src/udirt-x86.c).
-- A loop over a bucket has one round more than there were allocations.
pub mod Chain
pub mod Find
pub mod Linked
pub mod Create
pub mod Install
pub mod Delete
pub mod Unlink
use udi.Cmd.{Cmd, ok, fault, stuck, pure, ◌>>=◌, ◌>>◌}
use udi.Format.{u64}
use udi.Machine.{Ptr, null, Breakpoint, Machine, update, set_errmsg, read_memory, write_memory}
use udi.Prelude.{
  ℕ, zero, suc, ◌+◌, ◌%◌, Bool, true, false, not, Option, none, some, List, [], ◌∷◌, ◌==◌,
  if◌then◌else◌,
}

abbrev pub breakpoint_hash_size : ℕ
breakpoint_hash_size = 256

abbrev pub breakpoint_insn : ℕ
breakpoint_insn = 0xcc

unfoldable pub breakpoint_hash : ℕ → ℕ
breakpoint_hash address = address % breakpoint_hash_size

-- `*p`, a fault at NULL and at a freed structure
unfoldable pub load : Ptr → Cmd Machine Breakpoint
load p m = if p == null then fault else elim (m.nodes p) [ none ↦ fault | some b ↦ ok b m ]

-- `*p = b`
unfoldable pub store : Ptr → Breakpoint → Cmd Machine (Unit {0})
store p b m = ok tt (record m { nodes = update m.nodes p (some b) })

unfoldable pub free : Ptr → Cmd Machine (Unit {0})
free p m = ok tt (record m { nodes = update m.nodes p none })

abbrev pub bucket : ℕ → Cmd Machine Ptr
bucket h m = ok (m.breakpoints h) m

unfoldable pub set_bucket : ℕ → Ptr → Cmd Machine (Unit {0})
set_bucket h p m = ok tt (record m { breakpoints = update m.breakpoints h p })

-- `udi_malloc(sizeof(breakpoint))` and the `memset`; NULL once the addresses are used up.
unfoldable pub malloc : Cmd Machine Ptr
malloc m = elim m.mallocs [
  | [] ↦ ok null m
  | p ∷ later ↦ ok p (record m { mallocs = later; allocated = m.allocated + 1 })
]

abbrev pub blank : ℕ → Breakpoint
blank address = record {
  saved_byte = 0;
  address = address;
  in_memory = false;
  thread = null;
  next_breakpoint = null;
}

-- The `while(1)` of `create_breakpoint`.
pub link : ℕ → Ptr → Ptr → Cmd Machine Ptr
link zero new tmp = λ _. stuck
link (suc k) new tmp = do
  t ← load tmp
  n ← load new
  if t.address == n.address
      then (do free new; pure tmp)
      else if t.next_breakpoint == null
      then (do store tmp (record t { next_breakpoint = new }); pure new)
      else link k new t.next_breakpoint

-- NULL if memory is exhausted.
pub create_breakpoint : ℕ → Cmd Machine Ptr
create_breakpoint breakpoint_addr = do
  new ← malloc
  if new == null then pure null else do
    store new (blank breakpoint_addr)
    current ← bucket (breakpoint_hash breakpoint_addr)
    if current == null
        then (do set_bucket (breakpoint_hash breakpoint_addr) new; pure new)
        else λ m. link (suc m.allocated) new current m

-- The loop of `find_breakpoint`; NULL if there is none.
find : ℕ → ℕ → Ptr → Cmd Machine Ptr
find zero address tmp = λ _. stuck
find (suc k) address tmp = if tmp == null then pure null else do
  t ← load tmp
  if t.address == address then pure tmp else find k address t.next_breakpoint

pub find_breakpoint : ℕ → Cmd Machine Ptr
find_breakpoint breakpoint_addr = do
  tmp ← bucket (breakpoint_hash breakpoint_addr)
  λ m. find (suc m.allocated) breakpoint_addr tmp m

-- The structure after the copy of the original byte into `saved_bytes`.
abbrev save : Breakpoint → List ℕ → Breakpoint
save b [] = b
save b (byte ∷ _) = record b { saved_byte = byte }

-- `write_breakpoint_instruction` of udirt-x86.c. True is the result 0.
pub write_breakpoint_instruction : Ptr → Cmd Machine Bool
write_breakpoint_instruction bp = do
  b ← load bp
  if b.in_memory then pure true else do
    (saved, bytes) ← read_memory b.address 1
    store bp (save b bytes)
    if not saved
        then pure false
        else do (written, _) ← write_memory b.address (breakpoint_insn ∷ []) 1; pure written

pub write_saved_bytes : Ptr → Cmd Machine Bool
write_saved_bytes bp = do
  b ← load bp
  if not b.in_memory
      then pure true
      else do (written, _) ← write_memory b.address (b.saved_byte ∷ []) 1; pure written

-- `bp->in_memory = b`
unfoldable pub set_in_memory : Ptr → Bool → Cmd Machine (Unit {0})
set_in_memory bp present = do b ← load bp; store bp (record b { in_memory = present })

pub install_breakpoint : Ptr → Cmd Machine Bool
install_breakpoint bp = do
  b ← load bp
  if b.in_memory then pure true else do
    done ← write_breakpoint_instruction bp
    if done then (do set_in_memory bp true; pure true) else pure false

pub remove_breakpoint : Ptr → Cmd Machine Bool
remove_breakpoint bp = do
  b ← load bp
  if not b.in_memory then pure true else do
    done ← write_saved_bytes bp
    if done then (do set_in_memory bp false; pure true) else pure false

pub remove_breakpoint_for_continue : Ptr → Cmd Machine Bool
remove_breakpoint_for_continue bp = do
  b ← load bp
  if not b.in_memory then pure true else write_saved_bytes bp

-- The loop of `delete_breakpoint`: the previous and the current structure where it ends.
seek : ℕ → ℕ → Ptr → Ptr → Cmd Machine (Ptr × Ptr)
seek zero address prev tmp = λ _. stuck
seek (suc k) address prev tmp = if tmp == null then pure (prev, tmp) else do
  t ← load tmp
  if t.address == address then pure (prev, tmp) else seek k address tmp t.next_breakpoint

unlink : ℕ → Ptr → Ptr → Cmd Machine (Unit {0})
unlink h prev tmp = if prev == tmp then set_bucket h null else do
  t ← load tmp
  p ← load prev
  store prev (record p { next_breakpoint = t.next_breakpoint })

pub delete_breakpoint : Ptr → Cmd Machine Bool
delete_breakpoint bp = do
  removed ← remove_breakpoint bp
  if not removed then pure false else do
    b ← load bp
    first ← bucket (breakpoint_hash b.address)
    (prev, tmp) ← λ m. seek (suc m.allocated) b.address first first m
    if tmp == null
        then (do set_errmsg "failed to delete breakpoint at %a" (u64 b.address ∷ []); pure false)
        else if prev == null
        then (do set_errmsg "failed to delete breakpoint at %a" (u64 b.address ∷ []); pure false)
        else do unlink (breakpoint_hash b.address) prev tmp; free tmp; pure true
