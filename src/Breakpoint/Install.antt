-- ===== src/Breakpoint/Install.antt =====
-- What installing and removing a breakpoint does to debuggee memory.
use udi.Breakpoint.{
  breakpoint_insn, load, store, set_in_memory, write_breakpoint_instruction, write_saved_bytes,
  install_breakpoint, remove_breakpoint, remove_breakpoint_for_continue, delete_breakpoint,
}
use udi.Breakpoint.Chain.{load_lem}
use udi.Cmd.{ok, fault}
use udi.Machine.{Ptr, null, Breakpoint, Machine, update, read_memory, write_memory}
use udi.Machine.Access.{
  IsOpen, accessed, mapped_bytes, all_mapped, write_bytes, read_memory-mapped, write_memory-mapped,
}
use udi.Prelude.{ℕ, ◌<◌, ◌≡◌, ◌≢◌, refl, true, false, Option, some, [], ◌∷◌, arith, ==_refl}

-- Memory accesses succeed wherever memory is mapped, with no outcome of a hook that says otherwise.
pub record IsCalm (m : Machine) : Type 0 where
  pub readable : (p : ℕ) → m.readable p ≡ true
  pub writable : (p : ℕ) → m.writable p ≡ true
  pub rounds : 0 < m.fault_rounds
  pub idle : m.aborting_mem_access ≡ false
  pub pre : m.pre_hooks ≡ []
  pub post : m.post_hooks ≡ []

IsCalm-IsOpen : (m : Machine) → IsCalm m → IsOpen m
IsCalm-IsOpen m c = record {
  readable = c.readable;
  writable = c.writable;
  rounds = c.rounds;
  idle = c.idle;
  pre = rw c.pre;
  post = rw c.post;
}

module _ (mem : ℕ → Option ℕ) (a v : ℕ) (at : mem a ≡ some v) where
  all_mapped-byte : all_mapped mem 1 a ≡ true
  unfolding all_mapped
  all_mapped-byte = ground arith

  mapped_bytes-byte : mapped_bytes mem 1 a ≡ v ∷ []
  unfolding mapped_bytes
  mapped_bytes-byte = ground arith

  write_bytes-byte : (w : ℕ) → write_bytes mem (w ∷ []) a ≡ update mem a (some w)
  unfolding write_bytes
  write_bytes-byte w = ground arith

module _ (m : Machine) (a v : ℕ) (c : IsCalm m) (at : m.mem a ≡ some v) where
  read-byte : read_memory a 1 m ≡ ok (true, v ∷ []) (accessed m a 1)
  read-byte = rw (
    read_memory-mapped m a 1 (IsCalm-IsOpen m c),
    all_mapped-byte m.mem a v at,
    mapped_bytes-byte m.mem a v at,
  )

  write-byte :
      (w : ℕ)
      → write_memory a (w ∷ []) 1 m
        ≡ ok (true, tt) (record (accessed m a 1) { mem = update m.mem a (some w) })
  write-byte w = rw (
    write_memory-mapped m a (w ∷ []) (IsCalm-IsOpen m c),
    all_mapped-byte m.mem a v at,
    write_bytes-byte m.mem a v at w,
  )

-- The machine with the recorded range of an access to the byte at `a`, and `w` stored there.
abbrev pub poked : Machine → ℕ → ℕ → Machine
poked m a w = record (accessed m a 1) { mem = update m.mem a (some w) }

abbrev pub with_node : Machine → Ptr → Breakpoint → Machine
with_node m bp b = record m { nodes = update m.nodes bp (some b) }

accessed-IsCalm : (m : Machine) (a n : ℕ) → IsCalm m → IsCalm (accessed m a n)
accessed-IsCalm m a n c = record {
  readable = c.readable;
  writable = c.writable;
  rounds = c.rounds;
  idle = c.idle;
  pre = rw c.pre;
  post = rw c.post;
}

pub poked-IsCalm : (m : Machine) (a w : ℕ) → IsCalm m → IsCalm (poked m a w)
poked-IsCalm m a w c = record {
  readable = c.readable;
  writable = c.writable;
  rounds = c.rounds;
  idle = c.idle;
  pre = rw c.pre;
  post = rw c.post;
}

pub with_node-IsCalm :
    (m : Machine) (bp : Ptr) (b : Breakpoint) → IsCalm m → IsCalm (with_node m bp b)
with_node-IsCalm m bp b c = record {
  readable = c.readable;
  writable = c.writable;
  rounds = c.rounds;
  idle = c.idle;
  pre = c.pre;
  post = c.post;
}

module _ (m : Machine) (bp v : ℕ) (b : Breakpoint) (c : IsCalm m) (ne : bp ≢ null)
    (node : m.nodes bp ≡ some b) (at : m.mem b.address ≡ some v) where
  abbrev pub saved : Breakpoint
  saved = record b { saved_byte = v; in_memory = false }

  -- After the original byte has been copied.
  abbrev pub copied : Machine
  copied = with_node (accessed m b.address 1) bp saved

  copied-IsCalm : IsCalm copied
  copied-IsCalm =
      with_node-IsCalm (accessed m b.address 1) bp saved (accessed-IsCalm m b.address 1 c)

  -- `install_breakpoint` of a breakpoint that is not in memory keeps the byte at its address, puts the
  -- breakpoint instruction there, and marks the breakpoint.
  pub install_breakpoint-lem :
      b.in_memory ≡ false
      → install_breakpoint bp m
        ≡ ok true (
            with_node
              (poked copied b.address breakpoint_insn)
              bp
              (record saved { in_memory = true }))
  unfolding install_breakpoint write_breakpoint_instruction set_in_memory store
  install_breakpoint-lem out =
      rw (load_lem m bp b ne node, out, load_lem m bp b ne node, out, read-byte m b.address v c at)
        (rw (write-byte copied b.address v copied-IsCalm at breakpoint_insn) (
          rw (load_lem (poked copied b.address breakpoint_insn) bp saved ne (rw (==_refl bp)))
            refl))

  -- `remove_breakpoint` of a breakpoint that is in memory puts the saved byte back and unmarks it.
  pub remove_breakpoint-lem :
      b.in_memory ≡ true
      → remove_breakpoint bp m
        ≡ ok true (with_node (poked m b.address b.saved_byte) bp (record b { in_memory = false }))
  unfolding remove_breakpoint write_saved_bytes set_in_memory store
  remove_breakpoint-lem present =
      rw (load_lem m bp b ne node, present, load_lem m bp b ne node, present)
        (rw (write-byte m b.address v c at b.saved_byte)
          (rw (load_lem (poked m b.address b.saved_byte) bp b ne node) refl))

  -- The byte that was saved is back in memory; the breakpoint still counts as being there.
  pub remove_breakpoint_for_continue-lem :
      b.in_memory ≡ true
      → remove_breakpoint_for_continue bp m ≡ ok true (poked m b.address b.saved_byte)
  unfolding remove_breakpoint_for_continue write_saved_bytes
  remove_breakpoint_for_continue-lem present =
      rw (load_lem m bp b ne node, present, load_lem m bp b ne node, present)
        (rw (write-byte m b.address v c at b.saved_byte) refl)

-- Where memory is accessible and the byte at a breakpoint's address is mapped, installing a breakpoint
-- that is not in memory and removing it again succeed; in between the byte is the breakpoint
-- instruction, a second `install_breakpoint` changes nothing, and afterwards all of memory is as it was.
pub remove_breakpoint-install_breakpoint :
    (m : Machine) (bp v : ℕ) (b : Breakpoint)
    → IsCalm m
    → bp ≢ null
    → m.nodes bp ≡ some b
    → m.mem b.address ≡ some v
    → b.in_memory ≡ false
    → (m' m'' : Machine) × (install_breakpoint bp m ≡ ok true m')
      × (m'.mem b.address ≡ some breakpoint_insn)
      × (install_breakpoint bp m' ≡ ok true m')
      × (remove_breakpoint bp m' ≡ ok true m'')
      × ((a : ℕ) → m''.mem a ≡ m.mem a)
unfolding install_breakpoint
remove_breakpoint-install_breakpoint m bp v b c ne node at out =
    let here = copied m bp v b c ne node at in
    let b' = record (saved m bp v b c ne node at) { in_memory = true } in
    let m' = with_node (poked here b.address breakpoint_insn) bp b' in
    (
      m',
      with_node (poked m' b.address v) bp (record b' { in_memory = false }),
      install_breakpoint-lem m bp v b c ne node at out,
      rw (==_refl b.address),
      rw (load_lem m' bp b' ne (rw (==_refl bp))) refl,
      remove_breakpoint-lem m' bp breakpoint_insn b' calm ne (rw (==_refl bp))
          (rw (==_refl b.address)) refl,
      λ a. ground arith,
    )
  where
    calm : IsCalm (
        with_node
          (poked (copied m bp v b c ne node at) b.address breakpoint_insn)
          bp
          (record (saved m bp v b c ne node at) { in_memory = true }))
    calm =
        with_node-IsCalm _ bp _
          (poked-IsCalm _ b.address breakpoint_insn (copied-IsCalm m bp v b c ne node at))

pub null_install : (m : Machine) → install_breakpoint null m ≡ fault
unfolding install_breakpoint load
null_install m = refl

pub null_remove : (m : Machine) → remove_breakpoint null m ≡ fault
unfolding remove_breakpoint load
null_remove m = refl

pub null_delete : (m : Machine) → delete_breakpoint null m ≡ fault
unfolding delete_breakpoint remove_breakpoint load
null_delete m = refl
