-- ===== src/Machine.antt =====
-- The globals of libudirt/src/udirt.c and the debuggee memory that they guard: `abortable_memcpy`,
-- `udi_memcpy`, `read_memory` and `write_memory`, with the part of the SIGSEGV handler that they rely
-- on (`decode_memory_access_event` of libudirt/src/udirt-posix.c, its branch for an access in
-- progress).
-- What the operating system and the allocator answer are lists of outcomes that calls use up; an
-- empty list of outcomes means success, an empty list of addresses means that memory is exhausted.
pub mod Access
pub mod RoundTrip
use mathlib.Core.Option.{get_or}
use udi.Cmd.{Run, Cmd, ok, stuck, pure, ◌>>=◌, ◌>>◌}
use udi.Format.{Arg, text}
use udi.Prelude.{
  ℕ, zero, suc, ◌+◌, ◌*◌, ◌/◌, Bool, true, false, ◌&&◌, ◌||◌, Option, none, some, List, [], ◌∷◌,
  String, ltb, leb, ◌==◌, if◌then◌else◌, codes,
}

-- An address of a C object in the library's own heap; 0 is NULL.
abbrev pub Ptr : Type 0
Ptr = ℕ

abbrev pub null : Ptr
null = 0

-- What `udi_set_errmsg` was last called with; `udi.Format` renders it.
pub record Message : Type 0 where
  pub format : String
  pub args : List Arg

-- `struct breakpoint_struct`. Of `saved_bytes` only the first is ever written or read.
pub record Breakpoint : Type 0 where
  pub saved_byte : ℕ
  pub address : ℕ
  pub in_memory : Bool
  pub thread : Ptr
  pub next_breakpoint : Ptr

-- `si_code` of a SIGSEGV
pub data SiCode : Type 0 where
  maperr accerr other_code : SiCode

pub record Machine : Type 0 where
  -- debuggee memory: `none` is not mapped; permissions are by page
  pub mem : ℕ → Option ℕ
  pub readable : ℕ → Bool
  pub writable : ℕ → Bool
  pub mem_access_addr : ℕ
  pub mem_access_size : ℕ
  pub aborting_mem_access : Bool
  pub performing_mem_access : Bool
  pub failed_si_code : SiCode
  -- outcomes of `pre_mem_access_hook`, `post_mem_access_hook` and `mprotect`
  pub pre_hooks : List Bool
  pub post_hooks : List Bool
  pub mprotects : List Bool
  -- how often one instruction may fault before the model gives up
  pub fault_rounds : ℕ
  -- the breakpoint structures, the hash table, the number of structures allocated so far (which
  -- bounds the loops over a bucket), and the addresses that `udi_malloc` will return
  pub nodes : Ptr → Option Breakpoint
  pub breakpoints : ℕ → Ptr
  pub allocated : ℕ
  pub mallocs : List Ptr
  pub errmsg : Message

abbrev pub page_size : ℕ
page_size = 4096

abbrev pub page : ℕ → ℕ
page a = a / page_size

abbrev pub update {ℓ} : {A : Type ℓ} → (ℕ → A) → ℕ → A → ℕ → A
update f p v q = if p == q then v else f q

unfoldable pub set_errmsg : String → List Arg → Cmd Machine (Unit {0})
set_errmsg format args m = ok tt (record m { errmsg = record { format = format; args = args } })

abbrev pub head_or_true : List Bool → Bool
head_or_true [] = true
head_or_true (b ∷ bs) = b

abbrev pub rest : List Bool → List Bool
rest [] = []
rest (b ∷ bs) = bs

-- NULL is a failure of the hook.
pre_mem_access_hook : Cmd Machine Bool
pre_mem_access_hook m = ok (head_or_true m.pre_hooks) (record m { pre_hooks = rest m.pre_hooks })

post_mem_access_hook : Cmd Machine Bool
post_mem_access_hook m =
    ok (head_or_true m.post_hooks) (record m { post_hooks = rest m.post_hooks })

abort_mem_access : Cmd Machine (Unit {0})
abort_mem_access m = ok tt (record m { aborting_mem_access = true })

-- `mprotect(start & ~(page_size - 1), size, ...)` opens the pages that the range reaches into.
abbrev pub opened : ℕ → ℕ → ℕ → Bool
opened start size p = leb (page start) p && ltb p (page start + (size + 4095) / page_size)

mprotect_access : Cmd Machine Bool
mprotect_access m =
    if head_or_true m.mprotects
    then ok true (record m {
      mprotects = rest m.mprotects;
      readable = λ p. opened m.mem_access_addr m.mem_access_size p || m.readable p;
      writable = λ p. opened m.mem_access_addr m.mem_access_size p || m.writable p;
    })
    else ok false (record m { mprotects = rest m.mprotects })

-- The fault handler while a memory access is in progress: true if the instruction is run again,
-- false if control goes to the abort label. Its error message is local to the handler.
pub decode_memory_access_event : SiCode → Cmd Machine Bool
unfolding mprotect_access abort_mem_access
decode_memory_access_event accerr = do
  done ← mprotect_access
  if done
      then pure true
      else do abort_mem_access; λ m. ok false (record m { failed_si_code = accerr })
decode_memory_access_event code = do
  abort_mem_access
  λ m. ok false (record m { failed_si_code = code })

-- What an access to the byte at `a` meets.
pub data Permission : Type 0 where
  granted denied unmapped : Permission

abbrev pub permission : Machine → Bool → ℕ → Permission
permission m write a = elim (m.mem a) [
  | none ↦ unmapped
  | some _ ↦
      if (if write then m.writable (page a) else m.readable (page a)) then granted else denied
]

touch_with : Permission → Cmd Machine Bool → Cmd Machine Bool
unfolding decode_memory_access_event
touch_with granted again = pure true
touch_with unmapped again = decode_memory_access_event maperr
touch_with denied again = do
  retry ← decode_memory_access_event accerr
  if retry then again else pure false

-- One access: true if it completes, false if the fault handler aborted the copy.
touch : ℕ → Bool → ℕ → Cmd Machine Bool
unfolding touch_with
touch zero write a = λ _. stuck
touch (suc k) write a = λ m. touch_with (permission m write a) (touch k write a) m

-- The copy loop with debuggee memory as its source; the bytes copied before an abort.
load_bytes : ℕ → ℕ → Cmd Machine (List ℕ)
unfolding touch
load_bytes zero src = pure []
load_bytes (suc n) src = do
  done ← λ m. touch m.fault_rounds false src m
  byte ← λ m. ok (get_or (m.mem src) 0) m
  if done then (do bytes ← load_bytes n (src + 1); pure (byte ∷ bytes)) else pure []

put_byte : ℕ → ℕ → Cmd Machine (Unit {0})
put_byte dest b m = ok tt (record m { mem = update m.mem dest (some b) })

-- The copy loop with debuggee memory as its destination.
store_bytes : List ℕ → ℕ → Cmd Machine (Unit {0})
unfolding touch put_byte
store_bytes [] dest = pure tt
store_bytes (b ∷ bytes) dest = do
  done ← λ m. touch m.fault_rounds true dest m
  if done then (do put_byte dest b; store_bytes bytes (dest + 1)) else pure tt

-- The abort label: true is the result 0, false is -1.
abort_label : Cmd Machine Bool
abort_label m =
    if m.aborting_mem_access then ok false (record m { aborting_mem_access = false }) else ok true m

abortable_memcpy : {A : Type 0} → Cmd Machine A → Cmd Machine (Bool × A)
unfolding abort_label
abortable_memcpy copy = do a ← copy; done ← abort_label; pure (done, a)

set_performing : Bool → Cmd Machine (Unit {0})
set_performing b m = ok tt (record m { performing_mem_access = b })

-- `none_copied` is what the destination holds if the first hook fails.
udi_memcpy : {A : Type 0} → A → Cmd Machine A → Cmd Machine (Bool × A)
unfolding pre_mem_access_hook post_mem_access_hook abortable_memcpy set_performing set_errmsg
udi_memcpy none_copied copy = do
  pre ← pre_mem_access_hook
  if pre
      then (do
        set_performing true
        (done, a) ← abortable_memcpy copy
        set_performing false
        post ← post_mem_access_hook
        if post
            then pure (done, a)
            else do set_errmsg "post memory access hook failed" []; pure (false, a))
      else do set_errmsg "pre memory access hook failed" []; pure (false, none_copied)

start_access : ℕ → ℕ → Cmd Machine (Unit {0})
start_access addr size m = ok tt (record m { mem_access_addr = addr; mem_access_size = size })

pub read_memory : ℕ → ℕ → Cmd Machine (Bool × List ℕ)
unfolding start_access udi_memcpy load_bytes
read_memory src num_bytes = do start_access src num_bytes; udi_memcpy [] (load_bytes num_bytes src)

pub write_memory : ℕ → List ℕ → ℕ → Cmd Machine (Bool × Unit {0})
unfolding start_access udi_memcpy store_bytes
write_memory dest bytes num_bytes = do
  start_access dest num_bytes
  udi_memcpy tt (store_bytes bytes dest)

-- `get_mem_errstr`
pub get_mem_errstr : SiCode → List ℕ
get_mem_errstr maperr = codes "address not mapped in process"
get_mem_errstr _ = codes "unknown memory error"
