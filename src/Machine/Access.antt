-- ===== src/Machine/Access.antt =====
-- What `read_memory` and `write_memory` do: they stop at the first unmapped byte and report it.
use udi.Cmd.{Cmd, ok}
use udi.Machine.{
  Machine, maperr, page, update, head_or_true, rest, permission, granted, unmapped, touch,
  touch_with, decode_memory_access_event, load_bytes, store_bytes, udi_memcpy, read_memory,
  write_memory,
}
use udi.Prelude.{
  ℕ, zero, suc, ◌+◌, ◌<◌, ◌≡◌, refl, sym, ap, ◌∙◌, Bool, true, false, Option, none, some, List, [],
  ◌∷◌, arith, Option-cases, inl, inr, if◌then◌else◌, length,
}

-- The bytes from `src` on up to the first that is not mapped, `n` at most.
unfoldable pub mapped_bytes : (ℕ → Option ℕ) → ℕ → ℕ → List ℕ
mapped_bytes mem zero src = []
mapped_bytes mem (suc n) src = elim (mem src) [
  | none ↦ []
  | some b ↦ b ∷ mapped_bytes mem n (src + 1)
]

unfoldable pub all_mapped : (ℕ → Option ℕ) → ℕ → ℕ → Bool
all_mapped mem zero src = true
all_mapped mem (suc n) src = elim (mem src) [ none ↦ false | some _ ↦ all_mapped mem n (src + 1) ]

-- An access is possible wherever memory is mapped, and the hooks around it succeed.
pub record IsOpen (m : Machine) : Type 0 where
  pub readable : (p : ℕ) → m.readable p ≡ true
  pub writable : (p : ℕ) → m.writable p ≡ true
  pub rounds : 0 < m.fault_rounds
  pub idle : m.aborting_mem_access ≡ false
  pub pre : head_or_true m.pre_hooks ≡ true
  pub post : head_or_true m.post_hooks ≡ true

-- The machine after an access: the recorded range and the outcomes used up.
abbrev pub accessed : Machine → ℕ → ℕ → Machine
accessed m addr size = record m {
  mem_access_addr = addr;
  mem_access_size = size;
  performing_mem_access = false;
  pre_hooks = rest m.pre_hooks;
  post_hooks = rest m.post_hooks;
}

-- `m` when the copy was aborted by an unmapped byte.
abbrev pub noted : Machine → Bool → Machine
noted m true = m
noted m false = record m { failed_si_code = maperr }

abbrev interrupted : Machine → Bool → Machine
interrupted m true = m
interrupted m false = record m { failed_si_code = maperr; aborting_mem_access = true }

module _ (m : Machine) (w : Bool) (a : ℕ) where
  permission-unmapped : m.mem a ≡ none → permission m w a ≡ unmapped
  permission-unmapped e = ground arith

  permission-granted :
      {b : ℕ}
      → m.mem a ≡ some b
      → (if w then m.writable (page a) else m.readable (page a)) ≡ true
      → permission m w a ≡ granted
  permission-granted {b} e g = ground arith

  touch-unmapped : (k : ℕ) → 0 < k → m.mem a ≡ none → touch k w a m ≡ ok false (interrupted m false)
  unfolding touch touch_with decode_memory_access_event
  touch-unmapped zero h e = elim h [ ]
  touch-unmapped (suc k) h e = rw (permission-unmapped e)

  touch-granted :
      (k : ℕ) {b : ℕ}
      → 0 < k
      → m.mem a ≡ some b
      → (if w then m.writable (page a) else m.readable (page a)) ≡ true
      → touch k w a m ≡ ok true m
  unfolding touch touch_with
  touch-granted zero h e g = elim h [ ]
  touch-granted (suc k) h e g = rw (permission-granted e g)

load_bytes-mapped :
    (m : Machine) (n src : ℕ)
    → 0 < m.fault_rounds
    → ((p : ℕ) → m.readable p ≡ true)
    → load_bytes n src m ≡ ok (mapped_bytes m.mem n src) (interrupted m (all_mapped m.mem n src))
unfolding load_bytes mapped_bytes all_mapped
load_bytes-mapped m zero src h r = refl
load_bytes-mapped m (suc n) src h r = elim (Option-cases (m.mem src)) [
  | inl e ↦ rw (touch-unmapped m false src m.fault_rounds h e, e, mapped_bytes, all_mapped)
  | inr (b, e) ↦
      rw (touch-granted m false src m.fault_rounds h e (r (page src)), e, mapped_bytes, all_mapped)
        (rw (load_bytes-mapped m n (src + 1) h r))
]

abbrev started : Machine → ℕ → ℕ → Machine
started m addr size = record m { mem_access_addr = addr; mem_access_size = size }

abbrev during : Machine → ℕ → ℕ → Machine
during m addr size = record m {
  mem_access_addr = addr;
  mem_access_size = size;
  performing_mem_access = true;
  pre_hooks = rest m.pre_hooks;
}

-- The frame round a copy that ends at the abort label in `interrupted g done`.
udi_memcpy-interrupted :
    {A : Type 0} (d a : A) (copy : Cmd Machine A) (m g : Machine) (done : Bool)
    → head_or_true m.pre_hooks ≡ true
    → copy (record m { performing_mem_access = true; pre_hooks = rest m.pre_hooks })
      ≡ ok a (interrupted g done)
    → g.aborting_mem_access ≡ false
    → head_or_true g.post_hooks ≡ true
    → udi_memcpy d copy m
      ≡ ok
          (done, a)
          (noted (record g { performing_mem_access = false; post_hooks = rest g.post_hooks }) done)
unfolding udi_memcpy
udi_memcpy-interrupted d a copy m g true pre run idle post = rw pre (rw run (rw idle (rw post)))
udi_memcpy-interrupted d a copy m g false pre run idle post = rw pre (
    rw run (
      rw post (
        ap
          (λ b.
            ok (false, a)
              (record g {
                aborting_mem_access = b;
                performing_mem_access = false;
                failed_si_code = maperr;
                post_hooks = rest g.post_hooks;
              }))
          (sym idle))))

-- Where every page is readable, `read_memory` succeeds exactly if all bytes of the range are mapped;
-- it hands over the bytes up to the first unmapped one, leaves memory as it is, and clears the abort.
pub read_memory-mapped :
    (m : Machine) (src n : ℕ)
    → IsOpen m
    → (let done = all_mapped m.mem n src in
        read_memory src n m ≡ ok (done, mapped_bytes m.mem n src) (noted (accessed m src n) done))
unfolding read_memory
read_memory-mapped m src n o =
    udi_memcpy-interrupted [] _ (load_bytes n src) (started m src n) (during m src n) _ o.pre
      (load_bytes-mapped (during m src n) n src o.rounds o.readable) o.idle o.post

-- The memory after a write of `bytes` from `dest` on: it too stops at the first unmapped byte.
unfoldable pub write_bytes : (ℕ → Option ℕ) → List ℕ → ℕ → ℕ → Option ℕ
write_bytes mem [] dest = mem
write_bytes mem (b ∷ bytes) dest = elim (mem dest) [
  | none ↦ mem
  | some _ ↦ write_bytes (update mem dest (some b)) bytes (dest + 1)
]

all_mapped-update :
    (mem : ℕ → Option ℕ) (n src a b : ℕ)
    → a < src
    → all_mapped (update mem a (some b)) n src ≡ all_mapped mem n src
unfolding all_mapped
all_mapped-update mem zero src a b h = refl
all_mapped-update mem (suc n) src a b h =
    ground (arith, all_mapped-update mem n (src + 1) a b (omega arith))

store_bytes-mapped :
    (m : Machine) (bytes : List ℕ) (dest : ℕ)
    → 0 < m.fault_rounds
    → ((p : ℕ) → m.writable p ≡ true)
    → store_bytes bytes dest m
      ≡ ok tt (
          interrupted
            (record m { mem = write_bytes m.mem bytes dest })
            (all_mapped m.mem (length bytes) dest))
unfolding store_bytes write_bytes all_mapped
store_bytes-mapped m [] dest h r = refl
store_bytes-mapped m (b ∷ bytes) dest h r = elim (Option-cases (m.mem dest)) [
  | inl e ↦ rw (touch-unmapped m true dest m.fault_rounds h e, e, write_bytes, all_mapped)
  | inr (v, e) ↦
      rw (touch-granted m true dest m.fault_rounds h e (r (page dest)), e, write_bytes, all_mapped)
        (store_bytes-mapped (record m { mem = update m.mem dest (some b) }) bytes (dest + 1) h r
          ∙ rw (all_mapped-update m.mem (length bytes) (dest + 1) dest b (omega arith)))
]

-- Where every page is writable, `write_memory` succeeds exactly if all bytes of the range are mapped;
-- it stores the bytes up to the first unmapped one, and clears the abort.
pub write_memory-mapped :
    (m : Machine) (dest : ℕ) (bytes : List ℕ)
    → IsOpen m
    → (let done = all_mapped m.mem (length bytes) dest in
        write_memory dest bytes (length bytes) m
        ≡ ok
            (done, tt)
            (noted
              (record (accessed m dest (length bytes)) { mem = write_bytes m.mem bytes dest })
              done))
unfolding write_memory
write_memory-mapped m dest bytes o =
    udi_memcpy-interrupted tt tt (store_bytes bytes dest) (started m dest (length bytes))
      (record (during m dest (length bytes)) { mem = write_bytes m.mem bytes dest })
      (all_mapped m.mem (length bytes) dest) o.pre
      (store_bytes-mapped (during m dest (length bytes)) bytes dest o.rounds o.writable) o.idle
      o.post
