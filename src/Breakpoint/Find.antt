-- ===== src/Breakpoint/Find.antt =====
-- `find_breakpoint` returns the structure that the table holds for the address.
use udi.Breakpoint.{breakpoint_hash, find, find_breakpoint}
use udi.Breakpoint.Chain.{Cells, Chain, nil, cons, load_lem, Holds, find_in}
use udi.Cmd.{ok}
use udi.Machine.{Ptr, Machine}
use udi.Prelude.{ℕ, zero, suc, ◌<◌, ◌≡◌, arith, length, Bool-cases, inl, inr, ◌==◌, ==_ne}

find-Chain :
    (m : Machine) (a k : ℕ) {p : Ptr} {xs : Cells}
    → Chain m.nodes p xs
    → length xs < k
    → find k a p m ≡ ok (find_in a xs) m
unfolding find find_in
find-Chain m a zero c h = elim h [ ]
find-Chain m a (suc k) (nil e) h = rw e
find-Chain m a (suc k) (cons {p} {a = a'} {b} {xs} ne at addr next out once c) h =
    rw (==_ne p 0 ne, load_lem m p b ne at, addr, next)
      (elim (Bool-cases (a' == a)) [
        | inl e ↦ rw e
        | inr e ↦ rw e (find-Chain m a k c (omega arith))
      ])

-- In a table that holds `view`, `find_breakpoint` returns the structure that the bucket of the
-- address has for it, NULL if there is none, and changes nothing.
pub find_breakpoint-Holds :
    (m : Machine) (view : ℕ → Cells) (a : ℕ)
    → Holds m view
    → find_breakpoint a m ≡ ok (find_in a (view (breakpoint_hash a))) m
unfolding find_breakpoint
find_breakpoint-Holds m view a v =
    find-Chain m a (suc m.allocated) (v.chains (breakpoint_hash a))
      (omega (arith, v.bounded (breakpoint_hash a)))
