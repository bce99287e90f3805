-- ===== src/Breakpoint/Linked.antt =====
-- The loop of `create_breakpoint` over the chain of a bucket.
use udi.Breakpoint.{blank, link, store, free}
use udi.Breakpoint.Chain.{
  Cells, has, has_address, Chain, nil, cons, has-append_one, has_address-append_one, load_lem,
  find_in,
}
use udi.Cmd.{ok}
use udi.Machine.{Ptr, null, Breakpoint, Machine, update}
use udi.Prelude.{
  ℕ, zero, suc, ◌<◌, ◌≡◌, ◌≢◌, refl, arith, length, Bool-cases, inl, inr, true, false, Option, none,
  some, [], ◌∷◌, ◌++◌, ◌==◌, ==_ne,
}

-- `g` differs from `f` at most at the structures of `xs`.
abbrev pub SameOutside : Cells → (Ptr → Option Breakpoint) → (Ptr → Option Breakpoint) → Type 0
SameOutside xs f g = (q : Ptr) → has q xs ≡ false → g q ≡ f q

module _ (m : Machine) (new a : ℕ) (ne_new : new ≢ null)
    (fresh : m.nodes new ≡ some (blank a)) where
  -- The loop over a chain that does not have the address: the new structure comes last.
  pub link-absent :
      (k : ℕ) {p q d : ℕ} {b : Breakpoint} {xs : Cells}
      → p ≢ null
      → m.nodes p ≡ some b
      → b.address ≡ d
      → b.next_breakpoint ≡ q
      → has p xs ≡ false
      → has_address d xs ≡ false
      → Chain m.nodes q xs
      → has_address a ((p, d) ∷ xs) ≡ false
      → has new ((p, d) ∷ xs) ≡ false
      → length xs < k
      → (f : Ptr → Option Breakpoint) × (link k new p m ≡ ok new (record m { nodes = f }))
        × Chain f p (((p, d) ∷ xs) ++ ((new, a) ∷ []))
        × SameOutside ((p, d) ∷ xs) m.nodes f
  unfolding link store
  link-absent zero ne at addr next out once c absent other h = elim h [ ]
  link-absent (suc k) {p} {d} {b} ne at addr next out once (nil e) absent other h = (
    update m.nodes p (some (record b { next_breakpoint = new })),
    rw (load_lem m p b ne at, load_lem m new (blank a) ne_new fresh, addr, d_ne, next, e),
    cons {b = record b { next_breakpoint = new }} ne (ground arith) addr refl (ground arith)
        (ground arith) (cons {b = blank a} ne_new (ground arith) refl refl refl refl (nil refl)),
    ground arith,
  )
    where
      d_ne : (d == a) ≡ false
      d_ne = ground arith
  link-absent (suc k) {p} {d} {b} ne at addr next out once
        (cons {p = p'} {a = a'} {b = b'} {xs} ne' at' addr' next' out' once' c) absent other h =
      let (f, run, chain, same) =
        link-absent k {p = p'} {b = b'} ne' at' addr' next' out' once' c (ground arith)
          (ground arith) (omega arith) in
      (
        f,
        rw
            (
              load_lem m p b ne at,
              load_lem m new (blank a) ne_new fresh,
              addr,
              d_ne,
              next,
              ==_ne p' 0 ne',
            )
            run,
        cons {b = b} ne (ground (arith, same p)) addr next
            (has-append_one p new a ((p', a') ∷ xs) out (ground arith))
            (rw (has_address-append_one d new a ((p', a') ∷ xs), once) d_ne') chain,
        ground (arith, same),
      )
    where
      d_ne : (d == a) ≡ false
      d_ne = ground arith

      d_ne' : (a == d) ≡ false
      d_ne' = ground arith

  -- The loop over a chain that has the address: the new structure is given back.
  pub link-present :
      (k : ℕ) {p q d : ℕ} {b : Breakpoint} {xs : Cells}
      → p ≢ null
      → m.nodes p ≡ some b
      → b.address ≡ d
      → b.next_breakpoint ≡ q
      → Chain m.nodes q xs
      → has_address a ((p, d) ∷ xs) ≡ true
      → length xs < k
      → link k new p m ≡ ok (find_in a ((p, d) ∷ xs)) (record m { nodes = update m.nodes new none })
  unfolding link free find_in
  link-present zero ne at addr next c present h = elim h [ ]
  link-present (suc k) {p} {d} {b} ne at addr next (nil e) present h =
      rw (load_lem m p b ne at, load_lem m new (blank a) ne_new fresh, addr, hit)
    where
      hit : (d == a) ≡ true
      hit = ground arith
  link-present (suc k) {p} {d} {b} ne at addr next
        (cons {p = p'} {b = b'} ne' at' addr' next' out' once' c) present h =
      elim (Bool-cases (d == a)) [
        | inl e ↦ rw (load_lem m p b ne at, load_lem m new (blank a) ne_new fresh, addr, e)
        | inr e ↦
            rw
              (
                load_lem m p b ne at,
                load_lem m new (blank a) ne_new fresh,
                addr,
                e,
                next,
                ==_ne p' 0 ne',
              )
              (link-present k {b = b'} ne' at' addr' next' c (ground arith) (omega arith))
      ]
