-- ===== src/Breakpoint/Create.antt =====
-- `create_breakpoint` adds a structure for a new address, and returns the one there is for an old one.
use udi.Breakpoint.{breakpoint_hash, blank, create_breakpoint, store, set_bucket, malloc}
use udi.Breakpoint.Chain.{
  Cells, has, has_address, Chain, nil, cons, frame, has-unused, has_address-append_one,
  Holds-update, Holds-apart, Holds, find_in,
}
use udi.Cmd.{ok}
use udi.Machine.{Ptr, null, Machine, update}
use udi.Prelude.{
  ℕ, suc, ◌+◌, ◌<◌, ◌≤◌, ◌≡◌, ◌≢◌, refl, arith, length, length-append, Bool-cases, inl, inr, true,
  false, none, some, List, [], ◌∷◌, ◌++◌, ◌==◌, ==_ne, ==_refl, if◌then◌else◌, ap, sym, ◌∙◌,
}
use udi.Breakpoint.Linked.{link-absent, link-present}

-- What the table holds after `create_breakpoint(a)` got the address `new` from the allocator.
unfoldable pub insert_in : ℕ → Ptr → Cells → Cells
insert_in a new xs = if has_address a xs then xs else xs ++ ((new, a) ∷ [])

pub insert_in-present : (a new : ℕ) (xs : Cells) → has_address a xs ≡ true → insert_in a new xs ≡ xs
unfolding insert_in
insert_in-present a new xs e = rw e

pub insert_in-absent :
    (a new : ℕ) (xs : Cells) → has_address a xs ≡ false → insert_in a new xs ≡ xs ++ ((new, a) ∷ [])
unfolding insert_in
insert_in-absent a new xs e = rw e

-- The structure that `create_breakpoint(a)` returns.
unfoldable pub created : ℕ → Ptr → Cells → Ptr
created a new xs = if has_address a xs then find_in a xs else new

-- `m'` is a machine that holds `view`, with the same debuggee memory as `m`.
pub record Becomes (m m' : Machine) (view : ℕ → Cells) : Type 0 where
  pub holds : Holds m' view
  pub mem : m'.mem ≡ m.mem

module _ (m : Machine) (view : ℕ → Cells) (a new : ℕ) (later : List Ptr) (v : Holds m view)
    (next : m.mallocs ≡ new ∷ later) (ne_new : new ≢ null) (unused : m.nodes new ≡ none) where
  malloc-next : malloc m ≡ ok new (record m { mallocs = later; allocated = m.allocated + 1 })
  unfolding malloc
  malloc-next = rw (next, malloc)

  -- The machine once the new structure is filled in.
  abbrev filled : Machine
  filled = record m {
    mallocs = later;
    allocated = m.allocated + 1;
    nodes = update m.nodes new (some (blank a));
  }

  filled-same : (k : ℕ) (q : Ptr) → has q (view k) ≡ true → filled.nodes q ≡ m.nodes q
  filled-same k q i = ground (arith, has-unused new (v.chains k) unused)

  hash-address :
      (d : ℕ) (xs : Cells)
      → view (breakpoint_hash a) ≡ xs
      → has_address d xs ≡ true
      → breakpoint_hash d ≡ breakpoint_hash a
  hash-address d xs at i = v.homes (breakpoint_hash a) d (rw at i)

  hash-inserted :
      (d : ℕ) (xs : Cells)
      → view (breakpoint_hash a) ≡ xs
      → has_address d (xs ++ ((new, a) ∷ [])) ≡ true
      → breakpoint_hash d ≡ breakpoint_hash a
  hash-inserted d xs at i = elim (Bool-cases (a == d)) [
    | inl e ↦ ap breakpoint_hash (ground arith)
    | inr e ↦ hash-address d xs at (ground (arith, has_address-append_one d new a xs))
  ]

  len :
      {p d : ℕ} {xs : Cells}
      → view (breakpoint_hash a) ≡ (p, d) ∷ xs
      → length xs < suc (m.allocated + 1)
  len at = omega (arith, v.bounded (breakpoint_hash a), ap length at)

  len' :
      {p d : ℕ} {xs : Cells}
      → view (breakpoint_hash a) ≡ (p, d) ∷ xs
      → length ((p, d) ∷ xs) ≤ m.allocated
  len' at = omega (arith, v.bounded (breakpoint_hash a), ap length at)

  -- The rest of the function on a bucket that is the chain `xs`.
  create_in :
      {r : Ptr} (xs : Cells)
      → view (breakpoint_hash a) ≡ xs
      → m.breakpoints (breakpoint_hash a) ≡ r
      → Chain filled.nodes r xs
      → (m' : Machine) × (create_breakpoint a m ≡ ok (created a new xs) m')
        × Becomes m m' (update view (breakpoint_hash a) (insert_in a new xs))
  unfolding create_breakpoint store set_bucket created
  create_in [] at er (nil e) = (
    record filled { breakpoints = update m.breakpoints (breakpoint_hash a) new },
    rw (malloc-next, ==_ne new 0 ne_new, er, e),
    record {
      holds = rw (insert_in-absent a new [] refl) (
          Holds-update v _ (breakpoint_hash a) ((new, a) ∷ [])
            (rw (==_refl (breakpoint_hash a))
              (cons {b = blank a} ne_new (ground arith) refl refl refl refl (nil refl)))
            (λ k n. ground arith) (λ k n q. filled-same k q)
            (λ d i. ap breakpoint_hash (ground arith)) (omega arith) (omega arith));
      mem = refl;
    },
  )
  create_in ((p, d) ∷ xs) at er (cons {b} ne at' addr next' out once c) =
      elim (Bool-cases (has_address a ((p, d) ∷ xs))) [
        | inl e ↦ (
          record filled { nodes = update filled.nodes new none },
          rw (malloc-next, ==_ne new 0 ne_new, er, ==_ne p 0 ne, e)
              (link-present filled new a ne_new (ground arith) (suc filled.allocated) {b = b} ne at'
                addr next' c e (len at)),
          record {
            holds = rw (insert_in-present a new ((p, d) ∷ xs) e) (
                Holds-update v _ (breakpoint_hash a) ((p, d) ∷ xs)
                  (rw er (
                    frame (rw (er, at) at (v.chains (breakpoint_hash a))) λ q i.
                      ground
                        (arith, rw at at (has-unused new (v.chains (breakpoint_hash a)) unused))))
                  (λ k n. refl) (λ k n q i. ground (arith, has-unused new (v.chains k) unused))
                  (λ d' i. hash-address d' ((p, d) ∷ xs) at i) (omega (arith, len' at))
                  (omega arith));
            mem = refl;
          },
        )
        | inr e ↦
            let (f, run, chain, same) =
              link-absent filled new a ne_new (ground arith) (suc filled.allocated) {b = b} ne at'
                addr next' out once c e
                (rw at at (has-unused new (v.chains (breakpoint_hash a)) unused)) (len at) in
            (
              record filled { nodes = f },
              rw (malloc-next, ==_ne new 0 ne_new, er, ==_ne p 0 ne, e) run,
              record {
                holds = rw (insert_in-absent a new ((p, d) ∷ xs) e) (
                    Holds-update v _ (breakpoint_hash a) (((p, d) ∷ xs) ++ ((new, a) ∷ []))
                      (rw er chain) (λ k n. refl)
                      (λ k n q i.
                        same q (rw at at (Holds-apart v k (breakpoint_hash a) q i (λ z. n (sym z))))
                        ∙ filled-same k q i)
                      (λ d' i. hash-inserted d' ((p, d) ∷ xs) at i)
                      (omega (arith, length-append xs ((new, a) ∷ []), len' at)) (omega arith));
                mem = refl;
              },
            )
      ]

  -- From a table that holds `view`, with an unused address from the allocator, `create_breakpoint`
  -- returns the structure that the bucket already has for the address, or else the new one; the
  -- table then holds `view` with the new structure last in the bucket of a new address, and `view`
  -- itself for an old one; debuggee memory is unchanged.
  pub create_breakpoint-Becomes :
      (let h = breakpoint_hash a in
        (m' : Machine) × (create_breakpoint a m ≡ ok (created a new (view h)) m')
        × Becomes m m' (update view h (insert_in a new (view h))))
  create_breakpoint-Becomes =
      create_in (view (breakpoint_hash a)) refl refl
        (frame (v.chains (breakpoint_hash a)) (filled-same (breakpoint_hash a)))

-- In an empty bucket, the new structure is the first.
pub create_breakpoint-first :
    (m : Machine) (a new : ℕ) (later : List Ptr)
    → m.mallocs ≡ new ∷ later
    → new ≢ null
    → m.breakpoints (breakpoint_hash a) ≡ null
    → create_breakpoint a m
      ≡ ok new (record m {
        mallocs = later;
        allocated = m.allocated + 1;
        nodes = update m.nodes new (some (blank a));
        breakpoints = update m.breakpoints (breakpoint_hash a) new;
      })
unfolding create_breakpoint store set_bucket malloc
create_breakpoint-first m a new later next ne empty = rw (next, ==_ne new 0 ne, empty) refl
