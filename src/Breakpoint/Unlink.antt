-- ===== src/Breakpoint/Unlink.antt =====
-- What `delete_breakpoint` does to the table when the structure is not the first of its bucket.
use udi.Breakpoint.{
  breakpoint_hash, store, free, remove_breakpoint, seek, unlink, delete_breakpoint,
}
use udi.Breakpoint.Chain.{
  Cells, has, has_address, Chain, nil, cons, frame, has-address, Holds, Holds-update, Holds-apart,
  load_lem,
}
use udi.Cmd.{ok}
use udi.Machine.{Ptr, null, Breakpoint, Machine, update}
use udi.Prelude.{
  ℕ, zero, suc, ◌<◌, ◌≤◌, ◌≡◌, ◌≢◌, refl, true, false, Option, none, some, [], ◌∷◌, arith, ◌==◌,
  inl, inr, Bool-cases, if◌then◌else◌, ==_ne, ==_iff, length, ap, sym,
}

-- The chain without a structure.
pub without : Ptr → Cells → Cells
without p [] = []
without p ((q, a) ∷ xs) = if p == q then xs else (q, a) ∷ without p xs

has-without : (p q : Ptr) (xs : Cells) → has q xs ≡ false → has q (without p xs) ≡ false
unfolding without
has-without p q [] h = refl
has-without p q ((r, a) ∷ xs) h = ground (arith, has-without p q xs)

has_address-without :
    (p : Ptr) (a : ℕ) (xs : Cells) → has_address a xs ≡ false → has_address a (without p xs) ≡ false
unfolding without
has_address-without p a [] h = refl
has_address-without p a ((r, d) ∷ xs) h = ground (arith, has_address-without p a xs)

length-without : (p : Ptr) (xs : Cells) → length (without p xs) ≤ length xs
unfolding without
length-without p [] = omega arith
length-without p ((r, d) ∷ xs) = ground (arith, length-without p xs)

-- The nodes after `prev->next_breakpoint = bp->next_breakpoint` and the release of `bp`.
abbrev pub unlinked :
    (Ptr → Option Breakpoint) → Ptr → Breakpoint → Ptr → Breakpoint → Ptr → Option Breakpoint
unlinked nodes prev t bp b =
    update (update nodes prev (some (record t { next_breakpoint = b.next_breakpoint }))) bp none

module _ (m : Machine) (bp : Ptr) (b : Breakpoint) (node : m.nodes bp ≡ some b) where
  -- The structure that the chain's loop finds is `bp`, and its predecessor is in the chain.
  seek-later :
      (k : ℕ) {p q d : ℕ} {t : Breakpoint} {ys : Cells}
      → p ≢ null
      → m.nodes p ≡ some t
      → t.address ≡ d
      → t.next_breakpoint ≡ q
      → has p ys ≡ false
      → has_address d ys ≡ false
      → Chain m.nodes q ys
      → has bp ys ≡ true
      → length ys < k
      → (prev : Ptr) × (pt : Breakpoint) × (seek k b.address p q m ≡ ok (prev, bp) m)
        × (m.nodes prev ≡ some pt)
        × (has prev ((p, d) ∷ ys) ≡ true)
        × (prev ≢ null)
        × ((prev == bp) ≡ false)
        × Chain (unlinked m.nodes prev pt bp b) p ((p, d) ∷ without bp ys)
  unfolding seek without
  seek-later zero ne at addr next out once c i h = elim h [ ]
  seek-later (suc k) ne at addr next out once (nil e) i h = absurd (ground arith)
  seek-later (suc k) {p} {q} {d} {t} ne at addr next out once
        (cons {q = q'} {a = a'} {b = b'} {xs = zs} ne' at' addr' next' out' once' c) i h =
      elim (Bool-cases (bp == q)) [
        | inl e ↦ (
          p,
          t,
          rw (==_ne q 0 ne', load_lem m q b' ne' at', same e)
              (ap (λ r. ok (p, r) m) (sym ((==_iff bp q).0 e))),
          at,
          ground arith,
          ne,
          ground arith,
          rw e (
              cons {b = record t { next_breakpoint = b.next_breakpoint }} ne (ground arith) addr
                (follows e) (ground arith) (ground arith) (frame c λ r j. ground arith)),
        )
        | inr e ↦
            let (prev, pt, run, at2, in2, ne2, diff, chain) =
              seek-later k {p = q} {t = b'} ne' at' addr' next' out' once' c (ground arith)
                (omega arith) in
            (
              prev,
              pt,
              rw (==_ne q 0 ne', load_lem m q b' ne' at', other e, next') run,
              at2,
              ground arith,
              ne2,
              diff,
              rw e (
                  cons {b = t} ne (ground arith) addr next (ground (arith, has-without bp p zs))
                    (ground (arith, has_address-without bp d zs)) chain),
            )
      ]
    where
      same : (bp == q) ≡ true → (b'.address == b.address) ≡ true
      same e = ground arith

      follows : (bp == q) ≡ true → b.next_breakpoint ≡ q'
      follows e = ground arith

      other : (bp == q) ≡ false → (b'.address == b.address) ≡ false
      other e = let (b2, at2, in2) = has-address bp c (ground arith) in ground arith

-- The machine after `bp` is unlinked behind `prev` and freed.
abbrev pub released : Machine → Ptr → Breakpoint → Ptr → Breakpoint → Machine
released m prev t bp b = record m { nodes = unlinked m.nodes prev t bp b }

module _ (m : Machine) (view : ℕ → Cells) (v : Holds m view) (bp : Ptr) (b : Breakpoint) (p d : ℕ)
    (ys : Cells) (ne_bp : bp ≢ null) (node : m.nodes bp ≡ some b) (out_bp : b.in_memory ≡ false)
    (at_h : view (breakpoint_hash b.address) ≡ (p, d) ∷ ys) (later : has bp ys ≡ true) where
  -- A structure of this bucket is in no other.
  elsewhere :
      (k : ℕ) (q r : Ptr)
      → breakpoint_hash b.address ≢ k
      → has r ((p, d) ∷ ys) ≡ true
      → has q (view k) ≡ true
      → (r == q) ≡ false
  elsewhere k q r n i j = elim (Bool-cases (r == q)) [
    | inr e ↦ e
    | inl e ↦ absurd (ground (arith, Holds-apart v (breakpoint_hash b.address) k r (rw at_h i) n))
  ]

  length-later : length ys < m.allocated
  length-later = omega (arith, v.bounded (breakpoint_hash b.address), ap length at_h)

  homes-later :
      (a : ℕ)
      → has_address a ((p, d) ∷ without bp ys) ≡ true
      → breakpoint_hash a ≡ breakpoint_hash b.address
  homes-later a i =
      v.homes (breakpoint_hash b.address) a (rw at_h (ground (arith, has_address-without bp a ys)))

  seek-past :
      (k : ℕ) {q : Ptr} {t : Breakpoint} {w : Ptr × Ptr}
      → p ≢ null
      → m.nodes p ≡ some t
      → (t.address == b.address) ≡ false
      → t.next_breakpoint ≡ q
      → seek k b.address p q m ≡ ok w m
      → seek (suc k) b.address p p m ≡ ok w m
  unfolding seek
  seek-past k {t} ne at other next found =
      rw (==_ne p 0 ne, load_lem m p t ne at, other, next) found

  delete_in :
      {r : Ptr}
      → Chain m.nodes r ((p, d) ∷ ys)
      → m.breakpoints (breakpoint_hash b.address) ≡ r
      → (m' : Machine) × (delete_breakpoint bp m ≡ ok true m')
        × Holds m' (update view (breakpoint_hash b.address) ((p, d) ∷ without bp ys))
        × (m'.mem ≡ m.mem)
  unfolding delete_breakpoint remove_breakpoint unlink store free
  delete_in (cons {q} {b = t} ne at addr next out once c) er =
      let (prev, pt, found, at_prev, in_prev, ne_prev, diff, chain) =
        seek-later m bp b node m.allocated {t = t} ne at addr next out once c later length-later in
      (
        released m prev pt bp b,
        rw (load_lem m bp b ne_bp node, out_bp, load_lem m bp b ne_bp node, er)
            (rw
              (
                seek-past m.allocated ne at other next found,
                ==_ne bp 0 ne_bp,
                ==_ne prev 0 ne_prev,
                diff,
                load_lem m bp b ne_bp node,
                load_lem m prev pt ne_prev at_prev,
              )
              refl),
        Holds-update v (released m prev pt bp b) (breakpoint_hash b.address)
            ((p, d) ∷ without bp ys) (rw er chain) (λ k n. refl)
            (λ k n r j. rw (elsewhere k r bp n (ground arith) j, elsewhere k r prev n in_prev j))
            homes-later (omega (arith, length-without bp ys, length-later)) (omega arith),
        refl,
      )
    where
      other : (t.address == b.address) ≡ false
      other = let (b2, at2, in2) = has-address bp c later in ground arith

  -- Deleting a breakpoint that is not in memory and is not the first of its bucket succeeds and takes
  -- exactly this breakpoint out of the table; debuggee memory is unchanged.
  pub delete_breakpoint-later :
      (m' : Machine) × (delete_breakpoint bp m ≡ ok true m')
      × Holds m' (update view (breakpoint_hash b.address) ((p, d) ∷ without bp ys))
      × (m'.mem ≡ m.mem)
  delete_breakpoint-later = delete_in (rw at_h at (v.chains (breakpoint_hash b.address))) refl
