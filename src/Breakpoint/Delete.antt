-- ===== src/Breakpoint/Delete.antt =====
-- What `delete_breakpoint` does to the table when the structure is the first of its bucket.
use udi.Breakpoint.{
  breakpoint_hash, free, set_bucket, remove_breakpoint, seek, unlink, delete_breakpoint,
}
use udi.Breakpoint.Chain.{Cells, has, Chain, nil, cons, Holds, Holds-update, Holds-apart, load_lem}
use udi.Cmd.{ok}
use udi.Machine.{Ptr, null, Breakpoint, Machine, update}
use udi.Prelude.{
  ℕ, suc, ◌≡◌, ◌≢◌, refl, true, false, none, some, [], ◌∷◌, arith, ◌==◌, inl, inr, Bool-cases,
  ==_ne, ==_refl,
}

-- The machine after the structure is freed and its bucket is emptied.
abbrev pub emptied : Machine → ℕ → Ptr → Machine
emptied m h bp = record m {
  breakpoints = update m.breakpoints h null;
  nodes = update m.nodes bp none;
}

module _ (m : Machine) (bp : Ptr) (b : Breakpoint) (ne : bp ≢ null) (node : m.nodes bp ≡ some b)
    (out : b.in_memory ≡ false) where
  seek-first : (k : ℕ) → seek (suc k) b.address bp bp m ≡ ok (bp, bp) m
  unfolding seek
  seek-first k = rw (==_ne bp 0 ne, load_lem m bp b ne node, ==_refl b.address)

  pub delete_breakpoint-head :
      m.breakpoints (breakpoint_hash b.address) ≡ bp
      → delete_breakpoint bp m ≡ ok true (emptied m (breakpoint_hash b.address) bp)
  unfolding delete_breakpoint remove_breakpoint seek unlink set_bucket free
  delete_breakpoint-head at =
      rw (load_lem m bp b ne node, out, load_lem m bp b ne node, at)
        (rw (seek-first m.allocated, ==_ne bp 0 ne, ==_refl bp) refl)

module _ (m : Machine) (view : ℕ → Cells) (v : Holds m view) (bp : Ptr) (b : Breakpoint)
    (xs : Cells) (ne : bp ≢ null) (node : m.nodes bp ≡ some b) (out : b.in_memory ≡ false)
    (first : view (breakpoint_hash b.address) ≡ (bp, b.address) ∷ xs) where
  bucket_first : {r : Ptr} {ys : Cells} → Chain m.nodes r ys → ys ≡ (bp, b.address) ∷ xs → r ≡ bp
  bucket_first (nil e) at = absurd (ground arith)
  bucket_first (cons n nd ad nx o c ch) at = ground arith

  -- The address and the other structures of the other buckets.
  kept :
      (k : ℕ) (q : Ptr)
      → breakpoint_hash b.address ≢ k
      → has q (view k) ≡ true
      → update m.nodes bp none q ≡ m.nodes q
  kept k q n i = elim (Bool-cases (bp == q)) [
    | inr e ↦ rw e
    | inl e ↦
        absurd (
          ground (arith, Holds-apart v (breakpoint_hash b.address) k bp (rw (first, ==_refl bp)) n))
  ]

  -- Deleting a breakpoint that is not in memory and is the first of its bucket succeeds, and empties
  -- the whole bucket: the breakpoints behind it are no longer in the table. All other buckets and
  -- debuggee memory are unchanged.
  pub delete_breakpoint-first :
      (m' : Machine) × (delete_breakpoint bp m ≡ ok true m')
      × Holds m' (update view (breakpoint_hash b.address) [])
      × (m'.mem ≡ m.mem)
  delete_breakpoint-first = (
    emptied m (breakpoint_hash b.address) bp,
    delete_breakpoint-head m bp b ne node out
        (bucket_first (v.chains (breakpoint_hash b.address)) first),
    Holds-update v (emptied m (breakpoint_hash b.address) bp) (breakpoint_hash b.address) []
        (nil (rw (==_refl (breakpoint_hash b.address)))) (λ k n. ground arith) (λ k n q. kept k q n)
        (λ a i. ground arith) (omega arith) (omega arith),
    refl,
  )

remove_breakpoint-out :
    (m : Machine) (bp : Ptr) (b : Breakpoint)
    → bp ≢ null
    → m.nodes bp ≡ some b
    → b.in_memory ≡ false
    → remove_breakpoint bp m ≡ ok true m
unfolding remove_breakpoint
remove_breakpoint-out m bp b ne node out = rw (load_lem m bp b ne node, out) refl

-- A breakpoint that is in memory is removed from there first; the rest is as for one that is not.
pub delete_breakpoint-installed :
    (m m' : Machine) (bp : Ptr) (b : Breakpoint)
    → remove_breakpoint bp m ≡ ok true m'
    → bp ≢ null
    → m'.nodes bp ≡ some b
    → b.in_memory ≡ false
    → delete_breakpoint bp m ≡ delete_breakpoint bp m'
unfolding delete_breakpoint
delete_breakpoint-installed m m' bp b e ne node out =
    rw (e, remove_breakpoint-out m' bp b ne node out)
