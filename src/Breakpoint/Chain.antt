-- ===== src/Breakpoint/Chain.antt =====
-- Chains of breakpoint structures as lists, and what the table holds.
use udi.Breakpoint.{breakpoint_hash, load}
use udi.Cmd.{ok}
use udi.Machine.{Ptr, null, Breakpoint, Machine, update}
use udi.Prelude.{
  ℕ, ◌≤◌, ◌≡◌, ◌≢◌, refl, Bool, true, false, ◌||◌, Option, none, some, List, [], ◌∷◌, ◌++◌, arith,
  ◌==◌, inl, inr, Bool-cases, if◌then◌else◌, length, ==_ne, ==_iff, ◌∙◌,
}

-- What a chain stands for: the structure and the debuggee address of each link, in order.
abbrev pub Cells : Type 0
Cells = List (Ptr × ℕ)

abbrev pub has : Ptr → Cells → Bool
has p [] = false
has p ((q, _) ∷ xs) = (p == q) || has p xs

abbrev pub has_address : ℕ → Cells → Bool
has_address a [] = false
has_address a ((_, b) ∷ xs) = (b == a) || has_address a xs

-- From `p` the links lead through the distinct structures of the list to NULL.
pub data Chain (nodes : Ptr → Option Breakpoint) : Ptr → Cells → Type 0 where
  nil : {p : Ptr} → p ≡ null → Chain nodes p []
  cons :
      {p q : Ptr} {a : ℕ} {b : Breakpoint} {xs : Cells}
      → p ≢ null
      → nodes p ≡ some b
      → b.address ≡ a
      → b.next_breakpoint ≡ q
      → has p xs ≡ false
      → has_address a xs ≡ false
      → Chain nodes q xs
      → Chain nodes p ((p, a) ∷ xs)

-- A chain survives changes outside its own structures.
pub frame :
    {f g : Ptr → Option Breakpoint} {p : Ptr} {xs : Cells}
    → Chain f p xs
    → ((q : Ptr) → has q xs ≡ true → g q ≡ f q)
    → Chain g p xs
frame (nil e) same = nil e
frame (cons {p} {b} ne at addr next out once c) same =
    cons {b = b} ne (ground (arith, same p)) addr next out once
      (frame c λ q i. same q (ground arith))

-- A structure of a chain is allocated, and its address is one of the chain's.
pub has-address :
    {f : Ptr → Option Breakpoint} {p : Ptr} {xs : Cells} (q : Ptr)
    → Chain f p xs
    → has q xs ≡ true
    → (b : Breakpoint) × (f q ≡ some b) × (has_address b.address xs ≡ true)
has-address q (nil e) h = cc
has-address q (cons {p} {a} {b} {xs} ne at addr next out once c) h = elim (Bool-cases (q == p)) [
  | inl e ↦ (b, ground arith, ground arith)
  | inr e ↦ let (b', at', in') = has-address q c (ground arith) in (b', at', ground arith)
]

-- An unused address is in no chain.
pub has-unused :
    {f : Ptr → Option Breakpoint} {p : Ptr} {xs : Cells} (q : Ptr)
    → Chain f p xs
    → f q ≡ none
    → has q xs ≡ false
has-unused q (nil e) h = refl
has-unused q (cons {p} ne at addr next out once c) h = ground (arith, has-unused q c h)

pub load_lem :
    (m : Machine) (p : Ptr) (b : Breakpoint) → p ≢ null → m.nodes p ≡ some b → load p m ≡ ok b m
unfolding load
load_lem m p b ne e = rw (==_ne p null ne, e)

-- Each bucket is a chain; its structures belong there; an address occurs once; `allocated` bounds it.
pub record Holds (m : Machine) (view : ℕ → Cells) : Type 0 where
  pub chains : (h : ℕ) → Chain m.nodes (m.breakpoints h) (view h)
  pub homes : (h a : ℕ) → has_address a (view h) ≡ true → breakpoint_hash a ≡ h
  pub bounded : (h : ℕ) → length (view h) ≤ m.allocated

-- The structure that a chain has for an address: the first, or NULL.
unfoldable pub find_in : ℕ → Cells → Ptr
find_in a [] = null
find_in a ((p, b) ∷ xs) = if b == a then p else find_in a xs

-- Two chains of the table with a common structure are the same.
pub Holds-apart :
    {m : Machine} {view : ℕ → Cells} (v : Holds m view) (h k : ℕ) (p : Ptr)
    → has p (view h) ≡ true
    → h ≢ k
    → has p (view k) ≡ false
Holds-apart {m} {view} v h k p i ne = elim (Bool-cases (has p (view k))) [
  | inr e ↦ e
  | inl e ↦
      let (b, at, a) = has-address p (v.chains h) i in
      let (b', at', a') = has-address p (v.chains k) e in
      absurd (ne (ground (arith, v.homes h b.address a, v.homes k b'.address a')))
]

pub has-append_one :
    (p n a : ℕ) (xs : Cells) → has p xs ≡ false → p ≢ n → has p (xs ++ ((n, a) ∷ [])) ≡ false
has-append_one p n a [] h ne = ground arith
has-append_one p n a ((q, b) ∷ xs) h ne = ground (arith, has-append_one p n a xs)

pub has_address-append_one :
    (d n a : ℕ) (xs : Cells) → has_address d (xs ++ ((n, a) ∷ [])) ≡ (has_address d xs || (a == d))
has_address-append_one d n a [] = ground arith
has_address-append_one d n a ((q, b) ∷ xs) = ground (arith, has_address-append_one d n a xs)

-- A change to one bucket.
module _ {m : Machine} {view : ℕ → Cells} (v : Holds m view) (m' : Machine) (h : ℕ)
    (ys : Cells) where
  pub Holds-update :
      Chain m'.nodes (m'.breakpoints h) ys
      → ((k : ℕ) → h ≢ k → m'.breakpoints k ≡ m.breakpoints k)
      → ((k : ℕ) → h ≢ k → (q : Ptr) → has q (view k) ≡ true → m'.nodes q ≡ m.nodes q)
      → ((a : ℕ) → has_address a ys ≡ true → breakpoint_hash a ≡ h)
      → length ys ≤ m'.allocated
      → m.allocated ≤ m'.allocated
      → Holds m' (update view h ys)
  Holds-update chain buckets same homes len more = record {
    chains = λ k. elim (Bool-cases (h == k)) [
      | inl e ↦ rw (e, ← (==_iff h k).0 e) chain
      | inr e ↦ rw (e, buckets k (ground arith)) (frame (v.chains k) (same k (ground arith)))
    ];
    homes = λ k a i. elim (Bool-cases (h == k)) [
      | inl e ↦ homes a (rw e at i) ∙ (==_iff h k).0 e
      | inr e ↦ v.homes k a (rw e at i)
    ];
    bounded = λ k. ground (arith, v.bounded k);
  }
