-- ===== src/Format/Numbered.antt =====
-- The formats that hold the number of the process.
use mathlib.Core.List.{flatten, reverse, reverse-cons}
use udi.Format.{ℤ, pos, int, text, log_varargs, int_digits}
use udi.Format.Decimal.{decimal_value, digits}
use udi.Format.Names.{no_nul, no_nul-append}
use udi.Prelude.{
  ℕ, zero, suc, ◌/◌, ◌^◌, ◌≤◌, ◌<◌, ◌≡◌, refl, ap, true, some, List, [], ◌∷◌, ◌++◌, map, codes,
  arith, length,
}

-- The digits of a number.
pub decimal : ℕ → List ℕ
decimal n = reverse (int_digits 10 n)

-- One chunk each.
abbrev pub singly : List ℕ → List (List ℕ)
singly ds = map (λ d. d ∷ []) ds

int_digits-no_nul : (r v : ℕ) → no_nul (int_digits r v) ≡ true
unfolding int_digits
int_digits-no_nul zero v = refl
int_digits-no_nul (suc r) v = ground (arith, int_digits-no_nul r (v / 10))

no_nul-reverse : (ds : List ℕ) → no_nul ds ≡ true → no_nul (reverse ds) ≡ true
no_nul-reverse [] h = refl
no_nul-reverse (d ∷ ds) h =
    rw (reverse-cons d ds, no_nul-append (reverse ds) (d ∷ [])) (ground (arith, no_nul-reverse ds))

pub decimal-no_nul : (n : ℕ) → no_nul (decimal n) ≡ true
unfolding decimal
decimal-no_nul n = no_nul-reverse (int_digits 10 n) (int_digits-no_nul 10 n)

-- A positive `int` has ten digits at most.
pub length-decimal : (n : ℕ) → n < 2 ^ 31 → length (decimal n) ≤ 10
unfolding decimal
length-decimal n h = (digits n (omega arith)).0

pub decimal_value-decimal : (n : ℕ) → n < 2 ^ 31 → decimal_value 0 (decimal n) ≡ n
unfolding decimal
decimal_value-decimal n h = (digits n (omega arith)).2

pub flatten-singly : (ds : List ℕ) → flatten (singly ds) ≡ ds
unfolding flatten
flatten-singly [] = refl
flatten-singly (d ∷ ds) = ap (λ l. d ∷ l) (flatten-singly ds)

pub log_varargs-numbered :
    (strerror : ℤ → List ℕ) (a : List ℕ) (n : ℕ)
    → log_varargs strerror (codes "%s/%d") (text a ∷ int (pos n) ∷ [])
      ≡ some (a ∷ (0x2f ∷ []) ∷ (singly (decimal n) ++ []))
unfolding log_varargs decimal
log_varargs-numbered strerror a n = refl

pub log_varargs-numbered_file :
    (strerror : ℤ → List ℕ) (a : List ℕ) (n : ℕ) (file : List ℕ)
    → log_varargs strerror (codes "%s/%d/%s") (text a ∷ int (pos n) ∷ text file ∷ [])
      ≡ some (a ∷ (0x2f ∷ []) ∷ (singly (decimal n) ++ ((0x2f ∷ []) ∷ file ∷ [])))
unfolding log_varargs decimal
log_varargs-numbered_file strerror a n file = refl
