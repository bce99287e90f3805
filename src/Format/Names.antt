-- ===== src/Format/Names.antt =====
-- The formats that names of files are made with.
use mathlib.Core.List.{flatten}
use udi.Format.{ℤ, u64, text, log_varargs, log_64bit, log_shifts, log_byte, log_nibble}
use udi.Prelude.{
  ℕ, zero, suc, ◌*◌, ◌/◌, ◌%◌, ◌^◌, ◌≤◌, ◌∙◌, ◌≡◌, refl, Bool, true, not, ◌&&◌, some, List, [], ◌∷◌,
  ◌++◌, codes, arith, length, take, ◌==◌,
}

-- A string without a NUL.
abbrev pub no_nul : List ℕ → Bool
no_nul [] = true
no_nul (c ∷ cs) = not (c == 0) && no_nul cs

pub no_nul-append : (a b : List ℕ) → no_nul (a ++ b) ≡ (no_nul a && no_nul b)
no_nul-append [] b = refl
no_nul-append (c ∷ cs) b = ground (arith, no_nul-append cs b)

pub take-all : (n : ℕ) (w : List ℕ) → length w ≤ n → take n w ≡ w
take-all zero [] h = refl
take-all zero (c ∷ cs) h = elim h [ ]
take-all (suc n) [] h = refl
take-all (suc n) (c ∷ cs) h = rw (take-all n cs (omega arith)) refl

pub log_varargs-joined :
    (strerror : ℤ → List ℕ) (a b : List ℕ)
    → log_varargs strerror (codes "%s/%s") (text a ∷ text b ∷ []) ≡ some (a ∷ (0x2f ∷ []) ∷ b ∷ [])
unfolding log_varargs
log_varargs-joined strerror a b = refl

pub log_varargs-hex :
    (strerror : ℤ → List ℕ) (n : ℕ)
    → log_varargs strerror (codes "%x") (u64 n ∷ []) ≡ some (log_64bit n)
unfolding log_varargs
log_varargs-hex strerror n = refl

log_byte-no_nul : (b : ℕ) (ds : List ℕ) → no_nul (flatten (log_byte b) ++ ds) ≡ no_nul ds
unfolding log_byte log_nibble flatten
log_byte-no_nul b ds = ground arith

log_shifts-no_nul : (k n : ℕ) → no_nul (flatten (log_shifts k n)) ≡ true
unfolding log_shifts log_byte log_nibble flatten
log_shifts-no_nul zero n = log_byte-no_nul (n % 256) []
log_shifts-no_nul (suc k) n =
    log_byte-no_nul (n / 2 ^ (8 * suc k) % 256) (flatten (log_shifts k n)) ∙ log_shifts-no_nul k n

pub log_64bit-no_nul : (n : ℕ) → no_nul (flatten (log_64bit n)) ≡ true
log_64bit-no_nul n = unfold log_64bit in log_shifts-no_nul 7 n
