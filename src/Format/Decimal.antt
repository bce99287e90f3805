-- ===== src/Format/Decimal.antt =====
-- The decimal output of `udi_log_integer` reads back as the number, and fits its buffer.
use mathlib.Core.List.{reverse, reverse-cons}
use native.Mathlib.Nat.{pow-suc}
use udi.Prelude.{
  ℕ, zero, suc, ◌+◌, ◌-◌, ◌*◌, ◌/◌, ◌%◌, ltb, if◌then◌else◌, ◌^◌, ◌≤◌, ◌<◌, ◌≡◌, refl, ap, ◌∙◌,
  List, [], ◌∷◌, ◌++◌, some, none, true, false, arith, map, length, length-append, ◌⊎◌, inl, inr,
  Bool-cases, ◌==◌, ltb,
}
use udi.Format.{ℤ, pos, negsuc, magnitude, int_digits, sign_chunks, log_integer}

-- The number that decimal digits spell, the highest first, behind those already read.
pub decimal_value : ℕ → List ℕ → ℕ
decimal_value acc [] = acc
decimal_value acc (d ∷ ds) = decimal_value (acc * 10 + (d - b'0')) ds

low_value : List ℕ → ℕ
low_value [] = 0
low_value (d ∷ ds) = (d - b'0') + 10 * low_value ds

decimal_value-append :
    (acc d : ℕ) (ds : List ℕ)
    → decimal_value acc (ds ++ (d ∷ [])) ≡ decimal_value acc ds * 10 + (d - b'0')
unfolding decimal_value
decimal_value-append acc d [] = refl
decimal_value-append acc d (x ∷ ds) = decimal_value-append (acc * 10 + (x - b'0')) d ds

decimal_value-reverse : (ds : List ℕ) → decimal_value 0 (reverse ds) ≡ low_value ds
unfolding low_value
decimal_value-reverse [] = unfold decimal_value in refl
decimal_value-reverse (d ∷ ds) =
    rw (reverse-cons d ds, decimal_value-append 0 d (reverse ds), decimal_value-reverse ds)
      (omega arith)

int_digits-low : (r v : ℕ) → v < 10 ^ suc r → low_value (int_digits (suc r) v) ≡ v
unfolding int_digits low_value
int_digits-low zero v h = ground arith
int_digits-low (suc r) v h =
    ground (arith, int_digits-low r (v / 10) (omega (arith, pow-suc 10 (suc r))))

length-int_digits : (r v : ℕ) → length (int_digits r v) ≤ r
unfolding int_digits
length-int_digits zero v = omega arith
length-int_digits (suc r) v = ground (arith, length-int_digits r (v / 10))

length-reverse : (ds : List ℕ) → length (reverse ds) ≡ length ds
length-reverse [] = refl
length-reverse (d ∷ ds) =
    rw (reverse-cons d ds, length-append (reverse ds) (d ∷ [])) (omega (arith, length-reverse ds))

abbrev pub absolute : ℤ → ℕ
absolute (pos n) = n
absolute (negsuc n) = n + 1

pub digits :
    (n : ℕ)
    → n ≤ 2 ^ 31
    → (let ds = reverse (int_digits 10 n) in
        (length ds ≤ 10) × (1 ≤ length ds) × (decimal_value 0 ds ≡ n))
digits n h = (
  rw length-reverse (length-int_digits 10 n),
  rw length-reverse (unfold int_digits in omega arith),
  decimal_value-reverse (int_digits 10 n) ∙ int_digits-low 9 n (omega arith),
)

-- The decimal digits of a number, without a zero in front of another digit.
pub data IsDecimal : ℕ → List ℕ → Type 0 where
  one_digit : {n : ℕ} → n < 10 → IsDecimal n ((n + b'0') ∷ [])
  more_digits :
      {v n r : ℕ} {ds : List ℕ}
      → IsDecimal n ds
      → 0 < n
      → r < 10
      → v ≡ n * 10 + r
      → IsDecimal v (ds ++ ((r + b'0') ∷ []))

int_digits-IsDecimal : (k v : ℕ) → v < 10 ^ suc k → IsDecimal v (reverse (int_digits (suc k) v))
unfolding int_digits
int_digits-IsDecimal zero v h = rw (small, only) (one_digit (omega arith))
  where
    small : v % 10 ≡ v
    small = omega arith

    only : (if ltb 0 (v / 10) then int_digits 0 (v / 10) else []) ≡ []
    only = ground arith
int_digits-IsDecimal (suc k) v h = elim (Bool-cases (ltb 0 (v / 10))) [
  | inl c ↦
      rw (c, reverse-cons (v % 10 + b'0') (int_digits (suc k) (v / 10)))
        (more_digits (int_digits-IsDecimal k (v / 10) (omega (arith, pow-suc 10 (suc k))))
          (ground arith) (omega arith) (omega arith))
  | inr c ↦ let small : v % 10 ≡ v = ground arith in rw (c, small) (one_digit (ground arith))
]

magnitude_min : (n : ℕ) → (n == 2 ^ 31 - 1) ≡ true → magnitude (negsuc n) ≡ none
unfolding magnitude
magnitude_min n e = rw e

magnitude_negsuc : (n : ℕ) → (n == 2 ^ 31 - 1) ≡ false → magnitude (negsuc n) ≡ some (n + 1)
unfolding magnitude
magnitude_negsuc n e = rw e

-- Every `int` but INT_MIN is printed as its sign and then the decimal digits of its absolute value, one to
-- ten, the first of them not a zero that others follow, one chunk each, which fit the buffer and
-- read back as that value; INT_MIN has no defined output.
pub log_integer-IsDecimal :
    (value : ℤ)
    → absolute value ≤ 2 ^ 31
    → (value ≡ negsuc (2 ^ 31 - 1)) × (log_integer value ≡ none)
      ⊎ ((ds : List ℕ) × (log_integer value ≡ some (sign_chunks value ++ map (λ d. d ∷ []) ds))
          × IsDecimal (absolute value) ds
          × ((length ds ≤ 10) × (1 ≤ length ds) × (decimal_value 0 ds ≡ absolute value)))
log_integer-IsDecimal (pos n) h = inr (
  reverse (int_digits 10 n),
  unfold log_integer magnitude in refl,
  int_digits-IsDecimal 9 n (omega arith),
  digits n (omega arith),
)
log_integer-IsDecimal (negsuc n) h = elim (Bool-cases (n == 2 ^ 31 - 1)) [
  | inl e ↦
      inl (ap negsuc (ground arith), unfold log_integer in rw (magnitude_min n e, log_integer))
  | inr e ↦ inr (
    reverse (int_digits 10 (n + 1)),
    unfold log_integer in rw (magnitude_negsuc n e, log_integer),
    int_digits-IsDecimal 9 (n + 1) (omega arith),
    digits (n + 1) (omega arith),
  )
]
