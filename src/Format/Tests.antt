-- ===== src/Format/Tests.antt =====
-- The formatter on the inputs of libudirt/tests/udi-log.c, and the theorems at concrete inputs.
use mathlib.Core.List.{flatten}
use mathlib.Core.Option
use udi.Format.{log_integer, sign_chunks}
use udi.Format.Decimal.{absolute, IsDecimal, decimal_value, log_integer-IsDecimal}
use udi.Format.Bounds.{formatted_str-take}
use udi.Prelude.{
  ℕ, ◌+◌, ◌-◌, ◌^◌, ◌≤◌, ◌⊎◌, ◌++◌, map, arith, length, take, drop, ◌≡◌, refl, List, [], ◌∷◌, none,
  some, codes, Option,
}
use udi.Format.{ℤ, negsuc, int, u64, size_t, text, Arg, log_varargs, formatted_str}

abbrev no_strerror : ℤ → List ℕ
no_strerror _ = []

abbrev printed : List ℕ → List Arg → Option (List ℕ)
printed format args = Option.map flatten (log_varargs no_strerror format args)

integer_test : printed (codes "%d") (int (negsuc 122) ∷ []) ≡ some (codes "-123")
unfolding log_varargs flatten
integer_test = refl

address_test :
    printed (codes "at %a (%l)") (u64 0xdeadbeef ∷ size_t 20 ∷ [])
    ≡ some (codes "at 0x00000000deadbeef (20)")
unfolding log_varargs flatten
address_test = refl

trailing_percent : printed (codes "50%") [] ≡ none
unfolding log_varargs
trailing_percent = refl

truncated :
    formatted_str no_strerror (7 ∷ 7 ∷ 7 ∷ 7 ∷ 7 ∷ []) 4 (codes "%s!") (text (codes "abcdef") ∷ [])
    ≡ some (b'a' ∷ b'b' ∷ b'c' ∷ 0 ∷ 7 ∷ [])
unfolding formatted_str
truncated = refl

log_integer-IsDecimal_example :
    (negsuc 122 ≡ negsuc (2 ^ 31 - 1)) × (log_integer (negsuc 122) ≡ none)
    ⊎ ((ds : List ℕ) × (log_integer (negsuc 122)
          ≡ some (sign_chunks (negsuc 122) ++ map (λ d. d ∷ []) ds))
        × IsDecimal (absolute (negsuc 122)) ds
        × ((length ds ≤ 10) × (1 ≤ length ds) × (decimal_value 0 ds ≡ absolute (negsuc 122))))
log_integer-IsDecimal_example = log_integer-IsDecimal (negsuc 122) (omega arith)

abbrev chunks : List (List ℕ)
chunks = codes "abcdef" ∷ (b'!' ∷ []) ∷ []

chunks_test : log_varargs no_strerror (codes "%s!") (text (codes "abcdef") ∷ []) ≡ some chunks
unfolding log_varargs
chunks_test = refl

formatted_str-take_example :
    formatted_str no_strerror (7 ∷ 7 ∷ 7 ∷ 7 ∷ 7 ∷ []) 4 (codes "%s!") (text (codes "abcdef") ∷ [])
    ≡ some
        (let w = take 3 (flatten chunks) in w ++ (0 ∷ drop (length w + 1) (7 ∷ 7 ∷ 7 ∷ 7 ∷ 7 ∷ [])))
formatted_str-take_example =
    formatted_str-take no_strerror (7 ∷ 7 ∷ 7 ∷ 7 ∷ 7 ∷ []) 4 (codes "%s!")
      (text (codes "abcdef") ∷ []) chunks chunks_test (omega arith) (omega arith) (omega arith)
