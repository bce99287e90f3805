-- ===== src/Format/Bounds.antt =====
-- `udi_formatted_str` stays inside its buffer: it writes the formatted text, cut to fit, and a NUL.
use mathlib.Core.List.{flatten, append_assoc, append-nil}
use udi.Prelude.{
  ℕ, zero, suc, ◌+◌, ◌-◌, ◌%◌, ◌^◌, ◌≤◌, ◌<◌, ◌≡◌, refl, ap, ◌∙◌, List, [], ◌∷◌, ◌++◌, some, true,
  arith, leb, length, take, drop, length-append, length-take, length-drop,
}
use udi.Format.{
  Chunk, Arg, ℤ, StrCtx, memcpy_at, copy_len, advance, write_n, write_string, write_strings,
  fresh_ctx, terminate, log_varargs, formatted_str,
}

module _ {ℓ} {A : Type ℓ} where
  drop_congr : {m n : ℕ} (xs : List A) → m ≡ n → drop m xs ≡ drop n xs
  drop_congr xs e = ap (λ k. drop k xs) e

  take_congr : {m n : ℕ} (xs : List A) → m ≡ n → take m xs ≡ take n xs
  take_congr xs e = ap (λ k. take k xs) e

  cons_congr : (x : A) {xs ys : List A} → xs ≡ ys → x ∷ xs ≡ x ∷ ys
  cons_congr x e = ap (λ (l : List A). x ∷ l) e

  drop-nil : (n : ℕ) → drop {A = A} n [] ≡ []
  drop-nil zero = refl
  drop-nil (suc n) = refl

  take-nil : (n : ℕ) → take {A = A} n [] ≡ []
  take-nil zero = refl
  take-nil (suc n) = refl

  take-append_self : (xs ys : List A) → take (length xs) (xs ++ ys) ≡ xs
  take-append_self [] ys = refl
  take-append_self (x ∷ xs) ys = cons_congr x (take-append_self xs ys)

  drop-append_self : (xs ys : List A) (n : ℕ) → drop (length xs + n) (xs ++ ys) ≡ drop n ys
  drop-append_self [] ys n = drop_congr ys (omega arith)
  drop-append_self (x ∷ xs) ys n =
      drop_congr {n = suc (length xs + n)} (x ∷ xs ++ ys) (omega arith) ∙ drop-append_self xs ys n

  drop-drop : (m n : ℕ) (xs : List A) → drop n (drop m xs) ≡ drop (m + n) xs
  drop-drop zero n xs = drop_congr xs (omega arith)
  drop-drop (suc m) n [] = rw (drop-nil n, drop-nil (suc m + n))
  drop-drop (suc m) n (x ∷ xs) =
      drop-drop m n xs ∙ drop_congr {m = suc (m + n)} (x ∷ xs) (omega arith)

  take-append : (n : ℕ) (xs ys : List A) → take n (xs ++ ys) ≡ take n xs ++ take (n - length xs) ys
  take-append n [] ys = rw (take-nil n) (take_congr ys (omega arith))
  take-append zero (x ∷ xs) ys = take_congr {m = 0} ys (omega arith)
  take-append (suc n) (x ∷ xs) ys =
      cons_congr x (take-append n xs ys ∙ ap (λ l. take n xs ++ l) (take_congr ys (omega arith)))

  take_all : (n : ℕ) (xs : List A) → length xs ≤ n → take n xs ≡ xs
  take_all zero [] h = refl
  take_all (suc n) [] h = refl
  take_all zero (x ∷ xs) h = elim h [ ]
  take_all (suc n) (x ∷ xs) h = cons_congr x (take_all n xs (omega arith))

  take-length-take : (n : ℕ) (xs : List A) → take (length (take n xs)) xs ≡ take n xs
  take-length-take zero xs = refl
  take-length-take (suc n) [] = refl
  take-length-take (suc n) (x ∷ xs) = cons_congr x (take-length-take n xs)

-- A copy behind `pre` that fits overwrites the start of `post`.
memcpy_at-append :
    (pre post bytes : List ℕ)
    → length bytes ≤ length post
    → memcpy_at (pre ++ post) (length pre) bytes ≡ some (pre ++ (bytes ++ drop (length bytes) post))
unfolding memcpy_at
memcpy_at-append pre post bytes h =
    rw (fits, take-append_self pre post, drop-append_self pre post (length bytes))
  where
    fits : leb (length pre + length bytes) (length (pre ++ post)) ≡ true
    fits = ground (arith, length-append pre post)

-- The context with `pre` written, `post` not yet, and room up to `size`.
abbrev at : List ℕ → List ℕ → ℕ → StrCtx
at pre post size = record { str = pre ++ post; size = size; idx = length pre }

module _ (size : ℕ) (small : size < 2 ^ 64) where
  copy_len-take :
      (pre post c : List ℕ)
      → length pre ≤ size
      → copy_len (at pre post size) (length c) ≡ length (take (size - length pre) c)
  unfolding copy_len
  copy_len-take pre post c fits = ground (arith, length-take (size - length pre) c)

  write_n-append :
      (pre post c w : List ℕ)
      → take (length w) c ≡ w
      → length w ≤ length post
      → write_n (at pre post size) c (length w) ≡ some (at (pre ++ w) (drop (length w) post) size)
  unfolding write_n advance
  write_n-append pre post c [] same h = rw append-nil
  write_n-append pre post c (x ∷ w) same h =
      rw (same, memcpy_at-append pre post (x ∷ w) h)
        (ground
          (arith, append_assoc pre (x ∷ w) (drop (length (x ∷ w)) post), length-append pre (x ∷ w)))

  write_string-append :
      (pre post c : List ℕ)
      → length pre ≤ size
      → size < length pre + length post
      → (let w = take (size - length pre) c in
          write_string (at pre post size) c ≡ some (at (pre ++ w) (drop (length w) post) size))
  unfolding write_string
  write_string-append pre post c fits room = rw (copy_len-take pre post c fits) (
      write_n-append pre post c (take (size - length pre) c)
        (take-length-take (size - length pre) c) (omega (arith, length-take (size - length pre) c)))

  write_strings-append :
      (pre post : List ℕ) (cs : List Chunk)
      → length pre ≤ size
      → size < length pre + length post
      → (let w = take (size - length pre) (flatten cs) in
          write_strings (at pre post size) cs ≡ some (at (pre ++ w) (drop (length w) post) size))
  unfolding write_strings flatten
  write_strings-append pre post [] fits room = rw (take-nil (size - length pre), append-nil)
  write_strings-append pre post (c ∷ cs) fits room =
      rw (write_string-append pre post c fits room, write_strings)
        (write_strings-append (pre ++ w) (drop (length w) post) cs
            (omega (arith, length-append pre w, length-take (size - length pre) c))
            (omega (
              arith,
              length-append pre w,
              length-take (size - length pre) c,
              length-drop (length w) post,
            ))
          ∙ simp (whole, append_assoc, drop-drop, length-append))
    where
      w : List ℕ
      w = take (size - length pre) c

      v : List ℕ
      v = take (size - length (pre ++ w)) (flatten cs)

      whole : take (size - length pre) (c ++ flatten cs) ≡ w ++ v
      whole =
          take-append (size - length pre) c (flatten cs)
          ∙ ap (λ l. w ++ l)
              (take_congr (flatten cs)
                (omega (arith, length-append pre w, length-take (size - length pre) c)))

-- For a format and arguments with a defined output, and a buffer of at least `n` bytes, 0 < n < 2 ^ 64, the buffer afterwards holds the first `n - 1` bytes of
-- the text, then a NUL, then what it held before.
pub formatted_str-take :
    (strerror : ℤ → List ℕ) (str : List ℕ) (n : ℕ) (format : List ℕ) (args : List Arg)
    (chunks : List Chunk)
    → log_varargs strerror format args ≡ some chunks
    → 0 < n
    → n ≤ length str
    → n < 2 ^ 64
    → formatted_str strerror str n format args
      ≡ some (let w = take (n - 1) (flatten chunks) in w ++ (0 ∷ drop (length w + 1) str))
unfolding formatted_str fresh_ctx terminate
formatted_str-take strerror str n format args chunks e pos fits small =
    rw (e, formatted_str, start, all)
      (memcpy_at-append w (drop (length w) str) (0 ∷ []) room ∙ rw drop-drop)
  where
    w : List ℕ
    w = take (n - 1) (flatten chunks)

    start : (n + 2 ^ 64 - 1) % 2 ^ 64 ≡ n - 1
    start = omega arith

    all : write_strings (at [] str (n - 1)) chunks ≡ some (at w (drop (length w) str) (n - 1))
    all =
        write_strings-append (n - 1) (omega arith) [] str chunks (omega arith) (omega arith)
        ∙ ap (λ l. some (at l (drop (length l) str) (n - 1)))
            (take_congr (flatten chunks) (omega arith))

    room : 1 ≤ length (drop (length w) str)
    room = omega (arith, length-drop (length w) str, length-take (n - 1) (flatten chunks))
