-- ===== src/Transfer/Pieces.antt =====
-- Transfers in pieces are whole.
use mathlib.Core.List.{append_assoc, append-nil}
use udi.Cmd.{ok}
use udi.Format.{pos}
use udi.Transfer.{
  Written, wrote, refused, Arrived, bytes, end_of_file, failed, Writer, eintr, write_loop, write_to,
  read_loop, read_from,
}
use udi.Prelude.{
  ℕ, zero, suc, ◌+◌, ◌-◌, ◌≤◌, ◌≡◌, refl, sym, ◌∙◌, ap, List, [], ◌∷◌, ◌++◌, arith, ltb, ◌==◌,
  if◌then◌else◌, length, length-append, length-drop, take, drop, Bool-cases, if_true, if_false, inl,
  inr,
}

-- How many bytes the calls of `write` take before one fails for good.
unfoldable pub takes : List Written → ℕ
takes [] = 0
takes (wrote n ∷ later) = n + takes later
takes (refused e ∷ later) = if e == eintr then takes later else 0

-- The bytes that a pipe brings before its end and before a call of `read` fails for good.
unfoldable pub brings : List Arrived → List ℕ
brings [] = []
brings (bytes piece ∷ later) = piece ++ brings later
brings (end_of_file ∷ later) = []
brings (failed e ∷ later) = if e == eintr then brings later else []

take-append-drop : (n : ℕ) (xs : List ℕ) → take n xs ++ drop n xs ≡ xs
take-append-drop zero xs = refl
take-append-drop (suc n) [] = refl
take-append-drop (suc n) (x ∷ xs) = ap (λ l. x ∷ l) (take-append-drop n xs)

write_loop-all :
    (writes : List Written) (src : List ℕ) (w : Writer)
    → length src ≤ takes writes
    → (w' : Writer) × (write_loop writes src w ≡ ok 0 w') × (w'.sent ≡ w.sent ++ src)
unfolding write_loop takes
write_loop-all [] [] w h = (record w { writes = [] }, refl, sym (append-nil w.sent))
write_loop-all (x ∷ later) [] w h = (record w { writes = x ∷ later }, refl, sym (append-nil w.sent))
write_loop-all [] (b ∷ src) w h = absurd (omega arith)
write_loop-all (wrote n ∷ later) (b ∷ src) w h =
    let (w', runs, sent) =
      write_loop-all later (drop n (b ∷ src)) (record w { sent = w.sent ++ take n (b ∷ src) })
        (omega (arith, length-drop n (b ∷ src))) in
    (
      w',
      runs,
      sent
          ∙ (append_assoc w.sent (take n (b ∷ src)) (drop n (b ∷ src))
              ∙ ap (λ l. w.sent ++ l) (take-append-drop n (b ∷ src))),
    )
write_loop-all (refused e ∷ later) (b ∷ src) w h = elim (Bool-cases (e == eintr)) [
  | inl c ↦ rw c (write_loop-all later (b ∷ src) w (rw c at h))
  | inr c ↦ absurd (omega (arith, rw c at h))
]

take-append :
    (n : ℕ) (xs ys : List ℕ)
    → n ≤ length xs
    → (take n (xs ++ ys) ≡ take n xs) × (drop n (xs ++ ys) ≡ drop n xs ++ ys)
take-append zero xs ys h = (refl, refl)
take-append (suc n) [] ys h = absurd (omega arith)
take-append (suc n) (x ∷ xs) ys h =
    let (t, d) = take-append n xs ys (omega arith) in (ap (λ l. x ∷ l) t, d)

take-append_past :
    (n : ℕ) (xs ys : List ℕ)
    → length xs ≤ n
    → (take n (xs ++ ys) ≡ xs ++ take (n - length xs) ys)
      × (drop n (xs ++ ys) ≡ drop (n - length xs) ys)
take-append_past n [] ys h =
    let e : n - 0 ≡ n = omega arith in (ap (λ k. take k ys) (sym e), ap (λ k. drop k ys) (sym e))
take-append_past zero (x ∷ xs) ys h = absurd (omega arith)
take-append_past (suc n) (x ∷ xs) ys h =
    let (t, d) = take-append_past n xs ys (omega arith) in
    let e : suc n - suc (length xs) ≡ n - length xs = omega arith in
    (ap (λ l. x ∷ l) (t ∙ ap (λ k. xs ++ take k ys) (sym e)), d ∙ ap (λ k. drop k ys) (sym e))

read_loop-all :
    (arrived : List Arrived) (dst : List ℕ) (n : ℕ) (s : List Arrived)
    → n ≤ length (brings arrived)
    → (rest : List Arrived) × (read_loop arrived dst n s
        ≡ ok (pos 0, dst ++ take n (brings arrived)) rest)
      × (brings rest ≡ drop n (brings arrived))
unfolding read_loop brings
read_loop-all [] dst zero s h = ([], ap (λ l. ok (pos 0, l) []) (sym (append-nil dst)), refl)
read_loop-all (x ∷ later) dst zero s h =
    (x ∷ later, ap (λ l. ok (pos 0, l) (x ∷ later)) (sym (append-nil dst)), refl)
read_loop-all [] dst (suc n) s h = absurd (omega arith)
read_loop-all (end_of_file ∷ later) dst (suc n) s h = absurd (omega arith)
read_loop-all (failed e ∷ later) dst (suc n) s h = elim (Bool-cases (e == eintr)) [
  | inl c ↦ rw c (read_loop-all later dst (suc n) s (rw c at h))
  | inr c ↦ absurd (omega (arith, rw c at h))
]
read_loop-all (bytes piece ∷ later) dst (suc n) s h =
    elim (Bool-cases (ltb (suc n) (length piece))) [
      | inl c ↦
          let (t, d) = take-append (suc n) piece (brings later) (ground arith) in
          (
            bytes (drop (suc n) piece) ∷ later,
            if_true (ltb (suc n) (length piece)) _ _ c
                ∙ ap (λ l. ok (pos 0, dst ++ l) (bytes (drop (suc n) piece) ∷ later)) (sym t),
            sym d,
          )
      | inr c ↦
          let (t, d) = take-append_past (suc n) piece (brings later) (ground arith) in
          let (rest, runs, left) =
            read_loop-all later (dst ++ piece) (suc n - length piece) s
              (omega (arith, length-append piece (brings later))) in
          (
            rest,
            if_false (ltb (suc n) (length piece)) _ _ c
                ∙ (runs
                    ∙ ap (λ l. ok (pos 0, l) rest)
                        (append_assoc dst piece _ ∙ ap (λ l. dst ++ l) (sym t))),
            left ∙ sym d,
          )
    ]

split_whole :
    (xs ys : List ℕ) → (take (length xs) (xs ++ ys) ≡ xs) × (drop (length xs) (xs ++ ys) ≡ ys)
split_whole [] ys = (refl, refl)
split_whole (x ∷ xs) ys = let (t, d) = split_whole xs ys in (ap (λ l. x ∷ l) t, d)

-- For any way in which the calls of `write` take the bytes, as long as they take enough of them before one
-- fails for good, and any way in which a pipe brings them, interrupted or not: `write_to` ends with 0 and
-- has sent exactly the bytes, and `read_from` of as many ends with 0, has exactly them, and leaves what
-- comes behind them in the pipe.
pub read_from-write_to :
    (src behind : List ℕ) (w : Writer) (arrived : List Arrived)
    → length src ≤ takes w.writes
    → brings arrived ≡ src ++ behind
    → (w' : Writer) × (rest : List Arrived) × (write_to src w ≡ ok 0 w')
      × (w'.sent ≡ w.sent ++ src)
      × (read_from (length src) arrived ≡ ok (pos 0, src) rest)
      × (brings rest ≡ behind)
unfolding write_to read_from
read_from-write_to src behind w arrived enough e =
    let (w', writes, sent) = write_loop-all w.writes src w enough in
    let (rest, reads, left) =
      read_loop-all arrived [] (length src) arrived
        (rw e (omega (arith, length-append src behind))) in
    let (t, d) = split_whole src behind in
    (
      w',
      rest,
      writes,
      sent,
      reads ∙ ap (λ l. ok (pos 0, l) rest) (ap (take (length src)) e ∙ t),
      left ∙ (ap (drop (length src)) e ∙ d),
    )
