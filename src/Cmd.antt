-- ===== src/Cmd.antt =====
-- Commands over a mutable state: what a C function does to the globals and the heap that it can
-- reach. `fault` is undefined behaviour (a NULL or freed pointer, a read past an array) or an abort of
-- the process; `stuck`
-- is a loop that did not end within the rounds that the model gives it.

pub data Run {ℓ κ} (S : Type ℓ) (A : Type κ) : Type (ℓ ⊔ κ) where
  ok : A → S → Run S A
  fault : Run S A
  stuck : Run S A

abbrev pub Cmd {ℓ κ} : Type ℓ → Type κ → Type (ℓ ⊔ κ)
Cmd S A = S → Run S A

abbrev pub pure {ℓ κ} : {S : Type ℓ} {A : Type κ} → A → Cmd S A
pure a s = ok a s

abbrev pub and_then {ℓ κ ι} :
    {S : Type ℓ} {A : Type κ} {B : Type ι} → Run S A → (A → Cmd S B) → Run S B
and_then (ok a s) f = f a s
and_then fault f = fault
and_then stuck f = stuck

infixl 5 ◌>>=◌ ◌>>◌
abbrev pub ◌>>=◌ {ℓ κ ι} :
    {S : Type ℓ} {A : Type κ} {B : Type ι} → Cmd S A → (A → Cmd S B) → Cmd S B
◌>>=◌ m f s = and_then (m s) f

abbrev pub ◌>>◌ {ℓ κ ι} : {S : Type ℓ} {A : Type κ} {B : Type ι} → Cmd S A → Cmd S B → Cmd S B
m >> k = m >>= λ _. k
