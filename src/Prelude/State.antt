-- ===== src/Prelude/State.antt =====
-- State passing: a computation takes a state, and returns its result with the new state.

abbrev pub State : Type 0 → Type 0 → Type 0
State S A = S → A × S

infixl 5 ◌>>=◌ ◌>>◌
abbrev pub ◌>>=◌ : {S A B : Type 0} → State S A → (A → State S B) → State S B
◌>>=◌ m f s = let (a, s') = m s in f a s'

abbrev pub ◌>>◌ : {S A B : Type 0} → State S A → State S B → State S B
m >> k = m >>= λ _. k

abbrev pub pure : {S A : Type 0} → A → State S A
pure a s = (a, s)

abbrev pub modify : {S : Type 0} → (S → S) → State S (Unit {0})
modify f s = (tt, f s)

abbrev pub gets : {S A : Type 0} → (S → A) → State S A
gets f s = (f s, s)
