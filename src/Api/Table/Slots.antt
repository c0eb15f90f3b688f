-- ===== src/Api/Table/Slots.antt =====
-- The tables of slots: searching, reading and writing a place.
use technosoft_tml_motor.Prelude.{
  ℕ, zero, suc, ◌<◌, ◌≡◌, ◌≢◌, refl, ap, Option, none, some, List, [], ◌∷◌, ◌==◌, length, set,
  arith, Option-cases, Bool-cases, inl, inr, ==_iff,
}
use technosoft_tml_motor.Link.{Link}
use technosoft_tml_motor.Api.Table.{entry_at, find_free, find_fd, Slot}

module _ {A : Type 0} where
  pub length-set : (xs : List (Option A)) (i : ℕ) (o : Option A) → length (set xs i o) ≡ length xs
  length-set [] i o = refl
  length-set (x ∷ xs) zero o = refl
  length-set (x ∷ xs) (suc i) o = ap suc (length-set xs i o)

  pub entry_at-set_self :
      (xs : List (Option A)) (i : ℕ) (o : Option A) → i < length xs → entry_at (set xs i o) i ≡ o
  entry_at-set_self [] i o h = absurd (omega arith)
  entry_at-set_self (x ∷ xs) zero o h = refl
  entry_at-set_self (x ∷ xs) (suc i) o h = entry_at-set_self xs i o (omega arith)

  pub entry_at-set_ne :
      (xs : List (Option A)) (i j : ℕ) (o : Option A)
      → i ≢ j
      → entry_at (set xs i o) j ≡ entry_at xs j
  entry_at-set_ne [] i j o h = refl
  entry_at-set_ne (x ∷ xs) zero zero o h = absurd (h refl)
  entry_at-set_ne (x ∷ xs) zero (suc j) o h = refl
  entry_at-set_ne (x ∷ xs) (suc i) zero o h = refl
  entry_at-set_ne (x ∷ xs) (suc i) (suc j) o h = entry_at-set_ne xs i j o (λ e. h (ap suc e))

  pub entry_at-lt : (xs : List (Option A)) (i : ℕ) (a : A) → entry_at xs i ≡ some a → i < length xs
  entry_at-lt [] i a h = cc
  entry_at-lt (x ∷ xs) zero a h = omega arith
  entry_at-lt (x ∷ xs) (suc i) a h = omega (arith, entry_at-lt xs i a h)

  -- The first free place is inside the table, and free.
  pub find_free-some :
      (xs : List (Option A)) (i : ℕ)
      → find_free xs ≡ some i
      → (i < length xs) × (entry_at xs i ≡ none)
  unfolding find_free
  find_free-some [] i h = cc
  find_free-some (none ∷ xs) zero h = (omega arith, refl)
  find_free-some (none ∷ xs) (suc i) h = cc
  find_free-some (some a ∷ xs) zero h = elim (Option-cases (find_free xs)) [
    | inl e ↦ absurd (ground (arith, h))
    | inr (k, e) ↦ absurd (ground (arith, h))
  ]
  find_free-some (some a ∷ xs) (suc i) h = elim (Option-cases (find_free xs)) [
    | inl e ↦ absurd (ground (arith, h))
    | inr (k, e) ↦
        let same : k ≡ i = ground (arith, h) in
        let (inside, free) = find_free-some xs k e in rw (← same) (omega (arith, inside), free)
  ]

  full_place :
      (b : A) (xs : List (Option A)) (i : ℕ) (a : A)
      → find_free xs ≡ none
      → find_free (set (some b ∷ xs) i (some a)) ≡ none
  unfolding find_free
  full_place b xs zero a e = rw e
  full_place b [] (suc i) a e = refl
  full_place b (none ∷ xs) (suc i) a e = cc
  full_place b (some x ∷ xs) (suc i) a e = elim (Option-cases (find_free xs)) [
    | inl e' ↦ rw (full_place x xs i a e')
    | inr (k, e') ↦ absurd (ground (arith, e))
  ]

  -- A full table stays full when a used place is overwritten by a used one.
  pub find_free-set :
      (xs : List (Option A)) (i : ℕ) (a : A)
      → find_free xs ≡ none
      → find_free (set xs i (some a)) ≡ none
  unfolding find_free
  find_free-set [] i a h = refl
  find_free-set (none ∷ xs) i a h = cc
  find_free-set (some b ∷ xs) i a h = elim (Option-cases (find_free xs)) [
    | inl e ↦ full_place b xs i a e
    | inr (k, e) ↦ absurd (ground (arith, h))
  ]

module _ (L : Link) where
  -- The place that a search by descriptor finds holds a channel with it.
  pub find_fd-some :
      (fd : ℕ) (ss : List (Option (Slot L))) (i : ℕ)
      → find_fd L fd ss ≡ some i
      → (s : Slot L) × (entry_at ss i ≡ some s) × (s.fd ≡ fd)
  unfolding find_fd
  find_fd-some fd [] i h = cc
  find_fd-some fd (none ∷ ss) zero h = elim (Option-cases (find_fd L fd ss)) [
    | inl e ↦ absurd (ground (arith, h))
    | inr (k, e) ↦ absurd (ground (arith, h))
  ]
  find_fd-some fd (none ∷ ss) (suc i) h = elim (Option-cases (find_fd L fd ss)) [
    | inl e ↦ absurd (ground (arith, h))
    | inr (k, e) ↦ let same : k ≡ i = ground (arith, h) in rw (← same) (find_fd-some fd ss k e)
  ]
  find_fd-some fd (some s ∷ ss) zero h = elim (Bool-cases (s.fd == fd)) [
    | inl e ↦ (s, refl, (==_iff s.fd fd).0 e)
    | inr ne ↦ elim (Option-cases (find_fd L fd ss)) [
      | inl e ↦ absurd (ground (arith, h))
      | inr (k, e) ↦ absurd (ground (arith, h))
    ]
  ]
  find_fd-some fd (some s ∷ ss) (suc i) h = elim (Bool-cases (s.fd == fd)) [
    | inl e ↦ absurd (ground (arith, h))
    | inr ne ↦ elim (Option-cases (find_fd L fd ss)) [
      | inl e ↦ absurd (ground (arith, h))
      | inr (k, e) ↦ let same : k ≡ i = ground (arith, h) in rw (← same) (find_fd-some fd ss k e)
    ]
  ]
