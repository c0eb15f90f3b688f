-- ===== src/Api/Table/Lookup.antt =====
-- The table of channels as a map from descriptors: which channel a descriptor names, and what writing
-- a place does to that.
use technosoft_tml_motor.Prelude.{
  ℕ, zero, suc, ◌<◌, ◌≡◌, ◌≢◌, refl, sym, ap, ◌∙◌, false, Option, none, some, List, [], ◌∷◌,
  if◌then◌else◌, ◌==◌, length, set, arith, Option-cases, Bool-cases, inl, inr, ==_iff,
}
use technosoft_tml_motor.Link.{Link}
use technosoft_tml_motor.Drive.{Chan}
use technosoft_tml_motor.Api.Table.{entry_at, find_fd, Slot, has_fd}

module _ (L : Link) where
  abbrev pub chan_of : Option (Slot L) → Option (Chan L)
  chan_of none = none
  chan_of (some s) = some s.chan

  -- The channel with a descriptor.
  unfoldable pub chan_at : ℕ → List (Option (Slot L)) → Option (Chan L)
  chan_at fd [] = none
  chan_at fd (o ∷ ss) = if has_fd L fd o then chan_of o else chan_at fd ss

  -- No two places have the same descriptor.
  abbrev pub Distinct : List (Option (Slot L)) → Type 0
  Distinct [] = Unit {0}
  Distinct (none ∷ ss) = Distinct ss
  Distinct (some s ∷ ss) = (chan_at s.fd ss ≡ none) × Distinct ss

  -- No place but the `i`th has the descriptor.
  abbrev pub Alone : ℕ → List (Option (Slot L)) → ℕ → Type 0
  Alone f [] i = ⊥
  Alone f (o ∷ ss) zero = chan_at f ss ≡ none
  Alone f (o ∷ ss) (suc i) = (has_fd L f o ≡ false) × Alone f ss i

  -- A place that is free or has the descriptor.
  abbrev pub Of : ℕ → Option (Slot L) → Type 0
  Of f none = Unit {0}
  Of f (some s) = s.fd ≡ f

  has_fd-Of_ne : (f fd : ℕ) (o : Option (Slot L)) → Of f o → fd ≢ f → has_fd L fd o ≡ false
  has_fd-Of_ne f fd none h ne = refl
  has_fd-Of_ne f fd (some s) h ne = ground (arith, h, ne)

  written_here :
      (f : ℕ) (o : Option (Slot L)) (ss : List (Option (Slot L)))
      → Of f o
      → chan_at f ss ≡ none
      → chan_at f (o ∷ ss) ≡ chan_of o
  unfolding chan_at
  written_here f none ss h alone = alone
  written_here f (some s) ss h alone = rw ((==_iff s.fd f).1 h)

  -- After a write of a place, its descriptor names what was written, every other what it named.
  pub chan_at-set :
      (f fd i : ℕ) (o : Option (Slot L)) (ss : List (Option (Slot L)))
      → Alone f ss i
      → Of f (entry_at ss i)
      → Of f o
      → chan_at fd (set ss i o) ≡ (if fd == f then chan_of o else chan_at fd ss)
  unfolding chan_at
  chan_at-set f fd i o [] alone old new = absurd alone
  chan_at-set f fd zero o (x ∷ ss) alone old new = elim (Bool-cases (fd == f)) [
    | inl same ↦
        let e : fd ≡ f = (==_iff fd f).0 same in
        rw same (ap (λ n. chan_at n (o ∷ ss)) e ∙ written_here f o ss new alone)
    | inr other ↦
        let ne : fd ≢ f = λ e. ground (arith, e, other) in
        rw (other, has_fd-Of_ne f fd o new ne, has_fd-Of_ne f fd x old ne) refl
  ]
  chan_at-set f fd (suc i) o (x ∷ ss) (elsewhere, alone) old new = elim (Bool-cases (fd == f)) [
    | inl same ↦
        let e : fd ≡ f = (==_iff fd f).0 same in
        rw same (
          ap (λ n. chan_at n (x ∷ set ss i o)) e
          ∙ ap (λ b. if b then chan_of x else chan_at f (set ss i o)) elsewhere
          ∙ chan_at-set f f i o ss alone old new
          ∙ ap (λ b. if b then chan_of o else chan_at f ss) ((==_iff f f).1 refl))
    | inr other ↦
        ap (λ c. if has_fd L fd x then chan_of x else c) (chan_at-set f fd i o ss alone old new)
        ∙ rw other refl
  ]

  -- The descriptors stay distinct.
  pub Distinct-set :
      (f i : ℕ) (o : Option (Slot L)) (ss : List (Option (Slot L)))
      → Alone f ss i
      → Of f (entry_at ss i)
      → Of f o
      → Distinct ss
      → Distinct (set ss i o)
  Distinct-set f i o [] alone old new d = tt
  Distinct-set f zero none (none ∷ ss) alone old new d = d
  Distinct-set f zero none (some s ∷ ss) alone old new d = d.1
  Distinct-set f zero (some s) (none ∷ ss) alone old new d = (ap (λ n. chan_at n ss) new ∙ alone, d)
  Distinct-set f zero (some s) (some x ∷ ss) alone old new d =
      (ap (λ n. chan_at n ss) new ∙ alone, d.1)
  Distinct-set f (suc i) o (none ∷ ss) (elsewhere, alone) old new d =
      Distinct-set f i o ss alone old new d
  Distinct-set f (suc i) o (some x ∷ ss) (elsewhere, alone) old new (unique, d) = (
    chan_at-set f x.fd i o ss alone old new ∙ rw elsewhere unique,
    Distinct-set f i o ss alone old new d,
  )

  -- Of a free place, a descriptor that names nothing.
  pub Alone-free :
      (f i : ℕ) (ss : List (Option (Slot L)))
      → i < length ss
      → entry_at ss i ≡ none
      → chan_at f ss ≡ none
      → Alone f ss i
  unfolding chan_at
  Alone-free f i [] inside free new = absurd (omega arith)
  Alone-free f zero (none ∷ ss) inside free new = new
  Alone-free f zero (some s ∷ ss) inside free new = absurd (cc free)
  Alone-free f (suc i) (none ∷ ss) inside free new =
      (refl, Alone-free f i ss (omega arith) free new)
  Alone-free f (suc i) (some s ∷ ss) inside free new = elim (Bool-cases (s.fd == f)) [
    | inl same ↦
        absurd (let e : ◌≡◌ {A = Option (Chan L)} (some s.chan) none = rw same at new in cc e)
    | inr other ↦ (other, Alone-free f i ss (omega arith) free (rw other at new))
  ]

  chan_at-entry_at :
      (i : ℕ) (s : Slot L) (ss : List (Option (Slot L)))
      → entry_at ss i ≡ some s
      → chan_at s.fd ss ≢ none
  unfolding chan_at
  chan_at-entry_at i s [] here = λ _. cc here
  chan_at-entry_at zero s (o ∷ ss) here = λ h.
      let e : ◌≡◌ {A = Option (Chan L)} (some s.chan) none =
        rw (here, (==_iff s.fd s.fd).1 refl) at h in
      cc e
  chan_at-entry_at (suc i) s (none ∷ ss) here = chan_at-entry_at i s ss here
  chan_at-entry_at (suc i) s (some t ∷ ss) here = λ h. elim (Bool-cases (t.fd == s.fd)) [
    | inl same ↦ let e : ◌≡◌ {A = Option (Chan L)} (some t.chan) none = rw same at h in cc e
    | inr other ↦ chan_at-entry_at i s ss here (rw other at h)
  ]

  -- Of a place in use, its descriptor.
  pub Alone-used :
      (i : ℕ) (s : Slot L) (ss : List (Option (Slot L)))
      → Distinct ss
      → entry_at ss i ≡ some s
      → Alone s.fd ss i
  Alone-used i s [] d here = cc here
  Alone-used zero s (none ∷ ss) d here = cc here
  Alone-used zero s (some t ∷ ss) d here =
      let same : t ≡ s = ground (arith, here) in rw (← same) d.0
  Alone-used (suc i) s (none ∷ ss) d here = (refl, Alone-used i s ss d here)
  Alone-used (suc i) s (some t ∷ ss) (unique, d) here = elim (Bool-cases (t.fd == s.fd)) [
    | inl same ↦ absurd (
        chan_at-entry_at i s ss here
          (ap (λ n. chan_at n ss) (sym ((==_iff t.fd s.fd).0 same)) ∙ unique))
    | inr other ↦ (other, Alone-used i s ss d here)
  ]

  -- What a descriptor names is what its place holds.
  pub chan_at-Alone :
      (f i : ℕ) (ss : List (Option (Slot L)))
      → Alone f ss i
      → Of f (entry_at ss i)
      → chan_at f ss ≡ chan_of (entry_at ss i)
  unfolding chan_at
  chan_at-Alone f i [] alone old = absurd alone
  chan_at-Alone f zero (o ∷ ss) alone old = written_here f o ss old alone
  chan_at-Alone f (suc i) (o ∷ ss) (elsewhere, alone) old =
      rw elsewhere (chan_at-Alone f i ss alone old)

  -- It has no other place.
  pub Alone-unique :
      (f i j : ℕ) (u : Slot L) (ss : List (Option (Slot L)))
      → Alone f ss i
      → entry_at ss j ≡ some u
      → u.fd ≡ f
      → j ≡ i
  Alone-unique f i j u [] alone there e = absurd alone
  Alone-unique f zero zero u (o ∷ ss) alone there e = refl
  Alone-unique f zero (suc j) u (o ∷ ss) alone there e =
      absurd (chan_at-entry_at j u ss there (ap (λ n. chan_at n ss) e ∙ alone))
  Alone-unique f (suc i) zero u (o ∷ ss) (elsewhere, alone) there e =
      absurd (let h : (u.fd == f) ≡ false = rw there at elsewhere in ground (arith, h, e))
  Alone-unique f (suc i) (suc j) u (o ∷ ss) (elsewhere, alone) there e =
      ap suc (Alone-unique f i j u ss alone there e)

  -- A search that finds no place.
  pub find_fd-none :
      (fd : ℕ) (ss : List (Option (Slot L))) → find_fd L fd ss ≡ none → chan_at fd ss ≡ none
  unfolding find_fd chan_at
  find_fd-none fd [] h = refl
  find_fd-none fd (o ∷ ss) h = elim (Bool-cases (has_fd L fd o)) [
    | inl same ↦ absurd (let e : ◌≡◌ {A = Option ℕ} (some zero) none = rw same at h in cc e)
    | inr other ↦ elim (Option-cases (find_fd L fd ss)) [
      | inl e ↦ rw other (find_fd-none fd ss e)
      | inr (k, e) ↦
          absurd (let e : ◌≡◌ {A = Option ℕ} (some (suc k)) none = rw (other, e) at h in cc e)
    ]
  ]
