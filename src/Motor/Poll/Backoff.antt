-- ===== src/Motor/Poll/Backoff.antt =====
-- The retries of a setup that failed: after how many polls the next one comes.
use technosoft_tml_motor.Prelude.{
  ℕ, zero, suc, ◌^◌, ◌≡◌, refl, sym, ap, ◌∙◌, true, false, some, List, [], ◌∷◌, get_elem?,
  if◌then◌else◌, if_cases, ltb, arith,
}
use mathlib.Core.Path.{subst}
use technosoft_tml_motor.Motor.Calls.{Calls}
use technosoft_tml_motor.Motor.Axis.{Axis, Controller, Io, update_at}
use technosoft_tml_motor.Motor.Poll.{
  Polled, next_backoff, reinit_failed, waited, poll, poll_of, poll_reinit,
}

-- So many failures in a row.
abbrev pub fails : ℕ → Axis → Axis
fails zero a = a
fails (suc n) a = reinit_failed (fails n a)

abbrev delay : ℕ → ℕ
delay n = if ltb n 5 then 2 ^ n else 30

next_backoff-delay : (n : ℕ) → next_backoff (delay n) ≡ delay (suc n)
unfolding next_backoff
next_backoff-delay zero = refl
next_backoff-delay (suc zero) = refl
next_backoff-delay (suc (suc zero)) = refl
next_backoff-delay (suc (suc (suc zero))) = refl
next_backoff-delay (suc (suc (suc (suc zero)))) = refl
next_backoff-delay (suc (suc (suc (suc (suc n))))) = ground arith

backoff_after : (n : ℕ) (a : Axis) → a.backoff ≡ 1 → (fails n a).backoff ≡ delay n
unfolding reinit_failed
backoff_after zero a h = h
backoff_after (suc n) a h = ap next_backoff (backoff_after n a h) ∙ next_backoff-delay n

-- After n + 1 failed reinitialisations in a row, counted from a delay of 1, the next one waits for
-- 2 ^ n polls where n is below 5, and for 30 from then on.
pub countdown-fails :
    (n : ℕ) (a : Axis)
    → a.backoff ≡ 1
    → (fails (suc n) a).countdown ≡ (if ltb n 5 then 2 ^ n else 30)
unfolding reinit_failed
countdown-fails n a h = backoff_after n a h

pub get_elem?-update_at :
    (xs : List Axis) (i : ℕ) (a : Axis) (f : Axis → Axis)
    → get_elem? xs i ≡ some a
    → get_elem? (update_at xs i f) i ≡ some (f a)
get_elem?-update_at [] i a f h = cc
get_elem?-update_at (x ∷ xs) zero a f h =
    let e : x ≡ a = ground (arith, h) in ap (λ t. some (f t)) e
get_elem?-update_at (x ∷ xs) (suc i) a f h = get_elem?-update_at xs i a f h

module _ {R : Type 0} (C : Calls R) where
  abbrev pub polls : ℕ → ℕ → Controller C → Controller C
  polls zero i g = g
  polls (suc n) i g = polls n i (poll C i g).1

  -- The axis `i` waits for a setup, with `n` polls to go.
  pub record Waiting (i n : ℕ) (g : Controller C) : Type 0 where
    pub axis : Axis
    pub fd : ℕ
    pub here : get_elem? g.axes i ≡ some axis
    pub channel : g.channel_fd ≡ some fd
    pub in_use : axis.configured ≡ true
    pub to_do : axis.needs_reinit ≡ true
    pub left : axis.countdown ≡ n

  abbrev after_wait : ℕ → Controller C → Polled × Controller C
  after_wait i g = ((true, false), record g { axes = update_at g.axes i waited })

  poll_reinit-waits :
      (i n : ℕ) (a : Axis) (fd : ℕ) (g : Controller C)
      → a.countdown ≡ suc n
      → poll_reinit C i a (some fd) g ≡ after_wait i g
  unfolding poll_reinit
  poll_reinit-waits i n a fd g h =
      if_cases (λ (m : Io C Polled). m g ≡ after_wait i g) (ltb 0 a.countdown) _ _ (λ _. refl)
        (λ e. absurd (ground (arith, e)))

  poll_of-waits :
      (i n : ℕ) (a : Axis) (fd : ℕ) (g : Controller C)
      → g.channel_fd ≡ some fd
      → a.configured ≡ true
      → a.needs_reinit ≡ true
      → a.countdown ≡ suc n
      → poll_of C i (some a) g ≡ after_wait i g
  unfolding poll_of
  poll_of-waits i n a fd g channel in_use to_do left =
      if_cases (λ (r : Polled × Controller C). r ≡ after_wait i g) a.configured _ _
        (λ _.
          if_cases (λ (r : Polled × Controller C). r ≡ after_wait i g) a.needs_reinit _ _
            (λ _. ap (λ o. poll_reinit C i a o g) channel ∙ poll_reinit-waits i n a fd g left)
            (λ e. absurd (cc (e, to_do))))
        (λ e. absurd (cc (e, in_use)))

  poll-Waiting : (i n : ℕ) (g : Controller C) → Waiting i (suc n) g → poll C i g ≡ after_wait i g
  unfolding poll
  poll-Waiting i n g w =
      ap (λ o. poll_of C i o g) w.here
      ∙ poll_of-waits i n w.axis w.fd g w.channel w.in_use w.to_do w.left

  -- While an axis waits for its reinitialisation on an open channel, with n polls to go, its next
  -- n polls make no call of the library, and after them none is left to go and it still waits.
  pub polls-Waiting :
      (i n : ℕ) (g : Controller C)
      → Waiting i n g
      → ((polls n i g).lib ≡ g.lib) × Waiting i 0 (polls n i g)
  polls-Waiting i zero g w = (refl, w)
  polls-Waiting i (suc n) g w =
      let g' = (after_wait i g).1 in
      let w' : Waiting i n g' = record {
        axis = waited w.axis;
        fd = w.fd;
        here = get_elem?-update_at g.axes i w.axis waited w.here;
        channel = w.channel;
        in_use = w.in_use;
        to_do = w.to_do;
        left = omega (arith, w.left);
      } in
      let done : (poll C i g).1 ≡ g' = ap (λ r. r.1) (poll-Waiting i n g w) in
      subst (λ (h : Controller C). ((polls n i h).lib ≡ g.lib) × Waiting i 0 (polls n i h))
        (sym done) (polls-Waiting i n g' w')
