-- ===== src/Channel/Waits/Ends.antt =====
-- That the wait for one byte ends.
use technosoft_tml_motor.Prelude.{
  ℕ, zero, suc, ◌+◌, ◌*◌, ◌≤◌, ◌<◌, List, [], ◌∷◌, Bool, ◌≡◌, ◌≢◌, refl, arith, leb, if_cases,
  Bool-cases, inl, inr,
}
use technosoft_tml_motor.Channel.System.{Posix}
use technosoft_tml_motor.Channel.Defs.{
  Port, Io, read_bytes, Wait, starved, wait_byte, wait_loop, wait_for, elapsed_ms, rounds,
}
use technosoft_tml_motor.Channel.Time.{time_before, now_later}
use technosoft_tml_motor.Channel.Reads.{read_bytes-Reads}
use technosoft_tml_motor.Channel.Waits.{elapsed_ms_bounds}

module _ (P : Posix) (accept : ℕ → Bool) where
  wait_byte_returns :
      (junk : ℕ) (again : ℕ → Io P Wait) (bs : List ℕ) (t : Port P)
      → ((j : ℕ) → (again j t).0 ≢ starved)
      → (wait_byte P accept again junk bs t).0 ≢ starved
  unfolding wait_byte
  wait_byte_returns junk again [] t ih = ih junk
  wait_byte_returns junk again (x ∷ bs) t ih =
      if_cases (λ (k : Io P Wait). (k t).0 ≢ starved) (accept x) _ _ (λ _ e. cc)
        (λ _. ih (junk + 1))

  -- The loop ends: each round reads the clock, which takes time.
  wait_loop_returns :
      (fuel start timeout_ms junk : ℕ) (s : Port P)
      → 1 ≤ fuel
      → start ≤ P.now s.world
      → (start + timeout_ms * 1000) * P.grain < P.time s.world + fuel
      → (wait_loop P accept fuel start timeout_ms junk s).0 ≢ starved
  unfolding wait_loop
  wait_loop_returns zero start timeout_ms junk s one h e = absurd (omega arith)
  wait_loop_returns (suc fuel) start timeout_ms junk s one h e =
      let w = P.gettimeofday s.world in
      let t = P.now w in
      let s₁ : Port P = record s { world = w } in
      let (bs, s₂) = read_bytes P 1 2 s₁ in
      let later : P.time w ≤ P.time s₂.world = (read_bytes-Reads P 1 2 s₁).moved.later in
      let passed : P.time s.world < P.time w = P.takes_time s.world in
      let started : start ≤ t = omega (arith, now_later P s.world w (omega arith)) in
      if_cases (λ (m : Io P Wait). (m s₁).0 ≢ starved) (leb timeout_ms (elapsed_ms start t)) _ _
        (λ _ bad. cc)
        (λ early.
          let waited : t < start + timeout_ms * 1000 =
            grind (arith, elapsed_ms_bounds start t started) in
          let left : P.time w < (start + timeout_ms * 1000) * P.grain =
            time_before P w (start + timeout_ms * 1000) waited in
          wait_byte_returns junk (wait_loop P accept fuel start timeout_ms) bs s₂ (λ j.
            wait_loop_returns fuel start timeout_ms j s₂ (omega arith)
              (omega (arith, now_later P w s₂.world later)) (omega arith)))

  -- The fuel of a wait never runs out.
  pub wait_for_returns :
      (timeout_ms : ℕ) (s : Port P) → (wait_for P accept timeout_ms s).0 ≢ starved
  unfolding wait_for
  wait_for_returns timeout_ms s =
      let w = P.gettimeofday s.world in
      let t = P.now w in
      let enough : (t + timeout_ms * 1000) * P.grain < P.time w + rounds P timeout_ms =
        omega (arith, P.now_begun w, P.now_left w) in
      wait_loop_returns (rounds P timeout_ms) t timeout_ms 0 (record s { world = w })
        (omega (arith, P.now_begun w, P.now_left w)) (omega arith) enough

  wait_byte_more :
      (junk : ℕ) (again again' : ℕ → Io P Wait) (bs : List ℕ) (t : Port P)
      → ((j : ℕ) → (again j t).0 ≢ starved → again' j t ≡ again j t)
      → (wait_byte P accept again junk bs t).0 ≢ starved
      → wait_byte P accept again' junk bs t ≡ wait_byte P accept again junk bs t
  unfolding wait_byte
  wait_byte_more junk again again' [] t ih h = ih junk h
  wait_byte_more junk again again' (x ∷ bs) t ih h = elim (Bool-cases (accept x)) [
    | inl yes_x ↦ rw yes_x refl
    | inr no_x ↦ rw no_x (ih (junk + 1) (rw no_x at h))
  ]

  -- More fuel changes nothing once it is enough.
  wait_loop_more :
      (fuel fuel' start timeout_ms junk : ℕ) (s : Port P)
      → fuel ≤ fuel'
      → (wait_loop P accept fuel start timeout_ms junk s).0 ≢ starved
      → wait_loop P accept fuel' start timeout_ms junk s
        ≡ wait_loop P accept fuel start timeout_ms junk s
  unfolding wait_loop
  wait_loop_more zero fuel' start timeout_ms junk s le h = absurd (h refl)
  wait_loop_more (suc fuel) zero start timeout_ms junk s le h = absurd (omega arith)
  wait_loop_more (suc fuel) (suc fuel') start timeout_ms junk s le h =
      let w = P.gettimeofday s.world in
      let s₁ : Port P = record s { world = w } in
      let (bs, s₂) = read_bytes P 1 2 s₁ in
      elim (Bool-cases (leb timeout_ms (elapsed_ms start (P.now w)))) [
        | inl late ↦ rw late refl
        | inr early ↦ rw early (
            wait_byte_more junk (wait_loop P accept fuel start timeout_ms)
              (wait_loop P accept fuel' start timeout_ms) bs s₂
              (λ j. wait_loop_more fuel fuel' start timeout_ms j s₂ (omega arith)) (rw early at h))
      ]

  -- On a clock that is not set back, the wait for one byte, of waitAck and of receiveMessage,
  -- comes to an accepted byte or to its timeout, whatever arrives and also where readings of the
  -- clock are equal: its fuel never runs out, and more fuel gives the same.
  pub wait_for_ends :
      (fuel timeout_ms : ℕ) (s : Port P)
      → rounds P timeout_ms ≤ fuel
      → (let w = P.gettimeofday s.world in
          let r = wait_loop P accept fuel (P.now w) timeout_ms 0 (record s { world = w }) in
          (r.0 ≢ starved) × (r ≡ wait_for P accept timeout_ms s))
  unfolding wait_for
  wait_for_ends fuel timeout_ms s enough =
      let w = P.gettimeofday s.world in
      let ends = wait_for_returns timeout_ms s in
      let same =
        wait_loop_more (rounds P timeout_ms) fuel (P.now w) timeout_ms 0 (record s { world = w })
          enough ends in
      (rw same ends, same)
