-- ===== src/Channel/Waits.antt =====
-- The wait for one byte: what it drops, what it accepts, and when it gives up.
pub mod Ends
use technosoft_tml_motor.Prelude.{
  ℕ, zero, suc, ◌+◌, ◌-◌, ◌*◌, ◌≤◌, ◌<◌, List, [], ◌∷◌, ◌++◌, Bool, true, false, ◌≡◌, ◌≢◌, refl,
  ◌∙◌, arith, append_assoc, length, length-append, All, All-append, leb, if_cases, Bool-cases, inl,
  inr,
}
use technosoft_tml_motor.Frame.{IsByte}
use technosoft_tml_motor.Channel.System.{Posix}
use technosoft_tml_motor.Channel.Defs.{
  Port, Io, read_bytes, Wait, got, timed_out, starved, wait_byte, wait_loop, wait_for, elapsed_ms,
  rounds,
}
use technosoft_tml_motor.Channel.Time.{now_later}
use technosoft_tml_motor.Channel.Evolves.{Evolves, Evolves-refl, Evolves-trans, Quiet-Evolves}
use technosoft_tml_motor.Channel.Reads.{Reads, read_bytes-Reads}

-- For a clock that is not set back, the milliseconds that the waits compute from seconds and
-- microseconds are more than the elapsed time less one, and less than it plus one.
pub elapsed_ms_bounds :
    (start t : ℕ)
    → start ≤ t
    → (t - start < (elapsed_ms start t + 1) * 1000) × (elapsed_ms start t * 1000 ≤ t - start + 999)
unfolding elapsed_ms
elapsed_ms_bounds start t h = ground arith

-- The byte that ended the wait.
abbrev pub last_byte : Wait → List ℕ
last_byte (got b junk) = b ∷ []
last_byte (timed_out junk) = []
last_byte starved = []

module _ (P : Posix) (accept : ℕ → Bool) where
  abbrev Ending : ℕ → ℕ → ℕ → Port P → Wait → Type 0
  Ending start timeout_ms count s (got b junk) = (accept b ≡ true) × (junk ≡ count)
  Ending start timeout_ms count s (timed_out junk) =
      (timeout_ms * 1000 ≤ P.now s.world - start + 999) × (junk ≡ count)
  Ending start timeout_ms count s starved = Unit {0}

  pub record Waits (start timeout_ms junk : ℕ) (s : Port P) (r : Wait × Port P) : Type 0 where
    pub skipped : List ℕ
    pub refused : All (λ b. accept b ≡ false) skipped
    pub bytes : All IsByte (skipped ++ last_byte r.0)
    pub moved : Evolves P (skipped ++ last_byte r.0) [] s r.1
    pub ending : Ending start timeout_ms (junk + length skipped) r.1 r.0
    pub same_error : r.1.last_error ≡ s.last_error

  Waits-timed_out :
      (start timeout_ms junk : ℕ) (s : Port P)
      → timeout_ms * 1000 ≤ P.now s.world - start + 999
      → Waits start timeout_ms junk s (timed_out junk, s)
  Waits-timed_out start timeout_ms junk s h = record {
    skipped = [];
    refused = tt;
    bytes = tt;
    moved = Evolves-refl P s;
    ending = (h, omega arith);
    same_error = refl;
  }

  Waits-starved :
      (start timeout_ms junk : ℕ) (s : Port P) → Waits start timeout_ms junk s (starved, s)
  Waits-starved start timeout_ms junk s = record {
    skipped = [];
    refused = tt;
    bytes = tt;
    moved = Evolves-refl P s;
    ending = tt;
    same_error = refl;
  }

  Waits-got :
      (start timeout_ms junk b : ℕ) (s t : Port P)
      → accept b ≡ true
      → IsByte b
      → Evolves P (b ∷ []) [] s t
      → t.last_error ≡ s.last_error
      → Waits start timeout_ms junk s (got b junk, t)
  Waits-got start timeout_ms junk b s t e h m q = record {
    skipped = [];
    refused = tt;
    bytes = (h, tt);
    moved = m;
    ending = (e, omega arith);
    same_error = q;
  }

  Ending-cong :
      (start timeout_ms : ℕ) {m n : ℕ} (s : Port P) (w : Wait)
      → m ≡ n
      → Ending start timeout_ms m s w
      → Ending start timeout_ms n s w
  Ending-cong start timeout_ms s w e h = rw (← e) h

  Waits-skip :
      (start timeout_ms junk junk' : ℕ) (bs : List ℕ) (s t : Port P) (r : Wait × Port P)
      → junk' ≡ junk + length bs
      → All (λ b. accept b ≡ false) bs
      → All IsByte bs
      → Evolves P bs [] s t
      → t.last_error ≡ s.last_error
      → Waits start timeout_ms junk' t r
      → Waits start timeout_ms junk s r
  Waits-skip start timeout_ms junk junk' bs s t r e refused b m q h = record {
    skipped = bs ++ h.skipped;
    refused = All-append _ bs h.skipped refused h.refused;
    bytes = rw (append_assoc bs h.skipped (last_byte r.0)) (All-append IsByte bs _ b h.bytes);
    moved =
        rw (append_assoc bs h.skipped (last_byte r.0))
          (Evolves-trans P bs [] (h.skipped ++ last_byte r.0) [] s t r.1 m h.moved);
    ending =
        Ending-cong start timeout_ms r.1 r.0 (omega (arith, length-append bs h.skipped)) h.ending;
    same_error = h.same_error ∙ q;
  }

  wait_byte-Waits :
      (start timeout_ms junk : ℕ) (again : ℕ → Io P Wait) (bs : List ℕ) (s t : Port P)
      → length bs ≤ 1
      → All IsByte bs
      → Evolves P bs [] s t
      → t.last_error ≡ s.last_error
      → ((j : ℕ) → Waits start timeout_ms j t (again j t))
      → Waits start timeout_ms junk s (wait_byte P accept again junk bs t)
  unfolding wait_byte
  wait_byte-Waits start timeout_ms junk again [] s t one b m q ih =
      Waits-skip start timeout_ms junk junk [] s t _ (omega arith) tt tt m q (ih junk)
  wait_byte-Waits start timeout_ms junk again (x ∷ []) s t one b m q ih =
      if_cases (λ (k : Io P Wait). Waits start timeout_ms junk s (k t)) (accept x) _ _
        (λ yes_x. Waits-got start timeout_ms junk x s t yes_x b.0 m q)
        (λ no_x.
          Waits-skip start timeout_ms junk (junk + 1) (x ∷ []) s t _ refl (no_x, tt) b m q
            (ih (junk + 1)))
  wait_byte-Waits start timeout_ms junk again (x ∷ y ∷ bs) s t one b m q ih = absurd (omega arith)

  -- Every byte that the wait takes is dropped because it is not accepted, but for the last one of a
  -- successful wait. A timeout is reported only when its time has passed, to the millisecond.
  pub wait_loop-Waits :
      (fuel start timeout_ms junk : ℕ) (s : Port P)
      → start ≤ P.now s.world
      → Waits start timeout_ms junk s (wait_loop P accept fuel start timeout_ms junk s)
  unfolding wait_loop
  wait_loop-Waits zero start timeout_ms junk s h = Waits-starved start timeout_ms junk s
  wait_loop-Waits (suc fuel) start timeout_ms junk s h =
      let w = P.gettimeofday s.world in
      let t = P.now w in
      let s₁ : Port P = record s { world = w } in
      let (bs, s₂) = read_bytes P 1 2 s₁ in
      let got_bytes : Reads P 1 [] s₁ (bs, s₂) = read_bytes-Reads P 1 2 s₁ in
      let started : start ≤ t =
        omega (arith, now_later P s.world w (omega (arith, P.takes_time s.world))) in
      Waits-skip start timeout_ms junk junk [] s s₁ _ (omega arith) tt tt
        (Quiet-Evolves P s w (P.gettimeofday_quiet s.world)) refl
        (if_cases (λ (m : Io P Wait). Waits start timeout_ms junk s₁ (m s₁))
          (leb timeout_ms (elapsed_ms start t)) _ _
          (λ late.
            Waits-timed_out start timeout_ms junk s₁
              (grind (arith, elapsed_ms_bounds start t started)))
          (λ early.
            wait_byte-Waits start timeout_ms junk (wait_loop P accept fuel start timeout_ms) bs s₁
              s₂ (got_bytes.fits (omega arith)) (rw got_bytes.result got_bytes.bytes)
              (rw got_bytes.result got_bytes.moved) got_bytes.same_error
              (λ j.
                wait_loop-Waits fuel start timeout_ms j s₂
                  (omega (arith, now_later P w s₂.world got_bytes.moved.later)))))

  -- The wait for one byte sends nothing and leaves the error note alone. All bytes that it takes
  -- are dropped, counted and not accepted, but for the last one of a successful wait, which is
  -- accepted. A timeout is reported only when its milliseconds have passed, up to 999
  -- microseconds.
  pub wait_for-Waits :
      (timeout_ms : ℕ) (s : Port P)
      → Waits (P.now (P.gettimeofday s.world)) timeout_ms 0 s (wait_for P accept timeout_ms s)
  unfolding wait_for
  wait_for-Waits timeout_ms s =
      let w = P.gettimeofday s.world in
      let s₁ : Port P = record s { world = w } in
      Waits-skip (P.now w) timeout_ms 0 0 [] s s₁ _ refl tt tt
        (Quiet-Evolves P s w (P.gettimeofday_quiet s.world)) refl
        (wait_loop-Waits (rounds P timeout_ms) (P.now w) timeout_ms 0 s₁ (omega arith))
