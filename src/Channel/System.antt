-- ===== src/Channel/System.antt =====
-- What the channel uses of the operating system, as a parameter: `gettimeofday`, `select`, `read`,
-- `write`, `tcdrain` and `usleep` on one descriptor. `time`, `now`, `sent` and `taken` are not calls:
-- they name what the laws speak of, the time in units of which `grain` make a microsecond, the clock
-- in whole microseconds of that time, the bytes that the port has accepted and those that it has
-- handed over, both oldest first. Many readings of the clock can be equal; but each takes one unit of
-- the finer time at least, as a processor makes only so many calls in a microsecond. The clock is
-- taken not to be set back while the port is in use.
use technosoft_tml_motor.Prelude.{ℕ, ◌+◌, ◌*◌, List, ◌++◌, ◌≡◌, ◌≤◌, ◌<◌, Bool, length, take, All}
use technosoft_tml_motor.Frame.{IsByte}

module _ {W : Type 0} (time : W → ℕ) (sent taken : W → List ℕ) where
  -- A call that moves no byte; time does not run backwards.
  pub record Quiet (w w' : W) : Type 0 where
    pub later : time w ≤ time w'
    pub same_sent : sent w' ≡ sent w
    pub same_taken : taken w' ≡ taken w

pub record Posix : Type 1 where
  pub World : Type 0
  pub time : World → ℕ
  pub grain : ℕ
  pub now : World → ℕ
  pub sent : World → List ℕ
  pub taken : World → List ℕ
  -- The reading is `now` of the new world.
  pub gettimeofday : World → World
  -- Is a byte readable within so many microseconds? (`select` returned more than 0.)
  pub select : ℕ → World → Bool × World
  -- At most so many bytes; none is a result of 0 or less.
  pub read : ℕ → World → List ℕ × World
  -- How many of the bytes were taken; 0 is a result of 0 or less.
  pub write : List ℕ → World → ℕ × World
  pub tcdrain : World → World
  pub usleep : ℕ → World → World
  -- The clock shows the whole microseconds of the time.
  pub now_begun : (w : World) → now w * grain ≤ time w
  pub now_left : (w : World) → time w < (now w + 1) * grain
  pub takes_time : (w : World) → time w < time (gettimeofday w)
  pub gettimeofday_quiet : (w : World) → Quiet time sent taken w (gettimeofday w)
  pub select_quiet : (us : ℕ) (w : World) → Quiet time sent taken w (select us w).1
  pub tcdrain_quiet : (w : World) → Quiet time sent taken w (tcdrain w)
  pub usleep_quiet : (us : ℕ) (w : World) → Quiet time sent taken w (usleep us w)
  pub read_later : (n : ℕ) (w : World) → time w ≤ time (read n w).1
  pub read_sent : (n : ℕ) (w : World) → sent (read n w).1 ≡ sent w
  pub read_taken : (n : ℕ) (w : World) → taken (read n w).1 ≡ taken w ++ (read n w).0
  pub read_fits : (n : ℕ) (w : World) → length (read n w).0 ≤ n
  pub read_bytes : (n : ℕ) (w : World) → All IsByte (read n w).0
  pub write_later : (bs : List ℕ) (w : World) → time w ≤ time (write bs w).1
  pub write_taken : (bs : List ℕ) (w : World) → taken (write bs w).1 ≡ taken w
  pub write_fits : (bs : List ℕ) (w : World) → (write bs w).0 ≤ length bs
  pub write_sent :
      (bs : List ℕ) (w : World) → sent (write bs w).1 ≡ sent w ++ take (write bs w).0 bs
