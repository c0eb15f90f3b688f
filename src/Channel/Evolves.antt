-- ===== src/Channel/Evolves.antt =====
-- How a computation moves the port on: the bytes it takes from the line and puts on it, and that
-- time passes and the descriptor stays.
use technosoft_tml_motor.Prelude.{
  ℕ, ◌≤◌, List, [], ◌++◌, ◌≡◌, refl, sym, ◌∙◌, arith, append-nil, append_assoc,
}
use technosoft_tml_motor.Channel.System.{Posix, Quiet}
use technosoft_tml_motor.Channel.Defs.{Port, LinkError}

module _ (P : Posix) where
  pub record Evolves (taken sent : List ℕ) (s s' : Port P) : Type 0 where
    pub later : P.time s.world ≤ P.time s'.world
    pub takes : P.taken s'.world ≡ P.taken s.world ++ taken
    pub sends : P.sent s'.world ≡ P.sent s.world ++ sent
    pub same_open : s'.is_open ≡ s.is_open
    pub same_tcp : s'.is_tcp ≡ s.is_tcp

  pub Evolves-refl : (s : Port P) → Evolves [] [] s s
  Evolves-refl s = record {
    later = omega arith;
    takes = sym (append-nil (P.taken s.world));
    sends = sym (append-nil (P.sent s.world));
    same_open = refl;
    same_tcp = refl;
  }

  pub Evolves-trans :
      (ts bs cs ds : List ℕ) (s t u : Port P)
      → Evolves ts bs s t
      → Evolves cs ds t u
      → Evolves (ts ++ cs) (bs ++ ds) s u
  Evolves-trans ts bs cs ds s t u e f = record {
    later = omega arith;
    takes = rw (f.takes, e.takes) (append_assoc (P.taken s.world) ts cs);
    sends = rw (f.sends, e.sends) (append_assoc (P.sent s.world) bs ds);
    same_open = f.same_open ∙ e.same_open;
    same_tcp = f.same_tcp ∙ e.same_tcp;
  }

  -- A silent step, before or after.
  pub Evolves-after-Quiet :
      (ts bs : List ℕ) (s t u : Port P) → Evolves [] [] s t → Evolves ts bs t u → Evolves ts bs s u
  Evolves-after-Quiet ts bs s t u e f = Evolves-trans [] [] ts bs s t u e f

  pub Evolves-before-Quiet :
      (ts bs : List ℕ) (s t u : Port P) → Evolves ts bs s t → Evolves [] [] t u → Evolves ts bs s u
  Evolves-before-Quiet ts bs s t u e f =
      rw (append-nil ts, append-nil bs) at (Evolves-trans ts bs [] [] s t u e f)

  -- A system call that moves no byte; only the world changes.
  pub Quiet-Evolves :
      (s : Port P) (w : P.World)
      → Quiet P.time P.sent P.taken s.world w
      → Evolves [] [] s (record s { world = w })
  Quiet-Evolves s w q = record {
    later = q.later;
    takes = q.same_taken ∙ sym (append-nil (P.taken s.world));
    sends = q.same_sent ∙ sym (append-nil (P.sent s.world));
    same_open = refl;
    same_tcp = refl;
  }

  pub read-Evolves :
      (n : ℕ) (s : Port P)
      → Evolves (P.read n s.world).0 [] s (record s { world = (P.read n s.world).1 })
  read-Evolves n s = record {
    later = P.read_later n s.world;
    takes = P.read_taken n s.world;
    sends = P.read_sent n s.world ∙ sym (append-nil (P.sent s.world));
    same_open = refl;
    same_tcp = refl;
  }

  -- Noting an error moves nothing.
  pub set_error-Evolves :
      (e : LinkError) (s : Port P) → Evolves [] [] s (record s { last_error = e })
  set_error-Evolves e s = record {
    later = omega arith;
    takes = sym (append-nil (P.taken s.world));
    sends = sym (append-nil (P.sent s.world));
    same_open = refl;
    same_tcp = refl;
  }
