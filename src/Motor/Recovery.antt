-- ===== src/Motor/Recovery.antt =====
-- The driver from its constructor on, and a setup that is due to be done anew.
use technosoft_tml_motor.Prelude.{
  ℕ, zero, suc, ◌≤◌, ◌≡◌, refl, ap, ◌∙◌, arith, Bool, true, false, Option, none, some, [], All,
  replicate, get_elem?, if◌then◌else◌, if_cases, ltb,
}
use technosoft_tml_motor.Prelude.State.{State, ◌>>◌, pure}
use technosoft_tml_motor.Motor.Calls.{Calls}
use technosoft_tml_motor.Motor.Axis.{Axis, Params, Controller, Io, call, modify_axis}
use technosoft_tml_motor.Motor.Select.{reinit_axis}
use technosoft_tml_motor.Motor.Select.Ready.{Ready, set_conn_status-Readies}
use technosoft_tml_motor.Motor.Poll.{
  Polled, reinit_done, reinit_failed, poll, poll_of, poll_reinit, poll_ready,
}
use technosoft_tml_motor.Motor.Poll.Backoff.{polls, Waiting, polls-Waiting}
use technosoft_tml_motor.Motor.Poll.Ready.{All-get_elem?}
use technosoft_tml_motor.Motor.Lifecycle.{new_axis, unconnected, connected_as, new_controller}
use technosoft_tml_motor.Motor.Runs.{Run, Run-Ready}
use technosoft_tml_motor.Api.Real.{Real}

new_axis-Ready : (p : Params) → Ready (new_axis p)
unfolding new_axis
new_axis-Ready p = ((λ unused. absurd (cc unused)), (omega arith, omega arith))

new_axes-Ready : (count : ℕ) (p : Params) → All Ready (replicate count (new_axis p))
new_axes-Ready zero p = tt
new_axes-Ready (suc n) p = (new_axis-Ready p, new_axes-Ready n p)

-- A choice between two computations, run.
if_apply :
    {S A : Type 0} (b : Bool) (m k : State S A) (s : S)
    → (if b then m else k) s ≡ (if b then m s else k s)
if_apply true m k s = refl
if_apply false m k s = refl

module _ (F : Real) (C : Calls F.R) where
  connected_as-Ready :
      (o : Option ℕ) (g : Controller C) → All Ready g.axes → All Ready (connected_as F C o g).1.axes
  unfolding connected_as
  connected_as-Ready none g h =
      set_conn_status-Readies C false (C.error_text g.lib)
        (record g { channel_fd = none; last_reconnect = C.now g.lib }) h
  connected_as-Ready (some fd) g h =
      set_conn_status-Readies C true []
        (record g { channel_fd = some fd; last_reconnect = C.now g.lib }) h

  new_controller-Ready :
      (count : ℕ) (p : Params) (s : C.St) → All Ready (new_controller F C count p s).axes
  unfolding new_controller
  new_controller-Ready count p s =
      let (fd, g) = call C C.open_channel (unconnected F C count p s) in
      connected_as-Ready fd g (new_axes-Ready count p)

  -- In every state that the driver reaches from the constructor of its controller, by any
  -- configurations, commands and polls and whatever the library answers: an axis that is
  -- configured and waits for no reinitialisation has the index of a loaded setup, and every axis
  -- has a countdown and a delay of at most 30.
  pub Run-Ready_new :
      (count : ℕ) (p : Params) (s : C.St) (g : Controller C)
      → Run F C (new_controller F C count p s) g
      → All Ready g.axes
  Run-Ready_new count p s g run =
      Run-Ready F C (new_controller F C count p s) g (new_controller-Ready count p s) run

  -- A poll that does the setup anew: it goes on to the status of the axis only where that succeeds.
  abbrev pub tried : ℕ → Axis → ℕ → Controller C → Polled × Controller C
  tried i a fd g =
      let (ok, g') = reinit_axis C i a (call C (C.select_channel fd) g).1 in
      if ok
      then poll_ready C i (modify_axis C i reinit_done g').1
      else ((true, false), (modify_axis C i reinit_failed g').1)

  poll_reinit-tries :
      (i : ℕ) (a : Axis) (fd : ℕ) (g : Controller C)
      → a.countdown ≡ 0
      → poll_reinit C i a (some fd) g ≡ tried i a fd g
  unfolding poll_reinit
  poll_reinit-tries i a fd g h =
      let (ok, g') = reinit_axis C i a (call C (C.select_channel fd) g).1 in
      if_cases (λ (m : Io C Polled). m g ≡ tried i a fd g) (ltb 0 a.countdown) _ _
        (λ e. absurd (ground (arith, e, h)))
        (λ _.
          if_apply ok (modify_axis C i reinit_done >> poll_ready C i)
            (modify_axis C i reinit_failed >> pure (true, false)) g')

  poll_of-tries :
      (i : ℕ) (a : Axis) (fd : ℕ) (g : Controller C)
      → g.channel_fd ≡ some fd
      → a.configured ≡ true
      → a.needs_reinit ≡ true
      → a.countdown ≡ 0
      → poll_of C i (some a) g ≡ tried i a fd g
  unfolding poll_of
  poll_of-tries i a fd g channel in_use to_do left =
      let Same : Polled × Controller C → Type 0 = λ r. r ≡ tried i a fd g in
      if_cases Same a.configured _ _
        (λ _.
          if_cases Same a.needs_reinit _ _
            (λ _. ap (λ o. poll_reinit C i a o g) channel ∙ poll_reinit-tries i a fd g left)
            (λ e. absurd (cc (e, to_do))))
        (λ e. absurd (cc (e, in_use)))

  poll-Waiting_zero :
      (i : ℕ) (g : Controller C) (w : Waiting C i 0 g) → poll C i g ≡ tried i w.axis w.fd g
  unfolding poll
  poll-Waiting_zero i g w =
      ap (λ o. poll_of C i o g) w.here
      ∙ poll_of-tries i w.axis w.fd g w.channel w.in_use w.to_do w.left

  -- The setup of the axis is done anew within so many polls, each before it silent.
  pub record Tries (i bound : ℕ) (g : Controller C) : Type 0 where
    pub before : ℕ
    pub soon : before ≤ bound
    pub silent : (polls C before i g).lib ≡ g.lib
    pub axis : Axis
    pub fd : ℕ
    pub here : get_elem? (polls C before i g).axes i ≡ some axis
    pub try : poll C i (polls C before i g) ≡ tried i axis fd (polls C before i g)

  -- Let a configured axis be due for its reinitialisation, on an open channel, in a state that
  -- the driver reaches from the constructor of its controller. If only polls of this axis follow,
  -- some number of them, 30 at most, make no call of the library, and the one behind them selects
  -- the channel and runs reinitAxis.
  pub Run-Tries :
      (count : ℕ) (p : Params) (s : C.St) (g : Controller C) (i : ℕ) (a : Axis) (fd : ℕ)
      → Run F C (new_controller F C count p s) g
      → get_elem? g.axes i ≡ some a
      → g.channel_fd ≡ some fd
      → a.configured ≡ true
      → a.needs_reinit ≡ true
      → Tries i 30 g
  Run-Tries count p s g i a fd run here channel in_use to_do =
      let paced = (All-get_elem? Ready g.axes i a here (Run-Ready_new count p s g run)).1 in
      let waiting : Waiting C i a.countdown g = record {
        axis = a;
        fd = fd;
        here = here;
        channel = channel;
        in_use = in_use;
        to_do = to_do;
        left = refl;
      } in
      let (silent, last) = polls-Waiting C i a.countdown g waiting in
      record {
        before = a.countdown;
        soon = paced.0;
        silent = silent;
        axis = last.axis;
        fd = last.fd;
        here = last.here;
        try = poll-Waiting_zero i (polls C a.countdown i g) last;
      }
