-- ===== src/Channel/Open/Descriptors.antt =====
-- Which descriptors are open when `TmlChannel::open` is done.
use technosoft_tml_motor.Prelude.{
  ℕ, zero, suc, ◌+◌, ◌-◌, ◌*◌, ◌++◌, List, [], ◌∷◌, ◌≡◌, refl, ap, ◌∙◌, Bool, true, false, ◌||◌,
  not, Option, none, some, if_cases, ◌==◌, leb, length,
}
use technosoft_tml_motor.Prelude.State.{State}
use technosoft_tml_motor.Channel.System.{Posix}
use technosoft_tml_motor.Channel.Defs.{Port, call, act, read_bytes, read_loop}
use technosoft_tml_motor.Channel.Network.{
  Network, Termios, Descriptor, descriptor, no_descriptor, after_open, remove,
}
use technosoft_tml_motor.Channel.Connect.{
  raw_mode, baud_to_speed, configure_as, configure_port, connect_tcp,
}
use technosoft_tml_motor.Channel.Open.{
  Device, close_device, use_socket, keep_serial, use_serial, open_mode, prepared, open_device,
  is_tcp_mode, opened_as,
}
use technosoft_tml_motor.Channel.Open.Sockets.{remove_self, with_fd, connect_tcp-Gives}

module _ (P : Posix) (N : Network P) where
  open N use {Address, descriptors}

  -- The computation opens and closes nothing.
  abbrev Keeps : {A : Type 0} → State (Port P) A → Type 0
  Keeps m = (p : Port P) → descriptors (m p).1.world ≡ descriptors p.world

  configure_as-Keeps : (fd baud : ℕ) (o : Option Termios) → Keeps (configure_as P N fd baud o)
  unfolding configure_as
  configure_as-Keeps fd baud none p = refl
  configure_as-Keeps fd baud (some tty) p =
      let t : Termios = raw_mode (baud_to_speed baud) tty in
      let (ok, w) = N.tcsetattr fd t p.world in
      if_cases
        (λ (m : State (Port P) Bool).
          descriptors (m (record p { world = w })).1.world ≡ descriptors p.world)
        ok _ _ (λ _. N.tcflush_keeps fd w ∙ N.tcsetattr_keeps fd t p.world)
        (λ _. N.tcsetattr_keeps fd t p.world)

  configure_port-Keeps : (fd baud : ℕ) → Keeps (configure_port P N fd baud)
  unfolding configure_port
  configure_port-Keeps fd baud p =
      let (o, q) = call P (N.tcgetattr fd) p in
      configure_as-Keeps fd baud o q ∙ N.tcgetattr_keeps fd p.world

  read_loop-Keeps :
      (fuel deadline count : ℕ) (acc : List ℕ) → Keeps (read_loop P fuel deadline count acc)
  unfolding read_loop
  read_loop-Keeps zero deadline count acc s = refl
  read_loop-Keeps (suc fuel) deadline count acc s =
      let w₁ = P.gettimeofday s.world in
      let t = P.now w₁ in
      let s₁ : Port P = record s { world = w₁ } in
      let (ready, w₂) = P.select (deadline - t) w₁ in
      let s₂ : Port P = record s { world = w₂ } in
      let (bs, w₃) = P.read (count - length acc) w₂ in
      let s₃ : Port P = record s { world = w₃ } in
      let Same : Port P → State (Port P) (List ℕ) → Type 0 =
        λ q m. descriptors (m q).1.world ≡ descriptors s.world in
      let at₁ : descriptors w₁ ≡ descriptors s.world = N.gettimeofday_keeps s.world in
      let at₂ : descriptors w₂ ≡ descriptors s.world = N.select_keeps (deadline - t) w₁ ∙ at₁ in
      let at₃ : descriptors w₃ ≡ descriptors s.world = N.read_keeps (count - length acc) w₂ ∙ at₂ in
      if_cases (Same s) (leb count (length acc)) _ _ (λ full. refl)
        (λ room.
          if_cases (Same s₁) (leb deadline t) _ _ (λ late. at₁)
            (λ early.
              if_cases (Same s₂) ready _ _
                (λ some_bytes.
                  if_cases (Same s₃) (length bs == 0) _ _ (λ nothing. at₃)
                    (λ something. read_loop-Keeps fuel deadline count (acc ++ bs) s₃ ∙ at₃))
                (λ silent. at₂)))

  read_bytes-Keeps : (count timeout_ms : ℕ) → Keeps (read_bytes P count timeout_ms)
  unfolding read_bytes
  read_bytes-Keeps count timeout_ms s =
      let w = P.gettimeofday s.world in
      if_cases (λ (r : List ℕ × Port P). descriptors r.1.world ≡ descriptors s.world)
        (not s.is_open || count == 0) _ _ (λ closed. refl)
        (λ opened.
          read_loop-Keeps count (P.now w + timeout_ms * 1000) count [] (record s { world = w })
          ∙ N.gettimeofday_keeps s.world)

  abbrev pub without_fd : Option ℕ → List ℕ → List ℕ
  without_fd none ds = ds
  without_fd (some fd) ds = remove fd ds

  -- The descriptors that are open, given those before, and the channel's own, which is the result.
  pub record Opens (before : List ℕ) (r : Option ℕ) (d : Device P N) : Type 0 where
    pub open_now : descriptors d.port.world ≡ with_fd P N r before
    pub own : d.fd ≡ r

  close_device_removes :
      (o : Option ℕ) (d : Device P N)
      → descriptors (close_device P N o d).port.world ≡ without_fd o (descriptors d.port.world)
  unfolding close_device
  close_device_removes none d = refl
  close_device_removes (some fd) d = N.close_descriptors fd d.port.world

  use_socket-Opens :
      (s : Option ℕ) (d : Device P N) (ds : List ℕ)
      → descriptors d.port.world ≡ with_fd P N s ds
      → (let (r, d') = use_socket P N s d in Opens ds r d')
  unfolding use_socket
  use_socket-Opens none d ds h = record { open_now = h; own = refl }
  use_socket-Opens (some fd) d ds h =
      let p : Port P = opened_as P N true fd d.port in
      let waited : Port P = (act P (P.usleep 200000) p).1 in
      record {
        open_now = read_bytes-Keeps 64 50 waited ∙ N.usleep_keeps 200000 p.world ∙ h;
        own = refl;
      }

  keep_serial-Opens :
      (fd : ℕ) (ok : Bool) (d : Device P N) (ds : List ℕ)
      → descriptors d.port.world ≡ fd ∷ ds
      → d.fd ≡ some fd
      → (let (r, d') = keep_serial P N fd ok d in Opens ds r d')
  unfolding keep_serial
  keep_serial-Opens fd true d ds h own = record { open_now = h; own = own }
  keep_serial-Opens fd false d ds h own = record {
    open_now = N.close_descriptors fd d.port.world ∙ ap (remove fd) h ∙ remove_self fd ds;
    own = refl;
  }

  use_serial-Opens :
      (baud : ℕ) (path : List ℕ) (s : Descriptor) (d : Device P N) (ds : List ℕ)
      → descriptors d.port.world ≡ after_open ds s
      → (let (r, d') = use_serial P N baud path s d in Opens ds r d')
  unfolding use_serial
  use_serial-Opens baud path (no_descriptor e) d ds h = record { open_now = h; own = refl }
  use_serial-Opens baud path (descriptor fd) d ds h =
      let p : Port P = (act P (N.blocking fd) (opened_as P N false fd d.port)).1 in
      let (ok, q) = configure_port P N fd baud p in
      keep_serial-Opens fd ok (record d { fd = some fd; port = q }) ds
        (configure_port-Keeps fd baud p ∙ N.blocking_keeps fd d.port.world ∙ h) refl

  open_mode-Opens :
      (tcp : Bool) (path : List ℕ) (baud : ℕ) (d : Device P N)
      → (let (r, d') = open_mode P N tcp path baud d in Opens (descriptors d.port.world) r d')
  unfolding open_mode
  open_mode-Opens true path baud d =
      let (s, p) = connect_tcp P N path d.port in
      use_socket-Opens s (record d { port = p }) (descriptors d.port.world)
        (connect_tcp-Gives P N path d.port)
  open_mode-Opens false path baud d =
      let (s, w) = N.open_file path d.port.world in
      use_serial-Opens baud path s (record d { port = record (d.port) { world = w } })
        (descriptors d.port.world) (N.open_file_descriptors path d.port.world)

  -- Whatever the operating system answers, open leaves open the descriptors from before without
  -- the channel's own, which it closes, and with the one that it returns, if it returns one; and
  -- that one is then the channel's. No socket that was tried and no port that could not be
  -- configured stays open.
  pub open_device-Opens :
      (path : List ℕ) (host_id baud channel_type : ℕ) (d : Device P N)
      → let (r, d') = open_device P N path host_id baud channel_type d in
        Opens (without_fd d.fd (descriptors d.port.world)) r d'
  unfolding open_device
  open_device-Opens path host_id baud channel_type d = rw (← close_device_removes d.fd d) (
      open_mode-Opens (is_tcp_mode channel_type path) path baud
        (prepared P N host_id channel_type (close_device P N d.fd d)))
