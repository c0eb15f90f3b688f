-- ===== src/Channel/Open/Usable.antt =====
-- The state of the channel when `TmlChannel::open` is done.
use technosoft_tml_motor.Prelude.{
  ℕ, List, ◌≡◌, refl, ◌∙◌, Bool, true, false, Option, none, some, if_cases,
}
use technosoft_tml_motor.Prelude.State.{State}
use technosoft_tml_motor.Channel.System.{Posix}
use technosoft_tml_motor.Channel.Defs.{Port, call, act}
use technosoft_tml_motor.Channel.Reads.{read_bytes-Reads}
use technosoft_tml_motor.Channel.Address.{Target, target, without_port, bad_port, parse_target}
use technosoft_tml_motor.Channel.Network.{
  Network, Termios, Descriptor, descriptor, no_descriptor, Resolved, resolved, not_resolved,
}
use technosoft_tml_motor.Channel.Connect.{
  raw_mode, baud_to_speed, configure_as, configure_port, connect_first, connect_error,
  connect_resolved, connect_target, connect_tcp,
}
use technosoft_tml_motor.Channel.Open.{
  Device, close_device, use_socket, keep_serial, use_serial, open_mode, prepared, open_device,
  is_tcp_mode, opened_as,
}

abbrev pub is_some : Option ℕ → Bool
is_some none = false
is_some (some fd) = true

module _ (P : Posix) (N : Network P) where
  open N use {Address}

  -- The computation does not touch `fd_`.
  abbrev Stays : {A : Type 0} → State (Port P) A → Type 0
  Stays m = (p : Port P) → (m p).1.is_open ≡ p.is_open

  connect_error-Stays : (path : List ℕ) (s : Descriptor) → Stays (connect_error P N path s)
  connect_error-Stays path (descriptor sock) p = refl
  connect_error-Stays path (no_descriptor e) p = refl

  connect_resolved-Stays :
      (path host : List ℕ) (r : Resolved Address) → Stays (connect_resolved P N path host r)
  unfolding connect_resolved
  connect_resolved-Stays path host (not_resolved e) p = refl
  connect_resolved-Stays path host (resolved as_) p =
      let (s, q) = call P (connect_first P N as_ 0) p in connect_error-Stays path s q

  connect_target-Stays : (path : List ℕ) (t : Target) → Stays (connect_target P N path t)
  unfolding connect_target
  connect_target-Stays path without_port p = refl
  connect_target-Stays path bad_port p = refl
  connect_target-Stays path (target host port) p =
      let (r, q) = call P (N.getaddrinfo host port) p in connect_resolved-Stays path host r q

  connect_tcp-Stays : (path : List ℕ) → Stays (connect_tcp P N path)
  unfolding connect_tcp
  connect_tcp-Stays path = connect_target-Stays path (parse_target path)

  configure_as-Stays : (fd baud : ℕ) (o : Option Termios) → Stays (configure_as P N fd baud o)
  unfolding configure_as
  configure_as-Stays fd baud none p = refl
  configure_as-Stays fd baud (some tty) p =
      let (ok, w) = N.tcsetattr fd (raw_mode (baud_to_speed baud) tty) p.world in
      if_cases (λ (m : State (Port P) Bool). (m (record p { world = w })).1.is_open ≡ p.is_open) ok
        _ _ (λ _. refl) (λ _. refl)

  configure_port-Stays : (fd baud : ℕ) → Stays (configure_port P N fd baud)
  unfolding configure_port
  configure_port-Stays fd baud p =
      let (o, q) = call P (N.tcgetattr fd) p in configure_as-Stays fd baud o q

  -- `fd_` is as the result says, and the channel talks as the host to the host's own axis.
  pub record Usable (host_id : ℕ) (r : Option ℕ) (d : Device P N) : Type 0 where
    pub is_open : d.port.is_open ≡ is_some r
    pub own : d.fd ≡ r
    pub as_host : d.host_id ≡ host_id
    pub to_axis : d.active_axis ≡ host_id

  -- The channel before it is opened.
  pub record Closed (host_id : ℕ) (d : Device P N) : Type 0 where
    pub is_closed : d.port.is_open ≡ false
    pub as_host : d.host_id ≡ host_id
    pub to_axis : d.active_axis ≡ host_id

  use_socket-Usable :
      (host_id : ℕ) (s : Option ℕ) (d : Device P N)
      → Closed host_id d
      → (let (r, d') = use_socket P N s d in Usable host_id r d')
  unfolding use_socket
  use_socket-Usable host_id none d h = record {
    is_open = h.is_closed;
    own = refl;
    as_host = h.as_host;
    to_axis = h.to_axis;
  }
  use_socket-Usable host_id (some fd) d h =
      let p : Port P = (act P (P.usleep 200000) (opened_as P N true fd d.port)).1 in
      record {
        is_open = (read_bytes-Reads P 64 50 p).moved.same_open;
        own = refl;
        as_host = h.as_host;
        to_axis = h.to_axis;
      }

  keep_serial-Usable :
      (host_id fd : ℕ) (ok : Bool) (d : Device P N)
      → Usable host_id (some fd) d
      → (let (r, d') = keep_serial P N fd ok d in Usable host_id r d')
  unfolding keep_serial
  keep_serial-Usable host_id fd true d h = h
  keep_serial-Usable host_id fd false d h = record {
    is_open = refl;
    own = refl;
    as_host = h.as_host;
    to_axis = h.to_axis;
  }

  use_serial-Usable :
      (host_id baud : ℕ) (path : List ℕ) (s : Descriptor) (d : Device P N)
      → Closed host_id d
      → (let (r, d') = use_serial P N baud path s d in Usable host_id r d')
  unfolding use_serial
  use_serial-Usable host_id baud path (no_descriptor e) d h = record {
    is_open = h.is_closed;
    own = refl;
    as_host = h.as_host;
    to_axis = h.to_axis;
  }
  use_serial-Usable host_id baud path (descriptor fd) d h =
      let p : Port P = (act P (N.blocking fd) (opened_as P N false fd d.port)).1 in
      let (ok, q) = configure_port P N fd baud p in
      keep_serial-Usable host_id fd ok (record d { fd = some fd; port = q })
        (record {
          is_open = configure_port-Stays fd baud p;
          own = refl;
          as_host = h.as_host;
          to_axis = h.to_axis;
        })

  open_mode-Usable :
      (host_id : ℕ) (tcp : Bool) (path : List ℕ) (baud : ℕ) (d : Device P N)
      → Closed host_id d
      → (let (r, d') = open_mode P N tcp path baud d in Usable host_id r d')
  unfolding open_mode
  open_mode-Usable host_id true path baud d h =
      let (s, p) = connect_tcp P N path d.port in
      use_socket-Usable host_id s (record d { port = p })
        (record {
          is_closed = connect_tcp-Stays path d.port ∙ h.is_closed;
          as_host = h.as_host;
          to_axis = h.to_axis;
        })
  open_mode-Usable host_id false path baud d h =
      let (s, w) = N.open_file path d.port.world in
      use_serial-Usable host_id baud path s (record d { port = record (d.port) { world = w } })
        (record { is_closed = h.is_closed; as_host = h.as_host; to_axis = h.to_axis })

  close_device_closed :
      (o : Option ℕ) (d : Device P N)
      → d.port.is_open ≡ is_some o
      → (close_device P N o d).port.is_open ≡ false
  unfolding close_device
  close_device_closed none d h = h
  close_device_closed (some fd) d h = refl

  -- A channel that `open` returned a descriptor of is open, with the given host as host and as axis.
  pub open_device-Usable :
      (path : List ℕ) (host_id baud channel_type : ℕ) (d : Device P N)
      → d.port.is_open ≡ is_some d.fd
      → let (r, d') = open_device P N path host_id baud channel_type d in Usable host_id r d'
  unfolding open_device
  open_device-Usable path host_id baud channel_type d h =
      open_mode-Usable host_id (is_tcp_mode channel_type path) path baud
        (prepared P N host_id channel_type (close_device P N d.fd d))
        (record { is_closed = close_device_closed d.fd d h; as_host = refl; to_axis = refl })
