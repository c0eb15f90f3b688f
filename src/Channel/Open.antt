-- ===== src/Channel/Open.antt =====
-- `TmlChannel::open`.
pub mod Sockets
pub mod Descriptors
pub mod Usable
use technosoft_tml_motor.Prelude.{
  ℕ, zero, suc, ◌+◌, List, [], ◌∷◌, Bool, true, false, ◌&&◌, ◌||◌, Option, none, some,
  if◌then◌else◌, ◌==◌,
}
use technosoft_tml_motor.Prelude.State.{State, ◌>>=◌, ◌>>◌, pure, modify}
use technosoft_tml_motor.Channel.System.{Posix}
use technosoft_tml_motor.Channel.Defs.{
  LinkError, no_error, tcgetattr_failed, tcsetattr_failed, cannot_open, no_port, invalid_port,
  unresolved, connect_failed, Port, call, act, set_error, read_bytes,
}
use technosoft_tml_motor.Channel.Address.{
  looks_like_tcp, Target, target, without_port, bad_port, parse_target,
}
use technosoft_tml_motor.Channel.Network.{
  Network, Speed, b9600, b19200, b38400, b57600, b115200, Termios, cs8, Connect, connected,
  in_progress, refused, Writable, writable, not_writable, select_failed, Descriptor, descriptor,
  no_descriptor, Resolved, resolved, not_resolved,
}
use technosoft_tml_motor.Channel.Connect.{
  baud_to_speed, raw_mode, configure_as, configure_port, connect_waited, connect_result,
  connect_socket, keep_socket, settle, after_socket, connect_first, connect_error, connect_resolved,
  connect_target, connect_tcp,
}

abbrev pub channel_tcp : ℕ
channel_tcp = 2

abbrev pub channel_xport_ip : ℕ
channel_xport_ip = 16

abbrev pub is_tcp_mode : ℕ → List ℕ → Bool
is_tcp_mode channel_type path =
    channel_type == channel_tcp || channel_type == channel_xport_ip || looks_like_tcp path

module _ (P : Posix) (N : Network P) where
  -- The fields of a TmlChannel that `open` sets.
  pub record Device : Type 0 where
    pub fd : Option ℕ
    pub host_id : ℕ
    pub active_axis : ℕ
    pub channel_type : ℕ
    pub port : Port P

  abbrev pub on_port : {A : Type 0} → State (Port P) A → State Device A
  on_port f d = let (a, p) = f d.port in (a, record d { port = p })

  -- The constructor of TmlChannel.
  abbrev pub new_device : P.World → Device
  new_device w = record {
    fd = none;
    host_id = 1;
    active_axis = 255;
    channel_type = 0;
    port = record { is_open = false; is_tcp = false; last_error = no_error; world = w };
  }

  abbrev pub closed_port : ℕ → Port P → Port P
  closed_port fd p = record p { is_open = false; is_tcp = false; world = N.close fd p.world }

  -- `close`, with its `::close`.
  unfoldable pub close_device : Option ℕ → Device → Device
  close_device none d = d
  close_device (some fd) d = record d { fd = none; port = closed_port fd d.port }

  abbrev pub opened_as : Bool → ℕ → Port P → Port P
  opened_as tcp fd p = record p { is_open = true; is_tcp = tcp }

  -- A connection is drained of stale bytes before it is used.
  unfoldable pub use_socket : Option ℕ → State Device (Option ℕ)
  use_socket none d = (none, record d { fd = none })
  use_socket (some fd) d =
      let p : Port P = opened_as true fd d.port in
      let waited : Port P = (act P (P.usleep 200000) p).1 in
      let drained : Port P = (read_bytes P 64 50 waited).1 in
      (some fd, record d { fd = some fd; channel_type = channel_tcp; port = drained })

  unfoldable pub keep_serial : ℕ → Bool → State Device (Option ℕ)
  keep_serial fd true d = (some fd, d)
  keep_serial fd false d = (
    none,
    record d {
      fd = none;
      port = record (d.port) { is_open = false; world = N.close fd d.port.world };
    },
  )

  unfoldable pub use_serial : ℕ → List ℕ → Descriptor → State Device (Option ℕ)
  unfolding configure_port keep_serial
  use_serial baud path (no_descriptor e) d =
      (none, record d { fd = none; port = record (d.port) { last_error = cannot_open path e } })
  use_serial baud path (descriptor fd) d =
      let p : Port P = (act P (N.blocking fd) (opened_as false fd d.port)).1 in
      let (ok, q) = configure_port P N fd baud p in
      keep_serial fd ok (record d { fd = some fd; port = q })

  unfoldable pub open_mode : Bool → List ℕ → ℕ → State Device (Option ℕ)
  unfolding connect_tcp use_socket use_serial
  open_mode true path baud = do s ← on_port (connect_tcp P N path); use_socket s
  open_mode false path baud = do s ← on_port (call P (N.open_file path)); use_serial baud path s

  abbrev pub prepared : ℕ → ℕ → Device → Device
  prepared host_id channel_type d = record d {
    host_id = host_id;
    active_axis = host_id;
    channel_type = channel_type;
    port = record (d.port) { is_tcp = false };
  }

  -- `TmlChannel::open`; `none` is the result -1.
  unfoldable pub open_device : List ℕ → ℕ → ℕ → ℕ → State Device (Option ℕ)
  unfolding close_device open_mode
  open_device path host_id baud channel_type d =
      open_mode (is_tcp_mode channel_type path) path baud
        (prepared host_id channel_type (close_device d.fd d))
