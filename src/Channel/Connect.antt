-- ===== src/Channel/Connect.antt =====
-- `baudToSpeed`, `configurePort` and `connectTcp`.
use technosoft_tml_motor.Prelude.{
  ℕ, List, [], ◌∷◌, Bool, true, false, Option, none, some, if◌then◌else◌, ◌==◌,
}
use technosoft_tml_motor.Prelude.State.{State, ◌>>=◌, ◌>>◌, pure, modify}
use technosoft_tml_motor.Channel.System.{Posix}
use technosoft_tml_motor.Channel.Defs.{
  tcgetattr_failed, tcsetattr_failed, no_port, invalid_port, unresolved, connect_failed, Port, call,
  act, set_error,
}
use technosoft_tml_motor.Channel.Address.{Target, target, without_port, bad_port, parse_target}
use technosoft_tml_motor.Channel.Network.{
  Network, Speed, b9600, b19200, b38400, b57600, b115200, Termios, cs8, Connect, connected,
  in_progress, refused, Writable, writable, not_writable, select_failed, Descriptor, descriptor,
  no_descriptor, Resolved, resolved, not_resolved,
}

unfoldable pub baud_to_speed : ℕ → Speed
baud_to_speed baud =
    if baud == 9600
    then b9600
    else if baud == 19200
    then b19200
    else if baud == 38400
    then b38400
    else if baud == 57600
    then b57600
    else if baud == 115200
    then b115200
    else b9600

-- The attributes that `configurePort` sets: 8N1 in raw mode, with no flow control.
unfoldable pub raw_mode : Speed → Termios → Termios
raw_mode spd tty = record tty {
  in_speed = spd;
  out_speed = spd;
  char_size = cs8;
  parenb = false;
  cstopb = false;
  cread = true;
  clocal = true;
  crtscts = false;
  ixon = false;
  ixoff = false;
  ixany = false;
  ignbrk = false;
  brkint = false;
  parmrk = false;
  istrip = false;
  inlcr = false;
  igncr = false;
  icrnl = false;
  opost = false;
  echo = false;
  echonl = false;
  icanon = false;
  isig = false;
  iexten = false;
  vmin = 0;
  vtime = 1;
}

module _ (P : Posix) (N : Network P) where
  open N use {Address}

  -- `configurePort` behind its `tcgetattr`.
  unfoldable pub configure_as : ℕ → ℕ → Option Termios → State (Port P) Bool
  unfolding raw_mode baud_to_speed
  configure_as fd baud none = do set_error P tcgetattr_failed; pure false
  configure_as fd baud (some tty) = do
    ok ← call P (N.tcsetattr fd (raw_mode (baud_to_speed baud) tty))
    if ok then act P (N.tcflush fd) >> pure true else set_error P tcsetattr_failed >> pure false

  unfoldable pub configure_port : ℕ → ℕ → State (Port P) Bool
  unfolding configure_as
  configure_port fd baud = do tty ← call P (N.tcgetattr fd); configure_as fd baud tty

  -- What became of a connection: 0 or `lastErr`, after the wait of up to 5 s.
  unfoldable pub connect_waited : ℕ → Writable → State P.World (Option ℕ)
  connect_waited sock writable = do
    err ← N.so_error sock
    pure (if err == 0 then none else some err)
  connect_waited sock not_writable = pure (some N.etimedout)
  connect_waited sock (select_failed e) = pure (some e)

  unfoldable pub connect_result : ℕ → Connect → State P.World (Option ℕ)
  unfolding connect_waited
  connect_result sock connected = pure none
  connect_result sock (refused e) = pure (some e)
  connect_result sock in_progress = do w ← N.select_write sock; connect_waited sock w

  -- One socket: none is a connection in blocking mode.
  unfoldable pub connect_socket : ℕ → Address → State P.World (Option ℕ)
  unfolding connect_result
  connect_socket sock a = do
    modify (N.nonblocking sock)
    c ← N.connect sock a
    connect_result sock c

  -- How the loop over the addresses ends: with a socket, or with `lastErr`.
  abbrev pub keep_socket : ℕ → State P.World Descriptor
  keep_socket sock = do
    modify (N.blocking sock)
    modify (N.tcp_nodelay sock)
    pure (descriptor sock)

  -- A socket that is not connected is closed before the next address is tried.
  unfoldable pub settle : (ℕ → State P.World Descriptor) → ℕ → Option ℕ → State P.World Descriptor
  settle again sock none w = keep_socket sock w
  settle again sock (some e) w = again e (N.close sock w)

  unfoldable pub after_socket :
      (ℕ → State P.World Descriptor) → Address → Descriptor → State P.World Descriptor
  unfolding connect_socket settle
  after_socket again a (no_descriptor e) w = again e w
  after_socket again a (descriptor sock) w =
      let (r, w') = connect_socket sock a w in settle again sock r w'

  unfoldable pub connect_first : List Address → ℕ → State P.World Descriptor
  unfolding after_socket
  connect_first [] last w = (no_descriptor last, w)
  connect_first (a ∷ as_) last w =
      let (s, w') = N.socket a w in after_socket (connect_first as_) a s w'

  abbrev pub connect_error : List ℕ → Descriptor → State (Port P) (Option ℕ)
  connect_error path (descriptor sock) = pure (some sock)
  connect_error path (no_descriptor e) = set_error P (connect_failed path e) >> pure none

  unfoldable pub connect_resolved : List ℕ → List ℕ → Resolved Address → State (Port P) (Option ℕ)
  unfolding connect_first
  connect_resolved path host (not_resolved e) = set_error P (unresolved host e) >> pure none
  connect_resolved path host (resolved as_) = do
    s ← call P (connect_first as_ 0)
    connect_error path s

  unfoldable pub connect_target : List ℕ → Target → State (Port P) (Option ℕ)
  unfolding connect_resolved
  connect_target path without_port = set_error P (no_port path) >> pure none
  connect_target path bad_port = set_error P (invalid_port path) >> pure none
  connect_target path (target host port) = do
    r ← call P (N.getaddrinfo host port)
    connect_resolved path host r

  -- `none` is the result -1.
  unfoldable pub connect_tcp : List ℕ → State (Port P) (Option ℕ)
  unfolding connect_target parse_target
  connect_tcp path = connect_target path (parse_target path)
