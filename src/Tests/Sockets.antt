-- ===== src/Tests/Sockets.antt =====
-- Runs of the properties of opening a channel, on an operating system with a host of two addresses, of
-- which the first refuses, and on which no byte ever arrives.
use technosoft_tml_motor.Prelude.{
  ℕ, ◌+◌, List, [], ◌∷◌, ◌++◌, ◌≡◌, refl, sym, ap, arith, true, false, none, some, codes, length,
  if◌then◌else◌, ◌==◌,
}
use technosoft_tml_motor.Channel.{Posix, Quiet}
use technosoft_tml_motor.Channel.Address.{target, parse_target}
use technosoft_tml_motor.Channel.Address.Split.{parse_target-port, spelled}
use technosoft_tml_motor.Channel.Network.{
  Network, remove, in_progress, refused, writable, descriptor, resolved,
}
use technosoft_tml_motor.Channel.Open.{Device, new_device, open_device}
use technosoft_tml_motor.Channel.Open.Descriptors.{Opens, without_fd, open_device-Opens}
use technosoft_tml_motor.Link.{channel_link}
use technosoft_tml_motor.Api.Table.{initial, find_free, open_channel}
use technosoft_tml_motor.Api.Table.Opening.{ts_open_channel, Entered, ts_open_channel-Entered}
use technosoft_tml_motor.Prelude.Int.{signed32, to_word32}
use technosoft_tml_motor.Prelude.{skip_spaces}
use technosoft_tml_motor.Tests.Sim.{take-length}

record World : Type 0 where
  time : ℕ
  out : List ℕ
  fds : List ℕ

abbrev later : ℕ → World → World
later n w = record w { time = w.time + n }

later-Quiet : (n : ℕ) (w : World) → Quiet (λ w. w.time) (λ w. w.out) (λ w. []) w (later n w)
later-Quiet n w = record { later = omega arith; same_sent = refl; same_taken = refl }

abbrev silent : Posix
silent = record {
  World = World;
  time = λ w. w.time;
  grain = 1;
  now = λ w. w.time;
  sent = λ w. w.out;
  taken = λ w. [];
  gettimeofday = λ w. later 1 w;
  select = λ us w. (false, later us w);
  read = λ n w. ([], w);
  write = λ bs w. (length bs, record w { out = w.out ++ bs });
  tcdrain = λ w. later 0 w;
  usleep = λ us w. later us w;
  now_begun = λ w. omega arith;
  now_left = λ w. omega arith;
  takes_time = λ w. omega arith;
  gettimeofday_quiet = λ w. later-Quiet 1 w;
  select_quiet = λ us w. later-Quiet us w;
  tcdrain_quiet = λ w. later-Quiet 0 w;
  usleep_quiet = later-Quiet;
  read_later = λ n w. omega arith;
  read_sent = λ n w. refl;
  read_taken = λ n w. refl;
  read_fits = λ n w. omega arith;
  read_bytes = λ n w. tt;
  write_later = λ bs w. omega arith;
  write_taken = λ bs w. refl;
  write_fits = λ bs w. omega arith;
  write_sent = λ bs w. ap (λ t. w.out ++ t) (sym (take-length bs));
}

abbrev two_addresses : Network silent
two_addresses = record {
  Address = ℕ;
  descriptors = λ w. w.fds;
  etimedout = 110;
  getaddrinfo = λ host port w. (resolved (1 ∷ 2 ∷ []), w);
  socket = λ a w. (descriptor (4 + a), record w { fds = (4 + a) ∷ w.fds });
  open_file = λ path w. (descriptor 9, record w { fds = 9 ∷ w.fds });
  close = λ fd w. record w { fds = remove fd w.fds };
  nonblocking = λ fd w. w;
  blocking = λ fd w. w;
  connect = λ fd a w. (if a == 1 then refused 111 else in_progress, w);
  select_write = λ fd w. (writable, w);
  so_error = λ fd w. (0, w);
  tcp_nodelay = λ fd w. w;
  tcgetattr = λ fd w. (none, w);
  tcsetattr = λ fd t w. (true, w);
  tcflush = λ fd w. w;
  socket_descriptors = λ a w. refl;
  open_file_descriptors = λ path w. refl;
  close_descriptors = λ fd w. refl;
  getaddrinfo_keeps = λ host port w. refl;
  nonblocking_keeps = λ fd w. refl;
  blocking_keeps = λ fd w. refl;
  connect_keeps = λ fd a w. refl;
  select_write_keeps = λ fd w. refl;
  so_error_keeps = λ fd w. refl;
  tcp_nodelay_keeps = λ fd w. refl;
  tcgetattr_keeps = λ fd w. refl;
  tcsetattr_keeps = λ fd t w. refl;
  tcflush_keeps = λ fd w. refl;
  gettimeofday_keeps = λ w. refl;
  select_keeps = λ us w. refl;
  read_keeps = λ n w. refl;
  usleep_keeps = λ us w. refl;
}

abbrev world : World
world = record { time = 1; out = []; fds = 3 ∷ [] }

abbrev unopened : Device silent two_addresses
unopened = new_device silent two_addresses world

parse_target-port_example :
    parse_target (codes "10.0.0.7" ++ b':' ∷ b'4' ∷ codes "001")
    ≡ target (codes "10.0.0.7") (spelled 0 (codes "4001"))
parse_target-port_example =
    parse_target-port (codes "10.0.0.7") b'4' (codes "001") (refl, (refl, (refl, (refl, tt))))
      (omega arith) (omega arith) (omega arith)

open_device-Opens_example :
    let (r, d) = open_device silent two_addresses (codes "10.0.0.7:4001") 1 9600 16 unopened in
    Opens silent two_addresses (without_fd silent two_addresses none (3 ∷ [])) r d
open_device-Opens_example =
    open_device-Opens silent two_addresses (codes "10.0.0.7:4001") 1 9600 16 unopened

-- The second address is connected, with descriptor 6.
opened_six :
    (ts_open_channel silent two_addresses
      (codes "10.0.0.7:4001")
      16
      1
      9600
      world
      (initial (channel_link silent))).0
    ≡ some 6
unfolding ts_open_channel open_channel open_device signed32 to_word32 skip_spaces
opened_six = refl

ts_open_channel-Entered_example :
    (i : ℕ) × (find_free (initial (channel_link silent)).channels ≡ some i)
    × Entered silent two_addresses 6 1 i
        (ts_open_channel silent two_addresses
          (codes "10.0.0.7:4001")
          16
          1
          9600
          world
          (initial (channel_link silent))).1
ts_open_channel-Entered_example =
    ts_open_channel-Entered silent two_addresses (codes "10.0.0.7:4001") 16 1 9600 6 world
      (initial (channel_link silent)) opened_six
