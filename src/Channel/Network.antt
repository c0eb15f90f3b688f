-- ===== src/Channel/Network.antt =====
-- What opening a channel uses of the operating system, as a parameter beside `Posix` and on the same
-- world: name resolution, sockets, and the attributes of a terminal. `descriptors` is no call: it
-- names the descriptors that are open, the newest first.
use technosoft_tml_motor.Prelude.{ℕ, List, [], ◌∷◌, Bool, Option, ◌≡◌, ◌==◌, if◌then◌else◌}
use technosoft_tml_motor.Channel.System.{Posix}

-- The bits of a size field.
pub data CharSize : Type 0 where
  cs5 cs6 cs7 cs8 : CharSize

pub data Speed : Type 0 where
  b9600 b19200 b38400 b57600 b115200 : Speed
  other_speed : ℕ → Speed

-- A `struct termios`: the flags that the program touches, by their names.
pub record Termios : Type 0 where
  pub in_speed : Speed
  pub out_speed : Speed
  pub char_size : CharSize
  pub parenb : Bool
  pub cstopb : Bool
  pub cread : Bool
  pub clocal : Bool
  pub crtscts : Bool
  pub ixon : Bool
  pub ixoff : Bool
  pub ixany : Bool
  pub ignbrk : Bool
  pub brkint : Bool
  pub parmrk : Bool
  pub istrip : Bool
  pub inlcr : Bool
  pub igncr : Bool
  pub icrnl : Bool
  pub opost : Bool
  pub echo : Bool
  pub echonl : Bool
  pub icanon : Bool
  pub isig : Bool
  pub iexten : Bool
  pub vmin : ℕ
  pub vtime : ℕ

-- How `connect` on a non-blocking socket returns, and `select` with its time of 5 s.
pub data Connect : Type 0 where
  connected in_progress : Connect
  refused : ℕ → Connect

pub data Writable : Type 0 where
  writable not_writable : Writable
  select_failed : ℕ → Writable

-- A descriptor, or `errno`.
pub data Descriptor : Type 0 where
  descriptor : ℕ → Descriptor
  no_descriptor : ℕ → Descriptor

pub data Resolved (A : Type 0) : Type 0 where
  resolved : List A → Resolved A
  not_resolved : ℕ → Resolved A

abbrev pub remove : ℕ → List ℕ → List ℕ
remove fd [] = []
remove fd (x ∷ xs) = if x == fd then xs else x ∷ remove fd xs

-- The open descriptors when a call gave one, or failed.
abbrev pub after_open : List ℕ → Descriptor → List ℕ
after_open ds (descriptor fd) = fd ∷ ds
after_open ds (no_descriptor e) = ds

pub record Network (P : Posix) : Type 1 where
  pub Address : Type 0
  pub descriptors : P.World → List ℕ
  pub etimedout : ℕ
  pub getaddrinfo : List ℕ → ℕ → P.World → Resolved Address × P.World
  pub socket : Address → P.World → Descriptor × P.World
  pub open_file : List ℕ → P.World → Descriptor × P.World
  pub close : ℕ → P.World → P.World
  -- The pair of `fcntl` calls that sets `O_NONBLOCK`, and the one that clears it.
  pub nonblocking : ℕ → P.World → P.World
  pub blocking : ℕ → P.World → P.World
  pub connect : ℕ → Address → P.World → Connect × P.World
  pub select_write : ℕ → P.World → Writable × P.World
  pub so_error : ℕ → P.World → ℕ × P.World
  pub tcp_nodelay : ℕ → P.World → P.World
  -- `none` is a result other than 0.
  pub tcgetattr : ℕ → P.World → Option Termios × P.World
  pub tcsetattr : ℕ → Termios → P.World → Bool × P.World
  pub tcflush : ℕ → P.World → P.World
  pub socket_descriptors :
      (a : Address) (w : P.World)
      → descriptors (socket a w).1 ≡ after_open (descriptors w) (socket a w).0
  pub open_file_descriptors :
      (path : List ℕ) (w : P.World)
      → descriptors (open_file path w).1 ≡ after_open (descriptors w) (open_file path w).0
  pub close_descriptors :
      (fd : ℕ) (w : P.World) → descriptors (close fd w) ≡ remove fd (descriptors w)
  -- No other call opens or closes a descriptor.
  pub getaddrinfo_keeps :
      (host : List ℕ) (port : ℕ) (w : P.World)
      → descriptors (getaddrinfo host port w).1 ≡ descriptors w
  pub nonblocking_keeps : (fd : ℕ) (w : P.World) → descriptors (nonblocking fd w) ≡ descriptors w
  pub blocking_keeps : (fd : ℕ) (w : P.World) → descriptors (blocking fd w) ≡ descriptors w
  pub connect_keeps :
      (fd : ℕ) (a : Address) (w : P.World) → descriptors (connect fd a w).1 ≡ descriptors w
  pub select_write_keeps :
      (fd : ℕ) (w : P.World) → descriptors (select_write fd w).1 ≡ descriptors w
  pub so_error_keeps : (fd : ℕ) (w : P.World) → descriptors (so_error fd w).1 ≡ descriptors w
  pub tcp_nodelay_keeps : (fd : ℕ) (w : P.World) → descriptors (tcp_nodelay fd w) ≡ descriptors w
  pub tcgetattr_keeps : (fd : ℕ) (w : P.World) → descriptors (tcgetattr fd w).1 ≡ descriptors w
  pub tcsetattr_keeps :
      (fd : ℕ) (t : Termios) (w : P.World) → descriptors (tcsetattr fd t w).1 ≡ descriptors w
  pub tcflush_keeps : (fd : ℕ) (w : P.World) → descriptors (tcflush fd w) ≡ descriptors w
  pub gettimeofday_keeps : (w : P.World) → descriptors (P.gettimeofday w) ≡ descriptors w
  pub select_keeps : (us : ℕ) (w : P.World) → descriptors (P.select us w).1 ≡ descriptors w
  pub read_keeps : (n : ℕ) (w : P.World) → descriptors (P.read n w).1 ≡ descriptors w
  pub usleep_keeps : (us : ℕ) (w : P.World) → descriptors (P.usleep us w) ≡ descriptors w
