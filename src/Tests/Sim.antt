-- ===== src/Tests/Sim.antt =====
-- A line whose other end is a list of replies, one for each write, and doubles of a fixed precision.
use technosoft_tml_motor.Prelude.{
  ℕ, zero, suc, ◌+◌, ◌*◌, ◌/◌, ◌%◌, ◌≤◌, Bool, true, false, not, ◌&&◌, List, [], ◌∷◌, ◌++◌, ◌≡◌,
  refl, sym, ap, arith, if◌then◌else◌, ◌==◌, length, take, drop, All, replicate,
}
use technosoft_tml_motor.Prelude.Int.{ℤ, pos, negsuc}
use technosoft_tml_motor.Frame.{IsByte}
use technosoft_tml_motor.Channel.{Posix, Quiet, Port, no_error}
use technosoft_tml_motor.Link.{Link, channel_link}
use technosoft_tml_motor.Drive.{Chan}
use technosoft_tml_motor.VarMap.{new_map}
use technosoft_tml_motor.Api.Real.{Real}

pub record World : Type 0 where
  pub time : ℕ
  pub inbox : List ℕ
  pub replies : List (List ℕ)
  pub out : List ℕ
  pub seen : List ℕ

abbrev as_bytes : List ℕ → List ℕ
as_bytes [] = []
as_bytes (b ∷ bs) = b % 256 ∷ as_bytes bs

abbrev head_reply : List (List ℕ) → List ℕ
head_reply [] = []
head_reply (r ∷ rs) = r

abbrev any : List ℕ → Bool
any [] = false
any (b ∷ bs) = true

abbrev tick : ℕ → World → World
tick n w = record w { time = w.time + n }

abbrev line_select : ℕ → World → Bool × World
line_select us w = (any w.inbox, if any w.inbox then w else tick (us * 4) w)

abbrev line_read : ℕ → World → List ℕ × World
line_read n w =
    let bs = as_bytes (take n w.inbox) in
    (bs, record w { inbox = drop n w.inbox; seen = w.seen ++ bs })

abbrev line_write : List ℕ → World → ℕ × World
line_write bs w = (
  length bs,
  record w {
    out = w.out ++ bs;
    inbox = w.inbox ++ head_reply w.replies;
    replies = drop 1 w.replies;
  },
)

pub as_bytes-IsByte : (bs : List ℕ) → All IsByte (as_bytes bs)
as_bytes-IsByte [] = tt
as_bytes-IsByte (b ∷ bs) = (omega arith, as_bytes-IsByte bs)

pub length-as_bytes : (bs : List ℕ) → length (as_bytes bs) ≡ length bs
length-as_bytes [] = refl
length-as_bytes (b ∷ bs) = ap suc (length-as_bytes bs)

pub length-take_le : (n : ℕ) (bs : List ℕ) → length (take n bs) ≤ n
length-take_le zero bs = omega arith
length-take_le (suc n) [] = omega arith
length-take_le (suc n) (b ∷ bs) = omega (arith, length-take_le n bs)

pub take-length : (bs : List ℕ) → take (length bs) bs ≡ bs
take-length [] = refl
take-length (b ∷ bs) = ap (◌∷◌ b) (take-length bs)

pub tick-Quiet : (n : ℕ) (w : World) → Quiet (λ w. w.time) (λ w. w.out) (λ w. w.seen) w (tick n w)
tick-Quiet n w = record { later = omega arith; same_sent = refl; same_taken = refl }

pub stay-Quiet : (w : World) → Quiet (λ w. w.time) (λ w. w.out) (λ w. w.seen) w w
stay-Quiet w = record { later = omega arith; same_sent = refl; same_taken = refl }

pub select-Quiet :
    (us : ℕ) (w : World) → Quiet (λ w. w.time) (λ w. w.out) (λ w. w.seen) w (line_select us w).1
select-Quiet us w =
    elim (any w.inbox)
      as (λ b.
        Quiet (λ w. w.time) (λ w. w.out) (λ w. w.seen) w (if b then w else tick (us * 4) w)) [
          | true ↦ stay-Quiet w
          | false ↦ tick-Quiet (us * 4) w
        ]

abbrev pub line : Posix
line = record {
  World = World;
  time = λ w. w.time;
  grain = 4;
  now = λ w. w.time / 4;
  sent = λ w. w.out;
  taken = λ w. w.seen;
  gettimeofday = λ w. tick 1 w;
  select = line_select;
  read = line_read;
  write = line_write;
  tcdrain = λ w. w;
  usleep = λ us w. tick (us * 4) w;
  now_begun = λ w. omega arith;
  now_left = λ w. omega arith;
  takes_time = λ w. omega arith;
  gettimeofday_quiet = λ w. tick-Quiet 1 w;
  select_quiet = select-Quiet;
  tcdrain_quiet = stay-Quiet;
  usleep_quiet = λ us w. tick-Quiet (us * 4) w;
  read_later = λ n w. omega arith;
  read_sent = λ n w. refl;
  read_taken = λ n w. refl;
  read_fits = λ n w. omega (arith, length-as_bytes (take n w.inbox), length-take_le n w.inbox);
  read_bytes = λ n w. as_bytes-IsByte (take n w.inbox);
  write_later = λ bs w. omega arith;
  write_taken = λ bs w. refl;
  write_fits = λ bs w. omega arith;
  write_sent = λ bs w. ap (λ t. w.out ++ t) (sym (take-length bs));
}

-- An open serial port with the given bytes waiting and replies to come.
abbrev pub port : List ℕ → List (List ℕ) → Port line
port waiting replies = record {
  is_open = true;
  is_tcp = false;
  last_error = no_error;
  world = record { time = 1999990; inbox = waiting; replies = replies; out = []; seen = [] };
}

abbrev pub link : Link
link = channel_link line

-- A channel of host 1 with axis 2 selected, over such a port.
abbrev pub channel : List (List ℕ) → Chan link
channel replies = record {
  ident = record { host_id = 1; active_axis = 2; var_map = new_map };
  link = record { port = port [] replies; log = [] };
}

-- A drive that acknowledges everything and answers nothing.
abbrev pub acks : List (List ℕ)
acks = replicate 20 (0x4F ∷ [])

-- A double is a sign and a magnitude in steps of 2 ^ -16.
pub record Fixed : Type 0 where
  pub negative : Bool
  pub magnitude : ℕ

abbrev minus : ℕ → ℤ
minus zero = pos zero
minus (suc n) = negsuc n

abbrev of_integer : ℤ → Fixed
of_integer (pos n) = record { negative = false; magnitude = n * 65536 }
of_integer (negsuc n) = record { negative = true; magnitude = suc n * 65536 }

abbrev to_integer : Bool → ℕ → ℤ
to_integer false m = pos (m / 65536)
to_integer true m = minus (m / 65536)

abbrev product : Fixed → Fixed → Fixed
product x y = record x { magnitude = x.magnitude * y.magnitude / 65536 }

abbrev quotient : Fixed → Fixed → Fixed
quotient x y = record x { magnitude = x.magnitude * 65536 / y.magnitude }

abbrev sixteen : Fixed
sixteen = record { negative = false; magnitude = 65536 * 65536 }

abbrev pub fixed : Real
fixed = record {
  R = Fixed;
  is_zero = λ x. x.magnitude == 0;
  is_positive = λ x. not x.negative && not (x.magnitude == 0);
  fabs = λ x. record x { negative = false };
  neg = λ x. record x { negative = not x.negative };
  mul = product;
  div = quotient;
  two_16 = sixteen;
  of_int = of_integer;
  to_int32 = λ x. to_integer x.negative x.magnitude;
}
