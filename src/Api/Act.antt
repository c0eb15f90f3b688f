-- ===== src/Api/Act.antt =====
-- A TS_* call on the active channel: it ends well, with the channel's error (which the call copies
-- to `g_lastError`), or with an error of its own (`setGlobalError`).
use technosoft_tml_motor.Prelude.{ℕ, Bool, Option, none, some, if◌then◌else◌}
use technosoft_tml_motor.Prelude.Int.{ℤ}
use technosoft_tml_motor.Prelude.State.{State}
use technosoft_tml_motor.VarMap.{Name, get_address}
use technosoft_tml_motor.Channel.{LinkError}
use technosoft_tml_motor.Link.{Link}
use technosoft_tml_motor.Drive.{Chan, Ident}

-- The functions that name themselves in an error text.
pub data Fn : Type 0 where
  setup_axis select_axis drive_initialisation power read_status set_position stop abort : Fn
  reset_fault get_long set_long get_int set_int get_fixed set_fixed : Fn
  move_absolute move_relative move_velocity set_event_on_motion_complete : Fn
  set_event_on_limit_switch update_immediate save reset clear_limit_switch_event : Fn
  disable_limit_protection : Fn

-- `g_lastError`.
pub data ApiError : Type 0 where
  no_error no_free_channel no_free_setup : ApiError
  no_active_channel : Fn → ApiError
  unknown_variable : Fn → Name → ApiError
  not_in_map : Name → ApiError
  invalid_index : ℤ → ApiError
  invalid_setup : ℤ → ApiError
  fd_not_found : ℕ → ApiError
  of_channel : LinkError → ApiError

pub data Outcome (A : Type 0) : Type 0 where
  done : A → Outcome A
  failed : Outcome A
  refused : ApiError → Outcome A

module _ (L : Link) where
  abbrev pub Act : Type 0 → Type 0
  Act A = State (Chan L) (Outcome A)

  -- `if (!op) goto fail`, and the same with the error text copied on the spot.
  abbrev pub must : State (Chan L) Bool → Act (Unit {0})
  must op c = let (ok, c') = op c in (if ok then done tt else failed, c')

  -- A call whose result is not looked at.
  abbrev pub may : {A : Type 0} → State (Chan L) A → Act (Unit {0})
  may op c = let (a, c') = op c in (done tt, c')

  abbrev pub ok_or_failed : {A : Type 0} → Option A → Outcome A
  ok_or_failed none = failed
  ok_or_failed (some a) = done a

  -- A read whose failure ends the call.
  abbrev pub need : {A : Type 0} → State (Chan L) (Option A) → Act A
  need op c = let (o, c') = op c in (ok_or_failed o, c')

  abbrev pub value_or : ℕ → Option ℕ → ℕ
  value_or d none = d
  value_or d (some v) = v

  -- A read that leaves `d` in the variable when it fails.
  abbrev pub read_or : ℕ → State (Chan L) (Option ℕ) → Act ℕ
  read_or d op c = let (o, c') = op c in (done (value_or d o), c')

  abbrev pub sleep : ℕ → Act (Unit {0})
  sleep us c = (done tt, record c { link = L.pause us c.link })

  abbrev pub return : {A : Type 0} → A → Act A
  return a c = (done a, c)

  abbrev pub refuse : {A : Type 0} → ApiError → Act A
  refuse e c = (refused e, c)

  abbrev pub ident : Act Ident
  ident c = (done c.ident, c)

-- What follows a call in the same function.
infixl 5 ◌>>=◌ ◌>>◌
abbrev pub ◌>>=◌ :
    {S A B : Type 0} → State S (Outcome A) → (A → State S (Outcome B)) → State S (Outcome B)
◌>>=◌ m f s =
    let (o, s') = m s in
    elim o [ done a ↦ f a s' | failed ↦ (failed, s') | refused e ↦ (refused e, s') ]

abbrev pub ◌>>◌ : {S A B : Type 0} → State S (Outcome A) → State S (Outcome B) → State S (Outcome B)
m >> k = m >>= λ _. k

-- `resolveAddr`: the map's address, or the compiled default.
unfoldable pub resolve_addr : Name → ℕ → Ident → ℕ
resolve_addr name fallback i = elim (get_address name i.var_map) [ none ↦ fallback | some a ↦ a ]
