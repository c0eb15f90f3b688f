-- ===== src/Motor/Status.antt =====
-- `TmlController::setConnStatus`: the state of the connection, on every axis address.
pub mod Published
use technosoft_tml_motor.Prelude.{
  ℕ, Bool, true, false, ◌&&◌, Option, none, some, List, [], ◌∷◌, if◌then◌else◌, bytes_eq, take,
}
use technosoft_tml_motor.VarMap.{Name}
use technosoft_tml_motor.Motor.Calls.{Calls}
use technosoft_tml_motor.Motor.Axis.{Axis, Params, Controller, Io}

-- `setIntegerParam` and `setStringParam` on one axis.
abbrev pub publish : Bool → Name → Axis → Axis
publish ok msg a = record a { params = record (a.params) { conn_ok = some ok; conn_msg = msg } }

abbrev pub publish_all : Bool → Name → List Axis → List Axis
publish_all ok msg [] = []
publish_all ok msg (a ∷ as_) = publish ok msg a ∷ publish_all ok msg as_

-- `cur`: what `getStringParam` copies of the message of axis 0.
abbrev pub current_message : List Axis → Name
current_message [] = []
current_message (a ∷ as_) = take 255 a.params.conn_msg

abbrev pub is_state : Option Bool → Bool → Bool
is_state none ok = false
is_state (some true) ok = ok
is_state (some false) true = false
is_state (some false) false = true

module _ {R : Type 0} (C : Calls R) where
  -- Nothing is published where neither the state nor the message is new.
  unfoldable pub set_conn_status : Bool → Name → Io C (Unit {0})
  set_conn_status ok msg g = (
    tt,
    if is_state g.conn_ok ok && bytes_eq (current_message g.axes) msg
        then g
        else record g { conn_ok = some ok; axes = publish_all ok msg g.axes },
  )
