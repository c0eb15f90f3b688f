-- ===== src/Link.antt =====
-- What the drive operations need of a channel's transport: sending a message, receiving one,
-- pausing, and the error note of TmlChannel. `history` is no call: it names the messages handed to
-- `send` so far, each with the result, oldest first.
use technosoft_tml_motor.Prelude.{ℕ, Bool, Option, List, [], ◌∷◌, ◌++◌, ◌≡◌, refl}
use technosoft_tml_motor.Prelude.State.{State}
use technosoft_tml_motor.Frame.{Msg}
use technosoft_tml_motor.Channel.{
  Posix, LinkError, Port, send_message, receive_message, resp_timeout_ms,
}

abbrev pub History : Type 0
History = List (Msg × Bool)

pub record Link : Type 1 where
  pub St : Type 0
  pub send : Msg → State St Bool
  pub receive : State St (Option Msg)
  pub note : LinkError → St → St
  pub error : St → LinkError
  pub pause : ℕ → St → St
  pub history : St → History
  pub send_history : (m : Msg) (s : St) → history (send m s).1 ≡ history s ++ (m, (send m s).0) ∷ []
  pub receive_history : (s : St) → history (receive s).1 ≡ history s
  pub note_history : (e : LinkError) (s : St) → history (note e s) ≡ history s
  pub note_error : (e : LinkError) (s : St) → error (note e s) ≡ e
  pub pause_history : (us : ℕ) (s : St) → history (pause us s) ≡ history s

-- A TmlChannel's transport, with the history of what it was asked to send.
pub record Traced (P : Posix) : Type 0 where
  pub port : Port P
  pub log : History

module _ (P : Posix) where
  abbrev traced_send : Msg → State (Traced P) Bool
  traced_send m s =
      let (sent, p) = send_message P m s.port in
      (sent, record { port = p; log = s.log ++ (m, sent) ∷ [] })

  abbrev traced_receive : State (Traced P) (Option Msg)
  traced_receive s =
      let (m, p) = receive_message P resp_timeout_ms s.port in (m, record s { port = p })

  -- `sendMessage`, `receiveMessage` and `setError` are the transport of the drive operations.
  abbrev pub channel_link : Link
  channel_link = record {
    St = Traced P;
    send = traced_send;
    receive = traced_receive;
    note = λ e s. record s { port = record (s.port) { last_error = e } };
    error = λ s. s.port.last_error;
    pause = λ us s. record s { port = record (s.port) { world = P.usleep us s.port.world } };
    history = λ s. s.log;
    send_history = λ m s. refl;
    receive_history = λ s. refl;
    note_history = λ e s. refl;
    note_error = λ e s. refl;
    pause_history = λ us s. refl;
  }
