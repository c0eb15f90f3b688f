-- ===== src/Motor/Poll/Notes.antt =====
-- The notes of TmlAxis::poll that leave a homing run and a stop alone.
use technosoft_tml_motor.Prelude.{refl}
use technosoft_tml_motor.Motor.Select.Alike.{Spares}
use technosoft_tml_motor.Motor.Poll.{
  without_channel, waited, reinit_failed, reinit_done, comms_lost, comms_failed, counted,
}

pub counted-Alike : Spares counted
counted-Alike a = record {
  homing = refl;
  seen = refl;
  toward = refl;
  stop = λ h. h;
  srl = refl;
  mer = refl;
}

pub comms_failed-Alike : Spares comms_failed
comms_failed-Alike a = record {
  homing = refl;
  seen = refl;
  toward = refl;
  stop = λ h. h;
  srl = refl;
  mer = refl;
}

pub comms_lost-Alike : Spares comms_lost
comms_lost-Alike a = record {
  homing = refl;
  seen = refl;
  toward = refl;
  stop = λ h. h;
  srl = refl;
  mer = refl;
}

pub without_channel-Alike : Spares without_channel
without_channel-Alike a = record {
  homing = refl;
  seen = refl;
  toward = refl;
  stop = λ h. h;
  srl = refl;
  mer = refl;
}

pub waited-Alike : Spares waited
waited-Alike a = record {
  homing = refl;
  seen = refl;
  toward = refl;
  stop = λ h. h;
  srl = refl;
  mer = refl;
}

pub reinit_done-Alike : Spares reinit_done
reinit_done-Alike a = record {
  homing = refl;
  seen = refl;
  toward = refl;
  stop = λ h. h;
  srl = refl;
  mer = refl;
}

pub reinit_failed-Alike : Spares reinit_failed
unfolding reinit_failed
reinit_failed-Alike a = record {
  homing = refl;
  seen = refl;
  toward = refl;
  stop = λ h. h;
  srl = refl;
  mer = refl;
}
