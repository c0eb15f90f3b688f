-- ===== src/Motor/Select/Alike.antt =====
-- What selectAxis and the marks of a lost setup leave alone on every axis: the notes of a homing run
-- and the published registers; and a note of a stop is cleared at most.
use technosoft_tml_motor.Prelude.{
  ℕ, zero, suc, ◌≡◌, refl, ◌∙◌, arith, Bool, true, Option, some, List, [], ◌∷◌, get_elem?, if_cases,
}
use technosoft_tml_motor.VarMap.{Name}
use technosoft_tml_motor.Motor.Axis.{
  Axis, mark_lost, mark_inactive, mark_others, mark_all_inactive, update_at,
}
use technosoft_tml_motor.Motor.Status.{publish_all}
use technosoft_tml_motor.Motor.Select.{with_setup_idx, lost_selection, not_recovered, recovered}

pub record Alike (a b : Axis) : Type 0 where
  pub homing : b.homing_active ≡ a.homing_active
  pub seen : b.homing_move_seen ≡ a.homing_move_seen
  pub toward : b.homing_toward_lsp ≡ a.homing_toward_lsp
  pub stop : b.stopping ≡ true → a.stopping ≡ true
  pub srl : b.params.reg_srl ≡ a.params.reg_srl
  pub mer : b.params.reg_mer ≡ a.params.reg_mer

pub Alike-refl : (a : Axis) → Alike a a
Alike-refl a = record {
  homing = refl;
  seen = refl;
  toward = refl;
  stop = λ h. h;
  srl = refl;
  mer = refl;
}

pub Alike-trans : (a b c : Axis) → Alike a b → Alike b c → Alike a c
Alike-trans a b c h k = record {
  homing = k.homing ∙ h.homing;
  seen = k.seen ∙ h.seen;
  toward = k.toward ∙ h.toward;
  stop = λ e. h.stop (k.stop e);
  srl = k.srl ∙ h.srl;
  mer = k.mer ∙ h.mer;
}

-- A change of other fields.
abbrev pub Spares : (Axis → Axis) → Type 0
Spares f = (a : Axis) → Alike a (f a)

-- The same axes, each alike.
abbrev pub Each : List Axis → List Axis → Type 0
Each [] [] = Unit {0}
Each [] (y ∷ ys) = ⊥
Each (x ∷ xs) [] = ⊥
Each (x ∷ xs) (y ∷ ys) = Alike x y × Each xs ys

pub Each-refl : (xs : List Axis) → Each xs xs
Each-refl [] = tt
Each-refl (x ∷ xs) = (Alike-refl x, Each-refl xs)

pub Each-trans : (xs ys zs : List Axis) → Each xs ys → Each ys zs → Each xs zs
Each-trans [] [] [] h k = tt
Each-trans [] [] (z ∷ zs) h k = k
Each-trans [] (y ∷ ys) zs h k = absurd h
Each-trans (x ∷ xs) [] zs h k = absurd h
Each-trans (x ∷ xs) (y ∷ ys) [] h k = absurd k
Each-trans (x ∷ xs) (y ∷ ys) (z ∷ zs) h k = (Alike-trans x y z h.0 k.0, Each-trans xs ys zs h.1 k.1)

pub Each-update_at :
    (f : Axis → Axis) (xs : List Axis) (i : ℕ) → Spares f → Each xs (update_at xs i f)
Each-update_at f [] i h = tt
Each-update_at f (x ∷ xs) zero h = (h x, Each-refl xs)
Each-update_at f (x ∷ xs) (suc i) h = (Alike-refl x, Each-update_at f xs i h)

pub Each-get_elem? :
    (xs ys : List Axis) (i : ℕ) (a : Axis)
    → Each xs ys
    → get_elem? xs i ≡ some a
    → (b : Axis) × (get_elem? ys i ≡ some b) × Alike a b
Each-get_elem? [] ys i a h e = absurd (ground (arith, e))
Each-get_elem? (x ∷ xs) [] i a h e = absurd h
Each-get_elem? (x ∷ xs) (y ∷ ys) zero a h e =
    let same : x ≡ a = ground (arith, e) in (y, refl, rw same at h.0)
Each-get_elem? (x ∷ xs) (y ∷ ys) (suc i) a h e = Each-get_elem? xs ys i a h.1 e

mark_lost-Alike : Spares mark_lost
unfolding mark_lost
mark_lost-Alike a =
    if_cases (Alike a) a.configured _ a
      (λ _. record {
        homing = refl;
        seen = refl;
        toward = refl;
        stop = λ bad. absurd (cc bad);
        srl = refl;
        mer = refl;
      })
      (λ _. Alike-refl a)

mark_inactive-Alike : Spares mark_inactive
unfolding mark_inactive mark_lost
mark_inactive-Alike a =
    if_cases (Alike a) a.configured _ a
      (λ _. record {
        homing = (mark_lost-Alike a).homing;
        seen = (mark_lost-Alike a).seen;
        toward = (mark_lost-Alike a).toward;
        stop = (mark_lost-Alike a).stop;
        srl = refl;
        mer = refl;
      })
      (λ _. Alike-refl a)

mark_all_inactive-Each : (xs : List Axis) → Each xs (mark_all_inactive xs)
mark_all_inactive-Each [] = tt
mark_all_inactive-Each (x ∷ xs) = (mark_inactive-Alike x, mark_all_inactive-Each xs)

pub mark_others-Each : (i : ℕ) (xs : List Axis) → Each xs (mark_others i xs)
mark_others-Each i [] = tt
mark_others-Each zero (x ∷ xs) = (Alike-refl x, mark_all_inactive-Each xs)
mark_others-Each (suc i) (x ∷ xs) = (mark_inactive-Alike x, mark_others-Each i xs)

pub publish_all-Each : (ok : Bool) (msg : Name) (xs : List Axis) → Each xs (publish_all ok msg xs)
publish_all-Each ok msg [] = tt
publish_all-Each ok msg (x ∷ xs) = (
  record { homing = refl; seen = refl; toward = refl; stop = λ h. h; srl = refl; mer = refl },
  publish_all-Each ok msg xs,
)

pub recovered-Alike : Spares recovered
recovered-Alike a = record {
  homing = refl;
  seen = refl;
  toward = refl;
  stop = λ bad. absurd (cc bad);
  srl = refl;
  mer = refl;
}

pub not_recovered-Alike : Spares not_recovered
not_recovered-Alike a = record {
  homing = refl;
  seen = refl;
  toward = refl;
  stop = λ h. h;
  srl = refl;
  mer = refl;
}

pub with_setup_idx-Alike : (o : Option ℕ) → Spares (with_setup_idx o)
with_setup_idx-Alike o a = record {
  homing = refl;
  seen = refl;
  toward = refl;
  stop = λ h. h;
  srl = refl;
  mer = refl;
}

pub lost_selection-Alike : Spares lost_selection
lost_selection-Alike a = record {
  homing = refl;
  seen = refl;
  toward = refl;
  stop = λ h. h;
  srl = refl;
  mer = refl;
}
