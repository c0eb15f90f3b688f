-- ===== src/Motor/Select/Ready.antt =====
-- Setups and delays of the axes, and the parts of selectAxis and ensureChannel that mark axes or leave
-- them alone.
use technosoft_tml_motor.Prelude.{
  ℕ, zero, suc, ◌≤◌, ◌≡◌, refl, arith, ap, ◌∙◌, Bool, true, false, ◌&&◌, bytes_eq, ◌||◌, Option,
  none, some, List, [], ◌∷◌, All, if◌then◌else◌, if_cases, ltb, codes,
}
use technosoft_tml_motor.Prelude.State.{pure}
use technosoft_tml_motor.Motor.Calls.{Calls, mer}
use technosoft_tml_motor.Motor.Axis.{
  Axis, mark_lost, mark_inactive, mark_all, mark_others, mark_all_inactive, update_at, Controller,
  Io, call, act, and_then,
}
use technosoft_tml_motor.VarMap.{Name}
use technosoft_tml_motor.Motor.Status.{publish_all, current_message, is_state, set_conn_status}
use technosoft_tml_motor.Motor.Select.{
  is_nonzero, write_scr, disable_limits, after_init, set_up, select_retry,
}

-- An axis in use that waits for no reinitialisation has a loaded setup.
abbrev pub Loaded : Axis → Type 0
Loaded a = a.configured ≡ true → a.needs_reinit ≡ false → (idx : ℕ) × (a.setup_idx ≡ some idx)

-- The next reinitialisation is at most 30 polls away, and so is the one after it.
abbrev pub Paced : Axis → Type 0
Paced a = (a.countdown ≤ 30) × (a.backoff ≤ 30)

abbrev pub Ready : Axis → Type 0
Ready a = Loaded a × Paced a

-- Where a setup is to be done anew, nothing is asked of the old one.
pub Ready-to_do : (a : Axis) → a.needs_reinit ≡ true → Paced a → Ready a
Ready-to_do a to_do p = ((λ _ bad. absurd (cc (bad, to_do))), p)

pub All-update_at :
    (P : Axis → Type 0) (f : Axis → Axis) (xs : List Axis) (i : ℕ)
    → ((a : Axis) → P a → P (f a))
    → All P xs
    → All P (update_at xs i f)
All-update_at P f [] i h all = all
All-update_at P f (x ∷ xs) zero h all = (h x all.0, all.1)
All-update_at P f (x ∷ xs) (suc i) h all = (all.0, All-update_at P f xs i h all.1)

pub update_at_twice :
    (f h : Axis → Axis) (xs : List Axis) (i : ℕ)
    → update_at (update_at xs i f) i h ≡ update_at xs i (λ a. h (f a))
update_at_twice f h [] i = refl
update_at_twice f h (x ∷ xs) zero = refl
update_at_twice f h (x ∷ xs) (suc i) = ap (◌∷◌ x) (update_at_twice f h xs i)

mark_lost-Ready : (a : Axis) → Ready a → Ready (mark_lost a)
unfolding mark_lost
mark_lost-Ready a h =
    if_cases Ready a.configured _ a (λ e. ((λ c bad. absurd (cc bad)), (omega arith, omega arith)))
      (λ _. h)

mark_inactive-Ready : (a : Axis) → Ready a → Ready (mark_inactive a)
unfolding mark_inactive mark_lost
mark_inactive-Ready a h = if_cases Ready a.configured _ a (λ _. mark_lost-Ready a h) (λ _. h)

pub mark_all-Ready : (xs : List Axis) → All Ready xs → All Ready (mark_all xs)
mark_all-Ready [] h = h
mark_all-Ready (x ∷ xs) h = (mark_lost-Ready x h.0, mark_all-Ready xs h.1)

mark_all_inactive-Ready : (xs : List Axis) → All Ready xs → All Ready (mark_all_inactive xs)
mark_all_inactive-Ready [] h = h
mark_all_inactive-Ready (x ∷ xs) h = (mark_inactive-Ready x h.0, mark_all_inactive-Ready xs h.1)

pub mark_others-Ready : (i : ℕ) (xs : List Axis) → All Ready xs → All Ready (mark_others i xs)
mark_others-Ready i [] h = h
mark_others-Ready zero (x ∷ xs) h = (h.0, mark_all_inactive-Ready xs h.1)
mark_others-Ready (suc i) (x ∷ xs) h = (mark_inactive-Ready x h.0, mark_others-Ready i xs h.1)

publish_all-Ready :
    (ok : Bool) (msg : Name) (xs : List Axis) → All Ready xs → All Ready (publish_all ok msg xs)
publish_all-Ready ok msg [] h = h
publish_all-Ready ok msg (x ∷ xs) h = (h.0, publish_all-Ready ok msg xs h.1)

module _ {R : Type 0} (C : Calls R) where
  -- The computation leaves the axes alone.
  abbrev pub Keeps : {A : Type 0} → Io C A → Type 0
  Keeps m = (g : Controller C) → (m g).1.axes ≡ g.axes

  abbrev pub Readies : {A : Type 0} → Io C A → Type 0
  Readies m = (g : Controller C) → All Ready g.axes → All Ready (m g).1.axes

  and_then-Keeps : (m k : Io C Bool) → Keeps m → Keeps k → Keeps (and_then C m k)
  and_then-Keeps m k hm hk g =
      let (ok, g') = m g in
      if_cases (λ (r : Bool × Controller C). r.1.axes ≡ g.axes) ok (k g') (false, g')
        (λ _. hk g' ∙ hm g) (λ _. hm g)

  pub and_then-Readies : (m k : Io C Bool) → Readies m → Readies k → Readies (and_then C m k)
  and_then-Readies m k hm hk g h =
      let (ok, g') = m g in
      if_cases (λ (r : Bool × Controller C). All Ready r.1.axes) ok (k g') (false, g')
        (λ _. hk g' (hm g h)) (λ _. hm g h)

  pub set_conn_status-Readies : (ok : Bool) (msg : Name) → Readies (set_conn_status C ok msg)
  unfolding set_conn_status
  set_conn_status-Readies ok msg g h =
      if_cases (λ (k : Controller C). All Ready k.axes)
        (is_state g.conn_ok ok && bytes_eq (current_message g.axes) msg) _ _ (λ _. h)
        (λ _. publish_all-Ready ok msg g.axes h)

  write_scr-Keeps : (a : Axis) → Keeps (write_scr C a)
  unfolding write_scr
  write_scr-Keeps a g =
      if_cases (λ (r : Unit {0} × Controller C). r.1.axes ≡ g.axes) (is_nonzero a.scr_value) _ _
        (λ _. refl) (λ _. refl)

  disable_limits-Keeps : (a : Axis) → Keeps (disable_limits C a)
  unfolding disable_limits
  disable_limits-Keeps a g =
      if_cases (λ (r : Unit {0} × Controller C). r.1.axes ≡ g.axes) (a.ignore_lsp || a.ignore_lsn) _
        _ (λ _. refl) (λ _. refl)

  after_init-Keeps : (a : Axis) → Keeps (after_init C a)
  unfolding after_init
  after_init-Keeps a g =
      let g₁ =
        (call C (C.get_int_variable (codes "MER_MASK")) (call C (C.read_status mer) g).1).1 in
      disable_limits-Keeps a (write_scr C a g₁).1 ∙ write_scr-Keeps a g₁

  pub set_up-Keeps : (a : Axis) (idx : Option ℕ) → Keeps (set_up C a idx)
  unfolding set_up
  set_up-Keeps a none g = refl
  set_up-Keeps a (some idx) g =
      let last : Io C Bool = and_then C (call C C.drive_initialisation) (after_init C a) in
      and_then-Keeps (call C (C.setup_axis a.axis_id idx))
        (and_then C (call C (C.select_axis a.axis_id)) last) (λ g. refl)
        (and_then-Keeps (call C (C.select_axis a.axis_id)) last (λ g. refl)
          (and_then-Keeps (call C C.drive_initialisation) (after_init C a) (λ g. refl)
            (after_init-Keeps a)))
        g

  -- Without an index the setup fails.
  pub set_up-needs_idx :
      (a : Axis) (idx : Option ℕ) (g : Controller C)
      → (set_up C a idx g).0 ≡ true
      → (k : ℕ) × (idx ≡ some k)
  unfolding set_up
  set_up-needs_idx a none g e = absurd (cc e)
  set_up-needs_idx a (some k) g e = (k, refl)

  pub select_retry-Keeps : (left fd : ℕ) → Keeps (select_retry C left fd)
  unfolding select_retry
  select_retry-Keeps zero fd g = refl
  select_retry-Keeps (suc left) fd g =
      let (ok, g₁) = call C (C.select_channel fd) g in
      if_cases (λ (m : Io C Bool). (m g₁).1.axes ≡ g.axes) ok (pure true) _ (λ _. refl)
        (λ _. select_retry-Keeps left fd (act C (λ s. if ltb 0 left then C.sleep 50 s else s) g₁).1)
