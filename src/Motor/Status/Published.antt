-- ===== src/Motor/Status/Published.antt =====
-- What is published after `setConnStatus`.
use mathlib.Core.Path.{subst}
use technosoft_tml_motor.Prelude.{
  ℕ, zero, suc, ◌≤◌, ◌≡◌, refl, sym, ap, ◌∙◌, arith, Bool, true, false, Option, none, some, List,
  [], ◌∷◌, All, bytes_eq, bytes_eq_iff, take, length, Bool-cases, inl, inr,
}
use technosoft_tml_motor.VarMap.{Name}
use technosoft_tml_motor.Motor.Calls.{Calls}
use technosoft_tml_motor.Motor.Axis.{Axis, Controller}
use technosoft_tml_motor.Motor.Status.{publish_all, current_message, is_state, set_conn_status}

-- The axis publishes this state and message.
abbrev pub Publishes : Bool → Name → Axis → Type 0
Publishes ok msg a = (a.params.conn_ok ≡ some ok) × (a.params.conn_msg ≡ msg)

publish_all-Publishes :
    (ok : Bool) (msg : Name) (xs : List Axis) → All (Publishes ok msg) (publish_all ok msg xs)
publish_all-Publishes ok msg [] = tt
publish_all-Publishes ok msg (x ∷ xs) = ((refl, refl), publish_all-Publishes ok msg xs)

-- All axes publish the noted state, if there is one, and one message that fits `cur`.
abbrev pub Agrees : Option Bool → Name → List Axis → Type 0
Agrees none msg xs = Unit {0}
Agrees (some ok) msg xs = All (Publishes ok msg) xs × (length msg ≤ 255)

take_short : (n : ℕ) (xs : List ℕ) → length xs ≤ n → take n xs ≡ xs
take_short zero [] h = refl
take_short zero (x ∷ xs) h = absurd (omega arith)
take_short (suc n) [] h = refl
take_short (suc n) (x ∷ xs) h = ap (◌∷◌ x) (take_short n xs (omega arith))

same_state : (b ok : Bool) → is_state (some b) ok ≡ true → b ≡ ok
same_state true true h = refl
same_state true false h = cc
same_state false true h = cc
same_state false false h = refl

same_message :
    (b : Bool) (old msg : Name) (x : Axis)
    → Publishes b old x
    → length old ≤ 255
    → bytes_eq (current_message (x ∷ [])) msg ≡ true
    → old ≡ msg
same_message b old msg x (_, p) short m =
    sym (ap (take 255) p ∙ take_short 255 old short)
    ∙ (bytes_eq_iff (take 255 x.params.conn_msg) msg).0 m

-- The early return leaves what was asked for.
unchanged :
    (noted : Option Bool) (ok : Bool) (old msg : Name) (xs : List Axis)
    → Agrees noted old xs
    → is_state noted ok ≡ true
    → bytes_eq (current_message xs) msg ≡ true
    → (noted ≡ some ok) × All (Publishes ok msg) xs
unchanged none ok old msg xs h s m = absurd (cc s)
unchanged (some b) ok old msg [] h s m = (ap some (same_state b ok s), tt)
unchanged (some b) ok old msg (x ∷ xs) (all, short) s m =
    let state : b ≡ ok = same_state b ok s in
    let message : old ≡ msg = same_message b old msg x all.0 short m in
    (
      ap some state,
      subst (λ k. All (Publishes k msg) (x ∷ xs)) state
          (subst (λ k. All (Publishes b k) (x ∷ xs)) message all),
    )

module _ {R : Type 0} (C : Calls R) where
  -- Let all axes publish the noted connection state with one message of at most 255 bytes, or no
  -- state be noted. After setConnStatus the given state is noted and every axis publishes it with
  -- the given message, also where it returned early.
  pub set_conn_status-Publishes :
      (ok : Bool) (old msg : Name) (g : Controller C)
      → Agrees g.conn_ok old g.axes
      → let g' = (set_conn_status C ok msg g).1 in
        (g'.conn_ok ≡ some ok) × All (Publishes ok msg) g'.axes
  unfolding set_conn_status
  set_conn_status-Publishes ok old msg g h = elim (Bool-cases (is_state g.conn_ok ok)) [
    | inl state ↦ elim (Bool-cases (bytes_eq (current_message g.axes) msg)) [
      | inl message ↦ rw (state, message) (unchanged g.conn_ok ok old msg g.axes h state message)
      | inr other ↦ rw (state, other) (refl, publish_all-Publishes ok msg g.axes)
    ]
    | inr other ↦ rw other (refl, publish_all-Publishes ok msg g.axes)
  ]
