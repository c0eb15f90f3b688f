-- ===== src/Api/Variables/Order.antt =====
-- Variables by name: what goes out, and that a value comes back from the words that carry it.
use technosoft_tml_motor.Prelude.{
  ℕ, ◌<◌, ◌+◌, ◌*◌, ◌/◌, ◌%◌, ◌^◌, true, Option, none, some, List, [], ◌∷◌, ◌≡◌, refl, ap, ◌∙◌, ◌⊎◌,
  inl, inr, arith,
}
use technosoft_tml_motor.Prelude.Int.{
  ℤ, IsInt32, to_word16, to_word32, signed16, signed32, signed32-to_word32, to_word32-lt,
}
use technosoft_tml_motor.Prelude.State.{State}
use technosoft_tml_motor.Frame.{Msg}
use technosoft_tml_motor.VarMap.{Name, get_address}
use technosoft_tml_motor.Link.{Link}
use technosoft_tml_motor.Drive.{
  Chan, Ident, write16_msg, write32_msg, request16_msg, request32_msg, read_data16, read_data32,
  write_data16, write_data32, ask, check_answer,
}
use technosoft_tml_motor.Drive.Opcodes.{op_take_data_32}
use technosoft_tml_motor.Drive.Read.{Asks, read_data16-Asks, read_data32-Asks}
use technosoft_tml_motor.Api.Act.{
  Act, Outcome, done, refused, Fn, unknown_variable, must, need, return, ◌>>=◌,
}
use technosoft_tml_motor.Api.Plan.{
  Step, must_send, must_ask, Performs, must-Performs, need-Performs, bind-Performs, return-Performs,
}
use technosoft_tml_motor.Api.Real.{Real, to_fixed, of_fixed}
use technosoft_tml_motor.Api.Variables.{
  known, address_of, get_long_variable, set_long_variable, get_int_variable, set_int_variable,
  get_fixed_variable, set_fixed_variable,
}

-- A 32-bit pattern survives its two words.
pub words32 : (v : ℕ) → v < 2 ^ 32 → v / 2 ^ 16 % 2 ^ 16 * 2 ^ 16 + v % 2 ^ 16 ≡ v
words32 v h = omega arith

module _ (L : Link) where
  -- A call on a variable: refused without a message where the map lacks the name, else the plan for
  -- the name's address.
  abbrev pub Accesses :
      {A : Type 0} → Fn → Name → (Ident → ℕ → List Step) → Chan L → Outcome A × Chan L → Type 0
  Accesses fn name plan c r =
      ((get_address name c.ident.var_map ≡ none) × (r ≡ (refused (unknown_variable fn name), c)))
      ⊎ ((addr : ℕ) × (get_address name c.ident.var_map ≡ some addr)
          × Performs L (plan c.ident addr) c r)

  known_then :
      {A : Type 0} (fn : Fn) (name : Name) (plan : Ident → ℕ → List Step) (f : ℕ → Act L A)
      (o : Option ℕ) (c : Chan L)
      → get_address name c.ident.var_map ≡ o
      → ((addr : ℕ) → Performs L (plan c.ident addr) c (f addr c))
      → Accesses fn name plan c ((known L fn name o >>= f) c)
  unfolding known
  known_then fn name plan f none c e h = inl (e, refl)
  known_then fn name plan f (some addr) c e h = inr (addr, e, h addr)

  -- TS_SetLongVariable with a name that is not in the map is refused without a message and leaves
  -- the channel as it was. Otherwise it hands over one write of the number's two words to the
  -- map's address, and succeeds exactly when that is acknowledged.
  pub set_long_variable-Accesses :
      (name : Name) (z : ℤ) (c : Chan L)
      → Accesses Fn.set_long name
          (λ i addr. must_send (write32_msg i addr (to_word32 z)) ∷ [])
          c
          (set_long_variable L name z c)
  unfolding set_long_variable address_of write_data32
  set_long_variable-Accesses name z c =
      known_then Fn.set_long name (λ i addr. must_send (write32_msg i addr (to_word32 z)) ∷ [])
        (λ addr. must L (write_data32 L addr (to_word32 z))) (get_address name c.ident.var_map) c
        refl (λ addr. must-Performs L (λ i. write32_msg i addr (to_word32 z)) c)

  -- TS_SetIntVariable with a name that is not in the map is refused without a message and leaves
  -- the channel as it was. Otherwise it hands over one write of the number's word to the map's
  -- address, and succeeds exactly when that is acknowledged.
  pub set_int_variable-Accesses :
      (name : Name) (z : ℤ) (c : Chan L)
      → Accesses Fn.set_int name
          (λ i addr. must_send (write16_msg i addr (to_word16 z)) ∷ [])
          c
          (set_int_variable L name z c)
  unfolding set_int_variable address_of write_data16
  set_int_variable-Accesses name z c =
      known_then Fn.set_int name (λ i addr. must_send (write16_msg i addr (to_word16 z)) ∷ [])
        (λ addr. must L (write_data16 L addr (to_word16 z))) (get_address name c.ident.var_map) c
        refl (λ addr. must-Performs L (λ i. write16_msg i addr (to_word16 z)) c)

  need_then :
      {A B : Type 0} (m : Msg) (op : State (Chan L) (Option A)) (f : A → B) (c : Chan L)
      → Asks L m c (op c)
      → Performs L (must_ask m ∷ []) c ((need L op >>= λ a. return L (f a)) c)
  need_then m op f c h =
      bind-Performs L (must_ask m ∷ []) [] (need L op) (λ a. return L (f a)) c
        (need-Performs L m op c h) (λ a c' _. return-Performs L (f a) c')

  -- TS_GetLongVariable with a name that is not in the map is refused without a message and leaves
  -- the channel as it was. Otherwise it hands over one 32-bit request to the map's address, and
  -- succeeds exactly when that is acknowledged and answered.
  pub get_long_variable-Accesses :
      (name : Name) (c : Chan L)
      → Accesses Fn.get_long name
          (λ i addr. must_ask (request32_msg i addr) ∷ [])
          c
          (get_long_variable L name c)
  unfolding get_long_variable address_of
  get_long_variable-Accesses name c =
      known_then Fn.get_long name (λ i addr. must_ask (request32_msg i addr) ∷ [])
        (λ addr. need L (read_data32 L addr) >>= λ v. return L (signed32 v))
        (get_address name c.ident.var_map) c refl
        (λ addr. need_then _ (read_data32 L addr) signed32 c (read_data32-Asks L addr c))

  -- TS_GetIntVariable with a name that is not in the map is refused without a message and leaves
  -- the channel as it was. Otherwise it hands over one 16-bit request to the map's address, and
  -- succeeds exactly when that is acknowledged and answered.
  pub get_int_variable-Accesses :
      (name : Name) (c : Chan L)
      → Accesses Fn.get_int name
          (λ i addr. must_ask (request16_msg i addr) ∷ [])
          c
          (get_int_variable L name c)
  unfolding get_int_variable address_of
  get_int_variable-Accesses name c =
      known_then Fn.get_int name (λ i addr. must_ask (request16_msg i addr) ∷ [])
        (λ addr. need L (read_data16 L addr) >>= λ v. return L (signed16 v))
        (get_address name c.ident.var_map) c refl
        (λ addr. need_then _ (read_data16 L addr) signed16 c (read_data16-Asks L addr c))

  module _ (F : Real) where
    -- TS_SetFixedVariable with a name that is not in the map is refused without a message and
    -- leaves the channel as it was. Otherwise it hands over one write of the 16.16 pattern's
    -- two words to the map's address, and succeeds exactly when that is acknowledged.
    pub set_fixed_variable-Accesses :
        (name : Name) (x : F.R) (c : Chan L)
        → Accesses Fn.set_fixed name
            (λ i addr. must_send (write32_msg i addr (to_fixed F x)) ∷ [])
            c
            (set_fixed_variable L F name x c)
    unfolding set_fixed_variable address_of write_data32
    set_fixed_variable-Accesses name x c =
        known_then Fn.set_fixed name (λ i addr. must_send (write32_msg i addr (to_fixed F x)) ∷ [])
          (λ addr. must L (write_data32 L addr (to_fixed F x))) (get_address name c.ident.var_map) c
          refl (λ addr. must-Performs L (λ i. write32_msg i addr (to_fixed F x)) c)

    -- TS_GetFixedVariable with a name that is not in the map is refused without a message and
    -- leaves the channel as it was. Otherwise it hands over one 32-bit request to the map's
    -- address, and succeeds exactly when that is acknowledged and answered.
    pub get_fixed_variable-Accesses :
        (name : Name) (c : Chan L)
        → Accesses Fn.get_fixed name
            (λ i addr. must_ask (request32_msg i addr) ∷ [])
            c
            (get_fixed_variable L F name c)
    unfolding get_fixed_variable address_of
    get_fixed_variable-Accesses name c =
        known_then Fn.get_fixed name (λ i addr. must_ask (request32_msg i addr) ∷ [])
          (λ addr. need L (read_data32 L addr) >>= λ v. return L (of_fixed F v))
          (get_address name c.ident.var_map) c refl
          (λ addr. need_then _ (read_data32 L addr) (of_fixed F) c (read_data32-Asks L addr c))

  -- An acknowledged request that is answered with the opcode of a 32-bit value, and with the data
  -- words that a write of `v` to the same address has, yields `v`.
  read_data32-reply :
      (addr a w v : ℕ) (c : Chan L)
      → v < 2 ^ 32
      → (L.send (request32_msg c.ident addr) c.link).0 ≡ true
      → (L.receive (L.send (request32_msg c.ident addr) c.link).1).0
        ≡ some (record {
          addr = a;
          op_code = op_take_data_32;
          words = w ∷ (write32_msg c.ident addr v).words;
        })
      → (read_data32 L addr c).0 ≡ some v
  unfolding read_data32 ask check_answer write32_msg
  read_data32-reply addr a w v c h acked answered =
      rw (acked, answered, check_answer) (ap some (words32 v h))

  value_of :
      {A B : Type 0} (o : Option A) (f : A → B) (c : Chan L) (a : A)
      → o ≡ some a
      → ((need L (λ s. (o, s)) >>= λ a. return L (f a)) c).0 ≡ done (f a)
  value_of none f c a e = cc
  value_of (some b) f c a e = ground (arith, e)

  need_value :
      {A B : Type 0} (op : State (Chan L) (Option A)) (f : A → B) (c : Chan L) (a : A)
      → (op c).0 ≡ some a
      → ((need L op >>= λ a. return L (f a)) c).0 ≡ done (f a)
  need_value op f c a e = value_of (op c).0 f (op c).1 a e

  -- Let a name have an address, and let the request for it be acknowledged and answered with the
  -- opcode of a 32-bit value and the data words that TS_SetLongVariable writes for an int32_t.
  -- Then TS_GetLongVariable returns that number.
  pub get_long_variable-set_long_variable :
      (name : Name) (addr a w : ℕ) (z : ℤ) (c : Chan L)
      → IsInt32 z
      → get_address name c.ident.var_map ≡ some addr
      → (L.send (request32_msg c.ident addr) c.link).0 ≡ true
      → (L.receive (L.send (request32_msg c.ident addr) c.link).1).0
        ≡ some (record {
          addr = a;
          op_code = op_take_data_32;
          words = w ∷ (write32_msg c.ident addr (to_word32 z)).words;
        })
      → (get_long_variable L name c).0 ≡ done z
  unfolding get_long_variable address_of known
  get_long_variable-set_long_variable name addr a w z c h e acked answered =
      let rest : ℕ → Act L ℤ = λ addr. need L (read_data32 L addr) >>= λ v. return L (signed32 v) in
      ap (λ o. ((known L Fn.get_long name o >>= rest) c).0) e
      ∙ need_value (read_data32 L addr) signed32 c (to_word32 z)
          (read_data32-reply addr a w (to_word32 z) c (to_word32-lt z) acked answered)
      ∙ ap done (signed32-to_word32 z h)
