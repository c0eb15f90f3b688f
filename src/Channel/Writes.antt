-- ===== src/Channel/Writes.antt =====
-- `writeBytes`: success means that every byte went out, failure that a prefix did.
use technosoft_tml_motor.Prelude.{
  ℕ, zero, suc, ◌+◌, ◌≤◌, ◌<◌, List, [], ◌∷◌, ◌++◌, Bool, true, false, not, ◌&&◌, ◌≡◌, refl, sym,
  ap, ◌∙◌, arith, append-nil, append_assoc, length, take, drop, take-append-drop, ◌==◌, if_cases,
}
use technosoft_tml_motor.Channel.System.{Posix}
use technosoft_tml_motor.Channel.Defs.{Port, write_failed, Io, write_loop, write_bytes}
use technosoft_tml_motor.Channel.Evolves.{
  Evolves, Evolves-refl, Evolves-trans, Evolves-before-Quiet, Quiet-Evolves, set_error-Evolves,
}

length-drop_le : (n : ℕ) (xs : List ℕ) → 0 < n → 0 < length xs → length (drop n xs) + 1 ≤ length xs
length-drop_le zero xs h l = absurd (omega arith)
length-drop_le (suc n) [] h l = absurd (omega arith)
length-drop_le (suc zero) (x ∷ xs) h l = omega arith
length-drop_le (suc (suc n)) (x ∷ []) h l = omega arith
length-drop_le (suc (suc n)) (x ∷ y ∷ xs) h l = omega (arith, length-drop_le (suc n) (y ∷ xs))

module _ (P : Posix) where
  -- `head` went out, `rest` did not.
  pub record Writes (bytes : List ℕ) (s : Port P) (r : Bool × Port P) : Type 0 where
    pub head : List ℕ
    pub rest : List ℕ
    pub whole : bytes ≡ head ++ rest
    pub moved : Evolves P [] head s r.1
    pub all_out : r.0 ≡ true → (rest ≡ []) × (r.1.last_error ≡ s.last_error)
    pub noted : r.0 ≡ false → s.is_open ≡ true → r.1.last_error ≡ write_failed

  Writes-nothing : (s : Port P) → Writes [] s (true, s)
  Writes-nothing s = record {
    head = [];
    rest = [];
    whole = refl;
    moved = Evolves-refl P s;
    all_out = λ _. (refl, refl);
    noted = λ h _. cc;
  }

  Writes-failed :
      (bytes : List ℕ) (s : Port P) → Writes bytes s (false, record s { last_error = write_failed })
  Writes-failed bytes s = record {
    head = [];
    rest = bytes;
    whole = refl;
    moved = set_error-Evolves P write_failed s;
    all_out = λ h. cc;
    noted = λ _ _. refl;
  }

  write-Evolves :
      (bs : List ℕ) (s : Port P)
      → Evolves P []
          (take (P.write bs s.world).0 bs)
          s
          (record s { world = (P.write bs s.world).1 })
  write-Evolves bs s = record {
    later = P.write_later bs s.world;
    takes = P.write_taken bs s.world ∙ sym (append-nil (P.taken s.world));
    sends = P.write_sent bs s.world;
    same_open = refl;
    same_tcp = refl;
  }

  Writes-step :
      (bytes : List ℕ) (s : Port P) (r : Bool × Port P)
      → let (n, w) = P.write bytes s.world in
        (Evolves P [] (take n bytes) s (record s { world = w }))
        → Writes
            (drop (P.write bytes s.world).0 bytes)
            (record s { world = (P.write bytes s.world).1 })
            r
        → Writes bytes s r
  Writes-step bytes s r e h =
      let (n, w) = P.write bytes s.world in
      record {
        head = take n bytes ++ h.head;
        rest = h.rest;
        whole =
            sym (take-append-drop n bytes)
            ∙ ap (◌++◌ (take n bytes)) h.whole
            ∙ sym (append_assoc (take n bytes) h.head h.rest);
        moved =
            Evolves-trans P [] (take n bytes) [] h.head s (record s { world = w }) r.1 e h.moved;
        all_out = h.all_out;
        noted = h.noted;
      }

  pub write_loop-Writes :
      (fuel : ℕ) (bytes : List ℕ) (s : Port P)
      → length bytes ≤ fuel
      → Writes bytes s (write_loop P fuel bytes s)
  unfolding write_loop
  write_loop-Writes zero [] s h = Writes-nothing s
  write_loop-Writes zero (b ∷ bytes) s h = absurd (omega arith)
  write_loop-Writes (suc fuel) [] s h = Writes-nothing s
  write_loop-Writes (suc fuel) (b ∷ bytes) s h =
      let (n, w) = P.write (b ∷ bytes) s.world in
      let s₁ : Port P = record s { world = w } in
      if_cases (λ (m : Io P Bool). Writes (b ∷ bytes) s (m s₁)) (n == 0) _ _
        (λ failed.
          Writes-step (b ∷ bytes) s _ (write-Evolves (b ∷ bytes) s)
            (Writes-failed (drop n (b ∷ bytes)) s₁))
        (λ some_out. Writes-step (b ∷ bytes) s _ (write-Evolves (b ∷ bytes) s) (
          write_loop-Writes fuel (drop n (b ∷ bytes)) s₁
            (let pos : 0 < n = ground arith in omega (arith, length-drop_le n (b ∷ bytes)))))

  Writes-closed : (bytes : List ℕ) (s : Port P) → s.is_open ≡ false → Writes bytes s (false, s)
  Writes-closed bytes s closed = record {
    head = [];
    rest = bytes;
    whole = refl;
    moved = Evolves-refl P s;
    all_out = λ h. cc;
    noted = λ _ opened. cc;
  }

  Writes-drained :
      (bytes : List ℕ) (s : Port P) (r : Bool × Port P)
      → r.0 ≡ true
      → Writes bytes s r
      → Writes bytes s (true, record (r.1) { world = P.tcdrain r.1.world })
  Writes-drained bytes s r done h = record {
    head = h.head;
    rest = h.rest;
    whole = h.whole;
    moved =
        Evolves-before-Quiet P [] h.head s r.1 _ h.moved
          (Quiet-Evolves P r.1 _ (P.tcdrain_quiet r.1.world));
    all_out = λ _. h.all_out done;
    noted = λ e _. cc;
  }

  -- writeBytes puts a prefix of the bytes on the line and takes nothing from it. If it returns
  -- true the prefix is all of them and the error note is unchanged; if it returns false on an
  -- open port, the failed write is noted.
  pub write_bytes-Writes : (bytes : List ℕ) (s : Port P) → Writes bytes s (write_bytes P bytes s)
  unfolding write_bytes
  write_bytes-Writes bytes s =
      let r = write_loop P (length bytes) bytes s in
      let h : Writes bytes s r = write_loop-Writes (length bytes) bytes s (omega arith) in
      if_cases (Writes bytes s) (not s.is_open) _ _ (λ closed. Writes-closed bytes s (ground arith))
        (λ opened.
          if_cases (λ (m : Io P Bool). Writes bytes s (m r.1)) (r.0 && not r.1.is_tcp) _ _
            (λ drained. Writes-drained bytes s r (ground arith) h) (λ kept. h))
