-- ===== src/Channel/Reads.antt =====
-- `readBytes`: what it returns is what it took from the line.
use technosoft_tml_motor.Prelude.{
  ℕ, zero, suc, ◌+◌, ◌-◌, ◌*◌, ◌≤◌, ◌<◌, List, [], ◌∷◌, ◌++◌, true, not, ◌||◌, ◌≡◌, refl, sym, ◌∙◌,
  arith, append-nil, append_assoc, length, length-append, All, All-append, leb, ◌==◌, if_cases,
  if_rel,
}
use technosoft_tml_motor.Frame.{IsByte}
use technosoft_tml_motor.Channel.System.{Posix, Quiet}
use technosoft_tml_motor.Channel.Defs.{Port, Io, read_loop, read_bytes}
use technosoft_tml_motor.Channel.Evolves.{
  Evolves, Evolves-refl, Evolves-trans, Evolves-after-Quiet, Quiet-Evolves, read-Evolves,
}

append-empty : (acc bs : List ℕ) → (length bs == 0) ≡ true → acc ++ bs ≡ acc
append-empty acc [] h = append-nil acc
append-empty acc (b ∷ bs) h = absurd (ground arith)

module _ (P : Posix) where
  -- From `acc` bytes read so far, `r` adds those that it takes from the line, `count` in all at most.
  pub record Reads (count : ℕ) (acc : List ℕ) (s : Port P) (r : List ℕ × Port P) : Type 0 where
    pub more : List ℕ
    pub result : r.0 ≡ acc ++ more
    pub moved : Evolves P more [] s r.1
    pub bytes : All IsByte more
    pub fits : length acc ≤ count → length r.0 ≤ count
    pub same_error : r.1.last_error ≡ s.last_error

  Reads-done : (count : ℕ) (acc : List ℕ) (s : Port P) → Reads count acc s (acc, s)
  Reads-done count acc s = record {
    more = [];
    result = sym (append-nil acc);
    moved = Evolves-refl P s;
    bytes = tt;
    fits = λ h. h;
    same_error = refl;
  }

  Reads-after-Quiet :
      (count : ℕ) (acc : List ℕ) (s : Port P) (w : P.World) (r : List ℕ × Port P)
      → Quiet P.time P.sent P.taken s.world w
      → Reads count acc (record s { world = w }) r
      → Reads count acc s r
  Reads-after-Quiet count acc s w r q h = record {
    more = h.more;
    result = h.result;
    moved =
        Evolves-after-Quiet P h.more [] s (record s { world = w }) r.1 (Quiet-Evolves P s w q)
          h.moved;
    bytes = h.bytes;
    fits = h.fits;
    same_error = h.same_error;
  }

  Reads-after_read :
      (count : ℕ) (acc : List ℕ) (s : Port P) (r : List ℕ × Port P)
      → let (bs, w) = P.read (count - length acc) s.world in
        Reads count (acc ++ bs) (record s { world = w }) r → Reads count acc s r
  Reads-after_read count acc s r h =
      let (bs, w) = P.read (count - length acc) s.world in
      let n : ℕ = count - length acc in
      record {
        more = bs ++ h.more;
        result = h.result ∙ append_assoc acc bs h.more;
        moved =
            Evolves-trans P bs [] h.more [] s (record s { world = w }) r.1 (read-Evolves P n s)
              h.moved;
        bytes = All-append IsByte bs h.more (P.read_bytes n s.world) h.bytes;
        fits = λ k. h.fits (omega (arith, length-append acc bs, P.read_fits n s.world));
        same_error = h.same_error;
      }

  pub read_loop-Reads :
      (fuel deadline count : ℕ) (acc : List ℕ) (s : Port P)
      → Reads count acc s (read_loop P fuel deadline count acc s)
  unfolding read_loop
  read_loop-Reads zero deadline count acc s = Reads-done count acc s
  read_loop-Reads (suc fuel) deadline count acc s =
      let w₁ = P.gettimeofday s.world in
      let t = P.now w₁ in
      let s₁ : Port P = record s { world = w₁ } in
      let (ready, w₂) = P.select (deadline - t) w₁ in
      let s₂ : Port P = record s { world = w₂ } in
      let (bs, w₃) = P.read (count - length acc) w₂ in
      let s₃ : Port P = record s { world = w₃ } in
      if_cases (λ (m : Io P (List ℕ)). Reads count acc s (m s)) (leb count (length acc)) _ _
        (λ full. Reads-done count acc s)
        (λ room. Reads-after-Quiet count acc s w₁ _ (P.gettimeofday_quiet s.world) (
          if_cases (λ (m : Io P (List ℕ)). Reads count acc s₁ (m s₁)) (leb deadline t) _ _
            (λ late. Reads-done count acc s₁)
            (λ early. Reads-after-Quiet count acc s₁ w₂ _ (P.select_quiet (deadline - t) w₁) (
              if_cases (λ (m : Io P (List ℕ)). Reads count acc s₂ (m s₂)) ready _ _
                (λ some_bytes. Reads-after_read count acc s₂ _ (
                  if_cases (λ (m : Io P (List ℕ)). Reads count (acc ++ bs) s₃ (m s₃))
                    (length bs == 0) _ _
                    (λ nothing. rw (append-empty acc bs nothing) (Reads-done count acc s₃))
                    (λ something. read_loop-Reads fuel deadline count (acc ++ bs) s₃)))
                (λ silent. Reads-done count acc s₂)))))

  -- readBytes returns exactly the bytes that it took from the line, in order and at most as many
  -- as asked for, sends nothing, and leaves the error note alone.
  pub read_bytes-Reads :
      (count timeout_ms : ℕ) (s : Port P) → Reads count [] s (read_bytes P count timeout_ms s)
  unfolding read_bytes
  read_bytes-Reads count timeout_ms s =
      let w = P.gettimeofday s.world in
      if_cases (Reads count [] s) (not s.is_open || count == 0) _ _
        (λ closed. Reads-done count [] s)
        (λ opened.
          Reads-after-Quiet count [] s w _ (P.gettimeofday_quiet s.world)
            (read_loop-Reads count (P.now w + timeout_ms * 1000) count [] (record s { world = w })))

  -- The read loop gives the same result for every fuel that is at least the number of bytes still
  -- to be read.
  pub read_loop_enough :
      (fuel fuel' deadline count : ℕ) (acc : List ℕ) (s : Port P)
      → count ≤ fuel + length acc
      → count ≤ fuel' + length acc
      → read_loop P fuel deadline count acc s ≡ read_loop P fuel' deadline count acc s
  unfolding read_loop
  read_loop_enough zero zero deadline count acc s h h' = refl
  read_loop_enough zero (suc fuel') deadline count acc s h h' =
      let full : leb count (length acc) ≡ true = ground arith in rw full
  read_loop_enough (suc fuel) zero deadline count acc s h h' =
      let full : leb count (length acc) ≡ true = ground arith in rw full
  read_loop_enough (suc fuel) (suc fuel') deadline count acc s h h' =
      let w₁ = P.gettimeofday s.world in
      let t = P.now w₁ in
      let s₁ : Port P = record s { world = w₁ } in
      let (ready, w₂) = P.select (deadline - t) w₁ in
      let s₂ : Port P = record s { world = w₂ } in
      let (bs, w₃) = P.read (count - length acc) w₂ in
      let s₃ : Port P = record s { world = w₃ } in
      if_rel (λ (m m' : Io P (List ℕ)). m s ≡ m' s) (leb count (length acc)) _ _ _ _ (λ _. refl)
        λ _.
          if_rel (λ (m m' : Io P (List ℕ)). m s₁ ≡ m' s₁) (leb deadline t) _ _ _ _ (λ _. refl)
            λ _.
              if_rel (λ (m m' : Io P (List ℕ)). m s₂ ≡ m' s₂) ready _ _ _ _
                (λ _.
                  if_rel (λ (m m' : Io P (List ℕ)). m s₃ ≡ m' s₃) (length bs == 0) _ _ _ _
                    (λ _. refl)
                    λ more.
                      let some_byte : 0 < length bs = ground arith in
                      read_loop_enough fuel fuel' deadline count (acc ++ bs) s₃
                        (omega (arith, length-append acc bs)) (omega (arith, length-append acc bs)))
                (λ _. refl)
