-- ===== src/Frame/Detect.antt =====
-- What the checksum detects.
use technosoft_tml_motor.Prelude.{
  ℕ, zero, suc, ◌+◌, ◌-◌, ◌≤◌, ◌<◌, ◌≡◌, ◌≢◌, refl, sym, ap, ◌∙◌, inl, inr, List, [], ◌∷◌, arith,
  length, take, All, ltb, Bool-cases, set, ltb→lt, tests, ne→==,
}
use technosoft_tml_motor.Frame.{
  Msg, IsByte, sum_bytes, checksum, byte_at, deserialise_message, accepted, rejected, bad_checksum,
}
use technosoft_tml_motor.Frame.Bytes.{byte_at-lt, accepted_checks}

take-set_out : (xs : List ℕ) (k v : ℕ) → take k (set xs k v) ≡ take k xs
take-set_out [] k v = refl
take-set_out (x ∷ xs) zero v = refl
take-set_out (x ∷ xs) (suc k) v = ap (◌∷◌ x) (take-set_out xs k v)

sum_bytes-set :
    (xs : List ℕ) (i k v : ℕ)
    → i < k
    → i < length xs
    → sum_bytes (take k (set xs i v)) + byte_at xs i ≡ sum_bytes (take k xs) + v
unfolding sum_bytes
sum_bytes-set [] i k v h l = absurd (omega arith)
sum_bytes-set (x ∷ xs) i zero v h l = absurd (omega arith)
sum_bytes-set (x ∷ xs) zero (suc k) v h l = omega arith
sum_bytes-set (x ∷ xs) (suc i) (suc k) v h l =
    omega (arith, sum_bytes-set xs i k v (omega arith) (omega arith))

byte_at-set_self : (xs : List ℕ) (i v : ℕ) → i < length xs → byte_at (set xs i v) i ≡ v
byte_at-set_self [] i v h = absurd (omega arith)
byte_at-set_self (x ∷ xs) zero v h = refl
byte_at-set_self (x ∷ xs) (suc i) v h = byte_at-set_self xs i v (omega arith)

byte_at-set_ne : (xs : List ℕ) (i j v : ℕ) → i ≢ j → byte_at (set xs i v) j ≡ byte_at xs j
byte_at-set_ne [] i j v h = refl
byte_at-set_ne (x ∷ xs) zero zero v h = absurd (h refl)
byte_at-set_ne (x ∷ xs) zero (suc j) v h = refl
byte_at-set_ne (x ∷ xs) (suc i) zero v h = refl
byte_at-set_ne (x ∷ xs) (suc i) (suc j) v h = byte_at-set_ne xs i j v (λ e. h (ap suc e))

-- One byte changed at or before the checksum's place breaks the sum.
checksum-set :
    (xs : List ℕ) (i k v : ℕ)
    → All IsByte xs
    → v < 256
    → v ≢ byte_at xs i
    → i ≤ k
    → k < length xs
    → checksum xs k ≡ byte_at xs k
    → checksum (set xs i v) k ≢ byte_at (set xs i v) k
unfolding checksum
checksum-set xs i k v bytes hv ne le inside valid = elim (Bool-cases (ltb i k)) [
  | inl before ↦ λ bad.
      let h : i < k = ltb→lt i k before in
      absurd (
        omega (
          arith,
          bad,
          sum_bytes-set xs i k v h (omega arith),
          byte_at-set_ne xs i k v (omega arith),
          byte_at-lt xs i bytes,
        ))
  | inr at ↦
      let e : i ≡ k = omega tests in
      rw e (
        rw (take-set_out xs k v, byte_at-set_self xs k v inside) λ bad. ne (rw e (sym bad ∙ valid)))
]

-- Let a buffer of bytes be accepted, with a length that it really has. If any one byte behind the
-- length byte and up to the checksum is replaced by another byte, deserialiseMessage refuses the
-- buffer with a checksum error.
pub deserialise_message-set :
    (buf : List ℕ) (len i v : ℕ) (m : Msg)
    → All IsByte buf
    → deserialise_message buf len ≡ accepted m
    → len ≤ length buf
    → 1 ≤ i
    → i ≤ byte_at buf 0 + 1
    → v < 256
    → v ≢ byte_at buf i
    → (expected received : ℕ) × (deserialise_message (set buf i v) len
        ≡ rejected (bad_checksum expected received))
unfolding deserialise_message
deserialise_message-set buf len i v m bytes e fits behind inside hv ne =
    let p : ℕ = byte_at buf 0 in
    let k : ℕ = 1 + p + 1 - 1 in
    let (six, room, valid) = accepted_checks buf len m e in
    (
      checksum (set buf i v) k,
      byte_at (set buf i v) k,
      rw (byte_at-set_ne buf i 0 v (omega arith)) (
          ground (
            arith,
            ne→== _ _ (checksum-set buf i k v bytes hv ne (omega arith) (omega arith) valid),
          )),
    )
