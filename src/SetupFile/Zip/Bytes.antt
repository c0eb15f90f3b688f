-- ===== src/SetupFile/Zip/Bytes.antt =====
-- Reads of the bytes of a file.
use technosoft_tml_motor.Prelude.{
  ℕ, List, [], ◌∷◌, ◌++◌, ◌≡◌, ◌≢◌, refl, sym, ap, arith, true, false, Option, none, some, ==_iff,
  length, drop, take-append, bytes_eq, bytes_eq_iff,
}
use technosoft_tml_motor.SetupFile.Zip.{read_at, holds}

pub drop-append : (pre post : List ℕ) → drop (length pre) (pre ++ post) ≡ post
drop-append [] post = refl
drop-append (x ∷ pre) post = drop-append pre post

-- A part of a file is read at its place.
pub read_at-part :
    (pre mid post : List ℕ) (n pos : ℕ)
    → n ≡ length mid
    → pos ≡ length pre
    → read_at n pos (pre ++ (mid ++ post)) ≡ some mid
unfolding read_at
read_at-part pre mid post n pos hn hp = rw (
  hp,
  drop-append pre (mid ++ post),
  take-append mid post n (sym hn),
  hn,
  (==_iff (length mid) (length mid)).1 refl,
)

pub holds-some : (sig : List ℕ) (o : Option (List ℕ)) → holds sig o ≡ true → o ≡ some sig
holds-some sig none h = cc
holds-some sig (some b) h = ap some ((bytes_eq_iff b sig).0 h)

pub holds-ne : (sig : List ℕ) (o : Option (List ℕ)) → holds sig o ≡ false → o ≢ some sig
holds-ne sig none h e = cc
holds-ne sig (some b) h e =
    let same : bytes_eq b sig ≡ true = (bytes_eq_iff b sig).1 (cc) in absurd (ground arith)
