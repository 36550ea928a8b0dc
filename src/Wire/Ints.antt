-- ===== src/Wire/Ints.antt =====
-- Four bytes for an `int`, and values as they are.
use libfastpaxos.Base.{
  ℕ, zero, suc, ◌+◌, ◌-◌, ◌*◌, ◌/◌, ◌%◌, ◌^◌, ◌<◌, ◌≡◌, refl, arith, List, [], ◌∷◌, ◌++◌, Option,
  none, some, ◌>>=◌, if◌then◌else◌, ltb, length,
}
use libfastpaxos.Base.Int.{ℤ, pos, negsuc, ◌≤ℤ◌, ◌<ℤ◌, word32}

-- The values of an `int`.
abbrev pub IsInt : ℤ → Type 0
IsInt z = (negsuc (2 ^ 31 - 1) ≤ℤ z) × (z <ℤ pos (2 ^ 31))

-- The bytes of an `int`, in front of what follows.
unfoldable pub put_int : ℤ → List ℕ → List ℕ
put_int z rest =
    (word32 z % 256)
    ∷ (word32 z / 256 % 256)
    ∷ (word32 z / 65536 % 256)
    ∷ (word32 z / 16777216)
    ∷ rest

-- Two's complement.
abbrev pub int_of : ℕ → ℤ
int_of w = if ltb w (2 ^ 31) then pos w else negsuc (2 ^ 32 - 1 - w)

-- `none` is a read behind the end of the message.
unfoldable pub read_int : List ℕ → Option (ℤ × List ℕ)
read_int (a ∷ b ∷ c ∷ d ∷ rest) = some (int_of (a + 256 * b + 65536 * c + 16777216 * d), rest)
read_int _ = none

unfoldable pub read_bytes : ℕ → List ℕ → Option (List ℕ × List ℕ)
read_bytes zero bs = some ([], bs)
read_bytes (suc n) [] = none
read_bytes (suc n) (b ∷ bs) = do (value, rest) ← read_bytes n bs; some (b ∷ value, rest)

-- A size that is negative makes `malloc` and `memcpy` fail.
unfoldable pub read_size : List ℕ → Option (ℕ × List ℕ)
unfolding read_int
read_size bs = do (z, rest) ← read_int bs; elim z [ pos n ↦ some (n, rest) | negsuc n ↦ none ]

word_bytes :
    (w : ℕ)
    → w % 256 + 256 * (w / 256 % 256) + 65536 * (w / 65536 % 256) + 16777216 * (w / 16777216) ≡ w
word_bytes w = omega arith

int_of-word32 : (z : ℤ) → IsInt z → int_of (word32 z) ≡ z
int_of-word32 (pos n) h = ground arith
int_of-word32 (negsuc n) h = ground arith

pub read_int-put_int :
    (z : ℤ) (rest : List ℕ) → IsInt z → read_int (put_int z rest) ≡ some (z, rest)
unfolding read_int put_int
read_int-put_int z rest h = rw word_bytes (rw (int_of-word32 z h) refl)

pub read_size-put_int :
    (n : ℕ) (rest : List ℕ) → n < 2 ^ 31 → read_size (put_int (pos n) rest) ≡ some (n, rest)
unfolding read_size
read_size-put_int n rest h = rw (read_int-put_int (pos n) rest (omega arith)) refl

pub read_bytes-append :
    (value rest : List ℕ) → read_bytes (length value) (value ++ rest) ≡ some (value, rest)
unfolding read_bytes
read_bytes-append [] rest = refl
read_bytes-append (b ∷ value) rest = rw (read_bytes-append value rest) refl

pub length-put_int : (z : ℤ) (rest : List ℕ) → length (put_int z rest) ≡ 4 + length rest
unfolding put_int
length-put_int z rest = omega arith
