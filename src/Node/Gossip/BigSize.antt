-- ===== src/Node/Gossip/BigSize.antt =====
-- Laws of parseBigSize (node/gossip.go), with an encoder of BigSize numbers.
use cln_circular.Common.{
  ℕ, zero, suc, ◌+◌, ◌/◌, ◌%◌, ◌^◌, ◌<◌, ◌≡◌, some, List, ◌∷◌, arith, ltb, if◌then◌else◌, length,
}
use cln_circular.Node.Gossip.{fixed_width, parse_big_size}

-- The bytes of a number, as binary.BigEndian puts them.
abbrev pub bytes_of : ℕ → ℕ → List ℕ → List ℕ
bytes_of zero n rest = rest
bytes_of (suc k) n rest = bytes_of k (n / 256) ((n % 256) ∷ rest)

-- A BigSize as BOLT 1 writes it, before what follows it.
pub put_big_size : ℕ → List ℕ → List ℕ
put_big_size n rest =
    if ltb n 0xfd
    then n ∷ rest
    else if ltb n 0x10000
    then 0xfd ∷ bytes_of 2 n rest
    else if ltb n 0x100000000
    then 0xfe ∷ bytes_of 4 n rest
    else 0xff ∷ bytes_of 8 n rest

two_bytes :
    (n : ℕ) (rest : List ℕ) → n < 0x10000 → fixed_width 2 (bytes_of 2 n rest) ≡ some (n, rest)
unfolding fixed_width
two_bytes n rest h = ground arith

four_bytes :
    (n : ℕ) (rest : List ℕ) → n < 0x100000000 → fixed_width 4 (bytes_of 4 n rest) ≡ some (n, rest)
unfolding fixed_width
four_bytes n rest h = ground arith

eight_bytes :
    (n : ℕ) (rest : List ℕ)
    → n < 0x10000000000000000
    → fixed_width 8 (bytes_of 8 n rest) ≡ some (n, rest)
unfolding fixed_width
eight_bytes n rest h = ground arith

-- Reading a BigSize gives the number that was written, and leaves what follows it, for every
-- uint64.
pub parse_big_size-put_big_size :
    (n : ℕ) (rest : List ℕ) → n < 2 ^ 64 → parse_big_size (put_big_size n rest) ≡ some (n, rest)
unfolding parse_big_size put_big_size
parse_big_size-put_big_size n rest h =
    ground (arith, two_bytes n rest, four_bytes n rest, eight_bytes n rest)

length-bytes_of : (k n : ℕ) (rest : List ℕ) → length (bytes_of k n rest) ≡ k + length rest
length-bytes_of zero n rest = omega arith
length-bytes_of (suc k) n rest = omega (arith, length-bytes_of k (n / 256) ((n % 256) ∷ rest))

pub length-put_big_size : (n : ℕ) (rest : List ℕ) → length rest < length (put_big_size n rest)
unfolding put_big_size
length-put_big_size n rest =
    ground (arith, length-bytes_of 2 n rest, length-bytes_of 4 n rest, length-bytes_of 8 n rest)
