-- ===== src/Node/Gossip/Fees.antt =====
-- Laws of parseInboundFee (node/gossip.go), with an encoder of TLV streams.
use cln_circular.Common.{
  ℕ, zero, suc, ◌+◌, ◌-◌, ◌^◌, ◌≤◌, ◌<◌, ◌≡◌, ◌≢◌, refl, none, some, List, [], ◌∷◌, ◌++◌, arith,
  length, All, length-append,
}
use cln_circular.Common.Int.{ℤ, pos, negsuc}
use cln_circular.Graph.Fee.{InboundFee}
use cln_circular.Node.Gossip.{
  big_endian, take_bytes, parse_tlv, int32, fee_of, find_fee, parse_inbound_fee, parse_big_size,
}
use cln_circular.Node.Gossip.BigSize.{
  bytes_of, put_big_size, parse_big_size-put_big_size, length-put_big_size,
}

abbrev pub FitsInt32 : ℤ → Type 0
FitsInt32 (pos n) = n < 2147483648
FitsInt32 (negsuc n) = n < 2147483648

-- The uint32 with the bits of an int32.
abbrev word32 : ℤ → ℕ
word32 (pos n) = n
word32 (negsuc n) = 4294967295 - n

-- A record of a TLV stream, before what follows it.
pub put_tlv : ℕ → List ℕ → List ℕ → List ℕ
put_tlv kind value rest = put_big_size kind (put_big_size (length value) (value ++ rest))

-- The value of TLV 55555.
abbrev pub fee_bytes : InboundFee → List ℕ
fee_bytes fee = bytes_of 4 (word32 fee.base_fee) (bytes_of 4 (word32 fee.fee_rate) [])

-- The records before the fee, each with a type of its own.
abbrev pub put_all : List (ℕ × List ℕ) → List ℕ → List ℕ
put_all [] rest = rest
put_all ((kind, value) ∷ records) rest = put_tlv kind value (put_all records rest)

abbrev pub IsOther : ℕ × List ℕ → Type 0
IsOther (kind, value) = (kind ≢ 55555) × (kind < 2 ^ 64) × (length value < 2 ^ 64)

take_bytes-append :
    (value rest : List ℕ) → take_bytes (length value) (value ++ rest) ≡ some (value, rest)
unfolding take_bytes
take_bytes-append [] rest = refl
take_bytes-append (b ∷ value) rest = ground (arith, take_bytes-append value rest)

parse_tlv-put_tlv :
    (kind : ℕ) (value rest : List ℕ)
    → kind < 2 ^ 64
    → length value < 2 ^ 64
    → parse_tlv (put_tlv kind value rest) ≡ some (kind, value, rest)
unfolding parse_tlv put_tlv
parse_tlv-put_tlv kind value rest hk hv = ground (
  arith,
  parse_big_size-put_big_size kind (put_big_size (length value) (value ++ rest)),
  parse_big_size-put_big_size (length value) (value ++ rest),
  take_bytes-append value rest,
)

int32-word32 : (z : ℤ) → FitsInt32 z → (int32 (word32 z) ≡ z) × (word32 z < 4294967296)
unfolding int32
int32-word32 (pos n) h = ground arith
int32-word32 (negsuc n) h = ground arith

four : (n : ℕ) → n < 4294967296 → big_endian 0 (bytes_of 4 n []) ≡ n
unfolding big_endian
four n h = omega arith

fee_of-fee_bytes :
    (fee : InboundFee)
    → FitsInt32 fee.base_fee
    → FitsInt32 fee.fee_rate
    → fee_of (fee_bytes fee) ≡ some fee
unfolding fee_of
fee_of-fee_bytes fee hb hr = ground (
  arith,
  int32-word32 fee.base_fee,
  int32-word32 fee.fee_rate,
  four (word32 fee.base_fee),
  four (word32 fee.fee_rate),
)

find_fee-put_all :
    (records : List (ℕ × List ℕ)) (turns : ℕ) (fee : InboundFee) (rest : List ℕ)
    → All IsOther records
    → FitsInt32 fee.base_fee
    → FitsInt32 fee.fee_rate
    → length records < turns
    → find_fee turns (put_all records (put_tlv 55555 (fee_bytes fee) rest)) ≡ some fee
unfolding find_fee
find_fee-put_all records zero fee rest h hb hr ht = absurd (omega arith)
find_fee-put_all [] (suc turns) fee rest h hb hr ht =
    ground (arith, parse_tlv-put_tlv 55555 (fee_bytes fee) rest, fee_of-fee_bytes fee)
find_fee-put_all ((kind, value) ∷ records) (suc turns) fee rest ((other, hk, hv), hs) hb hr ht =
    ground (
      arith,
      parse_tlv-put_tlv kind value (put_all records (put_tlv 55555 (fee_bytes fee) rest)) hk hv,
      find_fee-put_all records turns fee rest hs hb hr (omega arith),
    )

length-put_all :
    (records : List (ℕ × List ℕ)) (tail : List ℕ)
    → length records + length tail ≤ length (put_all records tail)
unfolding put_tlv
length-put_all [] tail = omega arith
length-put_all ((kind, value) ∷ records) tail = omega (
  arith,
  length-put_all records tail,
  length-put_big_size kind (put_big_size (length value) (value ++ put_all records tail)),
  length-put_big_size (length value) (value ++ put_all records tail),
  length-append value (put_all records tail),
)

-- An inbound fee that a node announces is found in the update's TLV stream with the very fee, after
-- any records of other types and whatever follows it.
pub parse_inbound_fee-put_all :
    (records : List (ℕ × List ℕ)) (fee : InboundFee) (rest : List ℕ)
    → All IsOther records
    → FitsInt32 fee.base_fee
    → FitsInt32 fee.fee_rate
    → parse_inbound_fee (put_all records (put_tlv 55555 (fee_bytes fee) rest)) ≡ some fee
unfolding parse_inbound_fee put_tlv
parse_inbound_fee-put_all records fee rest h hb hr =
    let tail = put_tlv 55555 (fee_bytes fee) rest in
    find_fee-put_all records (length (put_all records tail)) fee rest h hb hr (
      omega (
        arith,
        length-put_all records tail,
        length-put_big_size 55555 (put_big_size 8 (fee_bytes fee ++ rest)),
      ))

find_fee-none :
    (records : List (ℕ × List ℕ)) (turns : ℕ)
    → All IsOther records
    → find_fee turns (put_all records []) ≡ none
unfolding find_fee
find_fee-none records zero h = refl
find_fee-none [] (suc turns) h = unfold parse_tlv parse_big_size in refl
find_fee-none ((kind, value) ∷ records) (suc turns) ((other, hk, hv), hs) =
    ground (
      arith,
      parse_tlv-put_tlv kind value (put_all records []) hk hv,
      find_fee-none records turns hs,
    )

-- In a stream of records of other types there is none.
pub parse_inbound_fee-none :
    (records : List (ℕ × List ℕ))
    → All IsOther records
    → parse_inbound_fee (put_all records []) ≡ none
unfolding parse_inbound_fee
parse_inbound_fee-none records h = find_fee-none records (length (put_all records [])) h
