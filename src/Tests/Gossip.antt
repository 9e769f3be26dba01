-- ===== src/Tests/Gossip.antt =====
-- A small gossip store and a TLV stream (node/gossip.go).
use cln_circular.Common.{ℕ, ◌≡◌, refl, true, none, some, List, [], ◌∷◌, ◌++◌, arith}
use cln_circular.Common.Int.{negsuc}
use cln_circular.Graph.Fee.{InboundFee}
use cln_circular.Node.Gossip.{
  parse_big_size, parse_inbound_fee, follow_store, follow_records, read_record, apply_record,
  take_bytes, number_at,
}
use cln_circular.Node.Gossip.BigSize.{bytes_of, put_big_size, parse_big_size-put_big_size}
use cln_circular.Node.Gossip.Fees.{
  put_all, put_tlv, fee_bytes, parse_inbound_fee-put_all, parse_inbound_fee-none,
}
use cln_circular.Node.Gossip.Store.{follow_store-append}
use cln_circular.Tests.Samples.{network}

parse_big_size-put_big_size_example :
    parse_big_size (put_big_size 70000 (1 ∷ [])) ≡ some (70000, 1 ∷ [])
parse_big_size-put_big_size_example = parse_big_size-put_big_size 70000 (1 ∷ []) (omega arith)

-- A discount of 5 msat and 10 ppm.
abbrev discount : InboundFee
discount = record { base_fee = negsuc 4; fee_rate = negsuc 9 }

abbrev others : List (ℕ × List ℕ)
others = (1, 7 ∷ 8 ∷ []) ∷ (300, []) ∷ []

parse_inbound_fee-put_all_example :
    parse_inbound_fee (put_all others (put_tlv 55555 (fee_bytes discount) (9 ∷ []))) ≡ some discount
parse_inbound_fee-put_all_example =
    parse_inbound_fee-put_all others discount (9 ∷ [])
      (
        ((λ h. omega (arith, h)), omega arith, omega arith),
        (((λ h. omega (arith, h)), omega arith, omega arith), tt),
      )
      (omega arith) (omega arith)

parse_inbound_fee-none_example : parse_inbound_fee (put_all others []) ≡ none
parse_inbound_fee-none_example = parse_inbound_fee-none others (
  ((λ h. omega (arith, h)), omega arith, omega arith),
  (((λ h. omega (arith, h)), omega arith, omega arith), tt),
)

-- A record that is complete and holds two bytes that are no channel_update, and the first bytes of
-- another.
abbrev store : List ℕ
store = bytes_of 2 0x2000 (bytes_of 2 2 (bytes_of 8 0 (1 ∷ 2 ∷ 0x20 ∷ 0 ∷ [])))

abbrev appended : List ℕ
appended = bytes_of 2 2 (bytes_of 8 0 (1 ∷ 0 ∷ 7 ∷ []))

reads : follow_store true (store ++ appended) network ≡ (network, 7 ∷ [])
unfolding follow_store follow_records read_record apply_record take_bytes number_at
reads = refl

follow_store-append_example :
    follow_store true (store ++ appended) network
    ≡ (let (g', rest) = follow_store true store network in follow_store true (rest ++ appended) g')
follow_store-append_example = follow_store-append true store appended network
