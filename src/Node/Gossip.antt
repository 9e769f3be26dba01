-- ===== src/Node/Gossip.antt =====
-- What gossipd's store tells of channels (node/gossip.go): BigSize numbers, TLV streams,
-- channel_updates and the records of the store. A byte slice is a list of numbers below 256, and
-- what a Go offset has not reached is the rest of the list.
pub mod BigSize
pub mod Fees
pub mod Store
use cln_circular.Common.{
  ℕ, zero, suc, ◌+◌, ◌-◌, ◌*◌, ◌/◌, ◌%◌, Bool, true, false, ◌&&◌, ◌||◌, Option, none, some, List,
  [], ◌∷◌, ◌++◌, ltb, leb, ◌==◌, if◌then◌else◌, Str, decimal, length,
}
use cln_circular.Common.Int.{ℤ, pos, negsuc}
use cln_circular.Graph.Fee.{InboundFee}
use cln_circular.Graph.State.{Graph, set_inbound_fee, delete_inbound_fee}
use cln_circular.Graph.Topology.{ChannelUpdate, apply_channel_update}

-- binary.BigEndian of the bytes after those that `acc` stands for.
unfoldable pub big_endian : ℕ → List ℕ → ℕ
big_endian acc [] = acc
big_endian acc (b ∷ bs) = big_endian (acc * 256 + b) bs

-- The next `n` bytes and what follows them: none where there are fewer.
unfoldable pub take_bytes : ℕ → List ℕ → Option (List ℕ × List ℕ)
take_bytes zero bs = some ([], bs)
take_bytes (suc n) [] = none
take_bytes (suc n) (b ∷ bs) = elim (take_bytes n bs) [
  | none ↦ none
  | some (front, rest) ↦ some (b ∷ front, rest)
]

-- The number of `n` bytes that follows the first byte of a BigSize.
unfoldable pub fixed_width : ℕ → List ℕ → Option (ℕ × List ℕ)
unfolding take_bytes big_endian
fixed_width n bs = elim (take_bytes n bs) [
  | none ↦ none
  | some (front, rest) ↦ some (big_endian 0 front, rest)
]

-- parseBigSize: none is false, after which no caller reads on.
unfoldable pub parse_big_size : List ℕ → Option (ℕ × List ℕ)
unfolding fixed_width
parse_big_size [] = none
parse_big_size (b ∷ bs) =
    if ltb b 0xfd
    then some (b, bs)
    else fixed_width (if b == 0xfd then 2 else if b == 0xfe then 4 else 8) bs

-- One record of a TLV stream: its type, its value and what follows.
unfoldable pub parse_tlv : List ℕ → Option (ℕ × List ℕ × List ℕ)
unfolding parse_big_size take_bytes
parse_tlv bs = elim (parse_big_size bs) [
  | none ↦ none
  | some (kind, after_kind) ↦ elim (parse_big_size after_kind) [
    | none ↦ none
    | some (size, after_size) ↦ elim (take_bytes size after_size) [
      | none ↦ none
      | some (value, rest) ↦ some (kind, value, rest)
    ]
  ]
]

-- int32(n) of a uint32
unfoldable pub int32 : ℕ → ℤ
int32 n = if ltb n 2147483648 then pos n else negsuc (4294967295 - n)

-- The value of TLV 55555: none where its length is not 8.
unfoldable pub fee_of : List ℕ → Option InboundFee
unfolding big_endian int32
fee_of (a ∷ b ∷ c ∷ d ∷ e ∷ f ∷ g ∷ h ∷ []) = some (record {
  base_fee = int32 (big_endian 0 (a ∷ b ∷ c ∷ d ∷ []));
  fee_rate = int32 (big_endian 0 (e ∷ f ∷ g ∷ h ∷ []));
})
fee_of _ = none

-- The loop of parseInboundFee.
unfoldable pub find_fee : ℕ → List ℕ → Option InboundFee
unfolding parse_tlv fee_of
find_fee zero bs = none
find_fee (suc turns) bs = elim (parse_tlv bs) [
  | none ↦ none
  | some (kind, value, rest) ↦
      let more = find_fee turns rest in if kind == 55555 then fee_of value else more
]

-- Node.parseInboundFee: each record takes two bytes at least, so the turns are enough. An empty
-- stream has no record.
unfoldable pub parse_inbound_fee : List ℕ → Option InboundFee
unfolding find_fee
parse_inbound_fee bs = find_fee (length bs) bs

-- `body[i : i+n]`, as a big-endian number.
unfoldable pub number_at : ℕ → ℕ → List ℕ → ℕ
unfolding take_bytes big_endian
number_at i n body = elim (take_bytes i body) [
  | none ↦ 0
  | some (_, rest) ↦ elim (take_bytes n rest) [ none ↦ 0 | some (bs, _) ↦ big_endian 0 bs ]
]

-- `body[i:]`
unfoldable pub bytes_from : ℕ → List ℕ → List ℕ
unfolding take_bytes
bytes_from i body = elim (take_bytes i body) [ none ↦ [] | some (_, rest) ↦ rest ]

-- The scid of an update: block, transaction and output.
unfoldable pub update_scid : List ℕ → Str
unfolding number_at decimal
update_scid body =
    decimal (number_at 98 3 body)
    ++ b'x' ∷ decimal (number_at 101 3 body)
    ++ b'x' ∷ decimal (number_at 104 2 body)

-- The update that parseChannelUpdate applies.
unfoldable pub read_update : List ℕ → ChannelUpdate
unfolding update_scid
read_update body = record {
  channel_id = update_scid body ++ b'/' ∷ decimal (number_at 111 1 body % 2);
  timestamp = number_at 106 4 body;
  message_flags = number_at 110 1 body;
  channel_flags = number_at 111 1 body;
  cltv_delta = number_at 112 2 body;
  htlc_minimum_msat = number_at 114 8 body;
  htlc_maximum_msat = if number_at 110 1 body % 2 == 1 then number_at 130 8 body else 0;
  base_fee_msat = number_at 122 4 body;
  fee_ppm = number_at 126 4 body;
}

-- What it does with the inbound fee that the update has, or has not.
unfoldable pub follow_fee : Str → Option InboundFee → Graph → Graph
follow_fee key none g = (delete_inbound_fee key g).0
follow_fee key (some fee) g = set_inbound_fee key fee.base_fee fee.fee_rate g

-- Node.parseChannelUpdate
unfoldable pub parse_channel_update : List ℕ → Graph → Graph
unfolding read_update follow_fee parse_inbound_fee bytes_from
parse_channel_update body g =
    let has_maximum = number_at 110 1 body % 2 == 1 in
    let tlvs = if has_maximum then 138 else 130 in
    let key = update_scid body ++ b'/' ∷ decimal (1 - number_at 111 1 body % 2) in
    if ltb (length body) 130 || has_maximum && ltb (length body) 138
    then g
    else follow_fee key (parse_inbound_fee (bytes_from tlvs body))
        (apply_channel_update (read_update body) g).0

-- A record of the store, or errIncompleteRecord.
pub data StoreRecord : Type 0 where
  incomplete : StoreRecord
  complete : ℕ → List ℕ → List ℕ → StoreRecord

-- readGossipRecord on what the file holds: its flags, its body and what follows it.
unfoldable pub read_record : Bool → List ℕ → StoreRecord
read_record wait_for_completed file = elim (take_bytes 12 file) [
  | none ↦ incomplete
  | some (header, rest) ↦
      let flags = number_at 0 2 header in
      if wait_for_completed && flags / 0x2000 % 2 == 0
      then incomplete
      else elim (take_bytes (number_at 2 2 header) rest) [
        | none ↦ incomplete
        | some (body, after) ↦ complete flags body after
      ]
]

-- The end of the loop of followGossipStore: channel_updates that are not deleted.
unfoldable pub apply_record : ℕ → List ℕ → Graph → Graph
unfolding parse_channel_update
apply_record flags body g =
    if flags / 0x8000 % 2 == 0 && leb 2 (length body) && number_at 0 2 body == 258
    then parse_channel_update body g
    else g

-- The loop of followGossipStore until it has caught up: the graph, and what is still unread.
unfoldable pub follow_records : ℕ → Bool → List ℕ → Graph → Graph × List ℕ
follow_records zero wait file g = (g, file)
follow_records (suc turns) wait file g = elim (read_record wait file) [
  | incomplete ↦ (g, file)
  | complete flags body rest ↦ follow_records turns wait rest (apply_record flags body g)
]

-- followGossipStore from a record's start: a record has twelve bytes at least.
unfoldable pub follow_store : Bool → List ℕ → Graph → Graph × List ℕ
unfolding follow_records
follow_store wait file g = follow_records (length file) wait file g
