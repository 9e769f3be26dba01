-- ===== src/Node/Gossip/Store.antt =====
-- Laws of followGossipStore (node/gossip.go), where gossipd appends to the store.
use cln_circular.Common.{
  ℕ, zero, suc, ◌+◌, ◌≤◌, ◌<◌, ◌≡◌, refl, sym, ◌∙◌, Bool, some, List, [], ◌∷◌, ◌++◌, arith, length,
  Option-cases, inl, inr, ◌⊎◌,
}
use cln_circular.Graph.State.{Graph}
use cln_circular.Node.Gossip.{
  take_bytes, number_at, StoreRecord, incomplete, complete, read_record, apply_record,
  follow_records, follow_store,
}

take_bytes-more :
    (n : ℕ) (bs more : List ℕ) {front rest : List ℕ}
    → take_bytes n bs ≡ some (front, rest)
    → take_bytes n (bs ++ more) ≡ some (front, rest ++ more)
unfolding take_bytes
take_bytes-more zero bs more e = ground arith
take_bytes-more (suc n) [] more e = cc
take_bytes-more (suc n) (b ∷ bs) more {front} {rest} e = elim (Option-cases (take_bytes n bs)) [
  | inl h ↦ ground arith
  | inr ((fs, rs), h) ↦ ground (arith, take_bytes-more n bs more h)
]

take_bytes-shorter :
    (n : ℕ) (bs : List ℕ) {front rest : List ℕ}
    → take_bytes n bs ≡ some (front, rest)
    → length rest + n ≡ length bs
unfolding take_bytes
take_bytes-shorter zero bs e = ground arith
take_bytes-shorter (suc n) [] e = cc
take_bytes-shorter (suc n) (b ∷ bs) {front} {rest} e = elim (Option-cases (take_bytes n bs)) [
  | inl h ↦ ground arith
  | inr ((fs, rs), h) ↦ ground (arith, take_bytes-shorter n bs h)
]

-- A record that is there stays so when gossipd appends to the store.
read_record-more :
    (wait : Bool) (file more : List ℕ) {flags : ℕ} {body rest : List ℕ}
    → read_record wait file ≡ complete flags body rest
    → (read_record wait (file ++ more) ≡ complete flags body (rest ++ more))
      × (length rest < length file)
unfolding read_record
read_record-more wait file more e = elim (Option-cases (take_bytes 12 file)) [
  | inl h ↦ ground arith
  | inr ((header, after), h) ↦ elim (Option-cases (take_bytes (number_at 2 2 header) after)) [
    | inl h' ↦ ground arith
    | inr ((body', rest'), h') ↦ ground (
      arith,
      take_bytes-more 12 file more h,
      take_bytes-more (number_at 2 2 header) after more h',
      take_bytes-shorter 12 file h,
      take_bytes-shorter (number_at 2 2 header) after h',
    )
  ]
]

record_cases :
    (x : StoreRecord) → (x ≡ incomplete) ⊎ ((y : ℕ × List ℕ × List ℕ) × (x ≡ complete y.0 y.1 y.2))
record_cases incomplete = inl refl
record_cases (complete flags body rest) = inr ((flags, body, rest), refl)

caught_up :
    (n : ℕ) (wait : Bool) (file : List ℕ) (g : Graph)
    → read_record wait file ≡ incomplete
    → follow_records n wait file g ≡ (g, file)
unfolding follow_records
caught_up zero wait file g e = refl
caught_up (suc n) wait file g e = ground arith

one_record :
    (n : ℕ) (wait : Bool) (file : List ℕ) (g : Graph) {flags : ℕ} {body rest : List ℕ}
    → read_record wait file ≡ complete flags body rest
    → follow_records (suc n) wait file g ≡ follow_records n wait rest (apply_record flags body g)
unfolding follow_records
one_record n wait file g e = ground arith

-- Enough turns give the same.
follow_records-enough :
    (n m : ℕ) (wait : Bool) (file : List ℕ) (g : Graph)
    → length file ≤ n
    → length file ≤ m
    → follow_records n wait file g ≡ follow_records m wait file g
follow_records-enough zero m wait file g hn hm = elim (record_cases (read_record wait file)) [
  | inl e ↦ caught_up zero wait file g e ∙ sym (caught_up m wait file g e)
  | inr (y, e) ↦ absurd (omega (arith, (read_record-more wait file [] e).1))
]
follow_records-enough (suc n) zero wait file g hn hm = elim (record_cases (read_record wait file)) [
  | inl e ↦ caught_up (suc n) wait file g e ∙ sym (caught_up zero wait file g e)
  | inr (y, e) ↦ absurd (omega (arith, (read_record-more wait file [] e).1))
]
follow_records-enough (suc n) (suc m) wait file g hn hm =
    elim (record_cases (read_record wait file)) [
      | inl e ↦ caught_up (suc n) wait file g e ∙ sym (caught_up (suc m) wait file g e)
      | inr ((flags, body, rest), e) ↦
          let less = (read_record-more wait file [] e).1 in
          one_record n wait file g e
          ∙ follow_records-enough n m wait rest (apply_record flags body g) (omega arith)
              (omega arith)
          ∙ sym (one_record m wait file g e)
    ]

follow_store_step :
    (wait : Bool) (file : List ℕ) (g : Graph) {flags : ℕ} {body rest : List ℕ}
    → read_record wait file ≡ complete flags body rest
    → follow_store wait file g ≡ follow_store wait rest (apply_record flags body g)
unfolding follow_store
follow_store_step wait [] g e = absurd (omega (arith, (read_record-more wait [] [] e).1))
follow_store_step wait (b ∷ bs) g {flags} {body} {rest} e =
    one_record (length bs) wait (b ∷ bs) g e
    ∙ follow_records-enough (length bs) (length rest) wait rest (apply_record flags body g)
        (omega (arith, (read_record-more wait (b ∷ bs) [] e).1)) (omega arith)

follow_records-more :
    (n : ℕ) (wait : Bool) (file more : List ℕ) (g : Graph)
    → follow_store wait (file ++ more) g
      ≡ (let (g', rest) = follow_records n wait file g in follow_store wait (rest ++ more) g')
unfolding follow_records
follow_records-more zero wait file more g = refl
follow_records-more (suc n) wait file more g = elim (record_cases (read_record wait file)) [
  | inl e ↦ ground arith
  | inr ((flags, body, rest), e) ↦ ground (
    arith,
    follow_store_step wait (file ++ more) g (read_record-more wait file more e).0,
    follow_records-more n wait rest more (apply_record flags body g),
  )
]

-- However gossipd's writes are cut up, the store is followed as if it had been read at once: what is
-- appended after the parser caught up, read from where it stopped, gives the graph and the rest
-- that reading the whole file gives.
pub follow_store-append :
    (wait : Bool) (file more : List ℕ) (g : Graph)
    → follow_store wait (file ++ more) g
      ≡ (let (g', rest) = follow_store wait file g in follow_store wait (rest ++ more) g')
unfolding follow_store
follow_store-append wait file more g =
    unfold follow_store in follow_records-more (length file) wait file more g
