-- ===== src/Node/PaymentLaws.antt =====
-- Laws of node/payment.go: SendPay, and the notifications of its payments.
use cln_circular.Common.{
  ℕ, ◌≡◌, refl, ◌∙◌, Bool, true, false, none, some, arith, Str, str_eq, str_eq_iff, Map, lookup,
  insert, delete, lookup-insert, lookup-delete, if◌then◌else◌, length, ap, Bool-cases, inl, inr,
}
use cln_circular.Node.Payment.{
  Entry, Ledger, RebalanceInvoice, SendAnswer, sent, send_failed, send_broken, WaitAnswer, arrived,
  wait_timeout, wait_failed, wait_broken, Deletion, deleted, is_paid, is_expired, not_deleted,
  timeout_key, timed_out, send_pay, after_send, await_payment, manage_timeout, add_active,
  remove_active, delete_if_ours,
}

active-after_send :
    (hash : Str) (answer : SendAnswer) (wait : WaitAnswer) (deletion : Deletion) (l : Ledger)
    → (after_send hash answer wait deletion l).0.active ≡ l.active
unfolding after_send await_payment manage_timeout
active-after_send hash sent arrived deletion l = refl
active-after_send hash sent wait_timeout deleted l = refl
active-after_send hash sent wait_timeout is_paid l = refl
active-after_send hash sent wait_timeout is_expired l = refl
active-after_send hash sent wait_timeout not_deleted l = refl
active-after_send hash sent (wait_failed e) deletion l = refl
active-after_send hash sent wait_broken deletion l = refl
active-after_send hash (send_failed code e) wait deletion l = refl
active-after_send hash send_broken wait deletion l = refl

-- However lightningd answers, the payment is no longer active when SendPay returns, and every other
-- active payment still is.
pub send_pay-active :
    (invoice : RebalanceInvoice) (amount : ℕ) (answer : SendAnswer) (wait : WaitAnswer)
    (deletion : Deletion) (l : Ledger) (hash : Str)
    → lookup hash (send_pay invoice amount answer wait deletion l).0.active
      ≡ (if str_eq invoice.payment_hash hash then none else lookup hash l.active)
unfolding send_pay add_active remove_active
send_pay-active invoice amount answer wait deletion l hash =
    let id = invoice.payment_hash in
    let begun = record l { active = insert id amount l.active } in
    ground (
      arith,
      active-after_send id answer wait deletion begun,
      lookup-delete id hash (after_send id answer wait deletion begun).0.active,
      lookup-insert id hash amount l.active,
    )

-- Whether the database knows a payment as ours: by its hash, or by the mark of a timeout.
abbrev pub is_ours : Str → Ledger → Bool
is_ours hash l = elim (delete_if_ours hash l) [ none ↦ false | some _ ↦ true ]

after_timeout-is_ours :
    (hash : Str) (l : Ledger)
    → is_ours hash (record l { db = insert (timeout_key hash) timed_out (delete hash l.db) }) ≡ true
unfolding delete_if_ours
after_timeout-is_ours hash l =
    let key = timeout_key hash in
    ground (
      arith,
      str_eq_iff key key,
      lookup-insert key key timed_out (delete hash l.db),
      lookup-insert key hash timed_out (delete hash l.db),
      lookup-delete hash hash l.db,
    )

after_send-is_ours :
    (hash : Str) (answer : SendAnswer) (wait : WaitAnswer) (deletion : Deletion) (l : Ledger)
    → is_ours hash l ≡ true
    → is_ours hash (after_send hash answer wait deletion l).0 ≡ true
unfolding after_send await_payment manage_timeout
after_send-is_ours hash sent arrived deletion l h = h
after_send-is_ours hash sent wait_timeout deleted l h = after_timeout-is_ours hash l
after_send-is_ours hash sent wait_timeout is_paid l h = h
after_send-is_ours hash sent wait_timeout is_expired l h = after_timeout-is_ours hash l
after_send-is_ours hash sent wait_timeout not_deleted l h = after_timeout-is_ours hash l
after_send-is_ours hash sent (wait_failed e) deletion l h = h
after_send-is_ours hash sent wait_broken deletion l h = h
after_send-is_ours hash (send_failed code e) wait deletion l h = h
after_send-is_ours hash send_broken wait deletion l h = h

active_apart :
    (hash : Str) (l : Ledger) (active : Map ℕ)
    → is_ours hash (record l { active = active }) ≡ is_ours hash l
unfolding delete_if_ours
active_apart hash l active = ground arith

-- A payment that is known as ours when it is sent still is when SendPay returns, whatever lightningd
-- answers: after a timeout too, so that its late notification is recognised.
pub send_pay-is_ours :
    (invoice : RebalanceInvoice) (amount : ℕ) (answer : SendAnswer) (wait : WaitAnswer)
    (deletion : Deletion) (l : Ledger)
    → is_ours invoice.payment_hash l ≡ true
    → is_ours invoice.payment_hash (send_pay invoice amount answer wait deletion l).0 ≡ true
unfolding send_pay add_active remove_active
send_pay-is_ours invoice amount answer wait deletion l h =
    let id = invoice.payment_hash in
    let begun = record l { active = insert id amount l.active } in
    let ended = (after_send id answer wait deletion begun).0 in
    active_apart id ended (delete id ended.active)
    ∙ after_send-is_ours id answer wait deletion begun
        (active_apart id l (insert id amount l.active) ∙ h)

-- A notification of a payment is taken as ours, and the next one of the same payment is not.
abbrev pub Once : Str → Ledger → Type 0
Once hash l = (l' : Ledger) × (delete_if_ours hash l ≡ some l') × (delete_if_ours hash l' ≡ none)

timeout_key-apart : (hash : Str) → str_eq (timeout_key hash) hash ≡ false
timeout_key-apart hash = elim (Bool-cases (str_eq (timeout_key hash) hash)) [
  | inl same ↦
      let equal : timeout_key hash ≡ hash = ground (arith, str_eq_iff (timeout_key hash) hash) in
      let longer : length (timeout_key hash) ≡ length hash = ap length equal in
      absurd (omega (arith, longer))
  | inr apart ↦ apart
]

Once-labelled :
    (hash : Str) (x : Entry) (l : Ledger)
    → lookup hash l.db ≡ some x
    → lookup (timeout_key hash) l.db ≡ none
    → Once hash l
unfolding delete_if_ours
Once-labelled hash x l found unmarked =
    let key = timeout_key hash in
    (
      record l { db = delete hash l.db },
      ground (arith, found),
      ground (
        arith,
        str_eq_iff hash hash,
        lookup-delete hash hash l.db,
        lookup-delete hash key l.db,
        unmarked,
      ),
    )

Once-marked :
    (hash : Str) (x : Entry) (l : Ledger)
    → lookup hash l.db ≡ none
    → lookup (timeout_key hash) l.db ≡ some x
    → Once hash l
unfolding delete_if_ours
Once-marked hash x l unlabelled marked =
    let key = timeout_key hash in
    (
      record l { db = delete key l.db },
      ground (arith, unlabelled, marked),
      ground (
        arith,
        str_eq_iff key key,
        lookup-delete key hash l.db,
        lookup-delete key key l.db,
        unlabelled,
      ),
    )

Once-timed_out :
    (hash : Str) (l : Ledger)
    → Once hash (record l { db = insert (timeout_key hash) timed_out (delete hash l.db) })
Once-timed_out hash l =
    let key = timeout_key hash in
    let ended = record l { db = insert key timed_out (delete hash l.db) } in
    Once-marked hash timed_out ended
      (ground (
        arith,
        timeout_key-apart hash,
        str_eq_iff hash hash,
        lookup-insert key hash timed_out (delete hash l.db),
        lookup-delete hash hash l.db,
      ))
      (ground (arith, str_eq_iff key key, lookup-insert key key timed_out (delete hash l.db)))

after_send-Once :
    (hash : Str) (answer : SendAnswer) (wait : WaitAnswer) (deletion : Deletion) (l : Ledger)
    → Once hash l
    → Once hash (after_send hash answer wait deletion l).0
unfolding after_send await_payment manage_timeout
after_send-Once hash sent arrived deletion l h = h
after_send-Once hash sent wait_timeout deleted l h = Once-timed_out hash l
after_send-Once hash sent wait_timeout is_paid l h = h
after_send-Once hash sent wait_timeout is_expired l h = Once-timed_out hash l
after_send-Once hash sent wait_timeout not_deleted l h = Once-timed_out hash l
after_send-Once hash sent (wait_failed e) deletion l h = h
after_send-Once hash sent wait_broken deletion l h = h
after_send-Once hash (send_failed code e) wait deletion l h = h
after_send-Once hash send_broken wait deletion l h = h

Once-active :
    (hash : Str) (l : Ledger) (active : Map ℕ)
    → Once hash l
    → Once hash (record l { active = active })
unfolding delete_if_ours
Once-active hash l active (l', first, second) =
    (record l' { active = active }, ground (arith, first), ground (arith, second))

-- A payment sent for an invoice whose hash is in the database, and has no mark of a timeout, is
-- recognised once when SendPay returns, whatever lightningd answers: a notification of it finds it,
-- and the next one does not.
pub send_pay-Once :
    (invoice : RebalanceInvoice) (amount : ℕ) (answer : SendAnswer) (wait : WaitAnswer)
    (deletion : Deletion) (x : Entry) (l : Ledger)
    → lookup invoice.payment_hash l.db ≡ some x
    → lookup (timeout_key invoice.payment_hash) l.db ≡ none
    → Once invoice.payment_hash (send_pay invoice amount answer wait deletion l).0
unfolding send_pay add_active remove_active
send_pay-Once invoice amount answer wait deletion x l found unmarked =
    let id = invoice.payment_hash in
    let begun = record l { active = insert id amount l.active } in
    let ended = (after_send id answer wait deletion begun).0 in
    Once-active id ended (delete id ended.active)
      (after_send-Once id answer wait deletion begun (Once-labelled id x begun found unmarked))
