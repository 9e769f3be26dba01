-- ===== src/Node/Payment.antt =====
-- How a payment of ours is sent and recognised (node/payment.go, node/invoice.go): what lightningd
-- answers is an input, and the database is the map of its keys.
use cln_circular.Common.{
  ℕ, Bool, ◌&&◌, ◌||◌, not, Option, none, some, [], ◌∷◌, ◌==◌, if◌then◌else◌, Str, str_eq, Map,
  lookup, insert, delete,
}
use cln_circular.Rebalance.Errors.{other, fault, send_pay_timeout}
use cln_circular.Rebalance.Split.{Payment, PaymentErrorData, delivered, failed_at, refused}

-- What an entry of the database stands for: the label of an invoice, a mark of a payment that timed
-- out, or a notification that was saved.
pub data Entry : Type 0 where
  label_of : Str → Entry
  timed_out : Entry
  saved : Entry

-- The part of the node that payments change; `stats` is saveStats.
pub record Ledger : Type 0 where
  pub db : Map Entry
  pub active : Map ℕ
  pub stats : Bool

-- TIMEOUT_PREFIX, FAILURE_PREFIX and SUCCESS_PREFIX before a payment hash.
abbrev pub timeout_key : Str → Str
timeout_key hash = b't' ∷ b'i' ∷ b'm' ∷ b'e' ∷ b'o' ∷ b'u' ∷ b't' ∷ b'_' ∷ hash

abbrev pub failure_key : Str → Str
failure_key hash = b'f' ∷ b'_' ∷ hash

abbrev pub success_key : Str → Str
success_key hash = b's' ∷ b'_' ∷ hash

-- RebalanceInvoice
pub record RebalanceInvoice : Type 0 where
  pub label : Str
  pub payment_hash : Str
  pub payment_secret : Str
  pub amount_msat : ℕ

-- What invoice and delinvoice answer.
pub record InvoiceAnswer : Type 0 where
  pub payment_hash : Str
  pub payment_secret : Str

pub data Deletion : Type 0 where
  deleted : Deletion
  is_paid : Deletion  -- an error that says "status is paid"
  is_expired : Deletion  -- an error that says "status is expired"
  not_deleted : Deletion

-- CreateRebalanceInvoice with a label: `answer` is none for an error of lightningd. A refusal of the
-- database is not modelled.
unfoldable pub create_invoice :
    Str → ℕ → Option InvoiceAnswer → Ledger → Ledger × Option RebalanceInvoice
create_invoice label amount answer l = elim answer [
  | none ↦ (l, none)
  | some a ↦ if str_eq a.payment_hash [] || str_eq a.payment_secret [] then (l, none) else (
    record l { db = insert a.payment_hash (label_of label) l.db },
    some (record {
      label = label;
      payment_hash = a.payment_hash;
      payment_secret = a.payment_secret;
      amount_msat = amount;
    }),
  )
]

-- DeleteRebalanceInvoice: the answer to the first call, and to a second one.
unfoldable pub delete_invoice : Bool → Deletion → Deletion → Deletion
delete_invoice expired is_expired again = if expired then is_expired else again
delete_invoice expired deleted again = deleted
delete_invoice expired is_paid again = is_paid
delete_invoice expired not_deleted again = not_deleted

-- Node.AddActivePayment and Node.RemoveActivePayment
unfoldable pub add_active : Str → ℕ → Ledger → Ledger
add_active hash amount l = record l { active = insert hash amount l.active }

unfoldable pub remove_active : Str → Ledger → Ledger
remove_active hash l = record l { active = delete hash l.active }

-- What sendpay and waitsendpay answer: an rpc error has its code and, where its data can be read,
-- that data.
pub data SendAnswer : Type 0 where
  sent : SendAnswer
  send_failed : ℕ → Option PaymentErrorData → SendAnswer
  send_broken : SendAnswer

pub data WaitAnswer : Type 0 where
  arrived : WaitAnswer
  wait_timeout : WaitAnswer
  wait_failed : PaymentErrorData → WaitAnswer
  wait_broken : WaitAnswer

-- sendPayError: payTryOtherRoute is 204.
unfoldable pub send_pay_error : SendAnswer → Payment
send_pay_error sent = delivered
send_pay_error (send_failed code none) = refused other
send_pay_error (send_failed code (some e)) =
    if code == 204 && not (str_eq e.erring_node []) then failed_at e else refused other
send_pay_error send_broken = refused other

-- Node.manageTimeout for what deleting the invoice answers.
unfoldable pub manage_timeout : Str → Deletion → Ledger → Ledger × Payment
manage_timeout hash is_paid l = (l, delivered)
manage_timeout hash deleted l = (
  record l { db = insert (timeout_key hash) timed_out (delete hash l.db) },
  refused (fault send_pay_timeout),
)
manage_timeout hash is_expired l = (
  record l { db = insert (timeout_key hash) timed_out (delete hash l.db) },
  refused (fault send_pay_timeout),
)
manage_timeout hash not_deleted l = (
  record l { db = insert (timeout_key hash) timed_out (delete hash l.db) },
  refused (fault send_pay_timeout),
)

-- The end of Node.SendPay, once the payment is on its way.
unfoldable pub await_payment : Str → WaitAnswer → Deletion → Ledger → Ledger × Payment
unfolding manage_timeout
await_payment hash arrived deletion l = (l, delivered)
await_payment hash wait_timeout deletion l = manage_timeout hash deletion l
await_payment hash (wait_failed e) deletion l = (l, failed_at e)
await_payment hash wait_broken deletion l = (l, refused other)

unfoldable pub after_send : Str → SendAnswer → WaitAnswer → Deletion → Ledger → Ledger × Payment
unfolding send_pay_error await_payment
after_send hash sent wait deletion l = await_payment hash wait deletion l
after_send hash (send_failed code e) wait deletion l = (l, send_pay_error (send_failed code e))
after_send hash send_broken wait deletion l = (l, send_pay_error send_broken)

-- Node.SendPay
unfoldable pub send_pay :
    RebalanceInvoice → ℕ → SendAnswer → WaitAnswer → Deletion → Ledger → Ledger × Payment
unfolding add_active remove_active after_send
send_pay invoice amount answer wait deletion l =
    let hash = invoice.payment_hash in
    let (l', payment) = after_send hash answer wait deletion (add_active hash amount l) in
    (remove_active hash l', payment)

-- Rebalance.payInvoice over a route that delivers the amount; its pretty route is left out.
unfoldable pub pay_invoice :
    Str → ℕ → Option InvoiceAnswer → SendAnswer → WaitAnswer → Deletion → Ledger → Ledger × Payment
unfolding create_invoice send_pay
pay_invoice label amount answer sending wait deletion l =
    let (l', made) = create_invoice label amount answer l in
    elim made [
      | none ↦ (l', refused other)
      | some invoice ↦ send_pay invoice amount sending wait deletion l'
    ]

-- Node.deleteIfOurs: none where the payment is not ours.
unfoldable pub delete_if_ours : Str → Ledger → Option Ledger
delete_if_ours hash l = elim (lookup hash l.db) [
  | some _ ↦ some (record l { db = delete hash l.db })
  | none ↦ elim (lookup (timeout_key hash) l.db) [
    | none ↦ none
    | some _ ↦ some (record l { db = delete (timeout_key hash) l.db })
  ]
]

-- Node.SaveToDb
unfoldable pub save_to_db : Str → Ledger → Ledger
save_to_db key l = if l.stats then record l { db = insert key saved l.db } else l

-- OnPaymentFailure and OnPaymentSuccess
unfoldable pub on_payment_failure : Str → Ledger → Ledger
unfolding delete_if_ours save_to_db
on_payment_failure hash l = elim (delete_if_ours hash l) [
  | none ↦ l
  | some l' ↦ save_to_db (failure_key hash) l'
]

unfoldable pub on_payment_success : Str → Ledger → Ledger
unfolding delete_if_ours save_to_db
on_payment_success hash l = elim (delete_if_ours hash l) [
  | none ↦ l
  | some l' ↦ save_to_db (success_key hash) l'
]
