-- ===== src/Tests/Services.antt =====
-- A payment that times out, and a peer that disconnects (node/payment.go, node/peers.go).
use cln_circular.Common.{
  ◌≡◌, refl, true, false, none, some, [], ◌∷◌, arith, Str, str_eq, lookup, if◌then◌else◌,
}
use cln_circular.Node.Payment.{
  label_of, Ledger, RebalanceInvoice, sent, wait_timeout, deleted, send_pay, delete_if_ours,
  timeout_key,
}
use cln_circular.Node.PaymentLaws.{is_ours, Once, send_pay-Once, send_pay-active, send_pay-is_ours}
use cln_circular.Node.Peers.{set_connected, is_peer_connected}
use cln_circular.Node.PeersLaws.{IsIndexed, set_connected-reaches, set_connected-IsIndexed}
use cln_circular.Tests.Rebalances.{our_node, peer_with, ours_with}
use cln_circular.Tests.Samples.{bob, carol}

abbrev hash : Str
hash = b'h' ∷ []

abbrev invoice : RebalanceInvoice
invoice = record {
  label = b'l' ∷ [];
  payment_hash = hash;
  payment_secret = b's' ∷ [];
  amount_msat = 100000;
}

abbrev ledger : Ledger
ledger = record { db = (hash, label_of (b'l' ∷ [])) ∷ []; active = (carol, 7) ∷ []; stats = true }

send_pay-active_example :
    lookup carol (send_pay invoice 100000 sent wait_timeout deleted ledger).0.active
    ≡ (if str_eq hash carol then none else lookup carol ledger.active)
send_pay-active_example = send_pay-active invoice 100000 sent wait_timeout deleted ledger carol

ours : is_ours hash ledger ≡ true
unfolding delete_if_ours lookup str_eq
ours = refl

send_pay-is_ours_example :
    is_ours hash (send_pay invoice 100000 sent wait_timeout deleted ledger).0 ≡ true
send_pay-is_ours_example = send_pay-is_ours invoice 100000 sent wait_timeout deleted ledger ours

our_node-IsIndexed : IsIndexed our_node
unfolding lookup str_eq
our_node-IsIndexed = record { current = (refl, (refl, tt)); keyed = λ id p found. ground arith }

set_connected-IsIndexed_example : IsIndexed (set_connected 5 bob false our_node)
set_connected-IsIndexed_example = set_connected-IsIndexed 5 bob false our_node our_node-IsIndexed

labelled : lookup hash ledger.db ≡ some (label_of (b'l' ∷ []))
unfolding lookup str_eq
labelled = refl

unmarked : lookup (timeout_key hash) ledger.db ≡ none
unfolding lookup str_eq
unmarked = refl

send_pay-Once_example : Once hash (send_pay invoice 100000 sent wait_timeout deleted ledger).0
send_pay-Once_example =
    send_pay-Once invoice 100000 sent wait_timeout deleted (label_of (b'l' ∷ [])) ledger labelled
      unmarked

bob_known : lookup bob our_node.peers ≡ some (peer_with bob (b'1' ∷ []))
unfolding lookup str_eq
bob_known = refl

named : str_eq (b'1' ∷ []) [] ≡ false
unfolding str_eq
named = refl

set_connected-reaches_example :
    (is_peer_connected (set_connected 5 bob false our_node) (ours_with bob (b'1' ∷ [])) ≡ false)
    × (lookup bob (set_connected 5 bob false our_node).connected_at ≡ some 5)
set_connected-reaches_example =
    set_connected-reaches 5 bob false our_node (peer_with bob (b'1' ∷ [])) 0
      (ours_with bob (b'1' ∷ [])) bob_known refl named
