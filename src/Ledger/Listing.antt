-- ===== src/Ledger/Listing.antt =====
-- The listings that the reconciler reads (`list_payments` and `list_settlement_rows` of
-- src/quidz/ledger.py).
use quidz.Prelude.{Bool, List, map}
use quidz.Prelude.Order.{sort_by, str_leb}
use quidz.Model.{PaymentState}
use quidz.Reconcile.{SettlementRow}
use quidz.Store.{Db}

abbrev pub by_payment : PaymentState → PaymentState → Bool
by_payment a b = str_leb a.payment_id b.payment_id

-- ORDER BY payment_id
unfoldable pub list_payments : Db → List PaymentState
list_payments db = sort_by by_payment (map (λ p. p.state) db.payments)

abbrev pub by_reference : SettlementRow → SettlementRow → Bool
by_reference a b = str_leb a.psp_reference b.psp_reference

-- ORDER BY psp_reference
unfoldable pub list_settlement_rows : Db → List SettlementRow
list_settlement_rows db = sort_by by_reference db.settlement_rows
