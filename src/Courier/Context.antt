-- ===== src/Courier/Context.antt =====
-- src/catering_system/services/courier_cash_context_service.py. The identifier of a context is a
-- function of what its text is joined from; the hash of `uuid5` is a parameter.
use silberloeffel_catering.Common.{
  ◌&&◌, Option, none, some, List, [], ◌∷◌, leb, is_some, if◌then◌else◌,
}
use silberloeffel_catering.Common.Text.{Text}
use silberloeffel_catering.Orders.Model.{Identifier, DateTime, Order, OrderVersion}
use silberloeffel_catering.Orders.Repository.{OrderStore, get_order, get_order_version}
use silberloeffel_catering.Payments.Model.{
  is_cash, OrderPaymentReminder, PaymentCompletionCorrection,
}
use silberloeffel_catering.Payments.Derive.{PaymentMethodChange}
use silberloeffel_catering.Payments.Repository.{
  PaymentStore, get_reminder, list_method_changes, list_payment_corrections,
}
use silberloeffel_catering.Courier.Model.{
  CourierCashProjection, QuittungStatus, printed_current, not_ready,
}
use silberloeffel_catering.Courier.Journal.{Journal, get_latest_correction_id}

-- the parts of `material`; `none` is the text "initial", "none" or ""
pub record ContextMaterial : Type 0 where
  pub order_id : Identifier
  pub method_generation : Option Identifier
  pub version_id : Identifier
  pub print_generation : Option DateTime
  pub payment_correction_marker : Option Text
  pub cash_correction_marker : Option Identifier

abbrev latest_change : List PaymentMethodChange → Option Identifier
latest_change [] = none
latest_change (c ∷ _) = some c.change_id

abbrev latest_payment_correction : List PaymentCompletionCorrection → Option Text
latest_payment_correction [] = none
latest_payment_correction (c ∷ _) = some c.correction_id

abbrev pub quittung_status_of : OrderPaymentReminder → OrderVersion → QuittungStatus
quittung_status_of payment version = elim payment.quittung_printed_at [
  | none ↦ not_ready
  | some printed ↦
      if payment.quittung_printed && leb version.created_at printed
      then printed_current
      else not_ready
]

abbrev pub live : Option Order → Option Order
live none = none
live (some order) = if is_some order.cancelled_at then none else some order

abbrev pub cash_only : Option OrderPaymentReminder → Option OrderPaymentReminder
cash_only none = none
cash_only (some payment) = if is_cash payment.payment_method then some payment else none

module _ (uuid5 : ContextMaterial → Identifier) where
  -- the projection of a live order, its cash payment and its stored effective version
  abbrev pub projection_of :
      Identifier
      → OrderPaymentReminder
      → OrderVersion
      → Identifier
      → PaymentStore
      → Journal
      → CourierCashProjection
  projection_of order_id payment version version_id payments j = record {
    order_version_id = version_id;
    cash_execution_context_id = uuid5 (record {
      order_id = order_id;
      method_generation = latest_change (list_method_changes payments order_id);
      version_id = version_id;
      print_generation = payment.quittung_printed_at;
      payment_correction_marker =
          latest_payment_correction (list_payment_corrections payments order_id);
      cash_correction_marker = get_latest_correction_id order_id j;
    });
    quittung_status = quittung_status_of payment version;
  }

  unfoldable pub projection :
      Identifier → OrderStore → PaymentStore → Journal → Option CourierCashProjection
  unfolding get_order get_reminder get_order_version list_method_changes list_payment_corrections
      get_latest_correction_id
  projection order_id orders payments j = elim (live (get_order orders order_id)) [
    | none ↦ none
    | some order ↦ elim (cash_only (get_reminder payments order_id)) [
      | none ↦ none
      | some payment ↦ elim order.effective_order_version_id [
        | none ↦ none
        | some version_id ↦ elim (get_order_version orders version_id) [
          | none ↦ none
          | some version ↦ some (projection_of order_id payment version version_id payments j)
        ]
      ]
    ]
  ]
