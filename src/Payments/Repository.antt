-- ===== src/Payments/Repository.antt =====
-- src/catering_system/repositories/in_memory_payment_reminder_repository.py
use mathlib.Core.List.{reverse}
use silberloeffel_catering.Common.{Option, none, some, List, [], ◌∷◌, ◌++◌, if◌then◌else◌}
use silberloeffel_catering.Common.Lists.{find}
use silberloeffel_catering.Common.Dict.{Dict, lookup, insert, values}
use silberloeffel_catering.Common.Text.{text_eq}
use silberloeffel_catering.Common.Results.{Result, ok, err, value_error, correction_conflict}
use silberloeffel_catering.Orders.Model.{Identifier}
use silberloeffel_catering.Payments.Model.{
  OrderPaymentReminder, PaymentCompletionCorrection, same_correction,
}
use silberloeffel_catering.Payments.Derive.{PaymentMethodChange}

pub record PaymentStore : Type 0 where
  pub rows : Dict OrderPaymentReminder
  pub method_changes : Dict (List PaymentMethodChange)
  pub payment_corrections : Dict (List PaymentCompletionCorrection)

abbrev pub empty_payments : PaymentStore
empty_payments = record { rows = []; method_changes = []; payment_corrections = [] }

unfoldable pub get_reminder : PaymentStore → Identifier → Option OrderPaymentReminder
get_reminder s order_id = lookup order_id s.rows

abbrev pub save_reminder : OrderPaymentReminder → PaymentStore → PaymentStore
save_reminder r s = record s { rows = insert r.order_id r s.rows }

-- `d.get(key, [])`
abbrev pub rows_of : {A : Type 0} → Option (List A) → List A
rows_of none = []
rows_of (some l) = l

unfoldable pub list_method_changes : PaymentStore → Identifier → List PaymentMethodChange
list_method_changes s order_id = reverse (rows_of (lookup order_id s.method_changes))

unfoldable pub save_method_change :
    OrderPaymentReminder → PaymentMethodChange → PaymentStore → PaymentStore
save_method_change r change s = record s {
  rows = insert r.order_id r s.rows;
  method_changes =
      insert r.order_id (rows_of (lookup r.order_id s.method_changes) ++ change ∷ [])
        s.method_changes;
}

unfoldable pub list_payment_corrections :
    PaymentStore → Identifier → List PaymentCompletionCorrection
list_payment_corrections s order_id = reverse (rows_of (lookup order_id s.payment_corrections))

-- the rows of all orders, in the order of the two loops
unfoldable pub all_rows : List (List PaymentCompletionCorrection) → List PaymentCompletionCorrection
all_rows [] = []
all_rows (l ∷ ls) = l ++ all_rows ls

unfoldable pub save_payment_correction :
    OrderPaymentReminder → PaymentCompletionCorrection → PaymentStore → Result PaymentStore
unfolding all_rows same_correction text_eq
save_payment_correction r correction s =
    elim (find
      (λ (e : PaymentCompletionCorrection). text_eq e.correction_id correction.correction_id)
      (all_rows (values s.payment_corrections))) [
        | some existing ↦
            if same_correction existing correction
            then ok (record s { rows = insert r.order_id r s.rows })
            else err (value_error correction_conflict)
        | none ↦ ok (record s {
          rows = insert r.order_id r s.rows;
          payment_corrections =
              insert r.order_id
                (rows_of (lookup r.order_id s.payment_corrections) ++ correction ∷ [])
                s.payment_corrections;
        })
      ]
