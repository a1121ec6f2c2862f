-- ===== src/Payments/Commands/Correction.antt =====
-- Correcting a recorded payment: what a first correction leaves, and that its repetition changes
-- nothing.
use mathlib.Core.List.{reverse-append}
use silberloeffel_catering.Common.{
  ◌≡◌, refl, subst, false, none, some, List, [], ◌∷◌, ◌++◌, arith, inl, inr, Option-cases,
}
use silberloeffel_catering.Common.Lists.{find, In, find-In, find-none, append-In, In-reverse}
use silberloeffel_catering.Common.Text.{Text, text_eq, text_eq_iff}
use silberloeffel_catering.Common.Dict.{Dict, lookup, lookup-insert_self, values}
use silberloeffel_catering.Common.Results.{ok, ◌>>◌, bind_ok, check_ok, Result-cases}
use silberloeffel_catering.Orders.Model.{Identifier, DateTime, Date, Order}
use silberloeffel_catering.Orders.Repository.{OrderStore, get_order}
use silberloeffel_catering.Payments.Model.{
  OrderPaymentReminder, PaymentCompletionCorrection, validate_payment_reminder,
}
use silberloeffel_catering.Payments.Derive.{PaymentReminderView}
use silberloeffel_catering.Payments.Repository.{
  PaymentStore, get_reminder, rows_of, all_rows, list_payment_corrections, save_payment_correction,
}
use silberloeffel_catering.Payments.View.{view_payment}
use silberloeffel_catering.Payments.Save.{Days}
use silberloeffel_catering.Payments.Save.Stored.{IsKept}
use silberloeffel_catering.Payments.Commands.{
  CorrectionRequest, correction_request, recorded_correction, corrected_reminder, require_paid,
  with_payment_open, new_correction, correct_new, correct_again, correct_payment_completion,
}

-- No correction of any order has the identifier of the request.
abbrev pub IsFresh : CorrectionRequest → PaymentStore → Type 0
IsFresh request s =
    find (λ (e : PaymentCompletionCorrection). text_eq e.correction_id request.clean_id)
      (all_rows (values s.payment_corrections))
    ≡ none

-- What a first correction has done.
pub record Corrected (request : CorrectionRequest) (order_id : Identifier) (now : DateTime)
    (s t : PaymentStore) : Type 0 where
  pub current : OrderPaymentReminder
  pub found : get_reminder s order_id ≡ some current
  pub payment_open :
      get_reminder t order_id
      ≡ some (record current {
        paid_on = none;
        cash_received = false;
        paid_recorded_at = none;
        paid_recorded_by = none;
        updated_at = some now;
      })
  pub correction : PaymentCompletionCorrection
  pub listed :
      list_payment_corrections t order_id ≡ correction ∷ list_payment_corrections s order_id
  pub named : correction.correction_id ≡ request.clean_id
  pub of_order : correction.order_id ≡ order_id
  pub reasoned : correction.reason ≡ request.clean_reason
  pub by_actor : correction.actor_reference ≡ request.actor
  pub at_time : correction.corrected_at ≡ now
  pub earlier_reminder : correction.previous_reminder ≡ current

corrected_reminder-found :
    (now : DateTime) (order_id : Identifier) (s : PaymentStore) (r : OrderPaymentReminder)
    → corrected_reminder now order_id s ≡ ok r
    → get_reminder s order_id ≡ some r
unfolding corrected_reminder
corrected_reminder-found now order_id s r h =
    let (current, paid, checked) =
      bind_ok (require_paid (get_reminder s order_id))
        (λ c. validate_payment_reminder (with_payment_open now c) >> ok c) r h in
    let (valid, same) =
      check_ok (validate_payment_reminder (with_payment_open now current)) current r checked in
    elim (Option-cases (get_reminder s order_id)) [
      | inl e ↦ ground arith
      | inr (c, e) ↦ ground arith
    ]

save_payment_correction-listed :
    (r : OrderPaymentReminder) (c : PaymentCompletionCorrection) (s t : PaymentStore)
    → find
        (λ (e : PaymentCompletionCorrection). text_eq e.correction_id c.correction_id)
        (all_rows (values s.payment_corrections))
      ≡ none
    → save_payment_correction r c s ≡ ok t
    → (get_reminder t r.order_id ≡ some r)
      × (list_payment_corrections t r.order_id ≡ c ∷ list_payment_corrections s r.order_id)
unfolding save_payment_correction get_reminder list_payment_corrections
save_payment_correction-listed r c s t fresh h =
    let rows = rows_of (lookup r.order_id s.payment_corrections) in
    (
      ground (arith, lookup-insert_self r.order_id r s.rows),
      ground (
        arith,
        lookup-insert_self r.order_id (rows ++ c ∷ []) s.payment_corrections,
        reverse-append rows (c ∷ []),
      ),
    )

reminder_row :
    (k : Identifier) (r : OrderPaymentReminder) (s : PaymentStore)
    → get_reminder s k ≡ some r
    → lookup k s.rows ≡ some r
unfolding get_reminder
reminder_row k r s e = e

all_rows-In :
    (c : PaymentCompletionCorrection) (k : Identifier) (l : List PaymentCompletionCorrection)
    (d : Dict (List PaymentCompletionCorrection))
    → lookup k d ≡ some l
    → In c l
    → In c (all_rows (values d))
unfolding all_rows lookup values
all_rows-In c k l [] h m = ground arith
all_rows-In c k l ((j, w) ∷ d) h m =
    append-In c w (all_rows (values d)) (ground (arith, all_rows-In c k l d))

-- A correction with a fresh identifier is not recorded for the order either.
IsFresh-none :
    (request : CorrectionRequest) (order_id : Identifier) (s : PaymentStore)
    → IsFresh request s
    → recorded_correction request order_id s ≡ none
unfolding recorded_correction list_payment_corrections
IsFresh-none request order_id s fresh =
    elim (Option-cases (recorded_correction request order_id s)) [
      | inl e ↦ e
      | inr (c, e) ↦
          let (listed, named) =
            find-In (λ (e : PaymentCompletionCorrection). text_eq e.correction_id request.clean_id)
              c (list_payment_corrections s order_id) e in
          let row = In-reverse c (rows_of (lookup order_id s.payment_corrections)) listed in
          elim (Option-cases (lookup order_id s.payment_corrections)) [
            | inl n ↦ ground arith
            | inr (l, n) ↦
                let all = all_rows-In c order_id l s.payment_corrections n (ground (arith, row)) in
                let other =
                  find-none
                    (λ (e : PaymentCompletionCorrection). text_eq e.correction_id request.clean_id)
                    c _ fresh all in
                ground (arith, named, other)
          ]
    ]

module _ (local_date : DateTime → Date) (orders : OrderStore) (now : DateTime) (days : Days)
    (order_id : Identifier) (s : PaymentStore) (i : IsKept s) where
  correct_new-Corrected :
      (request : CorrectionRequest) (view : PaymentReminderView) (t : PaymentStore)
      → IsFresh request s
      → correct_new local_date orders now days order_id request s ≡ (ok view, t)
      → Corrected request order_id now s t
  unfolding correct_new
  correct_new-Corrected request view t fresh h =
      elim (Result-cases (corrected_reminder now order_id s)) [
        | inr (e, g) ↦ ground (arith, g)
        | inl (current, g) ↦
            let correction = new_correction request order_id now current in
            let found = corrected_reminder-found now order_id s current g in
            let own = i.own_order order_id current (reminder_row order_id current s found) in
            elim (Result-cases
              (save_payment_correction (with_payment_open now current) correction s)) [
                | inr (e, f) ↦ ground (arith, g, f)
                | inl (u, f) ↦
                    let (open', listed) =
                      save_payment_correction-listed (with_payment_open now current) correction s u
                        fresh f in
                    let same : u ≡ t = ground (arith, g, f) in
                    subst (Corrected request order_id now s) same (record {
                      current = current;
                      found = found;
                      payment_open =
                          subst (λ k. get_reminder u k ≡ some (with_payment_open now current)) own
                            open';
                      listed =
                          subst
                            (λ k.
                              list_payment_corrections u k
                              ≡ correction ∷ list_payment_corrections s k)
                            own listed;
                      correction = correction;
                      named = refl;
                      of_order = refl;
                      reasoned = refl;
                      by_actor = refl;
                      at_time = refl;
                      earlier_reminder = refl;
                    })
              ]
      ]

  -- A returned correction with a fresh identifier was new.
  correct-new :
      (correction_id reason actor : Text) (request : CorrectionRequest) (view : PaymentReminderView)
      (t : PaymentStore)
      → correction_request correction_id reason actor ≡ ok request
      → recorded_correction request order_id s ≡ none
      → correct_payment_completion local_date orders now days order_id correction_id reason actor s
        ≡ (ok view, t)
      → correct_new local_date orders now days order_id request s ≡ (ok view, t)
  unfolding correct_payment_completion
  correct-new correction_id reason actor request view t asked new h = ground (arith, asked, new)

  correct-found :
      (correction_id reason actor : Text) (view : PaymentReminderView) (t : PaymentStore)
      → correct_payment_completion local_date orders now days order_id correction_id reason actor s
        ≡ (ok view, t)
      → (order : Order) × (get_order orders order_id ≡ some order)
  unfolding correct_payment_completion
  correct-found correction_id reason actor view t h =
      elim (Option-cases (get_order orders order_id)) [
        | inl e ↦ ground (arith, e)
        | inr found ↦ found
      ]

-- A recorded correction answers its repetition, and nothing is written.
again-recorded :
    (request : CorrectionRequest) (order_id : Identifier) (now : DateTime) (s t : PaymentStore)
    → (c : Corrected request order_id now s t)
    → recorded_correction request order_id t ≡ some c.correction
unfolding recorded_correction
again-recorded request order_id now s t c =
    ground (arith, c.listed, (text_eq_iff c.correction.correction_id request.clean_id).1 c.named)

correct_again-unchanged :
    (local_date : DateTime → Date) (orders : OrderStore) (later : DateTime) (days : Days)
    (order_id : Identifier) (request : CorrectionRequest) (e : PaymentCompletionCorrection)
    (t : PaymentStore)
    → e.reason ≡ request.clean_reason
    → e.actor_reference ≡ request.actor
    → correct_again local_date orders later days order_id request e t
      ≡ (view_payment local_date order_id days.view_today days.view_later orders t, t)
unfolding correct_again
correct_again-unchanged local_date orders later days order_id request e t r a = ground (
  arith,
  (text_eq_iff e.reason request.clean_reason).1 r,
  (text_eq_iff e.actor_reference request.actor).1 a,
)

-- On kept reminders, a returned correction with an identifier that no correction has leaves the
-- stored reminder as it was but unpaid, without cash and payment audit, and updated now; it puts a
-- correction with the identifier, the reason and the actor of the request, this order and time,
-- and the reminder as it was before, at the head of the list; and its repetition at any time
-- returns the view and changes nothing.
pub correct_payment_completion_lem :
    (local_date : DateTime → Date) (orders : OrderStore) (now : DateTime) (days : Days)
    (order_id : Identifier) (correction_id reason actor : Text) (request : CorrectionRequest)
    (s t : PaymentStore) (view : PaymentReminderView) (later : DateTime) (later_days : Days)
    → IsKept s
    → correction_request correction_id reason actor ≡ ok request
    → IsFresh request s
    → correct_payment_completion local_date orders now days order_id correction_id reason actor s
      ≡ (ok view, t)
    → Corrected request order_id now s t
      × (correct_payment_completion local_date orders later later_days order_id correction_id reason
            actor t
          ≡ (
            view_payment local_date order_id later_days.view_today later_days.view_later orders t,
            t,
          ))
unfolding correct_payment_completion
correct_payment_completion_lem local_date orders now days order_id correction_id reason actor
      request s t view later later_days i asked fresh h =
    let new =
      correct-new local_date orders now days order_id s i correction_id reason actor request view t
        asked (IsFresh-none request order_id s fresh) h in
    let done =
      correct_new-Corrected local_date orders now days order_id s i request view t fresh new in
    let (order, found) =
      correct-found local_date orders now days order_id s i correction_id reason actor view t h in
    (
      done,
      ground (
        arith,
        asked,
        found,
        again-recorded request order_id now s t done,
        correct_again-unchanged local_date orders later later_days order_id request done.correction
            t done.reasoned done.by_actor,
      ),
    )
