-- ===== src/System/Jobs.antt =====
-- The commands of the order service and of the operational core leave the print attempts alone.
use silberloeffel_catering.Common.{ℕ, ◌≡◌, Option, arith}
use silberloeffel_catering.Common.Text.{Text}
use silberloeffel_catering.Orders.Model.{
  Identifier, DateTime, Date, Order, OrderVersion, OperationalContext, OperationalContextData,
  CustomerAddress,
}
use silberloeffel_catering.Orders.Context.{Inquiry, OfferVersion, AcceptanceEvidence}
use silberloeffel_catering.Orders.Service.{
  create_order_from_offer_version, create_relevant_order_change_version,
  set_candidate_order_version,
}
use silberloeffel_catering.Orders.Proposal.{
  file_candidate, announce, propose_order_version_change, propose_delivery_address_change,
}
use silberloeffel_catering.World.{World}
use silberloeffel_catering.OperationalCore.{
  confirm_kitchen_print, make_order_version_effective, cancel_order, pause_order, resume_order,
  request_ready_to_send,
}

pub create_order-jobs :
    (source_inquiry_id : Identifier) (offer_version : OfferVersion) (inquiry : Option Inquiry)
    (evidence : Option AcceptanceEvidence) (order_id order_version_id : Identifier) (now : DateTime)
    (w : World)
    → (create_order_from_offer_version source_inquiry_id offer_version inquiry evidence order_id
        order_version_id now w).1.jobs
      ≡ w.jobs
unfolding create_order_from_offer_version
create_order-jobs source_inquiry_id offer_version inquiry evidence order_id order_version_id now w =
    grind arith

pub change_version-jobs :
    (order : Order) (date : Date) (window location : Text) (guests : Option ℕ) (mode : Text)
    (context : Option OperationalContextData) (order_version_id : Identifier) (now : DateTime)
    (w : World)
    → (create_relevant_order_change_version order date window location guests mode context
        order_version_id now w).1.jobs
      ≡ w.jobs
unfolding create_relevant_order_change_version
change_version-jobs order date window location guests mode context order_version_id now w =
    grind arith

pub set_candidate-jobs :
    (order_id order_version_id : Identifier) (now : DateTime) (w : World)
    → (set_candidate_order_version order_id order_version_id now w).1.jobs ≡ w.jobs
unfolding set_candidate_order_version
set_candidate-jobs order_id order_version_id now w = grind arith

file_candidate-jobs :
    (order_id : Identifier) (current : Order) (version : OrderVersion)
    (context : Option OperationalContext) (actor reason : Text) (now : DateTime) (w : World)
    → (file_candidate order_id current version context actor reason now w).1.jobs ≡ w.jobs
unfolding file_candidate announce
file_candidate-jobs order_id current version context actor reason now w = ground arith

pub propose_change-jobs :
    (order_id : Identifier) (date : Date) (window location : Text) (guests : Option ℕ)
    (mode actor reason : Text) (context : Option OperationalContextData)
    (order_version_id : Identifier) (now : DateTime) (w : World)
    → (propose_order_version_change order_id date window location guests mode actor reason context
        order_version_id now w).1.jobs
      ≡ w.jobs
unfolding propose_order_version_change
propose_change-jobs order_id date window location guests mode actor reason context order_version_id
      now w =
    grind (arith, file_candidate-jobs)

pub propose_address-jobs :
    (order_id parent : Identifier) (address : Option CustomerAddress) (actor reason : Text)
    (order_version_id : Identifier) (now : DateTime) (w : World)
    → (propose_delivery_address_change order_id parent address actor reason order_version_id now
        w).1.jobs
      ≡ w.jobs
unfolding propose_delivery_address_change
propose_address-jobs order_id parent address actor reason order_version_id now w =
    grind (arith, file_candidate-jobs)

pub confirm-jobs :
    (order_id order_version_id : Identifier) (now : DateTime) (w : World)
    → (confirm_kitchen_print order_id order_version_id now w).1.jobs ≡ w.jobs
unfolding confirm_kitchen_print
confirm-jobs order_id order_version_id now w = grind arith

pub switch-jobs :
    (order_id order_version_id : Identifier) (now : DateTime) (w : World)
    → (make_order_version_effective order_id order_version_id now w).1.jobs ≡ w.jobs
unfolding make_order_version_effective
switch-jobs order_id order_version_id now w = grind arith

pub cancel-jobs :
    (order_id : Identifier) (now later : DateTime) (w : World)
    → (cancel_order order_id now later w).1.jobs ≡ w.jobs
unfolding cancel_order
cancel-jobs order_id now later w = grind arith

-- A pause, a resume and a release request leave the orders alone too.
pub pause-stores :
    (order_id : Identifier) (reason : Text) (remark : Option Text) (actor : Text)
    (command : Identifier) (latest : Option Identifier) (fresh : Identifier) (now : DateTime)
    (w : World)
    → let w' = (pause_order order_id reason remark actor command latest fresh now w).1 in
      (w'.orders ≡ w.orders) × (w'.jobs ≡ w.jobs)
unfolding pause_order
pause-stores order_id reason remark actor command latest fresh now w = grind arith

pub resume-stores :
    (order_id : Identifier) (reason : Text) (remark : Option Text) (actor : Text)
    (command current latest fresh : Identifier) (now : DateTime) (w : World)
    → let w' = (resume_order order_id reason remark actor command current latest fresh now w).1 in
      (w'.orders ≡ w.orders) × (w'.jobs ≡ w.jobs)
unfolding resume_order
resume-stores order_id reason remark actor command current latest fresh now w = grind arith

pub release-stores :
    (order_id : Identifier) (w : World)
    → let w' = (request_ready_to_send order_id w).1 in (w'.orders ≡ w.orders) × (w'.jobs ≡ w.jobs)
unfolding request_ready_to_send
release-stores order_id w = ground arith
