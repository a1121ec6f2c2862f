-- ===== src/System.antt =====
-- The commands of src/catering_system/services/order_service.py, operational_core_service.py and
-- kitchen_print_service.py on the state that they share, in any order.
pub mod Jobs
pub mod Orderly
use silberloeffel_catering.Common.{ℕ, Option, List, [], ◌∷◌}
use silberloeffel_catering.Common.Text.{Text}
use silberloeffel_catering.Orders.Model.{
  Identifier, DateTime, Date, Order, OperationalContextData, CustomerAddress,
}
use silberloeffel_catering.Orders.Context.{Inquiry, OfferVersion, AcceptanceEvidence}
use silberloeffel_catering.Orders.Service.{
  create_order_from_offer_version, create_relevant_order_change_version,
  set_candidate_order_version,
}
use silberloeffel_catering.Orders.Proposal.{
  propose_order_version_change, propose_delivery_address_change,
}
use silberloeffel_catering.World.{World}
use silberloeffel_catering.OperationalCore.{
  confirm_kitchen_print, make_order_version_effective, cancel_order, pause_order, resume_order,
  request_ready_to_send,
}
use silberloeffel_catering.Printing.Service.{
  KitchenPrintService, request_print, accept_print_job, reject_print_job, acknowledge_print_job,
  claim_next_eligible, reprint,
}

pub data Command : Type 0 where
  create_order :
      (source_inquiry_id : Identifier) (offer_version : OfferVersion) (inquiry : Option Inquiry)
      (evidence : Option AcceptanceEvidence) (order_id order_version_id : Identifier)
      → Command
  change_version :
      (order : Order) (date : Date) (window location : Text) (guests : Option ℕ) (mode : Text)
      (context : Option OperationalContextData) (order_version_id : Identifier)
      → Command
  set_candidate : (order_id order_version_id : Identifier) → Command
  propose_change :
      (order_id : Identifier) (date : Date) (window location : Text) (guests : Option ℕ)
      (mode actor reason : Text) (context : Option OperationalContextData)
      (order_version_id : Identifier)
      → Command
  propose_address :
      (order_id parent : Identifier) (address : Option CustomerAddress) (actor reason : Text)
      (order_version_id : Identifier)
      → Command
  confirm_print make_effective : (order_id order_version_id : Identifier) → Command
  cancel : (order_id : Identifier) (later : DateTime) → Command
  pause :
      (order_id : Identifier) (reason_code : Text) (remark : Option Text) (actor : Text)
      (command_id : Identifier) (latest : Option Identifier) (fresh : Identifier)
      → Command
  resume :
      (order_id : Identifier) (reason_code : Text) (remark : Option Text) (actor : Text)
      (command_id current latest fresh : Identifier)
      → Command
  release : (order_id : Identifier) → Command
  request :
      (order_id order_version_id : Identifier) (given : Option Identifier) (fresh : Identifier)
      → Command
  accept acknowledge : (print_job_id : Identifier) → Command
  reject : (print_job_id : Identifier) (code : Text) → Command
  claim : (later : DateTime) → Command
  print_again :
      (print_job_id : Identifier) (given : Option Identifier) (fresh : Identifier) → Command

-- The world after a command at a time, whether it returned or raised.
unfoldable pub perform : KitchenPrintService → DateTime → Command → World → World
unfolding create_order_from_offer_version create_relevant_order_change_version
    set_candidate_order_version propose_order_version_change propose_delivery_address_change
    confirm_kitchen_print make_order_version_effective cancel_order pause_order resume_order
    request_ready_to_send request_print accept_print_job reject_print_job acknowledge_print_job
    claim_next_eligible reprint
perform self now (create_order inquiry_id offer inquiry evidence order_id version_id) w =
    (create_order_from_offer_version inquiry_id offer inquiry evidence order_id version_id now w).1
perform self now (change_version order date window location guests mode context version_id) w =
    (create_relevant_order_change_version order date window location guests mode context version_id
      now w).1
perform self now (set_candidate order_id version_id) w =
    (set_candidate_order_version order_id version_id now w).1
perform self now
      (propose_change order_id date window location guests mode actor reason context version_id) w =
    (propose_order_version_change order_id date window location guests mode actor reason context
      version_id now w).1
perform self now (propose_address order_id parent address actor reason version_id) w =
    (propose_delivery_address_change order_id parent address actor reason version_id now w).1
perform self now (confirm_print order_id version_id) w =
    (confirm_kitchen_print order_id version_id now w).1
perform self now (make_effective order_id version_id) w =
    (make_order_version_effective order_id version_id now w).1
perform self now (cancel order_id later) w = (cancel_order order_id now later w).1
perform self now (pause order_id reason remark actor command latest fresh) w =
    (pause_order order_id reason remark actor command latest fresh now w).1
perform self now (resume order_id reason remark actor command current latest fresh) w =
    (resume_order order_id reason remark actor command current latest fresh now w).1
perform self now (release order_id) w = (request_ready_to_send order_id w).1
perform self now (request order_id version_id given fresh) w =
    (request_print self order_id version_id given fresh now w).1
perform self now (accept id) w = (accept_print_job self id now w).1
perform self now (acknowledge id) w = (acknowledge_print_job self id now w).1
perform self now (reject id code) w = (reject_print_job self id code now w).1
perform self now (claim later) w = (claim_next_eligible self now later w).1
perform self now (print_again id given fresh) w = (reprint self id given fresh now w).1

unfoldable pub perform_all : KitchenPrintService → List (DateTime × Command) → World → World
unfolding perform
perform_all self [] w = w
perform_all self ((now, command) ∷ rest) w = perform_all self rest (perform self now command w)
