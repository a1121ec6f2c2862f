-- ===== src/Orders/Commands.antt =====
-- The order service keeps the stored orders sound.
use silberloeffel_catering.Common.{ℕ, ◌≡◌, refl, Option, some, arith}
use silberloeffel_catering.Common.Results.{ok}
use silberloeffel_catering.Common.Text.{Text}
use silberloeffel_catering.Orders.Model.{
  Identifier, DateTime, Date, Order, OrderVersion, OperationalContextData, OperationalContext,
}
use silberloeffel_catering.Orders.Repository.{
  OrderStore, get_order, update_order, append_order_version, save_order_with_initial_version,
}
use silberloeffel_catering.Orders.Repository.Soundness.{
  IsSound, update_order-IsSound, append_order_version-IsSound,
  save_order_with_initial_version-IsSound,
}
use silberloeffel_catering.Orders.Context.{Inquiry, OfferVersion, AcceptanceEvidence}
use silberloeffel_catering.Orders.Service.{
  create_order_from_offer_version, create_relevant_order_change_version,
  set_candidate_order_version, initial_order,
}
use silberloeffel_catering.Orders.Proposal.{with_candidate}
use silberloeffel_catering.World.{World}

module _ (P : OrderStore → Type 0) (now : DateTime) (w : World) (start : P w.orders) where
  create_order_from_offer_version-keeps :
      (source_inquiry_id : Identifier) (offer_version : OfferVersion) (inquiry : Option Inquiry)
      (evidence : Option AcceptanceEvidence) (order_id order_version_id : Identifier)
      → ((v : OrderVersion) (c : Option OperationalContext) (s' : OrderStore)
          → save_order_with_initial_version
              (initial_order order_id source_inquiry_id now)
              v
              c
              w.orders
            ≡ ok s'
          → P s')
      → P
          (create_order_from_offer_version source_inquiry_id offer_version inquiry evidence order_id
            order_version_id now w).1.orders
  unfolding create_order_from_offer_version
  create_order_from_offer_version-keeps source_inquiry_id offer_version inquiry evidence order_id
        order_version_id keep =
      grind (arith, keep)

  create_relevant_order_change_version-keeps :
      (order : Order) (date : Date) (window location : Text) (guests : Option ℕ) (mode : Text)
      (context : Option OperationalContextData) (order_version_id : Identifier)
      → ((o : Order) (v : OrderVersion) (c : Option OperationalContext) (s' : OrderStore)
          → get_order w.orders order.order_id ≡ some o
          → append_order_version (record o { updated_at = now }) v c w.orders ≡ ok s'
          → P s')
      → P
          (create_relevant_order_change_version order date window location guests mode context
            order_version_id now w).1.orders
  unfolding create_relevant_order_change_version
  create_relevant_order_change_version-keeps order date window location guests mode context
        order_version_id keep =
      grind (arith, keep)

  set_candidate_order_version-keeps :
      (order_id order_version_id : Identifier)
      → ((o : Order) (s' : OrderStore)
          → get_order w.orders order_id ≡ some o
          → update_order (with_candidate o order_version_id now) w.orders ≡ ok s'
          → P s')
      → P (set_candidate_order_version order_id order_version_id now w).1.orders
  unfolding set_candidate_order_version
  set_candidate_order_version-keeps order_id order_version_id keep = grind (arith, keep)

-- Creating an order from an accepted offer keeps the orders sound on every branch.
pub create_order_from_offer_version-IsSound :
    (source_inquiry_id : Identifier) (offer_version : OfferVersion) (inquiry : Option Inquiry)
    (evidence : Option AcceptanceEvidence) (order_id order_version_id : Identifier) (now : DateTime)
    (w : World)
    → IsSound w.orders
    → IsSound
        (create_order_from_offer_version source_inquiry_id offer_version inquiry evidence order_id
          order_version_id now w).1.orders
create_order_from_offer_version-IsSound source_inquiry_id offer_version inquiry evidence order_id
      order_version_id now w i =
    create_order_from_offer_version-keeps IsSound now w i source_inquiry_id offer_version inquiry
      evidence order_id order_version_id
      (λ v c s' h.
        save_order_with_initial_version-IsSound (initial_order order_id source_inquiry_id now) v c
          w.orders s' i refl h)

-- Appending a version without a candidate keeps the orders sound on every branch.
pub create_relevant_order_change_version-IsSound :
    (order : Order) (date : Date) (window location : Text) (guests : Option ℕ) (mode : Text)
    (context : Option OperationalContextData) (order_version_id : Identifier) (now : DateTime)
    (w : World)
    → IsSound w.orders
    → IsSound
        (create_relevant_order_change_version order date window location guests mode context
          order_version_id now w).1.orders
unfolding get_order
create_relevant_order_change_version-IsSound order date window location guests mode context
      order_version_id now w i =
    create_relevant_order_change_version-keeps IsSound now w i order date window location guests
      mode context order_version_id
      (λ o v c s' found h.
        append_order_version-IsSound _ v c w.orders s' i
          (λ p e. ground (arith, i.consistent.order_key order.order_id o)) h)

-- Setting the candidate keeps the orders sound on every branch.
pub set_candidate_order_version-IsSound :
    (order_id order_version_id : Identifier) (now : DateTime) (w : World)
    → IsSound w.orders
    → IsSound (set_candidate_order_version order_id order_version_id now w).1.orders
unfolding get_order
set_candidate_order_version-IsSound order_id order_version_id now w i =
    set_candidate_order_version-keeps IsSound now w i order_id order_version_id (λ o s' found h.
      update_order-IsSound _ w.orders s' i
        (λ c u e f. i.effective_confirmed order_id c o u found e f) h)
