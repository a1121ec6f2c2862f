-- ===== src/Tests/System.antt =====
-- The theorem on all commands, applied to the life of one order.
use silberloeffel_catering.Common.{none, some, [], ◌∷◌, List}
use silberloeffel_catering.Orders.Model.{DateTime}
use silberloeffel_catering.World.{empty_world}
use silberloeffel_catering.Printing.Service.Sound.{IsOrderly}
use silberloeffel_catering.System.{
  Command, create_order, request, claim, acknowledge, make_effective, release, perform_all,
}
use silberloeffel_catering.System.Orderly.{perform_all-IsOrderly}
use silberloeffel_catering.Tests.Life.{offer, evidence, service}

abbrev commands : List (DateTime × Command)
commands =
    (100, create_order 2 offer none (some evidence) 1 10)
    ∷ (101, request 1 10 none 20)
    ∷ (102, claim 103)
    ∷ (104, acknowledge 20)
    ∷ (105, make_effective 1 10)
    ∷ (106, release 1)
    ∷ []

perform_all-IsOrderly_example :
    IsOrderly
      (perform_all service commands empty_world).orders
      (perform_all service commands empty_world).jobs
perform_all-IsOrderly_example = perform_all-IsOrderly service commands
