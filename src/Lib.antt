-- ===== src/Lib.antt =====
-- silberloeffel-catering: the operational core of a catering office.
--
-- An accepted offer becomes an order with a first version. Versions are immutable snapshots; a change
-- is a new version, which is proposed as the candidate, printed in the kitchen, and made effective
-- once the print is confirmed. An order is released when its effective version is confirmed, no change
-- is pending, and it is neither paused nor cancelled.
--
-- Parts and files:
--   Common            lists, dicts, sorting, texts, exceptions (Results) and stateful methods (Exec)
--   Orders/Model      src/catering_system/domain/order.py, order_operational_context.py and
--                     logistics_timing.py: the records and the checks of their constructors
--   Orders/Repository src/catering_system/repositories/in_memory_order_repository.py: a method is a
--                     function from the store to the next store or an exception
--   Orders/Context, Orders/Service, Orders/Proposal
--                     src/catering_system/services/order_service.py
--   Pause             src/catering_system/domain/order_operational_pause.py and
--                     repositories/in_memory_order_operational_pause_repository.py
--   KitchenPrint/Job  src/catering_system/domain/kitchen_print_job.py
--   World             the state that the services share, and the events of
--                     src/catering_system/domain/operational_core_events.py
--   ReadyToSend       src/catering_system/domain/ready_to_send.py
--   OperationalCore   src/catering_system/services/operational_core_service.py
--   Printing          src/catering_system/repositories/in_memory_kitchen_print_job_repository.py and
--                     src/catering_system/services/kitchen_print_service.py
--   System            the commands of the three services above on one state, in any order
--   Payments          src/catering_system/domain/order_payment_reminder.py (Model, Facts, Derive),
--                     repositories/in_memory_payment_reminder_repository.py (Repository) and
--                     services/payment_reminder_service.py (Dates, View, Save, Commands, Laws, Advice)
--   Courier           src/catering_system/domain/courier_cash_handoff.py (Model, Codec, Answer),
--                     services/courier_cash_context_service.py (Context),
--                     repositories/sqlite_courier_cash_repository.py as a list of events (Journal) and
--                     services/courier_cash_service.py (Service)
--   ManualTasks       src/catering_system/domain/manual_task.py (Model),
--                     repositories/in_memory_manual_task_repository.py and
--                     services/manual_task_service.py (Service)
--   Offers            src/catering_system/domain/offer.py (Model, Aggregate) and
--                     repositories/in_memory_offer_repository.py (Repository)
--   Tests             one order's life, run by the commands, and the theorems applied to it
--
-- The services are functions on one World: the order store, the pause events, the print attempts and
-- the events in the order in which the sink sees them. A command returns a value or an exception beside
-- the next world, so what is written before a raise stays written. The print repository calls the order
-- repository, as in the source, and its claim, which runs under a lock, is one step.
--
-- Representation: an identifier is a number and 0 is the empty string; identifiers are only compared,
-- ordered and tested for emptiness. Instants and durations are microseconds in UTC, days are ordinals,
-- and times of day have no zone, so the checks of time zones have no counterpart; the day in Berlin of
-- an instant is a parameter of the payment reminders and of the offers. Texts are lists of
-- code points. Numbers are unbounded, as in Python, and a date outside of the calendar raises. Every loop is over a
-- list, but for the search of a working day, whose three rounds pass any weekend.
-- The clock and the identifier factories are arguments of a command, one for each reading; the test for
-- a canonical UUID4 is a parameter of the service. A ValueError carries which message it has, without
-- the quoted values. The cash commands write to the payments and the journal alone; the hashes of a
-- request and of a context, the texts of JSON objects, and those of UUIDs and instants, are
-- parameters. A missing event sink is the same as one that nobody reads.
--
-- Not modelled: log lines; the SQLite repositories but for the cash journal; the office panel, intake
-- adapters and scripts; the positions, charges and totals of an offer and the service on it; inquiries
-- beyond the fields that an order reads; progression read models and recommendations.
pub mod Common
pub mod Orders
pub mod KitchenPrint
pub mod Pause
pub mod World
pub mod ReadyToSend
pub mod OperationalCore
pub mod Printing
pub mod System
pub mod Payments
pub mod Courier
pub mod ManualTasks
pub mod Offers
pub mod Tests
