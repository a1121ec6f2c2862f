-- ===== src/KitchenPrint.antt =====
-- Kitchen print attempts: their facts and the derived state. The repository and the service, which
-- also touch the orders, are in Printing.
pub mod Job
