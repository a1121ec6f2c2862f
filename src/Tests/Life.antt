-- ===== src/Tests/Life.antt =====
-- The order of the witnesses: created, printed, acknowledged, changed, switched and cancelled.
use native.Mathlib.Decide.{ℕ_discrete}
use silberloeffel_catering.Common.{◌≡◌, refl, true, none, some, [], ◌∷◌}
use silberloeffel_catering.Common.Dict.{lookup, insert, values}
use silberloeffel_catering.Common.Sort.{sorted}
use silberloeffel_catering.Common.Text.{codes, text_eq}
use silberloeffel_catering.Common.Results.{ok}
use silberloeffel_catering.Orders.Model.{
  caterer_suggestion, Order, OrderVersion, guest_count_estimate, new_order_version,
  validate_planning_mode, same_version,
}
use silberloeffel_catering.Orders.Repository.{
  get_order, get_order_version, save_order_with_initial_version, validate_order_references,
  reference_owned, add_operational_context, update_order, update_order_version,
  append_order_version, list_order_versions,
}
use silberloeffel_catering.Orders.Context.{
  OfferVersion, AcceptanceEvidence, operational_context_for_new_version,
}
use silberloeffel_catering.Orders.Service.{
  create_order_from_offer_version, check_acceptance_evidence,
}
use silberloeffel_catering.Orders.Proposal.{
  propose_order_version_change, changed_version, changed_fields_of, source_version, file_candidate,
  announce,
}
use silberloeffel_catering.KitchenPrint.Job.{
  KitchenPrintJob, new_job, validate_kitchen_print_job_transition,
}
use silberloeffel_catering.World.{
  World, empty_world, kitchen_print_confirmed, order_version_made_effective,
  order_version_change_proposed,
}
use silberloeffel_catering.OperationalCore.{live_order, owned_version, confirm_kitchen_print}
use silberloeffel_catering.Printing.Repository.{
  save, update, get_job, validate_new_job, list_for_version, acknowledge_and_confirm,
  write_confirmation, check_activated, activation_applies, check_confirmation,
}
use silberloeffel_catering.Printing.Service.{
  KitchenPrintService, request_print, accept_print_job, acknowledge_print_job, active_owned_version,
  active_job_context, activation_after_successful_print,
}

abbrev pub offer : OfferVersion
offer = record {
  offer_version_id = 30;
  offer_id = 31;
  event_date = 738000;
  time_window_text = codes "abends";
  location_text = codes "Wien";
  guest_count = some 80;
  planning_mode = caterer_suggestion;
  variants = 33 ∷ 32 ∷ [];
  delivery_date_local = none;
  delivery_window_start_local = none;
  delivery_window_end_local = none;
  event_start_local = none;
  delivery_time_local = none;
}

abbrev pub evidence : AcceptanceEvidence
evidence = record { offer_id = 31; accepted_offer_version_id = 30; accepted_variant_id = 32 }

abbrev pub order : Order
order = record {
  order_id = 1;
  source_inquiry_id = 2;
  created_at = 100;
  updated_at = 100;
  candidate_order_version_id = none;
  effective_order_version_id = none;
  cancelled_at = none;
}

abbrev pub version : OrderVersion
version = record {
  order_version_id = 10;
  order_id = 1;
  version_number = 1;
  created_at = 100;
  event_date = 738000;
  time_window_text = codes "abends";
  location_text = codes "Wien";
  guest_count_estimate = some 80;
  planning_mode = caterer_suggestion;
  kitchen_print_confirmed_at = none;
  parent_order_version_id = none;
  created_by = none;
  change_reason = none;
  changed_fields = [];
  delivery_date_local = none;
  delivery_window_start_local = none;
  delivery_window_end_local = none;
  event_start_local = none;
  delivery_time_local = none;
}

abbrev pub created : World
created = record empty_world {
  orders = record {
    orders = (1, order) ∷ [];
    versions = (10, version) ∷ [];
    operational_contexts = [];
  };
}

pub creates :
    create_order_from_offer_version 2 offer none (some evidence) 1 10 100 empty_world
    ≡ (ok (order, version), created)
unfolding create_order_from_offer_version check_acceptance_evidence new_order_version
    save_order_with_initial_version validate_order_references reference_owned
    add_operational_context lookup insert values
creates = refl

abbrev pub service : KitchenPrintService
service = record {
  policy = record { acceptance_timeout = 10; acknowledgment_timeout = 10 };
  is_uuid4 = λ _. true;
}

abbrev pub job : KitchenPrintJob
job = record {
  print_job_id = 50;
  order_id = 1;
  order_version_id = 10;
  attempt_number = 1;
  requested_at = 200;
  accept_deadline_at = 210;
  accepted_at = none;
  ack_deadline_at = none;
  rejected_at = none;
  rejection_code = none;
  acknowledged_at = none;
  superseded_at = none;
  supersedes_print_job_id = none;
}

abbrev pub requested : World
requested = record created { jobs = (50, job) ∷ [] }

pub requests : request_print service 1 10 (some 50) 51 200 created ≡ (ok job, requested)
unfolding request_print active_owned_version get_order get_order_version lookup insert values
    list_for_version sorted new_job save validate_new_job get_job
requests = refl

abbrev pub accepted_job : KitchenPrintJob
accepted_job = record job { accepted_at = some 205; ack_deadline_at = some 215 }

abbrev pub accepted : World
accepted = record created { jobs = (50, accepted_job) ∷ [] }

pub accepts : accept_print_job service 50 205 requested ≡ (ok accepted_job, accepted)
unfolding accept_print_job active_job_context active_owned_version get_order get_order_version
    lookup insert new_job update validate_kitchen_print_job_transition get_job
accepts = refl

abbrev pub acknowledged_job : KitchenPrintJob
acknowledged_job = record accepted_job { acknowledged_at = some 207 }

abbrev pub confirmed_version : OrderVersion
confirmed_version = record version { kitchen_print_confirmed_at = some 207 }

abbrev pub active_order : Order
active_order = record order { effective_order_version_id = some 10; updated_at = 207 }

abbrev pub acknowledged : World
acknowledged = record {
  orders = record {
    orders = (1, active_order) ∷ [];
    versions = (10, confirmed_version) ∷ [];
    operational_contexts = [];
  };
  pauses = [];
  jobs = (50, acknowledged_job) ∷ [];
  events = kitchen_print_confirmed 1 10 ∷ order_version_made_effective 1 10 ∷ [];
}

pub acknowledges :
    acknowledge_print_job service 50 207 accepted
    ≡ (ok (acknowledged_job, confirmed_version), acknowledged)
unfolding acknowledge_print_job active_job_context active_owned_version get_order get_order_version
    lookup insert new_job validate_kitchen_print_job_transition get_job acknowledge_and_confirm
    write_confirmation check_activated activation_applies check_confirmation
    activation_after_successful_print update_order update_order_version validate_order_references
    reference_owned same_version ℕ_discrete
acknowledges = refl

abbrev pub proposed_version : OrderVersion
proposed_version = record version {
  order_version_id = 11;
  version_number = 2;
  created_at = 300;
  guest_count_estimate = some 95;
  parent_order_version_id = some 10;
  created_by = some (codes "office");
  change_reason = some (codes "mehr Gäste");
  changed_fields = guest_count_estimate ∷ [];
}

abbrev pub proposed_order : Order
proposed_order = record active_order { candidate_order_version_id = some 11; updated_at = 300 }

abbrev pub proposed : World
proposed = record acknowledged {
  orders = record {
    orders = (1, proposed_order) ∷ [];
    versions = (10, confirmed_version) ∷ (11, proposed_version) ∷ [];
    operational_contexts = [];
  };
  events =
      kitchen_print_confirmed 1 10
      ∷ order_version_made_effective 1 10
      ∷ order_version_change_proposed 1 (some 10) 11 (codes "office") (codes "mehr Gäste")
          (guest_count_estimate ∷ []) 300
      ∷ [];
}

pub proposes :
    propose_order_version_change 1 738000
      (codes "abends")
      (codes "Wien")
      (some 95)
      (codes "caterer_suggestion")
      (codes "office")
      (codes "mehr Gäste")
      none
      11
      300
      acknowledged
    ≡ (ok proposed_version, proposed)
unfolding propose_order_version_change live_order changed_version source_version
    validate_planning_mode changed_fields_of operational_context_for_new_version file_candidate
    announce append_order_version validate_order_references reference_owned add_operational_context
    get_order get_order_version list_order_versions sorted lookup insert values text_eq
    new_order_version
proposes = refl

-- Both versions confirmed, and the second one the candidate.
abbrev pub ready_to_switch : World
ready_to_switch = record proposed {
  orders = record {
    orders = (1, proposed_order) ∷ [];
    versions =
        (10, confirmed_version)
        ∷ (11, record proposed_version { kitchen_print_confirmed_at = some 310 })
        ∷ [];
    operational_contexts = [];
  };
  events =
      kitchen_print_confirmed 1 10
      ∷ order_version_made_effective 1 10
      ∷ order_version_change_proposed 1 (some 10) 11 (codes "office") (codes "mehr Gäste")
          (guest_count_estimate ∷ []) 300
      ∷ kitchen_print_confirmed 1 11
      ∷ [];
}

pub confirms :
    confirm_kitchen_print 1 11 310 proposed
    ≡ (ok (record proposed_version { kitchen_print_confirmed_at = some 310 }), ready_to_switch)
unfolding confirm_kitchen_print owned_version get_order get_order_version lookup insert
    update_order_version same_version ℕ_discrete
confirms = refl
