-- ===== src/Worker/Registry.antt =====
-- app/pkg/worker/handler.go: the handlers by job type; and app/pkg/worker/handlers: the three
-- handlers, whose work is simulated by a pause. A handler's error is its text.
use service_platform.Prelude.{
  ◌%◌, String, Bool, ◌&&◌, Option, none, some, [], Assoc, lookup, insert, ltb, ◌==◌, str_eq,
  if◌then◌else◌,
}
use service_platform.Constant.{init_claim, complete_claim, kyc_verification}
use service_platform.Entity.{Job}

pub record JobHandler : Type 0 where
  pub handle : Job → Option String
  pub can_handle : String → Bool
  pub get_type : String

abbrev pub JobHandlerRegistry : Type 0
JobHandlerRegistry = Assoc JobHandler

abbrev pub new_registry : JobHandlerRegistry
new_registry = []

-- A second handler of a type takes the place of the first.
unfoldable pub register : JobHandler → JobHandlerRegistry → JobHandlerRegistry
register h r = insert h.get_type h r

unfoldable pub get_handler : String → JobHandlerRegistry → Option JobHandler
get_handler type r = lookup type r

unfoldable pub complete_claim_handler : JobHandler
complete_claim_handler = record {
  handle = λ j. none;
  can_handle = λ type. str_eq type complete_claim;
  get_type = complete_claim;
}

unfoldable pub init_claim_handler : JobHandler
init_claim_handler = record {
  handle = λ j. none;
  can_handle = λ type. str_eq type init_claim;
  get_type = init_claim;
}

-- It fails at every even number of attempts from 2 on.
unfoldable pub kyc_handle : Job → Option String
kyc_handle j =
    if ltb 0 j.attempts && j.attempts % 2 == 0
    then some "KYC service temporarily unavailable"
    else none

unfoldable pub kyc_verification_handler : JobHandler
kyc_verification_handler = record {
  handle = kyc_handle;
  can_handle = λ type. str_eq type kyc_verification;
  get_type = kyc_verification;
}

-- The registry that `NewWorkerService` fills.
unfoldable pub worker_registry : JobHandlerRegistry
unfolding register init_claim_handler complete_claim_handler kyc_verification_handler kyc_handle
worker_registry =
    register kyc_verification_handler
      (register complete_claim_handler (register init_claim_handler new_registry))
