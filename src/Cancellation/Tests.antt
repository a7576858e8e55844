-- ===== src/Cancellation/Tests.antt =====
-- A token on a concrete sequence of calls.
use ftre_agent_core.Prelude.{List, [], ◌∷◌, ◌≡◌, refl, keep}
use ftre_agent_core.Cancellation.{
  new_token, Operation, cancelling, registering, unregistering, run_all,
}
use ftre_agent_core.Cancellation.Laws.{registrations, IsFair, run_all-IsFair}

abbrev calls : List Operation
calls =
    registering 7
    ∷ registering 8
    ∷ unregistering 0
    ∷ cancelling "stop"
    ∷ registering 9
    ∷ cancelling "late"
    ∷ []

both_told : (run_all calls new_token).calls ≡ (8, "stop") ∷ (9, "stop") ∷ []
unfolding run_all keep
both_told = refl

run_all-IsFair_example : IsFair (registrations calls) (run_all calls new_token)
run_all-IsFair_example = run_all-IsFair calls
