-- ===== src/Tests/Controlplane.antt =====
-- Runs of the model of internal/controlplane, and its theorems at concrete inputs.
use pipeops_k8_agent.Prelude.{none, some, List, ◌≡◌, refl, ◌++◌, true, false, [], ◌∷◌, arith}
use pipeops_k8_agent.Prelude.Bytes.{codes}
use pipeops_k8_agent.Prelude.Text.{has_prefix}
use pipeops_k8_agent.Controlplane.RequestPath.{
  sanitize_url_path, remove_byte, replace_pair, collapse, contains_pair, ensure_slash,
  is_valid_k8s_api_path, allowed_prefixes, contains, has_any_prefix,
}
use pipeops_k8_agent.Controlplane.RequestPath.Sanitized.{IsSafe, sanitize_url_path-IsSafe}
use pipeops_k8_agent.Controlplane.RequestPath.Allowed.{sanitize-allowed}
use pipeops_k8_agent.Controlplane.Reconnect.{
  Round, failed, connected, reconnect_loop, ended_connected,
}
use pipeops_k8_agent.Controlplane.Reconnect.Backoff.{backoff_waits, reconnect_loop_lem}

sanitize_url_path-IsSafe_example : IsSafe (sanitize_url_path (codes "api//..///v1/../pods"))
sanitize_url_path-IsSafe_example = sanitize_url_path-IsSafe (codes "api//..///v1/../pods")

sanitized : sanitize_url_path (codes "api//..///v1/../pods") ≡ codes "/api/v1/pods"
unfolding sanitize_url_path remove_byte replace_pair collapse contains_pair ensure_slash
sanitized = refl

sanitize-allowed_example :
    has_any_prefix (sanitize_url_path (codes "//api///v1/..pods")) allowed_prefixes ≡ true
unfolding is_valid_k8s_api_path replace_pair contains has_prefix has_any_prefix
sanitize-allowed_example = sanitize-allowed (codes "//api///v1/..pods") refl refl

-- The prefix "/api" is no exact match.
api_prefix : is_valid_k8s_api_path (codes "/apifoo") ≡ true
unfolding is_valid_k8s_api_path replace_pair contains has_prefix has_any_prefix
api_prefix = refl

refused : is_valid_k8s_api_path (codes "/metrics") ≡ false
unfolding is_valid_k8s_api_path replace_pair contains has_prefix has_any_prefix
refused = refl

-- Three failures, of which the second wait is cut short by a signal.
abbrev failures : List Round
failures =
    record { jitter = 1; woken = none; outcome = failed }
    ∷ record { jitter = 2; woken = some 5; outcome = failed }
    ∷ record { jitter = 0; woken = none; outcome = failed }
    ∷ []

abbrev success : Round
success = record { jitter = 3; woken = none; outcome = connected }

reconnect_loop_lem_example :
    reconnect_loop 60 8 (failures ++ success ∷ [])
    ≡ (backoff_waits 60 8 0 (failures ++ success ∷ []), ended_connected)
reconnect_loop_lem_example =
    reconnect_loop_lem 60 8 failures success [] (omega arith) (refl, (refl, (refl, tt))) (λ e. cc)

waits : backoff_waits 60 8 0 (failures ++ success ∷ []) ≡ 9 ∷ 5 ∷ 32 ∷ 63 ∷ []
waits = refl
