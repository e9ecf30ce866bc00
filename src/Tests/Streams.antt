-- ===== src/Tests/Streams.antt =====
-- Runs of the model of the streams to Kubernetes, and its theorems at concrete inputs.
use pipeops_k8_agent.Prelude.{◌≡◌, refl, true, false, none, some, List, [], ◌∷◌, ◌++◌, ℕ_discrete}
use pipeops_k8_agent.Prelude.Bytes.{Bytes, Bytes-discrete, codes}
use pipeops_k8_agent.Prelude.Text.{has_prefix}
use pipeops_k8_agent.Prelude.Map
use pipeops_k8_agent.Controlplane.RequestPath.{
  is_valid_k8s_api_path, replace_pair, contains, has_any_prefix,
}
use pipeops_k8_agent.Controlplane.Messages.{WebSocketMessage, text}
use pipeops_k8_agent.Controlplane.Streams.{
  Stream, new_manager, new_stream, closed_stream, stream_of, object, add_stream, handle_proxy_start,
}
use pipeops_k8_agent.Controlplane.Streams.Events.{
  Event, proxy_start, proxy_close, disconnects, dialled, relays_ended, handle_event, handle_events,
}
use pipeops_k8_agent.Controlplane.Streams.Relay.{relay_to_k8s, relay_to_client, from_channel}
use pipeops_k8_agent.Controlplane.Streams.Safety.{IsSound, handle_events-IsSound}
use pipeops_k8_agent.Controlplane.Streams.Leaks.{restart-lost, dialling-lost}

abbrev id : Bytes
id = codes "a"

abbrev start : WebSocketMessage
start = record {
  kind = codes "ws_start";
  request_id = codes "r";
  payload = some ((codes "stream_id", text id) ∷ (codes "path", text (codes "/api/v1")) ∷ []);
}

-- Two starts with one ID, of which the second is closed.
abbrev events : List Event
events = proxy_start start ∷ dialled 0 true ∷ proxy_start start ∷ proxy_close start ∷ []

handle_events-IsSound_example : IsSound (handle_events new_manager events)
handle_events-IsSound_example = handle_events-IsSound events

restart-lost_example :
    (object
        (handle_events new_manager
          ((proxy_start start ∷ []) ++ proxy_start start ∷ disconnects ∷ []))
        0
      ≡ some (new_stream id))
    × (stream_of
          (handle_events new_manager
            ((proxy_start start ∷ []) ++ proxy_start start ∷ relays_ended 0 ∷ []))
          id
        ≡ none)
    × (object
          (handle_events new_manager
            ((proxy_start start ∷ []) ++ proxy_start start ∷ relays_ended 0 ∷ []))
          (handle_events new_manager (proxy_start start ∷ [])).next_object
        ≡ some (closed_stream (new_stream id)))
unfolding handle_events handle_event handle_proxy_start add_stream new_stream new_manager Map.lookup
    Map.insert Bytes-discrete ℕ_discrete is_valid_k8s_api_path replace_pair contains has_prefix
    has_any_prefix
restart-lost_example =
    restart-lost (proxy_start start ∷ []) (disconnects ∷ []) start id 0 (new_stream id) refl refl
      refl refl refl (tt, tt)

dialling-lost_example :
    (t : Stream) × (object
        (handle_events new_manager
          ((proxy_start start ∷ []) ++ proxy_close start ∷ dialled 0 true ∷ disconnects ∷ []))
        0
      ≡ some t)
    × (t.connected ≡ true)
    × (t.conn_closed ≡ false)
unfolding handle_events handle_event handle_proxy_start add_stream new_stream new_manager Map.lookup
    Map.insert Bytes-discrete ℕ_discrete is_valid_k8s_api_path replace_pair contains has_prefix
    has_any_prefix
dialling-lost_example =
    dialling-lost (proxy_start start ∷ []) (disconnects ∷ []) start id 0 (new_stream id) true refl
      refl refl refl refl refl (tt, tt)

-- Text is put on stdin, and stdout comes back as text.
typed_text : relay_to_k8s true (1 ∷ codes "ls") ≡ some (2, 0 ∷ codes "ls")
unfolding relay_to_k8s
typed_text = refl

printed : relay_to_client true 2 (1 ∷ codes "ok") ≡ 1 ∷ codes "ok"
unfolding relay_to_client from_channel
printed = refl
