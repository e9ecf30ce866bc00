-- ===== src/Agent/TcpTunnel/NoLeak.antt =====
-- No dialled connection is lost: whatever the order of the handlers, the forwarders and the
-- cleanups, a connection is closed or still read by its forwarder.
use pipeops_k8_agent.Prelude.{
  ℕ, ◌≡◌, refl, ◌≢◌, ◌⊎◌, inl, inr, Bool, true, false, Option, none, some, ◌∷◌, ◌+◌, Option-cases,
}
use pipeops_k8_agent.Prelude.Bytes.{Bytes}
use pipeops_k8_agent.Prelude.Map
use pipeops_k8_agent.Agent.TunnelManager.{
  TunnelManagerConfig, TcpTunnel, get_tcp_connection, u64, cleanup_idle_tcp, new_tunnel_manager,
}
use pipeops_k8_agent.Agent.TunnelManager.Cleanup.{In, In-append_right, active_tcp-HasKeys}
use pipeops_k8_agent.Agent.TcpTunnel.Entries.{
  reader, Shrinks-trans, cleanup-Shrinks, store-Shrinks, received-Shrinks, received-kept,
}
use pipeops_k8_agent.Agent.TcpTunnel.{
  TcpAgent, write_error, connection_failed, new_tcp_agent, store, handle_tcp_tunnel_start,
  data_found, handle_tcp_tunnel_data, close_found, handle_tcp_tunnel_close, received, forward_read,
  Step, starts, fails, writes, closes, reads, exits, cleans, Reach, here, next,
}
use pipeops_k8_agent.Agent.TcpTunnel.Invariant.{
  Inv, manager-Inv, close_remove, close_remove-HasKeys, close_remove-Shrinks, close_remove-Grows,
  store-HasKeys, exit-Inv, start-Inv,
}

data_found-Inv :
    (a : TcpAgent) (id : Bytes) (t : TcpTunnel) (write : Option ℕ) (now : ℕ)
    → get_tcp_connection a.manager id ≡ some t
    → Inv a
    → Inv (data_found a id t write now)
unfolding data_found close_remove
data_found-Inv a id t (some n) now e v =
    let t' = record t { last_activity = now; bytes_sent = u64 (t.bytes_sent + n) } in
    manager-Inv a (store id t' a.manager) a.sent v (store-Shrinks a.manager id t' t e refl)
      (unfold store in λ c i. i) (store-HasKeys a.manager id t' v.keys)
data_found-Inv a id t none now e v =
    let t' = record t { last_activity = now } in
    let tm = store id t' a.manager in
    manager-Inv a (close_remove tm t.service_conn id) ((id, write_error) ∷ a.sent) v
      (Shrinks-trans a.manager tm (close_remove tm t.service_conn id)
        (store-Shrinks a.manager id t' t e refl) (close_remove-Shrinks tm t.service_conn id))
      (unfold store in close_remove-Grows tm t.service_conn id)
      (close_remove-HasKeys tm t.service_conn id (store-HasKeys a.manager id t' v.keys))

cleanup-Inv :
    (a : TcpAgent) (now : ℕ) → Inv a → Inv (record a { manager = cleanup_idle_tcp a.manager now })
unfolding cleanup_idle_tcp
cleanup-Inv a now v =
    manager-Inv a (cleanup_idle_tcp a.manager now) a.sent v (cleanup-Shrinks a.manager now v.keys)
      (λ c i. In-append_right c _ a.manager.closed i)
      (active_tcp-HasKeys a.manager.config.tcp_idle_timeout now a.manager.tcp_connections v.keys)

received-Inv :
    (a : TcpAgent) (id : Bytes) (conn n now : ℕ)
    → Inv a
    → Inv (record a { manager = received a.manager id conn n now })
received-Inv a id conn n now v =
    let (same, keys) = received-kept a.manager id conn n now v.keys in
    manager-Inv a (received a.manager id conn n now) a.sent v
      (received-Shrinks a.manager id conn n now) (λ c i. rw same i) keys

write-Inv :
    (a : TcpAgent) (id : Bytes) (write : Option ℕ) (now : ℕ)
    → Inv a
    → Inv (handle_tcp_tunnel_data a id write now).0
unfolding handle_tcp_tunnel_data
write-Inv a id write now v = elim (Option-cases (get_tcp_connection a.manager id)) [
  | inl e ↦ rw (e, handle_tcp_tunnel_data) v
  | inr (t, e) ↦ rw (e, handle_tcp_tunnel_data) (data_found-Inv a id t write now e v)
]

close-Inv : (a : TcpAgent) (id : Bytes) → Inv a → Inv (handle_tcp_tunnel_close a id)
unfolding handle_tcp_tunnel_close close_found close_remove
close-Inv a id v = elim (Option-cases (get_tcp_connection a.manager id)) [
  | inl e ↦ rw (e, handle_tcp_tunnel_close) v
  | inr (t, e) ↦
      rw (e, handle_tcp_tunnel_close)
        (manager-Inv a (close_remove a.manager t.service_conn id) a.sent v
          (close_remove-Shrinks a.manager t.service_conn id)
          (close_remove-Grows a.manager t.service_conn id)
          (close_remove-HasKeys a.manager t.service_conn id v.keys))
]

forward-Inv :
    (a : TcpAgent) (id : Bytes) (conn n now : ℕ) (delivered : Bool)
    → reader a conn ≡ some id
    → Inv a
    → Inv (forward_read a id conn n now delivered)
unfolding forward_read
forward-Inv a id conn n now true r v = received-Inv a id conn n now v
forward-Inv a id conn n now false r v =
    exit-Inv (record a { manager = received a.manager id conn n now }) id conn r
      (received-Inv a id conn n now v)

-- Every step keeps the invariant.
pub Step-Inv : {a b : TcpAgent} → Step a b → Inv a → Inv b
Step-Inv {a} (starts id tunnel_id port conn now fresh) v =
    start-Inv a id tunnel_id port conn now fresh v
Step-Inv {a} (fails id tunnel_id port now) v =
    unfold handle_tcp_tunnel_start in
    manager-Inv a a.manager ((id, connection_failed) ∷ a.sent) v (λ j t e. (t, e, refl)) (λ c i. i)
      v.keys
Step-Inv {a} (writes id write now) v = write-Inv a id write now v
Step-Inv {a} (closes id) v = close-Inv a id v
Step-Inv {a} (reads id conn n now delivered r) v = forward-Inv a id conn n now delivered r v
Step-Inv {a} (exits id conn r) v = exit-Inv a id conn r v
Step-Inv {a} (cleans now) v = cleanup-Inv a now v

new-Inv : (config : TunnelManagerConfig) → Inv (new_tcp_agent config)
unfolding new_tcp_agent new_tunnel_manager get_tcp_connection Map.lookup
new-Inv config = record { kept = λ c i. absurd i; served = λ id t e. cc; keys = tt }

Reach-Inv : {a b : TcpAgent} → Inv a → Reach a b → Inv b
Reach-Inv v here = v
Reach-Inv v (next r s) = Step-Inv s (Reach-Inv v r)

-- After any sequence of handlers, forwarder rounds and cleanups on a new agent, every connection
-- that was dialled has been closed or still has a goroutine that reads it.
pub no_leak :
    (config : TunnelManagerConfig) (a : TcpAgent) (c : ℕ)
    → Reach (new_tcp_agent config) a
    → In c a.dialed
    → In c a.manager.closed ⊎ (reader a c ≢ none)
no_leak config a c r i = (Reach-Inv (new-Inv config) r).kept c i

-- After any such sequence, the connection of every tunnel in the manager's map is read by a
-- goroutine under the tunnel's own request ID.
pub registered_read :
    (config : TunnelManagerConfig) (a : TcpAgent) (id : Bytes) (t : TcpTunnel)
    → Reach (new_tcp_agent config) a
    → get_tcp_connection a.manager id ≡ some t
    → reader a t.service_conn ≡ some id
registered_read config a id t r e = (Reach-Inv (new-Inv config) r).served id t e
