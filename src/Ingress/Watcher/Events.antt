-- ===== src/Ingress/Watcher/Events.antt =====
-- What an event leaves in the route cache, host by host.
use pipeops_k8_agent.Prelude.{
  ◌≡◌, refl, sym, ◌∙◌, ◌≢◌, ◌⊎◌, inl, inr, true, Option, none, some, List, [], ◌∷◌, All,
}
use pipeops_k8_agent.Prelude.Bytes.{Bytes, Bytes-discrete}
use pipeops_k8_agent.Prelude.Map
use pipeops_k8_agent.Ingress.Routes.{Services, Ingress, Route, is_pipe_ops_managed, extract_routes}
use pipeops_k8_agent.Ingress.Watcher.{
  IngressService, Controller, IngressWatcher, Action, add, update, delete, register_route,
  register_routes, unregister_route, unregister_routes, controller_service, routes_added,
  event_routes, on_ingress_event,
}

abbrev pub Listed : Route → List Route → Type 0
Listed r [] = ⊥
Listed r (q ∷ qs) = (r ≡ q) ⊎ Listed r qs

abbrev pub cached_under : IngressWatcher → Bytes → Option Route
cached_under w h = Map.lookup Bytes-discrete h w.route_cache

-- What an action leaves under the host of a route.
abbrev pub left_by : Action → Route → Option Route
left_by delete r = none
left_by add r = some r
left_by update r = some r

-- No route has the host, and its entry is as before; or the entry is what one of them leaves.
abbrev pub EntryAfter : Action → List Route → Bytes → Option Route → Option Route → Type 0
EntryAfter action rs h old new =
    (All (λ r. r.host ≢ h) rs × (new ≡ old))
    ⊎ ((r : Route) × Listed r rs × (r.host ≡ h) × (new ≡ left_by action r))

-- One more route in front.
one_more :
    (action : Action) (r : Route) (rs : List Route) (h : Bytes) (old first new : Option Route)
    → ((r.host ≡ h) → first ≡ left_by action r)
    → ((r.host ≢ h) → first ≡ old)
    → EntryAfter action rs h first new
    → EntryAfter action (r ∷ rs) h old new
one_more action r rs h old first new same other (inr (q, l, p, e)) = inr (q, inr l, p, e)
one_more action r rs h old first new same other (inl (apart, e)) = elim (Bytes-discrete r.host h) [
  | yes p ↦ inr (r, inl refl, p, e ∙ same p)
  | no p ↦ inl ((p, apart), e ∙ other p)
]

registered :
    (c : Controller) (s : IngressService) (g : Ingress) (action : Action) (rs : List Route)
    (h : Bytes) (w : IngressWatcher)
    → ((r : Route) → left_by action r ≡ some r)
    → EntryAfter action rs h (cached_under w h) (cached_under (register_routes c s g rs w) h)
unfolding register_routes register_route
registered c s g action [] h w k = inl (tt, refl)
registered c s g action (r ∷ rs) h w k =
    let w' = register_route c s g r w in
    one_more action r rs h (cached_under w h) (cached_under w' h)
      (cached_under (register_routes c s g rs w') h)
      (λ p. rw (← p) (Map.lookup-insert_self Bytes-discrete r.host r w.route_cache ∙ sym (k r)))
      (λ p. Map.lookup-insert_ne Bytes-discrete r.host h r w.route_cache (λ e. p (sym e)))
      (registered c s g action rs h w' k)

unregistered :
    (c : Controller) (rs : List Route) (h : Bytes) (w : IngressWatcher)
    → EntryAfter delete rs h (cached_under w h) (cached_under (unregister_routes c rs w) h)
unfolding unregister_routes unregister_route
unregistered c [] h w = inl (tt, refl)
unregistered c (r ∷ rs) h w =
    let w' = unregister_route c r w in
    one_more delete r rs h (cached_under w h) (cached_under w' h)
      (cached_under (unregister_routes c rs w') h)
      (λ p. rw (← p) (Map.lookup-delete_self Bytes-discrete r.host w.route_cache))
      (λ p. Map.lookup-delete_ne Bytes-discrete r.host h w.route_cache (λ e. p (sym e)))
      (unregistered c rs h w')

event_routes-EntryAfter :
    (c : Controller) (detected : Option IngressService) (s : IngressService) (g : Ingress)
    (action : Action) (rs : List Route) (h : Bytes) (w : IngressWatcher)
    → controller_service w.ingress_service detected ≡ some s
    → EntryAfter action rs h
        (cached_under w h)
        (cached_under (event_routes c detected g action rs w) h)
unfolding event_routes routes_added
event_routes-EntryAfter c detected s g action [] h w e = inl (tt, refl)
event_routes-EntryAfter c detected s g delete (r ∷ rs) h w e = unregistered c (r ∷ rs) h w
event_routes-EntryAfter c detected s g add (r ∷ rs) h w e =
    rw (e, routes_added)
      (registered c s g add (r ∷ rs) h (record w { ingress_service = some s }) (λ q. refl))
event_routes-EntryAfter c detected s g update (r ∷ rs) h w e =
    rw (e, routes_added)
      (registered c s g update (r ∷ rs) h (record w { ingress_service = some s }) (λ q. refl))

-- An event of a managed Ingress, while an ingress controller is known or detected, changes the
-- cache under the hosts of the routes that the Ingress has now, and under no other: there an add or
-- an update leaves one of these routes, and a delete leaves nothing. So a host that an update
-- takes out of the Ingress keeps its entry.
pub on_ingress_event-EntryAfter :
    (services : Services) (c : Controller) (detected : Option IngressService) (s : IngressService)
    (g : Ingress) (action : Action) (h : Bytes) (w : IngressWatcher)
    → is_pipe_ops_managed g ≡ true
    → controller_service w.ingress_service detected ≡ some s
    → EntryAfter action
        (extract_routes services g)
        h
        (cached_under w h)
        (cached_under (on_ingress_event services c detected g action w) h)
unfolding on_ingress_event
on_ingress_event-EntryAfter services c detected s g action h w m e =
    rw m (event_routes-EntryAfter c detected s g action (extract_routes services g) h w e)
