-- ===== src/Gateway/Engine/Conntrack/Calls.antt =====
-- crates/pim-gateway/src/engine.rs, `GatewayEngine`: every call keeps the maps and the pool in step.
use proximity_internet_mesh.Base.{
  ℕ, ◌≡◌, inl, inr, refl, sym, subst, arith, List, [], ◌∷◌, Bytes, Option, none, some, Result, ok,
  err, ℕ_eq,
}
use proximity_internet_mesh.Base.Map.{lookup, contains, keys_where}
use proximity_internet_mesh.Core.MeshAddress.{Ipv4Addr}
use proximity_internet_mesh.Gateway.Ports.{PortPool, allocate}
use proximity_internet_mesh.Gateway.Ports.First.{IsPort, cyclic, IsFirstFree, allocate-IsFirstFree}
use proximity_internet_mesh.Gateway.Engine.{
  ConntrackKey, ConntrackEntry, conntrack_key_eq, ℕ_pair_eq, Inner, track_at, find_or_track,
}
use proximity_internet_mesh.Gateway.Engine.Conntrack.{IsTracked, touch-IsTracked}
use proximity_internet_mesh.Base.{Result-cases, Option-cases}
use proximity_internet_mesh.Gateway.{GatewayError}
use proximity_internet_mesh.Gateway.Packet.{parse_flow, rewrite, source, destination}
use proximity_internet_mesh.Gateway.Ports.{empty_pool}
use proximity_internet_mesh.Gateway.Engine.{
  GatewayEngine, new, send_from, deliver_to, flow_key, find_flow, response_of, translate_outbound,
  translate_inbound, cleanup_expired, is_expired, Call, outbound, inbound, cleanup, perform_all,
}
use proximity_internet_mesh.Gateway.Engine.Conntrack.Track.{track-IsTracked}
use proximity_internet_mesh.Gateway.Engine.Conntrack.Drop.{drop_flows-IsTracked}

cyclic-IsPort : (start i : ℕ) → IsPort (cyclic start i)
cyclic-IsPort start i = (omega arith, omega arith)

-- Whatever the pool answers to a flow that is not yet known.
track_at-IsTracked :
    (now : ℕ) (key : ConntrackKey) (i : Inner) (answer : Option ℕ × PortPool)
    → lookup key i.forward ≡ none
    → IsTracked i
    → IsFirstFree i.ports.next i.ports.in_use answer
    → IsTracked (track_at now key i answer).1
track_at-IsTracked now key i (none, pool) new_key t (full, next, same) =
    let e : pool ≡ i.ports = cc (next, same) in
    subst (λ (p : PortPool). IsTracked (record i { ports = p })) (sym e) t
track_at-IsTracked now key i (some port, pool) new_key t (n, short, at, free, before, next, taken) =
    let r = cyclic-IsPort i.ports.next n in
    let port_range : IsPort port = rw at r in
    track-IsTracked now key port pool i new_key free port_range (rw next (ground arith)) taken t

pub find_or_track-IsTracked :
    (now : ℕ) (key : ConntrackKey) (i : Inner) → IsTracked i → IsTracked (find_or_track now key i).1
unfolding find_or_track
find_or_track-IsTracked now key i t = elim (Option-cases (lookup key i.forward)) [
  | inl new_key ↦
      rw (find_or_track, new_key)
        (track_at-IsTracked now key i (allocate i.ports) new_key t
          (allocate-IsFirstFree i.ports t.next_ranged))
  | inr (entry, old) ↦ rw (find_or_track, old) (touch-IsTracked now key entry i old t)
]

pub send_from-inner :
    (g : GatewayEngine) (p : Bytes) (r : Result GatewayError ℕ × Inner)
    → (send_from g p r).1.inner ≡ r.1
send_from-inner g p (err e, i) = refl
send_from-inner g p (ok port, i) = elim (Result-cases (rewrite source p g.external_ip port)) [
  | inl (sent, e) ↦ rw (send_from, e) refl
  | inr (x, e) ↦ rw (send_from, e) refl
]

pub translate_outbound-IsTracked :
    (now : ℕ) (g : GatewayEngine) (p : Bytes)
    → IsTracked g.inner
    → IsTracked (translate_outbound now g p).1.inner
unfolding translate_outbound
translate_outbound-IsTracked now g p t = elim (Result-cases (parse_flow p)) [
  | inl (flow, e) ↦
      rw (translate_outbound, e, send_from-inner g p (find_or_track now (flow_key flow) g.inner))
        (find_or_track-IsTracked now (flow_key flow) g.inner t)
  | inr (x, e) ↦ rw (translate_outbound, e) t
]

deliver_to-IsTracked :
    (now : ℕ) (g : GatewayEngine) (p : Bytes) (key : ConntrackKey) (entry : ConntrackEntry)
    → lookup key g.inner.forward ≡ some entry
    → IsTracked g.inner
    → IsTracked (deliver_to now g p (ok (key, entry))).1.inner
deliver_to-IsTracked now g p key entry there t =
    elim (Result-cases (rewrite destination p entry.orig_src entry.orig_port)) [
      | inl (sent, e) ↦ rw (deliver_to, e) (touch-IsTracked now key entry g.inner there t)
      | inr (x, e) ↦ rw (deliver_to, e) (touch-IsTracked now key entry g.inner there t)
    ]

pub find_flow-inv :
    (i : Inner) (proto port : ℕ) (key : ConntrackKey) (entry : ConntrackEntry)
    → find_flow i proto port ≡ ok (key, entry)
    → (lookup (proto, port) i.reverse ≡ some key) × (lookup key i.forward ≡ some entry)
unfolding find_flow
find_flow-inv i proto port key entry e = elim (Option-cases (lookup (proto, port) i.reverse)) [
  | inl off ↦ absurd (ground arith)
  | inr (k, back) ↦ elim (Option-cases (lookup k i.forward)) [
    | inl off ↦ absurd (ground arith)
    | inr (d, there) ↦ ground arith
  ]
]

pub translate_inbound-IsTracked :
    (now : ℕ) (g : GatewayEngine) (p : Bytes)
    → IsTracked g.inner
    → IsTracked (translate_inbound now g p).1.inner
unfolding translate_inbound
translate_inbound-IsTracked now g p t = elim (Result-cases (response_of p)) [
  | inr (x, e) ↦ rw (translate_inbound, e) t
  | inl ((proto, port), e) ↦ elim (Result-cases (find_flow g.inner proto port)) [
    | inr (x, f) ↦ rw (translate_inbound, e, f) t
    | inl ((key, entry), f) ↦
        let (back, there) = find_flow-inv g.inner proto port key entry f in
        rw (translate_inbound, e, f) (deliver_to-IsTracked now g p key entry there t)
  ]
]

pub cleanup_expired-IsTracked :
    (clock : ConntrackKey → ℕ) (g : GatewayEngine)
    → IsTracked g.inner
    → IsTracked (cleanup_expired clock g).inner
unfolding cleanup_expired
cleanup_expired-IsTracked clock g t =
    drop_flows-IsTracked
      (keys_where (λ (key : ConntrackKey) (entry : ConntrackEntry). is_expired (clock key) entry)
        g.inner.forward)
      g.inner t

new-IsTracked : (ip : Ipv4Addr) (iface : Bytes) → IsTracked (new ip iface).inner
unfolding new empty_pool lookup contains
new-IsTracked ip iface = record {
  distinct = tt;
  named = λ k e h. cc h;
  linked = λ k e h. cc h;
  used = λ k e h. cc h;
  ranged = λ k e h. absurd (ground (arith, h));
  back = λ q k h. absurd (ground (arith, h));
  unique = λ k k' e e' h. cc h;
  held = λ port h. absurd (ground (arith, h));
  next_ranged = (omega arith, omega arith);
}

pub perform_all-IsTracked :
    (cs : List Call) (g : GatewayEngine) → IsTracked g.inner → IsTracked (perform_all cs g).inner
unfolding perform_all
perform_all-IsTracked [] g t = t
perform_all-IsTracked (outbound now p ∷ cs) g t =
    perform_all-IsTracked cs (translate_outbound now g p).1 (translate_outbound-IsTracked now g p t)
perform_all-IsTracked (inbound now p ∷ cs) g t =
    perform_all-IsTracked cs (translate_inbound now g p).1 (translate_inbound-IsTracked now g p t)
perform_all-IsTracked (cleanup clock ∷ cs) g t =
    perform_all-IsTracked cs (cleanup_expired clock g) (cleanup_expired-IsTracked clock g t)

-- After any sequence of outbound and inbound packets, well formed or not, and of cleanups, of a new
-- engine: each flow has a port of the range of its own, marked as used, and is found by it; each way
-- back leads to a flow; each used port belongs to a flow.
pub reachable-IsTracked :
    (ip : Ipv4Addr) (iface : Bytes) (cs : List Call)
    → IsTracked (perform_all cs (new ip iface)).inner
reachable-IsTracked ip iface cs = perform_all-IsTracked cs (new ip iface) (new-IsTracked ip iface)
