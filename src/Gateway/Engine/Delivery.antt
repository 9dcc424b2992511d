-- ===== src/Gateway/Engine/Delivery.antt =====
-- crates/pim-gateway/src/engine.rs: a flow lasts until a cleanup, and its responses are delivered.
use proximity_internet_mesh.Base.{
  ℕ, ◌≡◌, ◌≢◌, inl, inr, sym, ap, subst, ◌∙◌, arith, List, [], ◌∷◌, Bytes, Option, none, some, ok,
  ℕ_eq,
}
use proximity_internet_mesh.Base.Map.{lookup, lookup-insert_ne}
use proximity_internet_mesh.Core.MeshAddress.{Ipv4Addr}
use proximity_internet_mesh.Gateway.Ports.{PortPool, allocate}
use proximity_internet_mesh.Gateway.Engine.{
  ConntrackKey, ConntrackEntry, conntrack_key_eq, ℕ_pair_eq, Inner, touch, track, track_at,
  find_or_track,
}
use proximity_internet_mesh.Gateway.Engine.Conntrack.{IsTracked, key_of}
use proximity_internet_mesh.Base.{Result-cases, Option-cases, All}
use proximity_internet_mesh.Gateway.Packet.{parse_flow, rewrite, destination}
use proximity_internet_mesh.Gateway.Engine.{
  GatewayEngine, Outcome, flow_key, response_of, translate_outbound, translate_inbound, Call,
  outbound, inbound, cleanup, perform_all,
}
use proximity_internet_mesh.Gateway.Engine.Conntrack.{still}
use proximity_internet_mesh.Gateway.Engine.Conntrack.Track.{started}
use proximity_internet_mesh.Gateway.Engine.Conntrack.Calls.{
  send_from-inner, translate_outbound-IsTracked, perform_all-IsTracked, translate_inbound-IsTracked,
}
use proximity_internet_mesh.Gateway.Engine.Flow.{translate_outbound-cases}
use proximity_internet_mesh.Gateway.Engine.Response.{translate_inbound-cases}

-- The flow `k` is there, at `port`.
HasFlow : Inner → ConntrackKey → ℕ → Type 0
HasFlow i k port =
    (e : ConntrackEntry) × (lookup k i.forward ≡ some e) × (key_of e ≡ k) × (e.ext_port ≡ port)

touch-HasFlow :
    (now : ℕ) (key k : ConntrackKey) (entry : ConntrackEntry) (i : Inner) (port : ℕ)
    → lookup key i.forward ≡ some entry
    → HasFlow i k port
    → HasFlow (touch now key entry i) k port
unfolding HasFlow
touch-HasFlow now key k entry i port at (e, there, same, by_port) =
    let (e', kept, same', port') = still now key k entry e i at there in
    (e', kept, same' ∙ same, port' ∙ by_port)

track_at-HasFlow :
    (now : ℕ) (key k : ConntrackKey) (i : Inner) (port : ℕ) (answer : Option ℕ × PortPool)
    → lookup key i.forward ≡ none
    → HasFlow i k port
    → HasFlow (track_at now key i answer).1 k port
unfolding HasFlow
track_at-HasFlow now key k i port (none, pool) off flow = flow
track_at-HasFlow now key k i port (some new_port, pool) off (e, there, same, by_port) =
    let apart : key ≢ k = λ p. cc (off, there, ap (λ (x : ConntrackKey). lookup x i.forward) p) in
    (
      e,
      unfold track in lookup-insert_ne key k (started now key new_port) i.forward apart ∙ there,
      same,
      by_port,
    )

find_or_track-HasFlow :
    (now : ℕ) (key k : ConntrackKey) (i : Inner) (port : ℕ)
    → HasFlow i k port
    → HasFlow (find_or_track now key i).1 k port
unfolding find_or_track
find_or_track-HasFlow now key k i port flow = elim (Option-cases (lookup key i.forward)) [
  | inl off ↦
      rw (find_or_track, off) (track_at-HasFlow now key k i port (allocate i.ports) off flow)
  | inr (entry, at) ↦ rw (find_or_track, at) (touch-HasFlow now key k entry i port at flow)
]

translate_outbound-HasFlow :
    (now : ℕ) (g : GatewayEngine) (p : Bytes) (k : ConntrackKey) (port : ℕ)
    → HasFlow g.inner k port
    → HasFlow (translate_outbound now g p).1.inner k port
unfolding translate_outbound
translate_outbound-HasFlow now g p k port flow = elim (Result-cases (parse_flow p)) [
  | inl (f, e) ↦
      rw (translate_outbound, e, send_from-inner g p (find_or_track now (flow_key f) g.inner))
        (find_or_track-HasFlow now (flow_key f) k g.inner port flow)
  | inr (x, e) ↦ rw (translate_outbound, e) flow
]

translate_inbound-HasFlow :
    (now : ℕ) (g : GatewayEngine) (p : Bytes) (k : ConntrackKey) (port : ℕ)
    → IsTracked g.inner
    → HasFlow g.inner k port
    → HasFlow (translate_inbound now g p).1.inner k port
translate_inbound-HasFlow now g p k port t flow = elim (Result-cases (response_of p)) [
  | inr (x, e) ↦ unfold translate_inbound in rw (translate_inbound, e) flow
  | inl ((proto, d), e) ↦ elim (translate_inbound-cases now g p proto d t e) [
    | inl (key, entry, p', g', same, by_port, done, delivered) ↦
        rw (done, delivered.left) (touch-HasFlow now key k entry g.inner port delivered.there flow)
    | inr (done, off) ↦ rw done flow
  ]
]

abbrev IsPacket : Call → Type 0
IsPacket (outbound now p) = Unit {0}
IsPacket (inbound now p) = Unit {0}
IsPacket (cleanup clock) = ⊥

perform_all-HasFlow :
    (cs : List Call) (g : GatewayEngine) (k : ConntrackKey) (port : ℕ)
    → All IsPacket cs
    → IsTracked g.inner
    → HasFlow g.inner k port
    → HasFlow (perform_all cs g).inner k port
unfolding perform_all
perform_all-HasFlow [] g k port ok_calls t flow = flow
perform_all-HasFlow (outbound now p ∷ cs) g k port (here, rest) t flow =
    perform_all-HasFlow cs (translate_outbound now g p).1 k port rest
      (translate_outbound-IsTracked now g p t) (translate_outbound-HasFlow now g p k port flow)
perform_all-HasFlow (inbound now p ∷ cs) g k port (here, rest) t flow =
    perform_all-HasFlow cs (translate_inbound now g p).1 k port rest
      (translate_inbound-IsTracked now g p t) (translate_inbound-HasFlow now g p k port t flow)
perform_all-HasFlow (cleanup clock ∷ cs) g k port (here, rest) t flow = absurd here

answered :
    (now : ℕ) (g : GatewayEngine) (r : Bytes) (key : ConntrackKey) (port : ℕ)
    → IsTracked g.inner
    → HasFlow g.inner key port
    → response_of r ≡ ok (key.proto, port)
    → (r' : Bytes) × ((translate_inbound now g r).0 ≡ ok (key.orig_src, r'))
      × (rewrite destination r key.orig_src key.orig_port ≡ ok r')
unfolding HasFlow
answered now g r key port t (e, there, name, by_port) reply =
    elim (translate_inbound-cases now g r key.proto port t reply) [
      | inr (done, off) ↦ absurd (off key e there (ap (λ (x : ConntrackKey). x.proto) name) by_port)
      | inl (key', entry, r', g', same, at, done, delivered) ↦
          let one : key' ≡ key =
            t.unique key' key entry e delivered.there there (at ∙ sym by_port) in
          let what : key_of entry ≡ key = t.named key' entry delivered.there ∙ one in
          let src : entry.orig_src ≡ key.orig_src = ap (λ (x : ConntrackKey). x.orig_src) what in
          let port : entry.orig_port ≡ key.orig_port =
            ap (λ (x : ConntrackKey). x.orig_port) what in
          (
            r',
            ap (λ (o : Outcome Ipv4Addr). o.0) done ∙ ap (λ (a : Ipv4Addr). ok (a, r')) src,
            rw (← src, ← port) delivered.sent,
          )
    ]

translate_outbound-flow :
    (now : ℕ) (g g' : GatewayEngine) (p sent : Bytes) (proto : ℕ) (src : Ipv4Addr)
    (src_port port : ℕ)
    → IsTracked g.inner
    → parse_flow p ≡ ok (proto, src, src_port)
    → translate_outbound now g p ≡ (ok (port, sent), g')
    → HasFlow g'.inner (flow_key (proto, src, src_port)) port
unfolding HasFlow
translate_outbound-flow now g g' p sent proto src src_port port t flow out =
    let key = flow_key (proto, src, src_port) in
    let t' : IsTracked g'.inner =
      subst (λ (o : Outcome ℕ). IsTracked o.1.inner) out (translate_outbound-IsTracked now g p t) in
    elim (translate_outbound-cases now g p proto src src_port t flow) [
      | inr (inl (done, off, full)) ↦ absurd (ground (arith, done, out))
      | inr (inr (port', i', done, over, f)) ↦ absurd (ground (arith, done, out))
      | inl (port', p', i', done, sent', fits, f) ↦
          let same : (ok (port', p'), record g { inner = i' }) ≡ (ok (port, sent), g') =
            sym done ∙ out in
          let inner : i' ≡ g'.inner = ap (λ (o : Outcome ℕ). o.1.inner) same in
          let result : port' ≡ port = cc (ap (λ (o : Outcome ℕ). o.0) same) in
          let there : lookup key g'.inner.forward ≡ some f.entry = rw (← inner) f.there in
          (f.entry, there, t'.named key f.entry there, f.by_port ∙ result)
    ]

-- With the maps in step, once a packet has gone out through a port, and until the next cleanup,
-- whatever packets are translated in between, a response of the same protocol to that port is
-- delivered: its destination becomes the source of the packet, address and port.
pub translate_inbound-translate_outbound :
    (now later : ℕ) (g g' : GatewayEngine) (p sent r : Bytes) (proto : ℕ) (src : Ipv4Addr)
    (src_port port : ℕ) (cs : List Call)
    → IsTracked g.inner
    → parse_flow p ≡ ok (proto, src, src_port)
    → translate_outbound now g p ≡ (ok (port, sent), g')
    → All IsPacket cs
    → response_of r ≡ ok (proto, port)
    → (r' : Bytes) × ((translate_inbound later (perform_all cs g') r).0 ≡ ok (src, r'))
      × (rewrite destination r src src_port ≡ ok r')
translate_inbound-translate_outbound now later g g' p sent r proto src src_port port cs t flow out
      calls reply =
    let key = flow_key (proto, src, src_port) in
    let t' = translate_outbound-IsTracked now g p t in
    let kept = translate_outbound-flow now g g' p sent proto src src_port port t flow out in
    let t'' : IsTracked g'.inner = subst (λ (o : Outcome ℕ). IsTracked o.1.inner) out t' in
    answered later (perform_all cs g') r key port (perform_all-IsTracked cs g' t'')
      (perform_all-HasFlow cs g' key port calls t'' kept) reply
