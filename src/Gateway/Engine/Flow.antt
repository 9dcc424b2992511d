-- ===== src/Gateway/Engine/Flow.antt =====
-- crates/pim-gateway/src/engine.rs, `translate_outbound`: what a call does on each of its ways.
use proximity_internet_mesh.Base.{
  ℕ, ◌≡◌, ◌⊎◌, inl, inr, refl, ap, arith, Bytes, false, Option, none, some, ok, err, ℕ_eq,
}
use proximity_internet_mesh.Base.Map.{lookup, lookup-insert_self, contains}
use proximity_internet_mesh.Core.MeshAddress.{Ipv4Addr}
use proximity_internet_mesh.Gateway.Ports.{PortPool, allocate}
use proximity_internet_mesh.Gateway.Ports.First.{IsFirstFree, IsFull, allocate-IsFirstFree}
use proximity_internet_mesh.Gateway.Engine.{
  ConntrackKey, ConntrackEntry, conntrack_key_eq, ℕ_pair_eq, Inner, touch, track, track_at,
  find_or_track,
}
use proximity_internet_mesh.Gateway.Engine.Conntrack.{IsTracked, seen_at}
use proximity_internet_mesh.Base.{Option-cases}
use proximity_internet_mesh.Gateway.GatewayError.{conntrack_full, panicked}
use proximity_internet_mesh.Gateway.Packet.{parse_flow, rewrite, source}
use proximity_internet_mesh.Gateway.Packet.Reads.{rewritten}
use proximity_internet_mesh.Gateway.Packet.Overrun.{IsOverrun}
use proximity_internet_mesh.Gateway.Engine.{GatewayEngine, send_from, flow_key, translate_outbound}
use proximity_internet_mesh.Gateway.Engine.Reads.{rewrite_source-cases}
use proximity_internet_mesh.Gateway.Engine.Conntrack.Track.{started}

-- What there is to know of the step that finds the port: the flow `key` is kept with it, seen now; it
-- is the port that the flow had, or, for a new flow, one that was free.
pub record IsFound (now : ℕ) (key : ConntrackKey) (i i' : Inner) (port : ℕ) : Type 0 where
  pub entry : ConntrackEntry
  pub there : lookup key i'.forward ≡ some entry
  pub by_port : entry.ext_port ≡ port
  pub seen : entry.last_seen ≡ now
  pub known : (e : ConntrackEntry) → lookup key i.forward ≡ some e → e.ext_port ≡ port
  pub fresh : lookup key i.forward ≡ none → contains port i.ports.in_use ≡ false

track_at-cases :
    (now : ℕ) (key : ConntrackKey) (i : Inner) (answer : Option ℕ × PortPool)
    → lookup key i.forward ≡ none
    → IsTracked i
    → IsFirstFree i.ports.next i.ports.in_use answer
    → ((port : ℕ) × (i' : Inner) × (track_at now key i answer ≡ (ok port, i'))
        × IsFound now key i i' port)
      ⊎ (track_at now key i answer ≡ (err conntrack_full, i)) × IsFull i.ports.in_use
track_at-cases now key i (none, pool) new_key t (full, next, same) =
    let e : pool ≡ i.ports = cc (next, same) in
    inr (ap (λ (p : PortPool). (err conntrack_full, record i { ports = p })) e, full)
track_at-cases now key i (some port, pool) new_key t (n, short, at, free, before, next, taken) =
    inl (
      port,
      track now key port pool i,
      refl,
      record {
        entry = started now key port;
        there = unfold track in lookup-insert_self key (started now key port) i.forward;
        by_port = refl;
        seen = refl;
        known = λ e old. cc (new_key, old);
        fresh = λ off. free;
      },
    )

find_or_track-cases :
    (now : ℕ) (key : ConntrackKey) (i : Inner)
    → IsTracked i
    → ((port : ℕ) × (i' : Inner) × (find_or_track now key i ≡ (ok port, i'))
        × IsFound now key i i' port)
      ⊎ (find_or_track now key i ≡ (err conntrack_full, i))
        × (lookup key i.forward ≡ none)
        × IsFull i.ports.in_use
unfolding find_or_track
find_or_track-cases now key i t = elim (Option-cases (lookup key i.forward)) [
  | inl new_key ↦
      elim (track_at-cases now key i (allocate i.ports) new_key t
        (allocate-IsFirstFree i.ports t.next_ranged)) [
          | inl (port, i', e, found) ↦ inl (port, i', rw (find_or_track, new_key) e, found)
          | inr (e, full) ↦ inr (rw (find_or_track, new_key) e, new_key, full)
        ]
  | inr (entry, old) ↦ inl (
    entry.ext_port,
    touch now key entry i,
    rw (find_or_track, old) refl,
    record {
      entry = seen_at now entry;
      there = unfold touch in lookup-insert_self key (seen_at now entry) i.forward;
      by_port = refl;
      seen = refl;
      known = λ e same. ground arith;
      fresh = λ off. cc (off, old);
    },
  )
]

-- With the maps in step, a packet whose flow can be read goes out through the flow's port, a new one
-- if the flow is new, with its source rewritten to it. The call fails only if the flow is new and every
-- port of the range is in use, which changes nothing; and it panics, with the flow kept, exactly if
-- the packet is of TCP or UDP and gives its header the length 0, so that the port is written over its first
-- byte and gives it a longer header than the packet.
pub translate_outbound-cases :
    (now : ℕ) (g : GatewayEngine) (p : Bytes) (proto : ℕ) (src : Ipv4Addr) (src_port : ℕ)
    → IsTracked g.inner
    → parse_flow p ≡ ok (proto, src, src_port)
    → let key = flow_key (proto, src, src_port) in
      ((port : ℕ) × (p' : Bytes) × (i' : Inner) × (translate_outbound now g p
          ≡ (ok (port, p'), record g { inner = i' }))
        × (rewrite source p g.external_ip port ≡ ok p')
        × (¬ IsOverrun source p proto port)
        × IsFound now key g.inner i' port)
      ⊎ ((translate_outbound now g p ≡ (err conntrack_full, g))
          × (lookup key g.inner.forward ≡ none)
          × IsFull g.inner.ports.in_use)
      ⊎ ((port : ℕ) × (i' : Inner) × (translate_outbound now g p
            ≡ (err panicked, record g { inner = i' }))
          × IsOverrun source p proto port
          × IsFound now key g.inner i' port)
unfolding translate_outbound
translate_outbound-cases now g p proto src src_port t e =
    elim (find_or_track-cases now (flow_key (proto, src, src_port)) g.inner t) [
      | inr (bad, off, full) ↦ inr (inl (rw (translate_outbound, e, bad) refl, off, full))
      | inl (port, i', found, f) ↦
          elim (rewrite_source-cases p proto src src_port g.external_ip port e) [
            | inl (sent, fits) ↦ inl (
              port,
              rewritten 12 0 p proto src_port g.external_ip port,
              i',
              rw (translate_outbound, e, found, send_from, sent) refl,
              sent,
              fits,
              f,
            )
            | inr (bad, over) ↦
                inr
                  (inr (port, i', rw (translate_outbound, e, found, send_from, bad) refl, over, f))
          ]
    ]
