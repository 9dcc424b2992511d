-- ===== src/Gateway/Engine/Response.antt =====
-- crates/pim-gateway/src/engine.rs, `translate_inbound`: a response finds the flow it belongs to.
use proximity_internet_mesh.Base.{
  ℕ, ◌≡◌, ◌≢◌, ◌⊎◌, inl, inr, refl, sym, ap, ◌∙◌, arith, Bytes, none, some, ok, err, ℕ_eq,
}
use proximity_internet_mesh.Base.Map.{lookup}
use proximity_internet_mesh.Gateway.Engine.{
  ConntrackKey, ConntrackEntry, conntrack_key_eq, ℕ_pair_eq, Inner, touch,
}
use proximity_internet_mesh.Gateway.Engine.Conntrack.{IsTracked}
use proximity_internet_mesh.Base.{Result-cases, Option-cases}
use proximity_internet_mesh.Gateway.{GatewayError}
use proximity_internet_mesh.Gateway.GatewayError.{no_conntrack_entry}
use proximity_internet_mesh.Gateway.Packet.{rewrite, destination}
use proximity_internet_mesh.Gateway.Packet.Reads.{rewritten}
use proximity_internet_mesh.Gateway.Engine.{
  GatewayEngine, deliver_to, response_of, find_flow, translate_inbound,
}
use proximity_internet_mesh.Gateway.Engine.Reads.{rewrite_destination-ok}
use proximity_internet_mesh.Gateway.Engine.Conntrack.Calls.{find_flow-inv}

-- The response `p` of the flow `key` has been taken to its origin.
pub record IsDelivered (now : ℕ) (g g' : GatewayEngine) (p p' : Bytes) (key : ConntrackKey)
    (entry : ConntrackEntry) : Type 0 where
  pub there : lookup key g.inner.forward ≡ some entry
  pub sent : rewrite destination p entry.orig_src entry.orig_port ≡ ok p'
  pub left : g' ≡ record g { inner = touch now key entry g.inner }

find_flow-missing :
    (i : Inner) (proto port : ℕ) (e : GatewayError)
    → IsTracked i
    → find_flow i proto port ≡ err e
    → (e ≡ no_conntrack_entry proto port) × (lookup (proto, port) i.reverse ≡ none)
unfolding find_flow
find_flow-missing i proto port e t missing = elim (Option-cases (lookup (proto, port) i.reverse)) [
  | inl off ↦ ground arith
  | inr (k, back) ↦ let (d, there, at) = t.back (proto, port) k back in absurd (ground arith)
]

-- With the maps in step, a response goes to the origin of the flow whose protocol and port it has,
-- rewritten to its address and port; if there is none, it is refused and nothing changes.
pub translate_inbound-cases :
    (now : ℕ) (g : GatewayEngine) (p : Bytes) (proto port : ℕ)
    → IsTracked g.inner
    → response_of p ≡ ok (proto, port)
    → ((key : ConntrackKey) × (entry : ConntrackEntry) × (p' : Bytes) × (g' : GatewayEngine)
        × (entry.proto ≡ proto)
        × (entry.ext_port ≡ port)
        × (translate_inbound now g p ≡ (ok (entry.orig_src, p'), g'))
        × IsDelivered now g g' p p' key entry)
      ⊎ (translate_inbound now g p ≡ (err (no_conntrack_entry proto port), g))
        × ((k : ConntrackKey) (e : ConntrackEntry)
            → lookup k g.inner.forward ≡ some e
            → e.proto ≡ proto
            → e.ext_port ≢ port)
unfolding translate_inbound
translate_inbound-cases now g p proto port t e =
    elim (Result-cases (find_flow g.inner proto port)) [
      | inl ((key, entry), found) ↦
          let (back, there) = find_flow-inv g.inner proto port key entry found in
          let (d, there', at) = t.back (proto, port) key back in
          let same : d ≡ entry = ground arith in
          let sent = rewrite_destination-ok p proto port entry.orig_src entry.orig_port e in
          inl (
            key,
            entry,
            rewritten 16 2 p proto port entry.orig_src entry.orig_port,
            record g { inner = touch now key entry g.inner },
            ap (λ (x : ConntrackEntry). x.proto) (sym same) ∙ sym (ap (λ (q : ℕ × ℕ). q.0) at),
            ap (λ (x : ConntrackEntry). x.ext_port) (sym same) ∙ sym (ap (λ (q : ℕ × ℕ). q.1) at),
            rw (translate_inbound, e, found, deliver_to, sent) refl,
            record { there = there; sent = sent; left = refl },
          )
      | inr (x, missing) ↦
          let (what, off) = find_flow-missing g.inner proto port x t missing in
          inr (
            rw (translate_inbound, e, missing, what) refl,
            λ k d there same at. cc (
              off,
              t.linked k d there,
              ap (λ (q : ℕ). lookup (q, d.ext_port) g.inner.reverse) same,
              ap (λ (q : ℕ). lookup (proto, q) g.inner.reverse) at,
            ),
          )
    ]
