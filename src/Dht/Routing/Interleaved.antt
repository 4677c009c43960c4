-- ===== src/Dht/Routing/Interleaved.antt =====
-- internal/dht/routing.go: the table while many goroutines use it. They take its methods in any order and with
-- any contacts, and what one of them has read of the table may be old when it writes.
use agent_dns.Dht.NodeId.{NodeId, IsNodeId}
use agent_dns.Dht.Routing.Sections.{
  IsSound, IsReady, Step, adds, replaces, marks, removes, Steps, start, more,
  new_routing_table-IsSound, add_node_sound, evict_and_replace-some, mark_seen_sound,
  remove_node_sound, sound-IsReady,
}
use agent_dns.Dht.Routing.{RoutingTable, new_routing_table}
use agent_dns.Prelude.{ℕ, ◌<◌, sym, ap, subst, ◌∙◌}
use mathlib.Core.Option.{some-injective}

Step-IsSound : (rt u : RoutingTable) → Step rt u → IsSound rt → IsSound u
Step-IsSound rt _ (adds now c u candidate h done) v =
    let (rt', o, made, w) = add_node_sound v now c h in
    subst IsSound (ap (λ p. p.0) (some-injective (rt', o) (u, candidate) (sym made ∙ done))) w
Step-IsSound rt _ (replaces now c u h other done) v =
    let (rt', made, w) = evict_and_replace-some v now c in
    subst IsSound (some-injective rt' u (sym made ∙ done)) (w h other)
Step-IsSound rt _ (marks now id u done) v =
    let (rt', made, w) = mark_seen_sound v now id in
    subst IsSound (some-injective rt' u (sym made ∙ done)) w
Step-IsSound rt _ (removes id u done) v =
    let (rt', made, w) = remove_node_sound v id in
    subst IsSound (some-injective rt' u (sym made ∙ done)) w

Steps-IsSound : (rt u : RoutingTable) → Steps rt u → IsSound rt → IsSound u
Steps-IsSound rt _ start v = v
Steps-IsSound rt _ (more {u} {x} run step) v = Step-IsSound u x step (Steps-IsSound rt u run v)

-- From a new table, after any sequence of the table's methods, as the goroutines of a node interleave
-- them, with any contacts and however old what they read: every bucket is within its capacity and has
-- contacts of its range only, never the node itself, and no method panics next.
pub interleaved_lem :
    (self_id : NodeId) (k : ℕ) (rt : RoutingTable)
    → IsNodeId self_id
    → 0 < k
    → Steps (new_routing_table self_id k) rt
    → IsSound rt × IsReady rt
interleaved_lem self_id k rt h p run =
    let v =
      Steps-IsSound (new_routing_table self_id k) rt run
        (new_routing_table-IsSound self_id k h p) in
    (v, sound-IsReady v)
