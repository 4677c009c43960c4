-- ===== src/Dht/Node/Oldest.antt =====
-- A full bucket and a new contact: which contact has to prove that it is alive.
use agent_dns.Dht.Node.{Node}
use agent_dns.Dht.NodeId.{NodeId}
