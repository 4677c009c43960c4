-- ===== src/Tests/Lookups.antt =====
-- Runs of lookups: a peer answers with two contacts, then one of these with a record.
use agent_dns.Dht.Lookup.Found.{Found, find_value_lem}
use agent_dns.Dht.Lookup.Batches.{AreRounds}
use agent_dns.Dht.Lookup.Rounds.{IsLookup, iterative_find_node_lem}
use agent_dns.Dht.Lookup.{Round, iterative_find_node, find_value}
use agent_dns.Dht.Node.{Message, MsgType, get_local}
use agent_dns.Prelude.{◌<◌, true, List, [], ◌∷◌, some, none, arith}
use agent_dns.Tests.Nodes.{content, put, crowded, crowded-IsValid}
use agent_dns.Tests.Tables.{id_of, id_of-IsNodeId, contact}

abbrev nodes : Message
nodes = record put { type = MsgType.msg_find_node_reply; nodes = contact 3 ∷ contact 6 ∷ [] }

abbrev found : Message
found = record put { type = MsgType.msg_find_value_reply; value = some content }

abbrev rounds : List Round
rounds =
    record { received = some nodes ∷ []; complete = true }
    ∷ record { received = none ∷ some found ∷ []; complete = true }
    ∷ []

rounds-AreRounds : AreRounds rounds
rounds-AreRounds = (
  ((id_of-IsNodeId 3 (omega arith), (id_of-IsNodeId 6 (omega arith), tt)), tt),
  ((tt, (tt, tt)), tt),
)

crowded_pos : 0 < crowded.config.k
unfolding agent_dns.Dht.Node.new
crowded_pos = omega arith

iterative_find_node_lem_example :
    IsLookup rounds (id_of 9) crowded (iterative_find_node rounds (id_of 9) crowded)
iterative_find_node_lem_example =
    iterative_find_node_lem rounds (id_of 9) crowded crowded-IsValid crowded_pos
      (id_of-IsNodeId 9 (omega arith)) rounds-AreRounds

find_value_lem_example : Found 5 rounds (id_of 9) crowded (find_value 5 rounds (id_of 9) crowded)
find_value_lem_example = find_value_lem 5 rounds (id_of 9) crowded (id_of-IsNodeId 9 (omega arith))
