-- ===== src/Mesh/Peers/Capacity.antt =====
-- internal/mesh/peers.go: the table of peers stays within its capacity.
use agent_dns.Mesh.Peers.{
  PeerInfo, PeerManager, new_peer_manager, is_older, oldest, forget, evict_oldest, add_peer,
  remove_peer,
}
use agent_dns.Prelude.{
  ℕ, suc, ◌≤◌, ◌<◌, max, ltb, leb, ltb→lt, ◌≡◌, ◌≢◌, refl, sym, ap, ◌∙◌, subst, List, [], ◌∷◌, none,
  some, if_pos, if_neg, Bytes, Bytes-discrete, length, All, if◌then◌else◌, Bool-cases, inl, inr,
  ◌⊎◌, arith,
}
use agent_dns.Prelude.Assoc.{
  lookup, lookup-insert, lookup-erase, Unique, insert-Unique, length-insert, length-erase,
  length-erase_present, insert-All, erase-All,
}
use agent_dns.Prelude.Assoc.Totals.{erase-Unique}

-- The time at which a peer was seen, where the text that holds it is one.
abbrev pub seconds : PeerInfo → ℕ
seconds peer = elim peer.last_seen [ none ↦ 0 | some t ↦ t ]

-- A key that is not empty, and a time that can be parsed.
abbrev pub IsEntry : Bytes × PeerInfo → Type 0
IsEntry (id, peer) = (id ≢ []) × (peer.last_seen ≡ some (seconds peer))

abbrev pub IsLater : ℕ → Bytes × PeerInfo → Type 0
IsLater t (id, peer) = t ≤ seconds peer

pub record IsTable (pm : PeerManager) : Type 0 where
  pub once : Unique Bytes-discrete pm.peers
  pub entries : All IsEntry pm.peers
  pub bound : length pm.peers ≤ max 1 pm.max_peers

abbrev pub IsOldest : Bytes → List (Bytes × PeerInfo) → Type 0
IsOldest id peers =
    (peer : PeerInfo) × (lookup Bytes-discrete id peers ≡ some peer)
    × All (IsLater (seconds peer)) peers

is_older-ltb : (id : Bytes) (time t : ℕ) → id ≢ [] → is_older id time t ≡ ltb t time
is_older-ltb [] time t h = absurd (h refl)
is_older-ltb (b ∷ id) time t h = refl

-- The loop from an entry that it has seen.
abbrev Outcome : Bytes → ℕ → List (Bytes × PeerInfo) → Type 0
Outcome id time peers =
    ((oldest peers id time ≡ id) × All (IsLater time) peers)
    ⊎ ((peer : PeerInfo) × (lookup Bytes-discrete (oldest peers id time) peers ≡ some peer)
        × All (IsLater (seconds peer)) peers
        × (seconds peer < time))

oldest-nil : (id : Bytes) (time : ℕ) → oldest [] id time ≡ id
unfolding oldest
oldest-nil id time = refl

oldest-first :
    (k : Bytes) (p : PeerInfo) (peers : List (Bytes × PeerInfo)) (t : ℕ)
    → p.last_seen ≡ some t
    → oldest ((k, p) ∷ peers) [] 0 ≡ oldest peers k t
unfolding oldest
oldest-first k p peers t seen = rw seen refl

found_named :
    (k : Bytes) (p : PeerInfo) (peers : List (Bytes × PeerInfo))
    → All IsEntry peers
    → lookup Bytes-discrete k peers ≡ some p
    → k ≢ []
unfolding lookup
found_named k p [] e found = absurd (ground arith)
found_named k p ((j, q) ∷ peers) ((named, seen), e) found = elim (Bytes-discrete j k) [
  | yes h ↦ λ x. named (h ∙ x)
  | no n ↦
      found_named k p peers e
        (sym (if_neg (Bytes-discrete j k) n (some q) (lookup Bytes-discrete k peers)) ∙ found)
]

oldest-cons :
    (k id : Bytes) (p : PeerInfo) (peers : List (Bytes × PeerInfo)) (time t : ℕ)
    → id ≢ []
    → p.last_seen ≡ some t
    → oldest ((k, p) ∷ peers) id time
      ≡ (if ltb t time then oldest peers k t else oldest peers id time)
unfolding oldest
oldest-cons k id p peers time t h seen = elim (Bool-cases (ltb t time)) [
  | inl e ↦ rw (seen, is_older-ltb id time t h, e) refl
  | inr e ↦ rw (seen, is_older-ltb id time t h, e) refl
]

-- What is found behind an entry with another key is found behind it.
found_behind :
    (k j : Bytes) (p q : PeerInfo) (peers : List (Bytes × PeerInfo))
    → lookup Bytes-discrete k peers ≡ none
    → lookup Bytes-discrete j peers ≡ some q
    → lookup Bytes-discrete j ((k, p) ∷ peers) ≡ some q
unfolding lookup
found_behind k j p q peers new found = ground arith

found_here :
    (k : Bytes) (p : PeerInfo) (peers : List (Bytes × PeerInfo))
    → lookup Bytes-discrete k ((k, p) ∷ peers) ≡ some p
unfolding lookup
found_here k p peers = if_pos (Bytes-discrete k k) refl (some p) (lookup Bytes-discrete k peers)

oldest-Outcome :
    (peers : List (Bytes × PeerInfo)) (id : Bytes) (time : ℕ)
    → id ≢ []
    → Unique Bytes-discrete peers
    → All IsEntry peers
    → Outcome id time peers
oldest-Outcome [] id time h u e = inl (oldest-nil id time, tt)
oldest-Outcome ((k, p) ∷ peers) id time h (new, u) ((named, seen), e) =
    let step = oldest-cons k id p peers time (seconds p) h seen in
    elim (Bool-cases (ltb (seconds p) time)) [
      | inl older ↦ elim (oldest-Outcome peers k (seconds p) named u e) [
        | inl (same, later) ↦
            rw (step, older, same)
              (inr (p, found_here k p peers, (omega arith, later), ltb→lt (seconds p) time older))
        | inr (q, found, later, less) ↦
            rw (step, older)
              (inr (q, found_behind k _ p q peers new found, (omega arith, later), ground arith))
      ]
      | inr newer ↦ elim (oldest-Outcome peers id time h u e) [
        | inl (same, later) ↦ rw (step, newer) (inl (same, (ground arith, later)))
        | inr (q, found, later, less) ↦
            rw (step, newer)
              (inr (q, found_behind k _ p q peers new found, (ground arith, later), less))
      ]
    ]

-- A table that is not empty has an oldest peer, and the loop finds it.
oldest-IsOldest :
    (k : Bytes) (p : PeerInfo) (peers : List (Bytes × PeerInfo))
    → Unique Bytes-discrete ((k, p) ∷ peers)
    → All IsEntry ((k, p) ∷ peers)
    → (oldest ((k, p) ∷ peers) [] 0 ≢ []) × IsOldest (oldest ((k, p) ∷ peers) [] 0) ((k, p) ∷ peers)
oldest-IsOldest k p peers (new, u) ((named, seen), e) =
    let step = oldest-first k p peers (seconds p) seen in
    elim (oldest-Outcome peers k (seconds p) named u e) [
      | inl (same, later) ↦ rw (step, same) (named, (p, found_here k p peers, (omega arith, later)))
      | inr (q, found, later, less) ↦ rw step (
        found_named _ q peers e found,
        (q, found_behind k _ p q peers new found, (omega arith, later)),
      )
    ]

List-cases {ℓ} : {A : Type ℓ} (xs : List A) → (xs ≡ []) ⊎ ((x : A) × (ys : List A) × (xs ≡ x ∷ ys))
List-cases [] = inl refl
List-cases (x ∷ xs) = inr (x, xs, refl)

-- What making room leaves: a table with a place for one more, without the oldest peer at most.
record HasRoom (pm room : PeerManager) : Type 0 where
  table : IsTable room
  place : suc (length room.peers) ≤ max 1 pm.max_peers
  capacity : room.max_peers ≡ pm.max_peers
  others :
      (j : Bytes)
      → (lookup Bytes-discrete j room.peers ≡ lookup Bytes-discrete j pm.peers)
        ⊎ ((lookup Bytes-discrete j room.peers ≡ none)
            × (pm.max_peers ≤ length pm.peers)
            × IsOldest j pm.peers)

forget-HasRoom :
    (id : Bytes) (pm : PeerManager)
    → IsTable pm
    → pm.max_peers ≤ length pm.peers
    → IsOldest id pm.peers
    → HasRoom pm (forget id pm)
forget-HasRoom id pm t full (p, found, later) = record {
  table = record {
    once = erase-Unique Bytes-discrete id pm.peers t.once;
    entries = erase-All Bytes-discrete IsEntry id pm.peers t.entries;
    bound = omega (arith, t.bound, length-erase Bytes-discrete id pm.peers);
  };
  place = omega (arith, t.bound, length-erase_present Bytes-discrete id p pm.peers found);
  capacity = refl;
  others = λ j. elim (Bytes-discrete id j) [
    | yes h ↦ inr (
      lookup-erase Bytes-discrete id j pm.peers
          ∙ if_pos (Bytes-discrete id j) h none (lookup Bytes-discrete j pm.peers),
      full,
      subst (λ k. IsOldest k pm.peers) h (p, found, later),
    )
    | no n ↦ inl (
        lookup-erase Bytes-discrete id j pm.peers
        ∙ if_neg (Bytes-discrete id j) n none (lookup Bytes-discrete j pm.peers))
  ];
}

evict_oldest-step :
    (pm : PeerManager) (k : Bytes) (p : PeerInfo) (peers : List (Bytes × PeerInfo))
    → pm.peers ≡ (k, p) ∷ peers
    → IsTable pm
    → pm.max_peers ≤ length pm.peers
    → HasRoom pm (evict_oldest pm)
unfolding evict_oldest
evict_oldest-step pm k p peers e t full =
    let (named, found) =
      oldest-IsOldest k p peers (subst (Unique Bytes-discrete) e t.once)
        (subst (All IsEntry) e t.entries) in
    let victim : IsOldest (oldest pm.peers [] 0) pm.peers =
      subst (λ m. IsOldest (oldest m [] 0) m) (sym e) found in
    let other : oldest pm.peers [] 0 ≢ [] = subst (λ m. oldest m [] 0 ≢ []) (sym e) named in
    rw (if_neg (Bytes-discrete (oldest pm.peers [] 0) []) other)
      (forget-HasRoom (oldest pm.peers [] 0) pm t full victim)

evict_oldest-empty : (pm : PeerManager) → pm.peers ≡ [] → evict_oldest pm ≡ pm
unfolding evict_oldest
evict_oldest-empty pm e =
    let id = oldest pm.peers [] 0 in
    if_pos (Bytes-discrete id []) (ap (λ m. oldest m [] 0) e ∙ oldest-nil [] 0) pm (forget id pm)

unchanged : (pm : PeerManager) → pm.peers ≡ [] → IsTable pm → HasRoom pm pm
unchanged pm e t = record {
  table = t;
  place = omega (arith, ap (λ (m : List (Bytes × PeerInfo)). length m) e);
  capacity = refl;
  others = λ j. inl refl;
}

evict_oldest-HasRoom :
    (pm : PeerManager) → IsTable pm → pm.max_peers ≤ length pm.peers → HasRoom pm (evict_oldest pm)
unfolding evict_oldest
evict_oldest-HasRoom pm t full = elim (List-cases pm.peers) [
  | inl e ↦ subst (HasRoom pm) (sym (evict_oldest-empty pm e)) (unchanged pm e t)
  | inr (x, peers, e) ↦ evict_oldest-step pm x.0 x.1 peers e t full
]

-- `AddPeer` makes room where the table is full.
room-HasRoom :
    (pm : PeerManager)
    → IsTable pm
    → HasRoom pm (if leb pm.max_peers (length pm.peers) then evict_oldest pm else pm)
room-HasRoom pm t = elim (Bool-cases (leb pm.max_peers (length pm.peers))) [
  | inl e ↦ rw e (evict_oldest-HasRoom pm t (ground arith))
  | inr e ↦
      rw e (record { table = t; place = ground arith; capacity = refl; others = λ j. inl refl })
]

-- `AddPeer` on a table within its capacity, with keys that are not empty and times that can be parsed:
-- the table stays so; the peer is in it, seen now; of the others, all are as before, but for the
-- one that was seen longest ago, which a full table gives up.
pub add_peer_lem :
    (now : ℕ) (peer : PeerInfo) (pm : PeerManager)
    → IsTable pm
    → peer.registry_id ≢ []
    → IsTable (add_peer now peer pm)
      × (lookup Bytes-discrete peer.registry_id (add_peer now peer pm).peers
          ≡ some (record peer { connected_at = some now; last_seen = some now }))
      × ((j : Bytes)
          → peer.registry_id ≢ j
          → (lookup Bytes-discrete j (add_peer now peer pm).peers
              ≡ lookup Bytes-discrete j pm.peers)
            ⊎ ((lookup Bytes-discrete j (add_peer now peer pm).peers ≡ none)
                × (pm.max_peers ≤ length pm.peers)
                × IsOldest j pm.peers))
unfolding add_peer
add_peer_lem now peer pm t named =
    let r = room-HasRoom pm t in
    let room = if leb pm.max_peers (length pm.peers) then evict_oldest pm else pm in
    let id = peer.registry_id in
    let seen = record peer { connected_at = some now; last_seen = some now } in
    (
      record {
        once = insert-Unique Bytes-discrete id seen room.peers r.table.once;
        entries =
            insert-All Bytes-discrete IsEntry id seen room.peers (named, refl) r.table.entries;
        bound = omega (arith, length-insert Bytes-discrete id seen room.peers, r.place, r.capacity);
      },
      lookup-insert Bytes-discrete id id seen room.peers
          ∙ if_pos (Bytes-discrete id id) refl (some seen) (lookup Bytes-discrete id room.peers),
      λ j other.
          let same =
            lookup-insert Bytes-discrete id j seen room.peers
            ∙ if_neg (Bytes-discrete id j) other (some seen) (lookup Bytes-discrete j room.peers) in
          elim (r.others j) [
            | inl kept ↦ inl (same ∙ kept)
            | inr (gone, full, old) ↦ inr (same ∙ gone, full, old)
          ],
    )

pub new_peer_manager-IsTable : (max_peers : ℕ) → IsTable (new_peer_manager max_peers)
unfolding new_peer_manager
new_peer_manager-IsTable max_peers = record { once = tt; entries = tt; bound = omega arith }

pub remove_peer-IsTable : (id : Bytes) (pm : PeerManager) → IsTable pm → IsTable (remove_peer id pm)
unfolding remove_peer
remove_peer-IsTable id pm t = record {
  once = erase-Unique Bytes-discrete id pm.peers t.once;
  entries = erase-All Bytes-discrete IsEntry id pm.peers t.entries;
  bound = omega (arith, t.bound, length-erase Bytes-discrete id pm.peers);
}
