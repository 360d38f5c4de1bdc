-- ===== src/Provision/Hosts.antt =====
-- The choices of internal/provision/reconciler.go: which host, which node.
use medea.Prelude.{
  Bytes, Bool, true, false, Option, none, some, List, [], ◌∷◌, bytes, ◌==◌, bytes_lt, is_empty,
  if◌then◌else◌, ◌&&◌, ◌||◌, not,
}
use medea.Proto.{Role, role_controlplane, role_worker, HostState, host_registered, host_ready, Host}
use medea.Rollout.World.{NodeInfo}

-- The loop of contains, and the test `_, taken := claimed[x]`.
unfoldable pub is_member : List Bytes → Bytes → Bool
is_member [] s = false
is_member (x ∷ xs) s = x == s || is_member xs s

-- A map's read: a missing key reads as "".
unfoldable pub label : List (Bytes × Bytes) → Bytes → Bytes
label [] k = []
label ((j, v) ∷ l) k = if j == k then v else label l k

unfoldable pub matches_selector : List (Bytes × Bytes) → List (Bytes × Bytes) → Bool
unfolding label
matches_selector labels [] = true
matches_selector labels ((k, v) ∷ selector) =
    label labels k == v && matches_selector labels selector

unfoldable pub role_matches : Bytes → Role → Bool
unfolding bytes
role_matches node_role role_controlplane = node_role == bytes "controlplane"
role_matches node_role role_worker = node_role == bytes "worker"
role_matches node_role _ = false

unfoldable pub is_registered : HostState → Bool
is_registered host_registered = true
is_registered _ = false

unfoldable pub is_host_ready : HostState → Bool
is_host_ready host_ready = true
is_host_ready _ = false

unfoldable pub pick_available : List Host → List (Bytes × Bytes) → Option Host
unfolding is_registered matches_selector
pick_available [] selector = none
pick_available (h ∷ hs) selector =
    if is_registered h.state && matches_selector h.labels selector
    then some h
    else pick_available hs selector

-- The tests of the loop of newJoinedNode.
unfoldable pub is_joined : List Bytes → Role → NodeInfo → Bool
unfolding is_member role_matches
is_joined claimed role n =
    n.ready
    && not (is_empty n.internal_ip)
    && not (is_member claimed n.internal_ip)
    && role_matches n.role role

unfoldable pub new_joined_node : List NodeInfo → List Bytes → Role → Option NodeInfo
unfolding is_joined
new_joined_node [] claimed role = none
new_joined_node (n ∷ ns) claimed role =
    if is_joined claimed role n then some n else new_joined_node ns claimed role

-- The loop over the hosts in claimedAddrs.
unfoldable pub host_addrs : List Host → List Bytes
host_addrs [] = []
host_addrs (h ∷ hs) = if is_empty h.addr then host_addrs hs else h.addr ∷ host_addrs hs

unfoldable pub node_name_for : List NodeInfo → Bytes → Bytes
node_name_for [] addr = []
node_name_for (n ∷ ns) addr = if n.internal_ip == addr then n.name else node_name_for ns addr

-- One turn of scaleIn's first loop, with the victim so far.
unfoldable pub better_victim : Option Host → Host → Option Host
unfolding is_host_ready bytes_lt
better_victim victim h =
    if is_host_ready h.state
    then elim victim [ none ↦ some h | some v ↦ if bytes_lt h.mac v.mac then some h else some v ]
    else victim

unfoldable pub victim_from : Option Host → List Host → Option Host
unfolding better_victim
victim_from victim [] = victim
victim_from victim (h ∷ hs) = victim_from (better_victim victim h) hs

-- The loop of removeMember.
unfoldable pub without_member : List Bytes → Bytes → List Bytes
without_member [] addr = []
without_member (m ∷ ms) addr =
    if m == addr then without_member ms addr else m ∷ without_member ms addr
