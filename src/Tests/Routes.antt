-- ===== src/Tests/Routes.antt =====
-- Tests of the route cache and of the routing over the mesh.
use gatewaysshd.Common.{
  ℕ, ◌+◌, ◌*◌, ◌≤◌, ◌<◌, ◌≡◌, ◌≢◌, refl, inl, inr, List, [], ◌∷◌, none, some, Text, codes, text_key,
  arith, Member, length, true, false,
}
use gatewaysshd.Common.Dict.{retain}
use gatewaysshd.Errors.{ok}
use gatewaysshd.RouteCache
use gatewaysshd.RouteCache.{
  RouteCache, second, new_route_cache, route_cache_time_to_live, route_cache_max_entries,
}
use gatewaysshd.RouteCache.Bounds.{IsBounded, new_route_cache-IsBounded, put-IsBounded, fresh}
use gatewaysshd.RouteCache.History.{Call, puts, invalidates, step, run, recall, get-run_sound}
use gatewaysshd.Gateway.Lookup.{Names}
use gatewaysshd.Mesh.{Mesh, get_peer, lookup_remote_peer}
use gatewaysshd.Mesh.{candidates, route_of, find_peer, try_user, try_node}
use gatewaysshd.Mesh.Discovery.{Settings, register_node, is_dialed, is_node_online, discover_peers}
use gatewaysshd.Mesh.Rounds.{run_round, run_round_redials}
use gatewaysshd.Heartbeat.{is_heartbeat_fresh}
use gatewaysshd.Db.{Db, Node, put_node, list_nodes}
use gatewaysshd.Mesh.Routing.{Leads, lookup_remote_peer_sound, lookup_remote_peer_complete}
use gatewaysshd.Tests.{program, alice, bob, web, n1, n2, mesh, peer_n2, bob_on_n2}

program' : Unit {0}
unfolding program run recall new_route_cache get_peer lookup_remote_peer find_peer try_user try_node
    candidates retain
program' = tt

put-IsBounded_example : IsBounded (RouteCache.put new_route_cache bob n2 5 6)
put-IsBounded_example = put-IsBounded new_route_cache bob n2 5 6 new_route_cache-IsBounded

abbrev calls : List Call
calls = puts alice n1 9 9 ∷ puts bob n2 7 8 ∷ invalidates alice ∷ puts bob n1 3 4 ∷ []

calls-bob : RouteCache.get (run calls) bob 10 ≡ some n2
unfolding program' step
calls-bob = refl

get-run_sound_example :
    (stamp : ℕ) × (recall bob calls ≡ some (n2, stamp)) × (10 ≤ stamp + route_cache_time_to_live)
get-run_sound_example = get-run_sound calls bob 10 calls-bob

fresh_fit : length (retain (fresh 10) (run calls).entries) < route_cache_max_entries
unfolding program' step
fresh_fit = ground arith

alice≢bob : alice ≢ bob
alice≢bob = ground arith

abbrev web_bob : Text
web_bob = codes "web.bob"

found : (lookup_remote_peer n1 bob_on_n2 10 mesh web_bob).1 ≡ some peer_n2
unfolding program'
found = refl

lookup_remote_peer_sound_example :
    (user service : Text) × Names web_bob service user
    × ((node : Text) × Leads n1 bob_on_n2 10 mesh user node peer_n2)
lookup_remote_peer_sound_example =
    lookup_remote_peer_sound n1 bob_on_n2 10 mesh web_bob peer_n2 found

web_bob-Names : Names web_bob web bob
web_bob-Names = inr refl

routed : route_of n1 bob_on_n2 10 mesh.routes bob ≡ ok n2
unfolding program'
routed = refl

held : get_peer mesh n2 ≡ some peer_n2
unfolding program'
held = refl

lookup_remote_peer_complete_example : (lookup_remote_peer n1 bob_on_n2 10 mesh web_bob).1 ≢ none
lookup_remote_peer_complete_example =
    lookup_remote_peer_complete n1 bob_on_n2 10 mesh web_bob web bob n2 peer_n2 (ground arith)
      web_bob-Names (ground arith) routed (ground arith) (ground arith) held

abbrev registering : Settings
registering = record {
  node_id = n2;
  node_address = codes "n2:22";
  host_public_key = codes "key";
  peers_out = false;
}

abbrev dialing : Settings
dialing = record { node_id = n1; node_address = []; host_public_key = []; peers_out = true }

abbrev at_n2 : Node
at_n2 = record {
  created_at = 10 * second;
  modified_at = 10 * second;
  address = codes "n2:22";
  host_public_key = codes "key";
  online = true;
  online_at = 10 * second;
}

abbrev registered_db : Db
registered_db = record { users = []; nodes = (n2, at_n2) ∷ [] }

registers :
    register_node registering (record { users = []; nodes = [] }) true (10 * second)
    ≡ ok registered_db
unfolding program' register_node put_node
registers = refl

abbrev alone : Mesh
alone = record { peers = []; routes = record { entries = [] } }

has_n2 : get_peer mesh n2 ≡ some peer_n2
unfolding program'
has_n2 = refl

-- The peer of n2 does not answer, and n1 dials that node again.
run_round_redials_example :
    let first = run_round dialing true (λ peer. false) mesh registered_db (11 * second) in
    (get_peer first.mesh n2 ≡ none)
    × ((node : Node) × Member
          (n2, node)
          (run_round dialing true (λ peer. true) first.mesh registered_db (99 * second)).dialed
        × (node.address ≡ codes "n2:22")
        × (node.host_public_key ≡ codes "key"))
run_round_redials_example =
    run_round_redials dialing registering (λ peer. false) (λ peer. true) true mesh registered_db
      (record { users = []; nodes = [] }) registered_db (11 * second) (10 * second) (99 * second)
      peer_n2 has_n2 refl registers refl (ground arith) (ground arith) (ground arith) refl
      (ground arith) (ground arith)

dialed : Member (n2, at_n2) (discover_peers dialing alone registered_db (99 * second))
unfolding program' discover_peers is_dialed is_node_online is_heartbeat_fresh list_nodes
dialed = inl refl
