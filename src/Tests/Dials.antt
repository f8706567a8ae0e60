-- ===== src/Tests/Dials.antt =====
-- Tests of a node that dials another one: the node n2 dials n1, whose logins are those of the tests.
use gatewaysshd.Common.{
  ◌≡◌, refl, ap, Bool, true, false, [], Option, none, some, Text, codes, arith,
}
use gatewaysshd.Errors.{Result, ok, err}
use gatewaysshd.Auth.{authenticate, is_authority, peer_user}
use gatewaysshd.Auth.Ssh.{Extensions}
use gatewaysshd.Connection.{is_peer}
use gatewaysshd.Channels.{new_connection}
use gatewaysshd.Db.{Node, zero_node}
use gatewaysshd.Mesh.{get_peer}
use gatewaysshd.Mesh.Peering.{Peering, new_peer}
use gatewaysshd.Mesh.Dialing.{ClientConfig, connect_to_peer, connect_to_peer_lem}
use gatewaysshd.Startup.Settings.{check_pinned_host_key, published_key}
use gatewaysshd.Tests.{program, n1, n2}
use gatewaysshd.Tests.Logins.{ssh, Key, settings, world, peers_key}
use gatewaysshd.Tests.Starts.{keys, read_file}

abbrev host : Key
host = (codes "host", [], [])

-- The key that is published is the only one that can be read.
abbrev parse_host_key : Text → Option Key
parse_host_key raw = some host

accepted : Result (Unit {0}) → Bool
accepted (ok _) = true
accepted (err e) = false

-- A dial goes through if the host key is accepted.
dial : Text → ClientConfig Key Key → Bool
dial address config =
    accepted (check_pinned_host_key ssh keys read_file config.pinned_host_key host)

abbrev alone : Peering
alone = record {
  mesh = record { peers = []; routes = record { entries = [] } };
  dialed = 4;
  closed = [];
}

abbrev row_of_n1 : Node
row_of_n1 = record zero_node { address = codes "n1:22"; host_public_key = codes "host" }

published : parse_host_key row_of_n1.host_public_key ≡ some (published_key ssh keys read_file host)
unfolding published_key
published = refl

dials :
    (config : ClientConfig Key Key) (extensions : Extensions)
    → check_pinned_host_key ssh keys read_file config.pinned_host_key host ≡ ok tt
    → (authenticate ssh settings true world
        (record { user = config.user; ip = codes "192.0.2.9"; location = [] })
        config.signer
        200).result
      ≡ ok extensions
    → dial (codes "n1:22") config ≡ true
unfolding dial accepted
dials config extensions pinned let_in = ap accepted pinned

checked :
    ssh.check_certificate (is_authority ssh settings.peer_ca_public_keys) peer_user peers_key
    ≡ ok []
unfolding program is_authority
checked = refl

free : get_peer alone.mesh n1 ≡ none
unfolding program
free = refl

connect_to_peer_lem_example :
    (get_peer (connect_to_peer parse_host_key dial peers_key n1 row_of_n1 alone).mesh n1
      ≡ some (new_peer n1 4))
    × ((extensions : Extensions) × ((authenticate ssh settings true world
            (record { user = peer_user; ip = codes "192.0.2.9"; location = [] })
            peers_key
            200).result
          ≡ ok extensions)
        × ((new_connection extensions peer_user []).node_id ≡ n2)
        × (is_peer (new_connection extensions peer_user []) ≡ true)
        × ((new_connection extensions peer_user []).administrator ≡ false)
        × ((new_connection extensions peer_user []).permit_port_forwarding ≡ false))
connect_to_peer_lem_example =
    connect_to_peer_lem ssh keys read_file parse_host_key dial peers_key host settings true world
      (codes "192.0.2.9") [] [] n2 n1 200 row_of_n1 alone published dials checked refl
      (λ e. ground arith) free
