-- ===== src/Tests/P2p.antt =====
-- A connection that carries numbers, each encoded as one byte.
use colossus_x.Prelude.{
  Bool, true, false, none, some, List, if◌then◌else◌, ℕ, ◌≡◌, refl, [], ◌∷◌, ◌++◌, arith, Result,
  ok, err, ◌>>=◌, bad_json,
}
use colossus_x.Bytes.{Bytes, bytes_eq}
use colossus_x.Bytes.Maps.{lookup, insert, remove}
use colossus_x.Bytes.Texts.{codes}
use colossus_x.P2p.Peers.{
  Hello, PeerSet, Message, hello_message, ping_message, address_key, peer_key, add, remove_peer,
  list_peers, dispatch, read_loop, handle_conn,
}
use colossus_x.P2p.Leaks.{last_name, handle_conn-lookup}
use colossus_x.P2p.{send, read_message}
use colossus_x.P2p.Frames.{read_message-send}

abbrev to_byte : ℕ → Result Bytes
to_byte n = ok (n ∷ [])

abbrev of_byte : Bytes → Result ℕ
of_byte [] = err bad_json
of_byte (n ∷ []) = ok n
of_byte (n ∷ m ∷ r) = err bad_json

read_message_example :
    (sent : Bytes) × (send to_byte of_byte 7 ≡ ok sent)
    × (read_message to_byte of_byte (sent ++ (1 ∷ 2 ∷ []))
        ≡ (do received ← of_byte (7 ∷ []); ok (received, 1 ∷ 2 ∷ [])))
read_message_example = read_message-send to_byte of_byte 7 (7 ∷ []) (1 ∷ 2 ∷ []) refl (omega arith)

-- A peer that names itself alice, as another one did before it.
abbrev alice : Hello
alice = record {
  node_id = codes "alice";
  network = codes "main";
  version = codes "colossusx/0.1";
  listen = [];
}

abbrev known_peers : PeerSet
known_peers = (codes "alice", 7) ∷ []

abbrev a_session : List (Message × Bool)
a_session = (hello_message (ok alice), false) ∷ (ping_message (ok 5) (ok tt), false) ∷ []

abbrev own_key : Bytes
own_key =
    if bytes_eq (last_name [] a_session) []
    then address_key (codes "10.0.0.2:1") true
    else last_name [] a_session

handle_conn-lookup_example :
    lookup
      (handle_conn known_peers 9 (codes "10.0.0.2:1") true a_session).0
      (address_key (codes "10.0.0.2:1") true)
    ≡ (if bytes_eq own_key (address_key (codes "10.0.0.2:1") true)
        then none
        else if bytes_eq
            (address_key (codes "10.0.0.2:1") true)
            (address_key (codes "10.0.0.2:1") true)
        then some 9
        else lookup known_peers (address_key (codes "10.0.0.2:1") true))
handle_conn-lookup_example =
    handle_conn-lookup known_peers 9 (codes "10.0.0.2:1") true a_session
      (address_key (codes "10.0.0.2:1") true)

-- the closed connection is still listed, and the first alice is not
leak_example : list_peers (handle_conn known_peers 9 (codes "10.0.0.2:1") true a_session).0 ≡ 9 ∷ []
unfolding list_peers handle_conn add remove_peer peer_key address_key read_loop dispatch insert
    remove bytes_eq
leak_example = refl
