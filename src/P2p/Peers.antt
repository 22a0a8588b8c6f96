-- ===== src/P2p/Peers.antt =====
-- pkg/p2p/peer.go and pkg/p2p/transport.go: the set of peers, dispatch and handleConn. A peer is known
-- by a handle, a number that stands for its pointer. What json.Marshal and json.Unmarshal make of the
-- body of a message comes with the message, and so do the outcome of the Send of an answer and whether the context is
-- done after the message. The
-- calls of handlers and the messages sent are events, in their order; times are left out.
use colossus_x.Prelude.{
  ℕ, Bool, true, false, List, [], ◌∷◌, ◌++◌, map, if◌then◌else◌, Result, ok, err, panic,
  unknown_message,
}
use colossus_x.Bytes.{Bytes, bytes_eq}
use colossus_x.Bytes.Maps.{insert, remove}
use colossus_x.Bytes.Texts.{codes}
use colossus_x.Types.{Block}

-- HelloMessage
pub record Hello : Type 0 where
  pub node_id : Bytes
  pub network : Bytes
  pub version : Bytes
  pub listen : Bytes

-- PeerStatus; the time of the connection is left out
pub record PeerStatus : Type 0 where
  pub peer_id : Bytes
  pub best_hash : Bytes
  pub best_height : ℕ
  pub total_work : Bytes

-- Peer
pub record Peer : Type 0 where
  pub id : Bytes
  pub addr : Bytes
  pub inbound : Bool
  pub hello : Hello
  pub status : PeerStatus

-- Message, by its type, with the body that it decodes to
pub data Message : Type 0 where
  hello_message : Result Hello → Message
  status_message : Result PeerStatus → Message
  -- with whether the answer can be sent
  ping_message : Result ℕ → Result (Unit {0}) → Message
  pong_message : Result ℕ → Message
  new_block_message : Result Block → Message
  other_message : Message

-- what a connection does to others: calls of the handlers, messages sent, and the end
pub data Event : Type 0 where
  peer_connected peer_disconnected closed sent_hello sent_pong : Event
  on_hello : Hello → Event
  on_status : PeerStatus → Event
  on_ping : ℕ → Event
  on_pong : ℕ → Event
  on_new_block : Block → Event

-- fmt.Sprintf("%s/%t", peer.Addr, peer.Inbound)
unfoldable pub address_key : Bytes → Bool → Bytes
address_key addr inbound = addr ++ (b'/' ∷ (if inbound then codes "true" else codes "false"))

-- peerKey
unfoldable pub peer_key : Peer → Bytes
peer_key peer = if bytes_eq peer.id [] then address_key peer.addr peer.inbound else peer.id

-- PeerSet: the handles by their keys
abbrev pub PeerSet : Type 0
PeerSet = List (Bytes × ℕ)

-- Add, Remove and List
unfoldable pub add : PeerSet → Peer → ℕ → PeerSet
add peers peer handle = insert peers (peer_key peer) handle

unfoldable pub remove_peer : PeerSet → Peer → PeerSet
remove_peer peers peer = remove peers (peer_key peer)

unfoldable pub list_peers : PeerSet → List ℕ
list_peers peers = map (λ (entry : Bytes × ℕ). entry.1) peers

-- a body that was decoded, and the error otherwise
abbrev decoded {ℓ} :
    {A : Type ℓ}
    → Result A
    → Peer
    → (A → Result (Unit {0}) × Peer × List Event)
    → Result (Unit {0}) × Peer × List Event
decoded (ok a) peer f = f a
decoded (err e) peer f = (err e, peer, [])
decoded panic peer f = (panic, peer, [])

-- dispatch
unfoldable pub dispatch : Peer → Message → Result (Unit {0}) × Peer × List Event
dispatch peer (hello_message body) =
    decoded body peer λ h. (ok tt, record peer { id = h.node_id; hello = h }, on_hello h ∷ [])
dispatch peer (status_message body) =
    decoded body peer λ s. (ok tt, record peer { status = s }, on_status s ∷ [])
dispatch peer (ping_message body sent) =
    decoded body peer λ t. (sent, peer, on_ping t ∷ sent_pong ∷ [])
dispatch peer (pong_message body) = decoded body peer λ t. (ok tt, peer, on_pong t ∷ [])
dispatch peer (new_block_message body) = decoded body peer λ b. (ok tt, peer, on_new_block b ∷ [])
dispatch peer other_message = (err unknown_message, peer, [])

-- an error ends the loop, and so does the context
abbrev pub go_on :
    Result (Unit {0}) → Bool → Peer × List Event → Peer × List Event → Peer × List Event
go_on (ok _) true ended longer = ended
go_on (ok _) false ended longer = longer
go_on (err _) context_done ended longer = ended
go_on panic context_done ended longer = ended

-- the loop of handleConn over the messages that are read until the connection fails
unfoldable pub read_loop : Peer → List (Message × Bool) → Peer × List Event
read_loop peer [] = (peer, [])
read_loop peer ((message, context_done) ∷ later) =
    let (result, peer', events) = dispatch peer message in
    let (last, rest) = read_loop peer' later in
    go_on result context_done (peer', events) (last, events ++ rest)

abbrev no_hello : Hello
no_hello = record { node_id = []; network = []; version = []; listen = [] }

abbrev no_status : PeerStatus
no_status = record { peer_id = []; best_hash = []; best_height = 0; total_work = [] }

-- the peer of a new connection
abbrev pub new_peer : Bytes → Bool → Peer
new_peer addr inbound = record {
  id = [];
  addr = addr;
  inbound = inbound;
  hello = no_hello;
  status = no_status;
}

-- handleConn: the peers after the connection, the peer, and what happened
unfoldable pub handle_conn :
    PeerSet → ℕ → Bytes → Bool → List (Message × Bool) → PeerSet × Peer × List Event
handle_conn peers handle addr inbound messages =
    let peer = new_peer addr inbound in
    let (last, events) = read_loop peer messages in
    (
      remove_peer (add peers peer handle) last,
      last,
      peer_connected ∷ sent_hello ∷ (events ++ (closed ∷ peer_disconnected ∷ [])),
    )
