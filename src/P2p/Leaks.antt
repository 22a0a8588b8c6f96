-- ===== src/P2p/Leaks.antt =====
-- What a connection leaves in the set of peers.
use colossus_x.Prelude.{
  ℕ, ◌≡◌, refl, ap, ap₂, ◌∙◌, Bool, true, false, Option, none, some, Result, err, panic, List, [],
  ◌++◌, ◌∷◌, if◌then◌else◌, ok, not, ◌&&◌,
}
use colossus_x.Bytes.{Bytes, bytes_eq}
use colossus_x.Bytes.Maps.{lookup, insert, lookup-insert, lookup-remove}
use colossus_x.P2p.Peers.{
  Peer, PeerSet, Message, hello_message, status_message, ping_message, pong_message,
  new_block_message, other_message, address_key, peer_key, add, remove_peer, new_peer, Event, go_on,
  read_loop, dispatch, handle_conn,
}

-- no message changes the address of a peer
abbrev SameAddress : Peer → Peer → Type 0
SameAddress p q = (p.addr ≡ q.addr) × (p.inbound ≡ q.inbound)

dispatch_address : (peer : Peer) (m : Message) → SameAddress (dispatch peer m).1 peer
unfolding dispatch
dispatch_address peer (hello_message (ok h)) = (refl, refl)
dispatch_address peer (hello_message (err e)) = (refl, refl)
dispatch_address peer (hello_message panic) = (refl, refl)
dispatch_address peer (status_message (ok s)) = (refl, refl)
dispatch_address peer (status_message (err e)) = (refl, refl)
dispatch_address peer (status_message panic) = (refl, refl)
dispatch_address peer (ping_message (ok t) sent) = (refl, refl)
dispatch_address peer (ping_message (err e) sent) = (refl, refl)
dispatch_address peer (ping_message panic sent) = (refl, refl)
dispatch_address peer (pong_message (ok t)) = (refl, refl)
dispatch_address peer (pong_message (err e)) = (refl, refl)
dispatch_address peer (pong_message panic) = (refl, refl)
dispatch_address peer (new_block_message (ok b)) = (refl, refl)
dispatch_address peer (new_block_message (err e)) = (refl, refl)
dispatch_address peer (new_block_message panic) = (refl, refl)
dispatch_address peer other_message = (refl, refl)

go_on_address :
    (r : Result (Unit {0})) (stop : Bool) (ended longer : Peer × List Event) (peer : Peer)
    → SameAddress ended.0 peer
    → SameAddress longer.0 peer
    → SameAddress (go_on r stop ended longer).0 peer
go_on_address (ok _) true ended longer peer e l = e
go_on_address (ok _) false ended longer peer e l = l
go_on_address (err _) stop ended longer peer e l = e
go_on_address panic stop ended longer peer e l = e

read_loop_address :
    (peer : Peer) (messages : List (Message × Bool)) → SameAddress (read_loop peer messages).0 peer
unfolding read_loop
read_loop_address peer [] = (refl, refl)
read_loop_address peer ((m, stop) ∷ later) =
    let (addr, inbound) = dispatch_address peer m in
    let (a, i) = read_loop_address (dispatch peer m).1 later in
    go_on_address (dispatch peer m).0 stop _ _ peer (addr, inbound) (a ∙ addr, i ∙ inbound)

-- Apart from the code: the node ID that a message gives to its peer, whether the connection outlives
-- the message, and the node ID after all that is read.
unfoldable pub name_after : Message → Bytes → Bytes
name_after (hello_message (ok h)) id = h.node_id
name_after _ id = id

abbrev pub succeeds {ℓ} : {A : Type ℓ} → Result A → Bool
succeeds (ok _) = true
succeeds (err _) = false
succeeds panic = false

unfoldable pub is_served : Message → Bool
is_served (hello_message body) = succeeds body
is_served (status_message body) = succeeds body
is_served (ping_message body sent) = succeeds body && succeeds sent
is_served (pong_message body) = succeeds body
is_served (new_block_message body) = succeeds body
is_served other_message = false

unfoldable pub last_name : Bytes → List (Message × Bool) → Bytes
last_name id [] = id
last_name id ((message, context_done) ∷ later) =
    let rest = last_name (name_after message id) later in
    if not context_done && is_served message then rest else name_after message id

dispatch_name : (peer : Peer) (m : Message) → (dispatch peer m).1.id ≡ name_after m peer.id
unfolding dispatch name_after
dispatch_name peer (hello_message (ok h)) = refl
dispatch_name peer (hello_message (err e)) = refl
dispatch_name peer (hello_message panic) = refl
dispatch_name peer (status_message (ok s)) = refl
dispatch_name peer (status_message (err e)) = refl
dispatch_name peer (status_message panic) = refl
dispatch_name peer (pong_message (ok t)) = refl
dispatch_name peer (pong_message (err e)) = refl
dispatch_name peer (pong_message panic) = refl
dispatch_name peer (new_block_message (ok b)) = refl
dispatch_name peer (new_block_message (err e)) = refl
dispatch_name peer (new_block_message panic) = refl
dispatch_name peer (ping_message (ok t) (ok u)) = refl
dispatch_name peer (ping_message (ok t) (err e)) = refl
dispatch_name peer (ping_message (ok t) panic) = refl
dispatch_name peer (ping_message (err e) sent) = refl
dispatch_name peer (ping_message panic sent) = refl
dispatch_name peer other_message = refl

go_on_served :
    (peer : Peer) (m : Message) (stop : Bool) (ended longer : Peer × List Event)
    → go_on (dispatch peer m).0 stop ended longer
      ≡ (if not stop && is_served m then longer else ended)
unfolding dispatch is_served
go_on_served peer (hello_message (ok h)) true ended longer = refl
go_on_served peer (hello_message (ok h)) false ended longer = refl
go_on_served peer (hello_message (err e)) true ended longer = refl
go_on_served peer (hello_message (err e)) false ended longer = refl
go_on_served peer (hello_message panic) true ended longer = refl
go_on_served peer (hello_message panic) false ended longer = refl
go_on_served peer (status_message (ok s)) true ended longer = refl
go_on_served peer (status_message (ok s)) false ended longer = refl
go_on_served peer (status_message (err e)) true ended longer = refl
go_on_served peer (status_message (err e)) false ended longer = refl
go_on_served peer (status_message panic) true ended longer = refl
go_on_served peer (status_message panic) false ended longer = refl
go_on_served peer (pong_message (ok t)) true ended longer = refl
go_on_served peer (pong_message (ok t)) false ended longer = refl
go_on_served peer (pong_message (err e)) true ended longer = refl
go_on_served peer (pong_message (err e)) false ended longer = refl
go_on_served peer (pong_message panic) true ended longer = refl
go_on_served peer (pong_message panic) false ended longer = refl
go_on_served peer (new_block_message (ok b)) true ended longer = refl
go_on_served peer (new_block_message (ok b)) false ended longer = refl
go_on_served peer (new_block_message (err e)) true ended longer = refl
go_on_served peer (new_block_message (err e)) false ended longer = refl
go_on_served peer (new_block_message panic) true ended longer = refl
go_on_served peer (new_block_message panic) false ended longer = refl
go_on_served peer (ping_message (ok t) (ok u)) true ended longer = refl
go_on_served peer (ping_message (ok t) (ok u)) false ended longer = refl
go_on_served peer (ping_message (ok t) (err e)) true ended longer = refl
go_on_served peer (ping_message (ok t) (err e)) false ended longer = refl
go_on_served peer (ping_message (ok t) panic) true ended longer = refl
go_on_served peer (ping_message (ok t) panic) false ended longer = refl
go_on_served peer (ping_message (err e) sent) true ended longer = refl
go_on_served peer (ping_message (err e) sent) false ended longer = refl
go_on_served peer (ping_message panic sent) true ended longer = refl
go_on_served peer (ping_message panic sent) false ended longer = refl
go_on_served peer other_message true ended longer = refl
go_on_served peer other_message false ended longer = refl

id_of_if :
    (b : Bool) (l e : Peer × List Event)
    → (if b then l else e).0.id ≡ (if b then l.0.id else e.0.id)
id_of_if true l e = refl
id_of_if false l e = refl

read_loop_name :
    (peer : Peer) (messages : List (Message × Bool))
    → (read_loop peer messages).0.id ≡ last_name peer.id messages
unfolding read_loop last_name
read_loop_name peer [] = refl
read_loop_name peer ((m, stop) ∷ later) =
    let name = dispatch_name peer m in
    let rest = read_loop_name (dispatch peer m).1 later in
    let goes = not stop && is_served m in
    let ended : Peer × List Event = ((dispatch peer m).1, (dispatch peer m).2) in
    let (last, more) = read_loop (dispatch peer m).1 later in
    let longer : Peer × List Event = (last, (dispatch peer m).2 ++ more) in
    ap (λ (p : Peer × List Event). p.0.id) (go_on_served peer m stop ended longer)
    ∙ id_of_if goes longer ended
    ∙ ap₂ (λ (l : Bytes) (e : Bytes). if goes then l else e)
        (rest ∙ ap (λ (i : Bytes). last_name i later) name) name

-- the key of a peer by its parts
peer_key_lem :
    (p : Peer) (id addr : Bytes) (inbound : Bool)
    → p.id ≡ id
    → p.addr ≡ addr
    → p.inbound ≡ inbound
    → peer_key p ≡ (if bytes_eq id [] then address_key addr inbound else id)
unfolding peer_key
peer_key_lem p id addr inbound i a b =
    λ t. if bytes_eq (i t) [] then address_key (a t) (b t) else i t

-- After a connection the set of peers has lost the key of the last node ID that the peer gave in a
-- hello, which may lead to another peer, and kept the key by its address, which leads to the closed
-- connection, unless the two are one key. Without a node ID it is the key by the address that is
-- lost. Other keys are as before.
pub handle_conn-lookup :
    (peers : PeerSet) (handle : ℕ) (addr : Bytes) (inbound : Bool)
    (messages : List (Message × Bool)) (key : Bytes)
    → let id = last_name [] messages in
      let own = if bytes_eq id [] then address_key addr inbound else id in
      lookup (handle_conn peers handle addr inbound messages).0 key ≡ (
        if bytes_eq own key
        then none
        else if bytes_eq (address_key addr inbound) key
        then some handle
        else lookup peers key)
unfolding handle_conn add remove_peer peer_key bytes_eq
handle_conn-lookup peers handle addr inbound messages key =
    let last = (read_loop (new_peer addr inbound) messages).0 in
    let (same_addr, same_inbound) = read_loop_address (new_peer addr inbound) messages in
    let same_id = read_loop_name (new_peer addr inbound) messages in
    let id = last_name [] messages in
    let own = if bytes_eq id [] then address_key addr inbound else id in
    let keyed : peer_key last ≡ own =
      peer_key_lem last id addr inbound same_id same_addr same_inbound in
    lookup-remove (insert peers (address_key addr inbound) handle) (peer_key last) key
    ∙ ap₂ (λ (k : Bytes) (x : Option ℕ). if bytes_eq k key then none else x) keyed
        (lookup-insert peers (address_key addr inbound) handle key)
