-- ===== src/P2p.antt =====
-- pkg/p2p/peer.go: the frames of messages. JSON is a parameter: `marshal` and `unmarshal`. A
-- connection is the list of the bytes that are still to be read; a read past its end is an error.
pub mod Frames
pub mod Peers
pub mod Leaks
use colossus_x.Prelude.{
  ℕ, zero, suc, ◌+◌, ◌%◌, ◌^◌, ◌<◌, List, [], ◌∷◌, ◌++◌, arith, length, take, drop, leb, Bool, true,
  false, Result, ok, err, panic, ◌>>=◌, ◌>>◌, require, short_read,
}
use colossus_x.Bytes.{Bytes}
use colossus_x.Bytes.Words.{be_bytes, from_be}

-- the frame that Peer.Send writes for a body
unfoldable pub frame : Bytes → Bytes
frame body = be_bytes 4 (length body % 2 ^ 32) ++ body

-- io.ReadFull of n bytes
unfoldable pub read_full : ℕ → Bytes → Result (Bytes × Bytes)
read_full n stream = do
  require (leb n (length stream)) short_read
  ok (take n stream, drop n stream)

module _ {ℓ} {Message : Type ℓ} (marshal : Message → Result Bytes)
    (unmarshal : Bytes → Result Message) where
  -- Peer.Send: the bytes written
  unfoldable pub send : Message → Result Bytes
  send message = do body ← marshal message; ok (frame body)

  -- readMessage: the message, and the rest of the connection
  unfoldable pub read_message : Bytes → Result (Message × Bytes)
  read_message stream = do
    (size_buf, stream') ← read_full 4 stream
    (payload, stream'') ← read_full (from_be size_buf) stream'
    message ← unmarshal payload
    ok (message, stream'')
