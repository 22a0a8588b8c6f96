-- ===== src/Chain/Codec.antt =====
-- pkg/chain/codec.go and pkg/types/types.go: the texts of hashes on disk and in messages.
use colossus_x.Prelude.{
  ◌≡◌, arith, [], ◌∷◌, length, ◌==◌, Result, ok, ◌>>=◌, ◌>>◌, require, bad_length,
}
use colossus_x.Bytes.{Bytes, IsArray, zero_hash}
use colossus_x.Hex.{hex_decode, hex_encode}
use colossus_x.Hex.RoundTrip.{hex_decode-hex_encode}

-- Hash.UnmarshalJSON, past the JSON string
unfoldable pub unmarshal_hash : Bytes → Result Bytes
unmarshal_hash s = do decoded ← hex_decode s; require (length decoded == 32) bad_length; ok decoded

-- hashFromString: the empty text is the zero hash
unfoldable pub hash_from_string : Bytes → Result Bytes
hash_from_string [] = ok zero_hash
hash_from_string (x ∷ s) = do
  decoded ← hex_decode (x ∷ s)
  require (length decoded == 32) bad_length
  ok decoded

-- The two readers of hashes agree on every hash that was written: each reads the 32 bytes back from
-- their hexadecimal text.
pub hash_from_string-hex_encode :
    (h : Bytes)
    → IsArray 32 h
    → (hash_from_string (hex_encode h) ≡ ok h) × (unmarshal_hash (hex_encode h) ≡ ok h)
unfolding hash_from_string unmarshal_hash hex_encode
hash_from_string-hex_encode [] a = absurd (omega (arith, a.size))
hash_from_string-hex_encode (x ∷ r) a =
    let read = hex_decode-hex_encode (x ∷ r) a.bytes in (rw (read, a.size), rw (read, a.size))
