-- ===== src/P2p/Frames.antt =====
-- Messages are read as they were sent.
use mathlib.Core.List.{append_assoc}
use colossus_x.Prelude.{
  ℕ, zero, suc, ◌%◌, ◌^◌, ◌<◌, ◌≡◌, refl, true, ap, [], ◌∷◌, ◌++◌, arith, length, take, drop, leb,
  length-append, Result, ok, ◌>>=◌,
}
use colossus_x.Bytes.{Bytes}
use colossus_x.Bytes.Words.{be_bytes, from_be-be_bytes, length-be_bytes}
use colossus_x.P2p.{frame, read_full, send, read_message}

take-append : (a b : Bytes) (n : ℕ) → length a ≡ n → take n (a ++ b) ≡ a
take-append [] b zero h = refl
take-append [] b (suc n) h = absurd (omega arith)
take-append (x ∷ a) b zero h = absurd (omega arith)
take-append (x ∷ a) b (suc n) h = ap (λ r. x ∷ r) (take-append a b n (omega arith))

drop-append : (a b : Bytes) (n : ℕ) → length a ≡ n → drop n (a ++ b) ≡ b
drop-append [] b zero h = refl
drop-append [] b (suc n) h = absurd (omega arith)
drop-append (x ∷ a) b zero h = absurd (omega arith)
drop-append (x ∷ a) b (suc n) h = drop-append a b n (omega arith)

read_full-append : (a b : Bytes) (n : ℕ) → length a ≡ n → read_full n (a ++ b) ≡ ok (a, b)
unfolding read_full
read_full-append a b n h =
    let long : leb n (length (a ++ b)) ≡ true = ground (arith, length-append a b, h) in
    rw (long, take-append a b n h, drop-append a b n h) refl

module _ {ℓ} {Message : Type ℓ} (marshal : Message → Result Bytes)
    (unmarshal : Bytes → Result Message) where
  -- readMessage decodes the text that Send encoded, and leaves what follows it on the connection; what
  -- json makes of that text, a message or an error, is what it returns. The text is shorter than 2^32
  -- bytes.
  pub read_message-send :
      (message : Message) (body rest : Bytes)
      → marshal message ≡ ok body
      → length body < 2 ^ 32
      → (sent : Bytes) × (send marshal unmarshal message ≡ ok sent)
        × (read_message marshal unmarshal (sent ++ rest)
            ≡ (do received ← unmarshal body; ok (received, rest)))
  unfolding send read_message frame
  read_message-send message body rest encoded small =
      let size : length body % 2 ^ 32 ≡ length body = omega (arith, small) in
      let number = from_be-be_bytes 4 (length body) (omega (arith, small)) in
      let first =
        read_full-append (be_bytes 4 (length body)) (body ++ rest) 4
          (length-be_bytes 4 (length body)) in
      let second = read_full-append body rest (length body) refl in
      let whole : (be_bytes 4 (length body) ++ body) ++ rest
          ≡ be_bytes 4 (length body) ++ (body ++ rest) =
        append_assoc (be_bytes 4 (length body)) body rest in
      (frame body, rw encoded refl, rw (size, whole, first, number, second) refl)
