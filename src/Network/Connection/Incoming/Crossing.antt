-- ===== src/Network/Connection/Incoming/Crossing.antt =====
-- A datagram from one end to the other, or back to the end that made it.
use morsh.Common.{
  ℕ, ◌+◌, ◌^◌, ◌≤◌, ◌<◌, ◌≡◌, refl, sym, ap, ◌∙◌, subst, inl, inr, List, ◌++◌, Option, none, some,
  Bool, true, false, not, ◌&&◌, ◌==◌, if◌then◌else◌, length, drop, drop-append, append_assoc,
  length-append, to_be, length-to_be, arith, ok, err, map_err, Bool-cases, ==→eq, le→ltb, option_eq,
}
use morsh.Proto.{Wire}
use morsh.Crypto.Nonce.{val, val-from_val}
use morsh.Crypto.Cipher.{Cipher, CipherLaws}
use morsh.Crypto.Session.{Message, decrypt}
use morsh.Crypto.Session.RoundTrip.{decrypt-encrypt}
use morsh.Network.Fragment.{Fragment, to_bytes}
use morsh.Network.Fragment.Codec.{IsWire, from_bytes-to_bytes}
use morsh.Network.Assembly.{add_fragment}
use morsh.Network.Connection.{
  Connection, ConnectionError, wrong_direction, fragment_error, timestamp16, bit63, clear_bit63,
}
use morsh.Network.Connection.Outgoing.{
  SendClock, nonce_val, timestamp_reply, plaintext, message, encrypt_fragment,
}
use morsh.Network.Connection.Outgoing.Nonces.{
  Sealed, encrypt_fragment-Sealed, packet_val, nonce_val-packet_val,
}
use morsh.Network.Connection.Outgoing.Datagrams.{length-plaintext}
use morsh.Network.Connection.Incoming.{
  RecvClock, Received, gate, seq_of, assembled, refreshed, accept, process_incoming, same_side,
}
use morsh.Network.Connection.Incoming.Guards.{process_authentic, accept_cases}

-- The text after the timestamps is the fragment.
drop-plaintext :
    (c : Connection) (clock : SendClock) (frag : Fragment)
    → drop 4 (plaintext c clock frag) ≡ to_bytes frag
unfolding plaintext
drop-plaintext c clock frag =
    let a : List ℕ = to_be 2 (timestamp16 clock.unix_ms) in
    let b : List ℕ = to_be 2 (timestamp_reply c clock.now) in
    rw (← append_assoc a b (to_bytes frag)) (
      drop-append 4 (a ++ b) (to_bytes frag) (
        omega (
          arith,
          length-append a b,
          length-to_be 2 (timestamp16 clock.unix_ms),
          length-to_be 2 (timestamp_reply c clock.now),
        )))

bits-packet_val :
    (b : Bool) (n : ℕ)
    → n < 2 ^ 63
    → (bit63 (packet_val b n) ≡ b) × (clear_bit63 (packet_val b n) ≡ n) × (packet_val b n < 2 ^ 64)
bits-packet_val true n h = (ground arith, ground arith, omega arith)
bits-packet_val false n h = (ground arith, ground arith, omega arith)

module _ (sender : Connection) (clock : SendClock) (frag : Fragment)
    (early : sender.send_seq < 2 ^ 63) where
  val-message : val (message sender clock frag).nonce ≡ packet_val sender.server sender.send_seq
  val-message = rw (nonce_val-packet_val sender early) (
      val-from_val (packet_val sender.server sender.send_seq)
        (bits-packet_val sender.server sender.send_seq early).2)

  seq_of-message : seq_of (message sender clock frag) ≡ sender.send_seq
  seq_of-message =
      ap clear_bit63 val-message ∙ (bits-packet_val sender.server sender.send_seq early).1

  side-message : bit63 (val (message sender clock frag).nonce) ≡ sender.server
  side-message = ap bit63 val-message ∙ (bits-packet_val sender.server sender.send_seq early).0

  gate_own : gate sender.server (message sender clock frag) ≡ err (wrong_direction sender.server)
  unfolding gate
  gate_own = rw (side-message, side sender.server)
    where
      side : (b : Bool) → same_side b b ≡ true
      side true = refl
      side false = refl

  gate_other : IsWire frag → gate (not sender.server) (message sender clock frag) ≡ ok frag
  unfolding gate
  gate_other w = rw (
    side-message,
    side sender.server,
    le→ltb (length (plaintext sender clock frag)) 4
        (omega (arith, length-plaintext sender clock frag)),
    drop-plaintext sender clock frag,
    from_bytes-to_bytes frag w,
  )
    where
      side : (b : Bool) → same_side b (not b) ≡ false
      side true = refl
      side false = refl

-- What a datagram carries for the side `other`: a fragment, under a number, encrypted with a key.
pub record Carries (cipher : Cipher) (key : List ℕ) (other : Bool) (datagram : List ℕ)
    (frag : Fragment) : Type 0 where
  pub sender : Connection
  pub clock : SendClock
  pub sender' : Connection
  pub sealed : encrypt_fragment cipher sender clock frag ≡ ok (datagram, sender')
  pub early : sender.send_seq < 2 ^ 63
  pub wire_frag : IsWire frag
  pub key_eq : sender.session.key ≡ key
  pub side_eq : sender.server ≡ not other

module _ (wire : Wire) (cipher : Cipher) (laws : CipherLaws cipher) where
  decrypts :
      (sender receiver : Connection) (clock : SendClock) (frag : Fragment) (datagram : List ℕ)
      (sender' : Connection)
      → encrypt_fragment cipher sender clock frag ≡ ok (datagram, sender')
      → receiver.session.key ≡ sender.session.key
      → decrypt cipher receiver.session datagram ≡ ok (message sender clock frag)
  decrypts sender receiver clock frag datagram sender' e k =
      let s : Sealed cipher sender clock frag datagram sender' =
        encrypt_fragment-Sealed cipher sender clock frag datagram sender' e in
      decrypt-encrypt cipher ConnectionError laws sender.session receiver.session (nonce_val sender)
        (plaintext sender clock frag) datagram s.session' k s.run

  -- A datagram that a side encrypted under a number below 2^63 and that comes back to a connection
  -- of the same side and key is refused for its direction, and the connection stays as it was.
  pub own_packet_refused :
      (sender receiver : Connection) (clock : SendClock) (frag : Fragment) (datagram : List ℕ)
      (sender' : Connection) (recv_clock : RecvClock) (peer : ℕ)
      → encrypt_fragment cipher sender clock frag ≡ ok (datagram, sender')
      → sender.send_seq < 2 ^ 63
      → receiver.session.key ≡ sender.session.key
      → receiver.server ≡ sender.server
      → process_incoming wire cipher receiver recv_clock datagram peer
        ≡ (err (wrong_direction sender.server), receiver)
  unfolding accept
  own_packet_refused sender receiver clock frag datagram sender' recv_clock peer e h k v =
      let g : gate receiver.server (message sender clock frag)
          ≡ err (wrong_direction sender.server) =
        rw v (gate_own sender clock frag h) in
      process_authentic wire cipher receiver recv_clock datagram peer (message sender clock frag)
        (decrypts sender receiver clock frag datagram sender' e k)
      ∙ rw (g, accept)

  -- A fragment that the other side encrypted is handed to the assembler, whatever its number; a
  -- fresh number moves the window past it and makes a server answer to where it came from.
  pub record Crossed (receiver : Connection) (seq : ℕ) (frag : Fragment) (peer : ℕ) (out : Received)
      : Type 0 where
    pub result : out.0 ≡ map_err fragment_error (add_fragment wire receiver.assembler frag).0
    pub assembler : out.1.assembler ≡ (add_fragment wire receiver.assembler frag).1
    pub session : out.1.session ≡ receiver.session
    pub server : out.1.server ≡ receiver.server
    pub window : receiver.expected_receiver_seq ≤ seq → out.1.expected_receiver_seq ≡ seq + 1
    pub roams :
        receiver.expected_receiver_seq ≤ seq
        → receiver.server ≡ true
        → out.1.remote_addr ≡ some peer

  roam :
      (o : Option ℕ) (p : ℕ) (b : Bool)
      → b ≡ true
      → (if b && not (option_eq ◌==◌ o (some p)) then some p else o) ≡ some p
  roam none p b e = rw e
  roam (some q) p b e = elim (Bool-cases (q == p)) [
    | inl same ↦ rw (e, same) (ap some (==→eq q p same))
    | inr other ↦ rw (e, other)
  ]

  pub crosses :
      (receiver : Connection) (datagram : List ℕ) (frag : Fragment) (recv_clock : RecvClock)
      (peer : ℕ) (c : Carries cipher receiver.session.key receiver.server datagram frag)
      → Crossed receiver c.sender.send_seq frag peer
          (process_incoming wire cipher receiver recv_clock datagram peer)
  unfolding assembled refreshed
  crosses receiver datagram frag recv_clock peer c =
      let msg : Message = message c.sender c.clock frag in
      let seq : ℕ = c.sender.send_seq in
      let seq_eq : seq_of msg ≡ seq = seq_of-message c.sender c.clock frag c.early in
      let opened : decrypt cipher receiver.session datagram ≡ ok msg =
        decrypts c.sender receiver c.clock frag datagram c.sender' c.sealed (sym c.key_eq) in
      let passes : gate receiver.server msg ≡ ok frag =
        subst (λ b. gate b msg ≡ ok frag) (ap not c.side_eq ∙ not_not receiver.server)
          (gate_other c.sender c.clock frag c.early c.wire_frag) in
      rw (process_authentic wire cipher receiver recv_clock datagram peer msg opened) (
        accept_cases wire (Crossed receiver seq frag peer) receiver recv_clock msg peer
          (λ e g. absurd (ground (arith, g, passes))) (λ g. absurd (ground (arith, g, passes)))
          (λ frag' g old.
            let same : frag ≡ frag' = cc (g, passes) in
            subst (λ k. Crossed receiver seq frag peer (assembled wire receiver k)) same
              (record {
                result = refl;
                assembler = refl;
                session = refl;
                server = refl;
                window = λ h. absurd (omega (arith, seq_eq));
                roams = λ h v. absurd (omega (arith, seq_eq));
              }))
          (λ frag' g new.
            let same : frag ≡ frag' = cc (g, passes) in
            subst
              (λ k.
                Crossed receiver seq frag peer
                  (assembled wire (refreshed receiver recv_clock msg peer) k))
              same
              (record {
                result = refl;
                assembler = refl;
                session = refl;
                server = refl;
                window = λ h. ap (λ k. k + 1) seq_eq;
                roams = λ h v. roam receiver.remote_addr peer receiver.server v;
              })))
    where
      not_not : (b : Bool) → not (not b) ≡ b
      not_not true = refl
      not_not false = refl
