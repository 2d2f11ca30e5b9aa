-- ===== src/Network/Connection/Outgoing.antt =====
-- crates/morsh-network/src/connection.rs, `encrypt_fragment` and `send`: a fragment as a datagram.
pub mod Nonces
pub mod Datagrams
use morsh.Common.{
  ℕ, ◌+◌, ◌-◌, ◌/◌, ◌%◌, ◌^◌, List, [], ◌∷◌, ◌++◌, Option, none, some, Bool, true, false, not, ◌&&◌,
  ltb, ◌==◌, if◌then◌else◌, to_be, last?, Result, ok, err, panicked, ◌>>=◌, map_err,
}
use morsh.Proto.{Instruction, Wire}
use morsh.Crypto.Nonce.{Nonce, from_val}
use morsh.Crypto.Cipher.{Cipher}
use morsh.Crypto.Session.{Session, Message, encrypt}
use morsh.Network.Constants.{max_fragment_payload, mtu_ipv4}
use morsh.Network.Fragment.{Fragment, to_bytes}
use morsh.Network.Fragmenter.{make_fragments}
use morsh.Network.Connection.{
  Connection, ConnectionError, fragment_error, no_remote_address, send_error, timestamp16,
  set_bit63,
}

-- What the clocks say during one call: the system's in milliseconds, and the monotonic one.
pub record SendClock : Type 0 where
  pub unix_ms : ℕ
  pub now : ℕ

-- The peer's timestamp, corrected for the time it was held, or 0xFFFF for none.
unfoldable pub timestamp_reply : Connection → ℕ → ℕ
timestamp_reply c now =
    let elapsed_ms = (now - c.saved_timestamp_received_at) / 1_000_000 in
    if ltb elapsed_ms 1000 && not (c.saved_timestamp == 0)
    then (c.saved_timestamp + elapsed_ms % 2 ^ 16) % 2 ^ 16
    else 0xffff

unfoldable pub nonce_val : Connection → ℕ
nonce_val c = if c.server then set_bit63 c.send_seq else c.send_seq

unfoldable pub plaintext : Connection → SendClock → Fragment → List ℕ
plaintext c clock frag =
    to_be 2 (timestamp16 clock.unix_ms) ++ (to_be 2 (timestamp_reply c clock.now) ++ to_bytes frag)

abbrev pub message : Connection → SendClock → Fragment → Message
message c clock frag = record { nonce = from_val (nonce_val c); text = plaintext c clock frag }

-- A datagram that is handed to a socket: the socket, the address, and the bytes.
pub record Datagram : Type 0 where
  pub socket : ℕ
  pub remote : ℕ
  pub wire : List ℕ

abbrev pub Sent : Type 0
Sent = Result ConnectionError (Unit {0}) × Connection × List Datagram

module _ (cipher : Cipher) where
  -- The sequence number, a u64, is used up before the cipher runs.
  unfoldable pub encrypt_fragment :
      Connection → SendClock → Fragment → Result ConnectionError (List ℕ × Connection)
  encrypt_fragment c clock frag = do
    (ciphertext, session) ← encrypt cipher c.session (message c clock frag)
    ok (ciphertext, record c { session = session; send_seq = (c.send_seq + 1) % 2 ^ 64 })

  -- The loop of `send`, from fragment `i`: its result, the connection afterwards, and what the
  -- socket took. `accepts` says whether the socket takes a datagram, and `clock` what the clocks say
  -- at each fragment. With no socket open `sockets.last().unwrap()` panics.
  unfoldable pub send_loop :
      (Datagram → Bool) → (ℕ → SendClock) → ℕ → ℕ → Connection → List Fragment → Sent
  send_loop accepts clock remote i c [] = (ok tt, c, [])
  send_loop accepts clock remote i c (frag ∷ frags) = elim (encrypt_fragment c (clock i) frag) [
    | ok (wire, c') ↦ elim (last? c'.sockets) [
      | none ↦ (panicked, c', [])
      | some socket ↦
          let d : Datagram = record { socket = socket; remote = remote; wire = wire } in
          let (r, c'', ds) = send_loop accepts clock remote (i + 1) c' frags in
          if accepts d then (r, c'', d ∷ ds) else (err send_error, c', [])
    ]
    | err e ↦ (err e, c, [])
    | panicked ↦ (panicked, c, [])
  ]

  unfoldable pub send : Wire → (Datagram → Bool) → (ℕ → SendClock) → Connection → Instruction → Sent
  send wire accepts clock c inst = elim c.remote_addr [
    | none ↦ (err no_remote_address, c, [])
    | some remote ↦
        let (r, fragger) = make_fragments wire c.fragger inst (max_fragment_payload mtu_ipv4) in
        let c' = record c { fragger = fragger } in
        elim r [
          | ok frags ↦ send_loop accepts clock remote 0 c' frags
          | err e ↦ (err (fragment_error e), c', [])
          | panicked ↦ (panicked, c', [])
        ]
  ]
