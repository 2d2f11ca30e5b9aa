-- ===== src/Network/Connection/Outgoing/Datagrams.antt =====
-- How long a datagram is.
use morsh.Common.{
  ℕ, ◌+◌, ◌≤◌, ◌≡◌, List, ◌++◌, ok, length, length-append, length-to_be, to_be, arith,
}
use morsh.Crypto.Cipher.{Cipher, CipherLaws}
use morsh.Crypto.Session.RoundTrip.{length-wire}
use morsh.Network.Fragment.{Fragment, to_bytes}
use morsh.Network.Fragment.Codec.{length-to_bytes}
use morsh.Network.Constants.{max_fragment_payload, mtu_ipv4}
use morsh.Network.Connection.{Connection, ConnectionError, timestamp16}
use morsh.Network.Connection.Outgoing.{
  SendClock, nonce_val, timestamp_reply, plaintext, encrypt_fragment,
}
use morsh.Network.Connection.Outgoing.Nonces.{Sealed, encrypt_fragment-Sealed}

pub length-plaintext :
    (c : Connection) (clock : SendClock) (frag : Fragment)
    → length (plaintext c clock frag) ≡ length frag.payload + 14
unfolding plaintext
length-plaintext c clock frag = omega (
  arith,
  length-append (to_be 2 (timestamp16 clock.unix_ms))
      (to_be 2 (timestamp_reply c clock.now) ++ to_bytes frag),
  length-to_be 2 (timestamp16 clock.unix_ms),
  length-append (to_be 2 (timestamp_reply c clock.now)) (to_bytes frag),
  length-to_be 2 (timestamp_reply c clock.now),
  length-to_bytes frag,
)

-- A datagram that is made of a fragment whose payload is not longer than the largest payload for
-- the MTU is 38 bytes longer than the payload, and not longer than the MTU.
pub encrypt_fragment-length :
    (cipher : Cipher) (laws : CipherLaws cipher) (c : Connection) (clock : SendClock)
    (frag : Fragment) (wire : List ℕ) (c' : Connection)
    → encrypt_fragment cipher c clock frag ≡ ok (wire, c')
    → length frag.payload ≤ max_fragment_payload mtu_ipv4
    → (length wire ≡ length frag.payload + 38) × (length wire ≤ mtu_ipv4)
encrypt_fragment-length cipher laws c clock frag wire c' e h =
    let s : Sealed cipher c clock frag wire c' =
      encrypt_fragment-Sealed cipher c clock frag wire c' e in
    let n : length wire ≡ length (plaintext c clock frag) + 24 =
      length-wire cipher ConnectionError laws c.session (nonce_val c) (plaintext c clock frag) wire
        s.session' s.run in
    (
      omega (arith, n, length-plaintext c clock frag),
      omega (arith, n, length-plaintext c clock frag),
    )
