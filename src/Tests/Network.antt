-- ===== src/Tests/Network.antt =====
-- The connection, the fragments and the timers at concrete inputs.
use morsh.Common.{
  ℕ, ◌^◌, ◌≤◌, ◌<◌, ◌≡◌, ◌≢◌, refl, List, [], ◌∷◌, ◌++◌, map, some, true, false, length, drop,
  arith, ok, err, panicked, map_err, All, to_be, from_be, IsByte, replicate,
}
use morsh.Crypto.Nonce.{from_val, cc_str, contents, val, from_bytes}
use morsh.Crypto.Session.{encrypt, decrypt}
use morsh.Network.Rtt.{RttEstimator, update, rto_ms, send_interval_ms}
use morsh.Network.Rtt
use morsh.Network.Rtt.Bounds.{InRange, updates, timers-InRange}
use morsh.Network.Fragment.{Fragment, to_bytes, missing_fragment}
use morsh.Network.Fragment
use morsh.Network.Fragment.Codec.{IsWire, from_bytes-to_bytes, to_bytes-from_bytes}
use morsh.Network.Fragmenter.{Fragmenter, advance, cut, chunks, is_new_instruction, make_fragments}
use morsh.Network.Assembly.{Assembly, add_fragment}
use morsh.Network.Assembly
use morsh.Network.Assembly.Invariant.{fed, assembler_robust}
use morsh.Network.Assembly.Collector.{no_index, collect}
use morsh.Network.Assembly.Delivery.{report, reports}
use morsh.Network.Assembly.Transfer.{transfer}
use morsh.Network.Connection.{
  Connection, wrong_direction, fragment_error, timestamp16, hop_port, prune_sockets,
}
use morsh.Network.Connection.Sockets.{hop_port_sockets}
use morsh.Network.Connection.Outgoing.{
  encrypt_fragment, send_loop, plaintext, timestamp_reply, nonce_val,
}
use morsh.Network.Connection.Outgoing.Nonces.{Numbered, send_loop-Numbered}
use morsh.Network.Connection.Outgoing.Datagrams.{encrypt_fragment-length}
use morsh.Network.Connection.Incoming.{process_incoming, gate, refreshed, accept, assembled}
use morsh.Network.Connection.Incoming.Guards.{
  OnlyAssembler, SameEnd, Retargets, process_incoming-SameEnd, replay_harmless,
  retarget_needs_fresh,
}
use morsh.Network.Connection.Incoming.Crossing.{Carries, own_packet_refused}
use morsh.Network.Connection.Incoming.Link.{Arrival, results, link}
use morsh.Tests.Toys.{
  toy_cipher, toy_cipher_laws, toy_wire, toy_wire_laws, toy_end, toy_instruction, toy_send_clock,
  toy_recv_clock, toy_packed, toy_fragment, toy_datagram, toy_client_after,
}

-- The client's first datagram.
sealed :
    encrypt_fragment toy_cipher (toy_end false) toy_send_clock toy_fragment
    ≡ ok (toy_datagram, toy_client_after)
unfolding encrypt_fragment plaintext timestamp_reply nonce_val timestamp16 to_bytes encrypt from_val
    cc_str contents to_be
sealed = refl

abbrev arrival : ℕ → Arrival
arrival peer = record { datagram = toy_datagram; peer = peer; clock = toy_recv_clock }

abbrev fragmenter_after : Fragmenter
fragmenter_after = record {
  next_instruction_id = 1;
  last_instruction = some toy_instruction;
  last_max_payload = some 1214;
}

made :
    make_fragments toy_wire (toy_end false).fragger toy_instruction 1214
    ≡ (ok (toy_fragment ∷ []), fragmenter_after)
unfolding make_fragments advance cut chunks is_new_instruction
made = refl

carries : Carries toy_cipher (1 ∷ 2 ∷ []) true toy_datagram toy_fragment
carries = record {
  sender = toy_end false;
  clock = toy_send_clock;
  sender' = toy_client_after;
  sealed = sealed;
  early = omega arith;
  wire_frag = record { id_lt = omega arith; num_lt = omega arith };
  key_eq = refl;
  side_eq = refl;
}

-- The same datagram arrives twice, from two addresses.
link_example :
    results toy_wire toy_cipher (toy_end true) (arrival 9 ∷ arrival 10 ∷ [])
    ≡ map (map_err fragment_error) (map (report toy_instruction) (collect 1 no_index (0 ∷ 0 ∷ [])))
link_example =
    link toy_wire toy_cipher toy_cipher_laws toy_wire_laws (toy_end false).fragger toy_instruction
      1214 toy_packed (toy_fragment ∷ []) fragmenter_after (toy_end true)
      (arrival 9 ∷ arrival 10 ∷ []) (toy_fragment ∷ toy_fragment ∷ []) refl (omega arith) made
      (λ e. cc) (refl, (refl, tt)) (carries, (carries, tt))

transfer_example :
    reports toy_wire (toy_end true).assembler (toy_fragment ∷ toy_fragment ∷ [])
    ≡ map (report toy_instruction) (collect 1 no_index (0 ∷ 0 ∷ []))
transfer_example =
    transfer toy_wire toy_wire_laws (toy_end false).fragger toy_instruction 1214 toy_packed refl
      (omega arith) (toy_fragment ∷ []) fragmenter_after made (toy_end true).assembler
      (toy_fragment ∷ toy_fragment ∷ []) (λ e. cc) (refl, (refl, tt))

assembler_robust_example :
    (length (fed toy_wire Assembly.new (toy_fragment ∷ [])).fragments ≤ 2 ^ 15)
    × ((add_fragment toy_wire (fed toy_wire Assembly.new (toy_fragment ∷ [])) toy_fragment).0
        ≢ err missing_fragment)
    × ((add_fragment toy_wire (fed toy_wire Assembly.new (toy_fragment ∷ [])) toy_fragment).0
        ≢ panicked)
assembler_robust_example =
    assembler_robust toy_wire (toy_fragment ∷ []) toy_fragment (omega arith, tt) (omega arith)

abbrev server_after : Connection
server_after = record (toy_end true) { expected_receiver_seq = 1; assembler = Assembly.new }

seen :
    (process_incoming toy_wire toy_cipher
      (toy_end true)
      toy_recv_clock
      toy_datagram
      9).1.expected_receiver_seq
    ≤ 1
unfolding process_incoming decrypt from_bytes contents val accept gate Fragment.from_bytes from_be
    refreshed assembled
seen = omega arith

replay_harmless_example :
    OnlyAssembler server_after
      (process_incoming toy_wire toy_cipher server_after toy_recv_clock toy_datagram 66).1
replay_harmless_example =
    replay_harmless toy_wire toy_cipher (toy_end true) server_after toy_recv_clock toy_recv_clock
      toy_datagram 9 66 refl refl seen

process_incoming-SameEnd_example :
    SameEnd
      (toy_end true)
      (process_incoming toy_wire toy_cipher (toy_end true) toy_recv_clock toy_datagram 9).1
    × (0
        ≤ (process_incoming toy_wire toy_cipher
            (toy_end true)
            toy_recv_clock
            toy_datagram
            9).1.expected_receiver_seq)
process_incoming-SameEnd_example =
    process_incoming-SameEnd toy_wire toy_cipher (toy_end true) toy_recv_clock toy_datagram 9

retarget_needs_fresh_example :
    Retargets toy_wire toy_cipher
      (toy_end true)
      toy_datagram
      9
      (process_incoming toy_wire toy_cipher (toy_end true) toy_recv_clock toy_datagram 9).1
retarget_needs_fresh_example =
    retarget_needs_fresh toy_wire toy_cipher (toy_end true) toy_recv_clock toy_datagram 9

own_packet_refused_example :
    process_incoming toy_wire toy_cipher (toy_end false) toy_recv_clock toy_datagram 9
    ≡ (err (wrong_direction false), toy_end false)
own_packet_refused_example =
    own_packet_refused toy_wire toy_cipher toy_cipher_laws (toy_end false) (toy_end false)
      toy_send_clock toy_fragment toy_datagram toy_client_after toy_recv_clock 9 sealed
      (omega arith) refl refl

send_loop-Numbered_example : Numbered toy_cipher (toy_end false) (
    send_loop toy_cipher
      (λ d. true)
      (λ i. toy_send_clock)
      7
      0
      (toy_end false)
      (toy_fragment ∷ toy_fragment ∷ []))
send_loop-Numbered_example =
    send_loop-Numbered toy_cipher (λ d. true) (λ i. toy_send_clock) 7 0 (toy_end false)
      (toy_fragment ∷ toy_fragment ∷ []) (omega arith)

encrypt_fragment-length_example : (length toy_datagram ≡ 48) × (length toy_datagram ≤ 1252)
encrypt_fragment-length_example =
    encrypt_fragment-length toy_cipher toy_cipher_laws (toy_end false) toy_send_clock toy_fragment
      toy_datagram toy_client_after sealed (omega arith)

abbrev many_sockets : Connection
many_sockets = record (toy_end false) { sockets = 1 ∷ 2 ∷ 3 ∷ 4 ∷ 5 ∷ 6 ∷ 7 ∷ 8 ∷ 9 ∷ 10 ∷ [] }

abbrev hopped : Connection
hopped = record (toy_end false) {
  sockets = 2 ∷ 3 ∷ 4 ∷ 5 ∷ 6 ∷ 7 ∷ 8 ∷ 9 ∷ 10 ∷ 11 ∷ [];
  last_port_choice = 77;
}

hop_port_run : hop_port many_sockets (ok 11) 77 ≡ ok hopped
unfolding hop_port prune_sockets
hop_port_run = refl

hop_port_sockets_example :
    (hopped ≡ record many_sockets {
      sockets = drop 1 many_sockets.sockets ++ (11 ∷ []);
      last_port_choice = 77;
    })
    × (10 ≤ 10)
hop_port_sockets_example = hop_port_sockets many_sockets 11 77 hopped hop_port_run

from_bytes-to_bytes_example : Fragment.from_bytes (to_bytes toy_fragment) ≡ ok toy_fragment
from_bytes-to_bytes_example =
    from_bytes-to_bytes toy_fragment record { id_lt = omega arith; num_lt = omega arith }

abbrev short_packet : List ℕ
short_packet = replicate 7 0 ++ (5 ∷ 128 ∷ 3 ∷ 9 ∷ [])

abbrev short_fragment : Fragment
short_fragment = record { id = 5; final_flag = true; fragment_num = 3; payload = 9 ∷ [] }

short_packet_bytes : All IsByte short_packet
short_packet_bytes = (
  b0,
  (
    b0,
    (
      b0,
      (
        b0,
        (
          b0,
          (
            b0,
            (
              b0,
              (
                byte 5 (omega arith),
                (byte 128 (omega arith), (byte 3 (omega arith), (byte 9 (omega arith), tt))),
              ),
            ),
          ),
        ),
      ),
    ),
  ),
)
  where
    byte : (b : ℕ) → b < 256 → IsByte b
    byte b h = h

    b0 : IsByte 0
    b0 = byte 0 (omega arith)

short_packet_parses : Fragment.from_bytes short_packet ≡ ok short_fragment
unfolding Fragment.from_bytes from_be
short_packet_parses = refl

to_bytes-from_bytes_example : (to_bytes short_fragment ≡ short_packet) × IsWire short_fragment
to_bytes-from_bytes_example =
    to_bytes-from_bytes short_packet short_fragment short_packet_bytes short_packet_parses

timers-InRange_example :
    InRange (updates Rtt.new (120 ∷ 300 ∷ []))
    × (50 ≤ rto_ms (updates Rtt.new (120 ∷ 300 ∷ [])))
    × (rto_ms (updates Rtt.new (120 ∷ 300 ∷ [])) ≤ 1000)
    × (20 ≤ send_interval_ms (updates Rtt.new (120 ∷ 300 ∷ [])))
    × (send_interval_ms (updates Rtt.new (120 ∷ 300 ∷ [])) ≤ 250)
timers-InRange_example = timers-InRange (120 ∷ 300 ∷ [])
