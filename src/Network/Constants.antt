-- ===== src/Network/Constants.antt =====
-- crates/morsh-network/src/constants.rs. An `Instant` is a number of nanoseconds and so is a
-- `Duration`; `ms` is `Duration::from_millis`.
use morsh.Common.{ℕ, ◌+◌, ◌-◌, ◌*◌, ◌/◌, ◌%◌, ◌^◌}

abbrev pub protocol_version : ℕ
protocol_version = 2

-- 8 bytes of nonce and 4 of timestamps
abbrev pub added_bytes : ℕ
added_bytes = 12

-- the OCB tag
abbrev pub session_added_bytes : ℕ
session_added_bytes = 16

-- 8 bytes of id and 2 of flag and number
abbrev pub frag_header_len : ℕ
frag_header_len = 10

abbrev pub send_interval_min_ms : ℕ
send_interval_min_ms = 20

abbrev pub send_interval_max_ms : ℕ
send_interval_max_ms = 250

abbrev pub ack_interval_ms : ℕ
ack_interval_ms = 3000

abbrev pub ack_delay_ms : ℕ
ack_delay_ms = 100

abbrev pub send_mindelay_ms : ℕ
send_mindelay_ms = 8

abbrev pub active_retry_timeout_ms : ℕ
active_retry_timeout_ms = 10000

abbrev pub min_rto_ms : ℕ
min_rto_ms = 50

abbrev pub max_rto_ms : ℕ
max_rto_ms = 1000

abbrev pub port_hop_interval_ms : ℕ
port_hop_interval_ms = 10000

abbrev pub max_ports_open : ℕ
max_ports_open = 10

abbrev pub shutdown_retries : ℕ
shutdown_retries = 16

abbrev pub chaff_max : ℕ
chaff_max = 16

abbrev pub mtu_ipv4 : ℕ
mtu_ipv4 = 1252

-- `saturating_sub`
abbrev pub max_fragment_payload : ℕ → ℕ
max_fragment_payload mtu = mtu - (added_bytes + session_added_bytes + frag_header_len)

abbrev pub ms : ℕ → ℕ
ms n = n * 1_000_000

-- `as_millis() as u64`
abbrev pub as_millis : ℕ → ℕ
as_millis d = d / 1_000_000 % 2 ^ 64
