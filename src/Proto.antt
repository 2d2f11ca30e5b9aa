-- ===== src/Proto.antt =====
-- proto/transportinstruction.proto: the message of the state synchronisation protocol, as the code
-- that prost generates from it stores it. Every field is optional.
use morsh.Common.{ℕ, ◌≡◌, List, Option, some}

pub record Instruction : Type 0 where
  pub protocol_version : Option ℕ
  pub old_num : Option ℕ
  pub new_num : Option ℕ
  pub ack_num : Option ℕ
  pub throwaway_num : Option ℕ
  pub diff : Option (List ℕ)
  pub chaff : Option (List ℕ)

-- The crates prost and flate2: an instruction as bytes and back, and a zlib stream. A failure is
-- told apart by nothing that the code reads.
pub record Wire : Type 0 where
  pub encode : Instruction → List ℕ
  pub decode : List ℕ → Option Instruction
  pub compress : List ℕ → Option (List ℕ)
  pub decompress : List ℕ → Option (List ℕ)

-- What is encoded is decoded, and what is compressed is decompressed.
pub record WireLaws (w : Wire) : Type 0 where
  pub decode-encode : (i : Instruction) → w.decode (w.encode i) ≡ some i
  pub decompress-compress : (bs zs : List ℕ) → w.compress bs ≡ some zs → w.decompress zs ≡ some bs
