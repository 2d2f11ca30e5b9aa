-- ===== src/Network/Assembly/Transfer.antt =====
-- From the fragmenter of one side to the assembler of the other.
use morsh.Common.{
  ℕ, ◌+◌, ◌-◌, ◌*◌, ◌/◌, ◌^◌, ◌≤◌, ◌<◌, ◌≡◌, ◌≢◌, List, map, some, length, ok, arith,
}
use native.Mathlib.Nat.{div-lt_iff_lt-mul}
use morsh.Proto.{Instruction, Wire, WireLaws}
use morsh.Network.Fragment.{Fragment}
use morsh.Network.Fragmenter.{Fragmenter, total_of, make_fragments}
use morsh.Network.Fragmenter.Made.{Made, make_fragments-Made}
use morsh.Network.Fragmenter.Packet.{IsPacket, cut-IsPacket}
use morsh.Network.Assembly.{Assembly, read_instruction}
use morsh.Network.Assembly.Collector.{no_index, collect}
use morsh.Network.Assembly.Delivery.{AllBelong, numbers, report, reports, reports-collect}

module _ (wire : Wire) where
  reads_back :
      (laws : WireLaws wire) (inst : Instruction) (packed : List ℕ)
      → wire.compress (wire.encode inst) ≡ some packed
      → read_instruction wire packed ≡ ok inst
  unfolding read_instruction
  reads_back laws inst packed c =
      rw (laws.decompress-compress (wire.encode inst) packed c, laws.decode-encode inst)

total-le :
    (packed : List ℕ) (n : ℕ) → 0 < n → length packed ≤ 2 ^ 15 * n → total_of packed n ≤ 2 ^ 15
total-le packed n p h =
    let few : (length packed + (n - 1)) / n < 2 ^ 15 + 1 = (div-lt_iff_lt-mul p).1 (omega arith) in
    omega arith

module _ (wire : Wire) (laws : WireLaws wire) (f : Fragmenter) (inst : Instruction) (n : ℕ)
    (packed : List ℕ) (compresses : wire.compress (wire.encode inst) ≡ some packed)
    (fits : length packed ≤ 2 ^ 15 * n) (fs : List Fragment) (f' : Fragmenter)
    (made : make_fragments wire f inst n ≡ (ok fs, f')) where
  made-IsPacket : IsPacket f'.next_instruction_id packed fs
  made-IsPacket =
      let m : Made wire f inst n fs f' = make_fragments-Made wire f inst n fs f' made in
      let same : m.packed ≡ packed = cc (m.compresses) in
      rw (m.fragments_eq, same)
        (cut-IsPacket f'.next_instruction_id n packed m.size_pos
          (total-le packed n m.size_pos fits))

  -- The fragments that `make_fragments` cut an instruction into, when its compressed form needs at
  -- most 2^15 of them, delivered in any order with losses and repetitions to an assembler that is
  -- not on that packet's id: each arrival that completes the packet reports the very instruction,
  -- and every other arrival reports nothing yet.
  pub transfer :
      (a : Assembly) (gs : List Fragment)
      → a.current_id ≢ some f'.next_instruction_id
      → AllBelong fs gs
      → reports wire a gs ≡ map (report inst) (collect (length fs) no_index (numbers gs))
  transfer a gs other bs =
      reports-collect f'.next_instruction_id packed fs made-IsPacket wire inst
        (reads_back wire laws inst packed compresses) a gs other bs
