-- ===== src/Network/Fragmenter/Made.antt =====
-- What a run of `make_fragments` that succeeds has done.
use morsh.Common.{ℕ, ◌<◌, ◌≡◌, List, some, ok, arith, Option-cases, inl, inr}
use morsh.Proto.{Instruction, Wire}
use morsh.Network.Fragment.{Fragment}
use morsh.Network.Fragmenter.{Fragmenter, cut, advance, make_fragments}

module _ (wire : Wire) where
  pub record Made (f : Fragmenter) (inst : Instruction) (n : ℕ) (fs : List Fragment)
      (f' : Fragmenter) : Type 0 where
    pub packed : List ℕ
    pub compresses : wire.compress (wire.encode inst) ≡ some packed
    pub size_pos : 0 < n
    pub advanced : f' ≡ advance f inst n
    pub fragments_eq : fs ≡ cut f'.next_instruction_id packed n

  pub make_fragments-Made :
      (f : Fragmenter) (inst : Instruction) (n : ℕ) (fs : List Fragment) (f' : Fragmenter)
      → make_fragments wire f inst n ≡ (ok fs, f')
      → Made f inst n fs f'
  unfolding make_fragments
  make_fragments-Made f inst n fs f' e = elim (Option-cases (wire.compress (wire.encode inst))) [
    | inl c ↦ absurd (ground arith)
    | inr (packed, c) ↦ record {
      packed = packed;
      compresses = c;
      size_pos = ground arith;
      advanced = ground arith;
      fragments_eq = ground arith;
    }
  ]
