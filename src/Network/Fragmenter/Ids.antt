-- ===== src/Network/Fragmenter/Ids.antt =====
-- When an id is used again.
use morsh.Common.{
  nat_eq-Decides, ℕ, ◌^◌, ◌<◌, ◌≡◌, refl, ◌↔◌, some, Bool, true, false, not, ◌||◌, ◌==◌, option_eq,
  list_eq, option_eq-Decides, list_eq-Decides, Decides, arith, Bool-cases, inl, inr,
}
use morsh.Proto.{Instruction}
use morsh.Network.Fragmenter.{Fragmenter, differs, is_new_instruction, advance}

-- Two instructions have the same numbering and the same chaff: all but the diff.
pub record SameNumbering (a b : Instruction) : Type 0 where
  pub old_eq : a.old_num ≡ b.old_num
  pub new_eq : a.new_num ≡ b.new_num
  pub ack_eq : a.ack_num ≡ b.ack_num
  pub throwaway_eq : a.throwaway_num ≡ b.throwaway_num
  pub chaff_eq : a.chaff ≡ b.chaff
  pub version_eq : a.protocol_version ≡ b.protocol_version

num_eq : Decides (option_eq ◌==◌)
num_eq = option_eq-Decides ◌==◌ nat_eq-Decides

bytes_eq : Decides (option_eq (list_eq ◌==◌))
bytes_eq = option_eq-Decides (list_eq ◌==◌) (list_eq-Decides ◌==◌ nat_eq-Decides)

-- None of six tests fails.
all_pass :
    (t u v w x y : Bool)
    → ((not t || not u || not v || not w || not x || not y) ≡ false)
      ↔ ((t ≡ true) × (u ≡ true) × (v ≡ true) × (w ≡ true) × (x ≡ true) × (y ≡ true))
all_pass t u v w x y = ground arith

differs_iff : (a b : Instruction) → (differs a b ≡ false) ↔ SameNumbering a b
unfolding differs
differs_iff a b =
    let tests : _ =
      all_pass (option_eq ◌==◌ a.old_num b.old_num) (option_eq ◌==◌ a.new_num b.new_num)
        (option_eq ◌==◌ a.ack_num b.ack_num) (option_eq ◌==◌ a.throwaway_num b.throwaway_num)
        (option_eq (list_eq ◌==◌) a.chaff b.chaff)
        (option_eq ◌==◌ a.protocol_version b.protocol_version) in
    (
      λ e.
          let t : _ = tests.0 e in
          record {
            old_eq = (num_eq _ _).0 t.0;
            new_eq = (num_eq _ _).0 t.1;
            ack_eq = (num_eq _ _).0 t.2;
            throwaway_eq = (num_eq _ _).0 t.3;
            chaff_eq = (bytes_eq _ _).0 t.4;
            version_eq = (num_eq _ _).0 t.5;
          },
      λ s. tests.1 (
        (num_eq _ _).1 s.old_eq,
        (num_eq _ _).1 s.new_eq,
        (num_eq _ _).1 s.ack_eq,
        (num_eq _ _).1 s.throwaway_eq,
        (bytes_eq _ _).1 s.chaff_eq,
        (num_eq _ _).1 s.version_eq,
      ),
    )

is_new_instruction_iff :
    (f : Fragmenter) (last inst : Instruction) (m n : ℕ)
    → f.last_instruction ≡ some last
    → f.last_max_payload ≡ some m
    → (is_new_instruction f inst n ≡ false) ↔ ((m ≡ n) × SameNumbering inst last)
unfolding is_new_instruction
is_new_instruction_iff f last inst m n l k =
    let same : _ = differs_iff inst last in
    let size : _ = nat_eq-Decides m n in
    rw (l, k)
      (
        λ e. (
          size.0 (split (m == n) (differs inst last) e).0,
          same.0 (split (m == n) (differs inst last) e).1,
        ),
        λ s. rw (size.1 s.0) (same.1 s.1),
      )
  where
    split : (t d : Bool) → (not t || d) ≡ false → (t ≡ true) × (d ≡ false)
    split t d e = ground arith

-- After an earlier instruction at some payload size, and with an id below 2^64, a fragmenter keeps
-- its id for an instruction exactly if the size is the same and the instruction has the earlier
-- one's four numbers, chaff and protocol version.
pub id_kept_iff :
    (f : Fragmenter) (last inst : Instruction) (m n : ℕ)
    → f.next_instruction_id < 2 ^ 64
    → f.last_instruction ≡ some last
    → f.last_max_payload ≡ some m
    → ((advance f inst n).next_instruction_id ≡ f.next_instruction_id)
      ↔ ((m ≡ n) × SameNumbering inst last)
unfolding advance
id_kept_iff f last inst m n h l k =
    let fresh : _ = is_new_instruction_iff f last inst m n l k in
    elim (Bool-cases (is_new_instruction f inst n)) [
      | inl e ↦ rw e (λ bad. absurd (omega arith), λ s. absurd (ground (arith, fresh.1 s)))
      | inr e ↦ rw e (λ _. fresh.0 e, λ _. refl)
    ]
