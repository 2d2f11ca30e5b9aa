-- ===== src/Network/Connection/Incoming/Link.antt =====
-- From `send` on one side to `process_incoming` on the other: an instruction over a link that loses,
-- repeats and reorders datagrams.
use morsh.Common.{
  ℕ, ◌*◌, ◌^◌, ◌≤◌, ◌≡◌, ◌≢◌, refl, sym, ap, ap₂, ◌∙◌, subst, List, [], ◌∷◌, map, Option, some,
  Bool, length, Result, ok, map_err,
}
use morsh.Proto.{Instruction, Wire, WireLaws}
use morsh.Crypto.Cipher.{Cipher, CipherLaws}
use morsh.Network.Fragment.{Fragment}
use morsh.Network.Fragmenter.{Fragmenter, make_fragments}
use morsh.Network.Assembly.Collector.{no_index, collect}
use morsh.Network.Assembly.Delivery.{AllBelong, numbers, report, reports}
use morsh.Network.Assembly.Transfer.{transfer}
use morsh.Network.Connection.{Connection, ConnectionError, fragment_error}
use morsh.Network.Connection.Incoming.{RecvClock, process_incoming}
use morsh.Network.Connection.Incoming.Crossing.{Carries, crosses}

-- A datagram as it arrives: its bytes, from where, and what the clocks say.
pub record Arrival : Type 0 where
  pub datagram : List ℕ
  pub peer : ℕ
  pub clock : RecvClock

abbrev pub Outcome : Type 0
Outcome = Result ConnectionError (Option Instruction)

module _ (wire : Wire) (cipher : Cipher) where
  -- The results of the datagrams, one after the other.
  abbrev pub results : Connection → List Arrival → List Outcome
  results c [] = []
  results c (a ∷ as') =
      let out = process_incoming wire cipher c a.clock a.datagram a.peer in
      out.0 ∷ results out.1 as'

  -- The datagrams carry these fragments for the side `other`.
  abbrev pub AllCarry : List ℕ → Bool → List Arrival → List Fragment → Type 0
  AllCarry key other [] [] = Unit {0}
  AllCarry key other [] (f ∷ fs) = ⊥
  AllCarry key other (a ∷ as') [] = ⊥
  AllCarry key other (a ∷ as') (f ∷ fs) =
      Carries cipher key other a.datagram f × AllCarry key other as' fs

  results-reports :
      (laws : CipherLaws cipher) (key : List ℕ) (other : Bool) (c : Connection) (as' : List Arrival)
      (fs : List Fragment)
      → c.session.key ≡ key
      → c.server ≡ other
      → AllCarry key other as' fs
      → results c as' ≡ map (map_err fragment_error) (reports wire c.assembler fs)
  results-reports laws key other c [] [] k s h = refl
  results-reports laws key other c [] (f ∷ fs) k s h = absurd h
  results-reports laws key other c (a ∷ as') [] k s h = absurd h
  results-reports laws key other c (a ∷ as') (f ∷ fs) k s h =
      let carries : Carries cipher c.session.key c.server a.datagram f =
        subst (λ b. Carries cipher c.session.key b a.datagram f) (sym s)
          (subst (λ q. Carries cipher q other a.datagram f) (sym k) h.0) in
      let x : _ = crosses wire cipher laws c a.datagram f a.clock a.peer carries in
      let c' : Connection = (process_incoming wire cipher c a.clock a.datagram a.peer).1 in
      ap₂ ◌∷◌ x.result (
        results-reports laws key other c' as' fs (ap (λ z. z.key) x.session ∙ k) (x.server ∙ s) h.1
        ∙ ap (λ z. map (map_err fragment_error) (reports wire z fs)) x.assembler)

  -- An instruction that `make_fragments` has cut, its fragments encrypted by the other side with
  -- the same key under numbers below 2^63, over a link that loses, repeats and reorders the
  -- datagrams: for a receiver whose assembler is not on that packet's id, the result of each
  -- arrival is what the collector of fragment numbers prescribes, the very instruction where the
  -- arrival completes the packet, and nothing yet otherwise.
  pub link :
      (cipher_laws : CipherLaws cipher) (wire_laws : WireLaws wire) (f : Fragmenter)
      (inst : Instruction) (n : ℕ) (packed : List ℕ) (fs : List Fragment) (f' : Fragmenter)
      (receiver : Connection) (as' : List Arrival) (gs : List Fragment)
      → wire.compress (wire.encode inst) ≡ some packed
      → length packed ≤ 2 ^ 15 * n
      → make_fragments wire f inst n ≡ (ok fs, f')
      → receiver.assembler.current_id ≢ some f'.next_instruction_id
      → AllBelong fs gs
      → AllCarry receiver.session.key receiver.server as' gs
      → results receiver as'
        ≡ map
            (map_err fragment_error)
            (map (report inst) (collect (length fs) no_index (numbers gs)))
  link cipher_laws wire_laws f inst n packed fs f' receiver as' gs z fits made other belong carry =
      results-reports cipher_laws receiver.session.key receiver.server receiver as' gs refl refl
        carry
      ∙ ap (map (map_err fragment_error)) (
          transfer wire wire_laws f inst n packed z fits fs f' made receiver.assembler gs other
            belong)
