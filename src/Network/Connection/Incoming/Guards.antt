-- ===== src/Network/Connection/Incoming/Guards.antt =====
-- What a datagram may change, by how far it gets.
use morsh.Common.{
  ℕ, ◌≤◌, ◌<◌, ◌≡◌, refl, ap, subst, ◌⊎◌, inl, inr, List, some, Bool, true, false, not, ◌&&◌, ltb,
  ◌==◌, if◌then◌else◌, option_eq, arith, Result, ok, err, panicked, Bool-cases, lt→ltb, ltb→lt,
  ltb→le,
}
use morsh.Proto.{Wire}
use morsh.Crypto.Cipher.{Cipher}
use morsh.Crypto.Session.{Message, CryptoError, decrypt}
use morsh.Network.Fragment.{Fragment}
use morsh.Network.Assembly.{Assembly}
use morsh.Network.Connection.{Connection, ConnectionError, decryption_error}
use morsh.Network.Connection.Incoming.{
  RecvClock, Received, gate, seq_of, assembled, refreshed, accept, process_incoming,
}

-- Nothing but the assembler has changed.
abbrev pub OnlyAssembler : Connection → Connection → Type 0
OnlyAssembler c c' = c' ≡ record c { assembler = c'.assembler }

-- The fields that a datagram never touches.
pub record SameEnd (c c' : Connection) : Type 0 where
  pub sockets_eq : c'.sockets ≡ c.sockets
  pub session_eq : c'.session ≡ c.session
  pub fragger_eq : c'.fragger ≡ c.fragger
  pub server_eq : c'.server ≡ c.server
  pub send_seq_eq : c'.send_seq ≡ c.send_seq

module _ (wire : Wire) where
  assembled-OnlyAssembler :
      (c : Connection) (frag : Fragment) → OnlyAssembler c (assembled wire c frag).1
  unfolding assembled
  assembled-OnlyAssembler c frag = refl

  -- A message whose number is not fresh reaches the assembler at most.
  accept_stale :
      (c : Connection) (clock : RecvClock) (msg : Message) (peer : ℕ)
      → seq_of msg < c.expected_receiver_seq
      → OnlyAssembler c (accept wire c clock msg peer).1
  unfolding accept assembled
  accept_stale c clock msg peer h = by_gate (gate c.server msg) refl
    where
      by_gate :
          (r : Result ConnectionError Fragment)
          → gate c.server msg ≡ r
          → OnlyAssembler c (accept wire c clock msg peer).1
      by_gate (err e) g = rw (g, accept)
      by_gate panicked g = rw (g, accept)
      by_gate (ok frag) g = rw (g, accept, lt→ltb _ _ h)

  -- One that fails a check changes nothing.
  accept_refused :
      (c : Connection) (clock : RecvClock) (msg : Message) (peer : ℕ) (e : ConnectionError)
      → gate c.server msg ≡ err e
      → accept wire c clock msg peer ≡ (err e, c)
  unfolding accept
  accept_refused c clock msg peer e g = rw (g, accept)

  -- One that passes leaves only higher numbers fresh.
  accept_passed :
      (c : Connection) (clock : RecvClock) (msg : Message) (peer : ℕ) (frag : Fragment)
      → gate c.server msg ≡ ok frag
      → seq_of msg < (accept wire c clock msg peer).1.expected_receiver_seq
  unfolding accept assembled refreshed
  accept_passed c clock msg peer frag g =
      elim (Bool-cases (ltb (seq_of msg) c.expected_receiver_seq)) [
        | inl old ↦ rw (g, accept, old) (ltb→lt _ _ old)
        | inr new ↦ rw (g, accept, new) (omega arith)
      ]

  -- The three outcomes of an authentic message.
  pub accept_cases {ℓ} :
      (P : Received → Type ℓ) (c : Connection) (clock : RecvClock) (msg : Message) (peer : ℕ)
      → ((e : ConnectionError) → gate c.server msg ≡ err e → P (err e, c))
      → (gate c.server msg ≡ panicked → P (panicked, c))
      → ((frag : Fragment)
          → gate c.server msg ≡ ok frag
          → seq_of msg < c.expected_receiver_seq
          → P (assembled wire c frag))
      → ((frag : Fragment)
          → gate c.server msg ≡ ok frag
          → c.expected_receiver_seq ≤ seq_of msg
          → P (assembled wire (refreshed c clock msg peer) frag))
      → P (accept wire c clock msg peer)
  unfolding accept
  accept_cases P c clock msg peer refused dead stale fresh = by_gate (gate c.server msg) refl
    where
      by_gate :
          (r : Result ConnectionError Fragment)
          → gate c.server msg ≡ r
          → P (accept wire c clock msg peer)
      by_gate (err e) g = rw (g, accept) (refused e g)
      by_gate panicked g = rw (g, accept) (dead g)
      by_gate (ok frag) g = elim (Bool-cases (ltb (seq_of msg) c.expected_receiver_seq)) [
        | inl old ↦ rw (g, accept, old) (stale frag g (ltb→lt _ _ old))
        | inr new ↦ rw (g, accept, new) (fresh frag g (ltb→le _ _ new))
      ]

module _ (wire : Wire) (cipher : Cipher) where
  -- A datagram that does not authenticate changes nothing.
  pub process_cases {ℓ} :
      (P : Received → Type ℓ) (c : Connection) (clock : RecvClock) (datagram : List ℕ) (peer : ℕ)
      → ((e : CryptoError)
          → decrypt cipher c.session datagram ≡ err e
          → P (err (decryption_error e), c))
      → (decrypt cipher c.session datagram ≡ panicked → P (panicked, c))
      → ((msg : Message)
          → decrypt cipher c.session datagram ≡ ok msg
          → P (accept wire c clock msg peer))
      → P (process_incoming wire cipher c clock datagram peer)
  unfolding process_incoming
  process_cases P c clock datagram peer bad dead good =
      by_run (decrypt cipher c.session datagram) refl
    where
      by_run :
          (r : Result CryptoError Message)
          → decrypt cipher c.session datagram ≡ r
          → P (process_incoming wire cipher c clock datagram peer)
      by_run (err e) d = rw (d, process_incoming) (bad e d)
      by_run panicked d = rw (d, process_incoming) (dead d)
      by_run (ok msg) d = rw (d, process_incoming) (good msg d)

  -- No datagram changes the sockets, the session, the fragmenter, the side or the number to send
  -- next, and the number that is expected next never falls.
  pub process_incoming-SameEnd :
      (c : Connection) (clock : RecvClock) (datagram : List ℕ) (peer : ℕ)
      → let c' = (process_incoming wire cipher c clock datagram peer).1 in
        SameEnd c c' × (c.expected_receiver_seq ≤ c'.expected_receiver_seq)
  unfolding assembled refreshed
  process_incoming-SameEnd c clock datagram peer =
      process_cases
        (λ out. SameEnd c out.1 × (c.expected_receiver_seq ≤ out.1.expected_receiver_seq)) c clock
        datagram peer (λ e d. same) (λ d. same)
        λ msg d.
          accept_cases wire
            (λ out. SameEnd c out.1 × (c.expected_receiver_seq ≤ out.1.expected_receiver_seq)) c
            clock msg peer (λ e g. same) (λ g. same) (λ frag g h. same)
            (λ frag g h. (
              record {
                sockets_eq = refl;
                session_eq = refl;
                fragger_eq = refl;
                server_eq = refl;
                send_seq_eq = refl;
              },
              omega arith,
            ))
    where
      same :
          {a : Assembly}
          → SameEnd c (record c { assembler = a })
            × (c.expected_receiver_seq ≤ c.expected_receiver_seq)
      same = (
        record {
          sockets_eq = refl;
          session_eq = refl;
          fragger_eq = refl;
          server_eq = refl;
          send_seq_eq = refl;
        },
        omega arith,
      )

  pub process_authentic :
      (c : Connection) (clock : RecvClock) (datagram : List ℕ) (peer : ℕ) (msg : Message)
      → decrypt cipher c.session datagram ≡ ok msg
      → process_incoming wire cipher c clock datagram peer ≡ accept wire c clock msg peer
  unfolding process_incoming
  process_authentic c clock datagram peer msg d = rw (d, process_incoming)

  -- A datagram that was processed once and comes again, from any address, at a later state of the
  -- connection with the same session and side, whose window is at least where the first processing
  -- left it, changes nothing but the assembler.
  pub replay_harmless :
      (c later : Connection) (clock again : RecvClock) (datagram : List ℕ) (peer attacker : ℕ)
      → later.session ≡ c.session
      → later.server ≡ c.server
      → (process_incoming wire cipher c clock datagram peer).1.expected_receiver_seq
        ≤ later.expected_receiver_seq
      → OnlyAssembler later (process_incoming wire cipher later again datagram attacker).1
  replay_harmless c later clock again datagram peer attacker s v h =
      process_cases (λ out. OnlyAssembler later out.1) later again datagram attacker (λ e d. refl)
        (λ d. refl)
        λ msg d.
          accept_cases wire (λ out. OnlyAssembler later out.1) later again msg attacker
            (λ e g. refl) (λ g. refl) (λ frag g old. assembled-OnlyAssembler wire later frag)
            λ frag g new.
              let first : _ =
                process_authentic c clock datagram peer msg
                  (subst (λ k. decrypt cipher k datagram ≡ ok msg) s d) in
              let passed : _ =
                accept_passed wire c clock msg peer frag (subst (λ k. gate k msg ≡ ok frag) v g) in
              absurd (
                omega (
                  arith,
                  h,
                  passed,
                  new,
                  ap (λ (out : Received). out.1.expected_receiver_seq) first,
                ))

  -- An authentic packet of the right direction with a fresh number.
  pub record FreshPacket (c : Connection) (datagram : List ℕ) : Type 0 where
    pub msg : Message
    pub frag : Fragment
    pub authentic : decrypt cipher c.session datagram ≡ ok msg
    pub passes : gate c.server msg ≡ ok frag
    pub fresh : c.expected_receiver_seq ≤ seq_of msg

  abbrev pub Retargets : Connection → List ℕ → ℕ → Connection → Type 0
  Retargets c datagram peer c' =
      (c'.remote_addr ≡ c.remote_addr)
      ⊎ ((c.server ≡ true) × (c'.remote_addr ≡ some peer) × FreshPacket c datagram)

  -- Processing a datagram leaves the peer's address as it was, or the connection is a server, the
  -- new address is the one the datagram came from, and the datagram is an authentic packet of the
  -- right direction with a fresh number.
  pub retarget_needs_fresh :
      (c : Connection) (clock : RecvClock) (datagram : List ℕ) (peer : ℕ)
      → Retargets c datagram peer (process_incoming wire cipher c clock datagram peer).1
  unfolding assembled refreshed
  retarget_needs_fresh c clock datagram peer =
      process_cases (λ out. Retargets c datagram peer out.1) c clock datagram peer (λ e d. inl refl)
        (λ d. inl refl)
        λ msg d.
          accept_cases wire (λ out. Retargets c datagram peer out.1) c clock msg peer
            (λ e g. inl refl) (λ g. inl refl) (λ frag g old. inl refl)
            λ frag g new.
              split c.server (option_eq ◌==◌ c.remote_addr (some peer))
                (record { msg = msg; frag = frag; authentic = d; passes = g; fresh = new })
    where
      split :
          (server known : Bool)
          → FreshPacket c datagram
          → ((if server && not known then some peer else c.remote_addr) ≡ c.remote_addr)
            ⊎ ((server ≡ true)
                × ((if server && not known then some peer else c.remote_addr) ≡ some peer)
                × FreshPacket c datagram)
      split false known f = inl refl
      split true true f = inl refl
      split true false f = inr (refl, refl, f)
