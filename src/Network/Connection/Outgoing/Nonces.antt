-- ===== src/Network/Connection/Outgoing/Nonces.antt =====
-- No nonce is used twice.
use morsh.Common.{
  ℕ, zero, suc, ◌+◌, ◌%◌, ◌^◌, ◌≤◌, ◌<◌, ◌≡◌, refl, ap, ap₂, ◌∙◌, List, [], ◌∷◌, ◌++◌, Bool,
  if◌then◌else◌, length, take, take-append, arith, Result, ok, err, panicked, last?, Option-cases,
  Bool-cases, inl, inr,
}
use morsh.Crypto.Nonce.{from_val, cc_str, length-cc_str, from_val-injective}
use morsh.Crypto.Cipher.{Cipher}
use morsh.Crypto.Session.{Session, encrypt}
use morsh.Crypto.Session.RoundTrip.{Encrypted, encrypt-Encrypted}
use morsh.Network.Fragment.{Fragment}
use morsh.Network.Connection.{Connection, ConnectionError, send_error}
use morsh.Network.Connection.Outgoing.{
  SendClock, Datagram, Sent, nonce_val, message, encrypt_fragment, send_loop,
}

-- The value that numbers a packet of one direction.
abbrev pub packet_val : Bool → ℕ → ℕ
packet_val server seq = if server then 2 ^ 63 + seq else seq

pub nonce_val-packet_val :
    (c : Connection) → c.send_seq < 2 ^ 63 → nonce_val c ≡ packet_val c.server c.send_seq
unfolding nonce_val
nonce_val-packet_val c h = ground arith

-- For numbers below 2^63, two pairs of a direction and a number that make the same nonce are the
-- same pair.
pub packet_val-injective :
    (a b : Bool) (m n : ℕ)
    → m < 2 ^ 63
    → n < 2 ^ 63
    → from_val (packet_val a m) ≡ from_val (packet_val b n)
    → (a ≡ b) × (m ≡ n)
packet_val-injective a b m n hm hn e =
    let vals : packet_val a m ≡ packet_val b n =
      from_val-injective (packet_val a m) (packet_val b n) (ground arith) (ground arith) e in
    (ground arith, ground arith)

module _ (cipher : Cipher) where
  -- What a run of `encrypt_fragment` that does not panic has done.
  pub record Sealed (c : Connection) (clock : SendClock) (frag : Fragment) (wire : List ℕ)
      (c' : Connection) : Type 0 where
    pub session' : Session
    pub run :
        encrypt cipher {E = ConnectionError} c.session (message c clock frag) ≡ ok (wire, session')
    pub next : c' ≡ record c { session = session'; send_seq = (c.send_seq + 1) % 2 ^ 64 }

  pub encrypt_fragment-Sealed :
      (c : Connection) (clock : SendClock) (frag : Fragment) (wire : List ℕ) (c' : Connection)
      → encrypt_fragment cipher c clock frag ≡ ok (wire, c')
      → Sealed c clock frag wire c'
  unfolding encrypt_fragment
  encrypt_fragment-Sealed c clock frag wire c' e =
      by_run (encrypt cipher c.session (message c clock frag)) refl
    where
      by_run :
          (r : Result ConnectionError (List ℕ × Session))
          → encrypt cipher c.session (message c clock frag) ≡ r
          → Sealed c clock frag wire c'
      by_run (ok (w, s)) run = record { session' = s; run = ground arith; next = ground arith }
      by_run (err x) run = absurd (ground arith)
      by_run panicked run = absurd (ground arith)

  -- A datagram begins with the nonce of its direction and number, and uses the number up.
  pub encrypt_fragment_nonce :
      (c : Connection) (clock : SendClock) (frag : Fragment) (wire : List ℕ) (c' : Connection)
      → encrypt_fragment cipher c clock frag ≡ ok (wire, c')
      → c.send_seq < 2 ^ 63
      → (take 8 wire ≡ cc_str (from_val (packet_val c.server c.send_seq)))
        × (c'.send_seq ≡ c.send_seq + 1)
        × (c'.server ≡ c.server)
  encrypt_fragment_nonce c clock frag wire c' e h =
      let s : Sealed c clock frag wire c' = encrypt_fragment-Sealed c clock frag wire c' e in
      let x : Encrypted cipher c.session (message c clock frag) wire s.session' =
        encrypt-Encrypted cipher ConnectionError c.session (message c clock frag) wire s.session'
          s.run in
      (
        rw (x.wire_eq, ← nonce_val-packet_val c h)
            (take-append 8 (cc_str (from_val (nonce_val c))) (x.body ++ x.tag)
              (length-cc_str (nonce_val c))),
        omega (arith, ap (λ k. k.send_seq) s.next),
        ap (λ k. k.server) s.next,
      )

  -- The nonces of consecutive numbers.
  abbrev pub consecutive : Bool → ℕ → ℕ → List (List ℕ)
  consecutive server seq zero = []
  consecutive server seq (suc n) =
      cc_str (from_val (packet_val server seq)) ∷ consecutive server (seq + 1) n

  abbrev pub heads : List Datagram → List (List ℕ)
  heads [] = []
  heads (d ∷ ds) = take 8 d.wire ∷ heads ds

  pub record Numbered (c : Connection) (out : Sent) : Type 0 where
    pub heads_eq : heads out.2 ≡ consecutive c.server c.send_seq (length out.2)
    pub advanced : c.send_seq + length out.2 ≤ out.1.send_seq
    pub server_eq : out.1.server ≡ c.server

  -- Sending a list of fragments from a number at which all fit below 2^63: the datagrams that the
  -- socket took begin with the nonces of the connection's direction and of consecutive numbers from
  -- its own on; the connection goes on with a number past all of them, also where sending fails,
  -- and keeps its direction.
  pub send_loop-Numbered :
      (accepts : Datagram → Bool) (clock : ℕ → SendClock) (remote i : ℕ) (c : Connection)
      (frags : List Fragment)
      → c.send_seq + length frags < 2 ^ 63
      → Numbered c (send_loop cipher accepts clock remote i c frags)
  unfolding send_loop
  send_loop-Numbered accepts clock remote i c [] h = omega_nil
    where
      omega_nil : Numbered c (ok tt, c, [])
      omega_nil = record { heads_eq = refl; advanced = omega arith; server_eq = refl }
  send_loop-Numbered accepts clock remote i c (frag ∷ frags) h =
      by_run (encrypt_fragment cipher c (clock i) frag) refl
        (λ c' k. send_loop-Numbered accepts clock remote (i + 1) c' frags k)
    where
      none_sent :
          (c' : Connection) (r : Result ConnectionError (Unit {0}))
          → c.send_seq ≤ c'.send_seq
          → c'.server ≡ c.server
          → Numbered c (r, c', [])
      none_sent c' r le e = record { heads_eq = refl; advanced = omega arith; server_eq = e }

      one_more :
          (c' : Connection) (wire : List ℕ) (socket : ℕ)
          → take 8 wire ≡ cc_str (from_val (packet_val c.server c.send_seq))
          → c'.send_seq ≡ c.send_seq + 1
          → c'.server ≡ c.server
          → {out : Sent} → Numbered c' out
          → Numbered c
              (out.0, out.1, record { socket = socket; remote = remote; wire = wire } ∷ out.2)
      one_more c' wire socket head next side {out} rest = record {
        heads_eq =
            ap₂ ◌∷◌ head (rest.heads_eq ∙ ap₂ (λ b q. consecutive b q (length out.2)) side next);
        advanced = omega (arith, rest.advanced, next);
        server_eq = rest.server_eq ∙ side;
      }

      by_run :
          (r : Result ConnectionError (List ℕ × Connection))
          → encrypt_fragment cipher c (clock i) frag ≡ r
          → ((c' : Connection)
              → c'.send_seq + length frags < 2 ^ 63
              → Numbered c' (send_loop cipher accepts clock remote (i + 1) c' frags))
          → Numbered c (send_loop cipher accepts clock remote i c (frag ∷ frags))
      by_run (err x) run ih = rw (run, send_loop) (none_sent c (err x) (omega arith) refl)
      by_run panicked run ih = rw (run, send_loop) (none_sent c panicked (omega arith) refl)
      by_run (ok (wire, c')) run ih =
          let (head, next, side) =
            encrypt_fragment_nonce c (clock i) frag wire c' run (omega arith) in
          elim (Option-cases (last? c'.sockets)) [
            | inl e ↦ rw (run, send_loop, e) (none_sent c' panicked (omega arith) side)
            | inr (socket, e) ↦
                elim (Bool-cases
                  (accepts (record { socket = socket; remote = remote; wire = wire }))) [
                    | inl taken ↦
                        rw (run, send_loop, e, taken)
                          (one_more c' wire socket head next side (ih c' (omega (arith, next))))
                    | inr refused ↦
                        rw (run, send_loop, e, refused)
                          (none_sent c' (err send_error) (omega arith) side)
                  ]
          ]
