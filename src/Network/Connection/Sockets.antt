-- ===== src/Network/Connection/Sockets.antt =====
-- Port hopping: how many sockets stay open, and which.
use morsh.Common.{
  ℕ, zero, suc, ◌-◌, ◌≤◌, ◌≡◌, refl, ◌∙◌, List, [], ◌∷◌, ◌++◌, ltb, length, drop, length-append,
  length-drop, arith, ok, Bool-cases, inl, inr, tests,
}
use morsh.Network.Connection.{Connection, prune_sockets, hop_port}

-- The newest ten.
prune_sockets-drop : (ss : List ℕ) → prune_sockets ss ≡ drop (length ss - 10) ss
unfolding prune_sockets
prune_sockets-drop [] = refl
prune_sockets-drop (s ∷ ss) = elim (Bool-cases (ltb 10 (length (s ∷ ss)))) [
  | inl e ↦
      let n : suc (length ss) - 10 ≡ suc (length ss - 10) = omega tests in
      rw (e, prune_sockets-drop ss, n)
  | inr e ↦ let n : suc (length ss) - 10 ≡ 0 = omega tests in rw (e, n)
]

drop-snoc :
    (n : ℕ) (ss : List ℕ) (s : ℕ) → n ≤ length ss → drop n (ss ++ (s ∷ [])) ≡ drop n ss ++ (s ∷ [])
drop-snoc zero ss s h = refl
drop-snoc (suc n) [] s h = absurd (omega arith)
drop-snoc (suc n) (x ∷ ss) s h = drop-snoc n ss s (omega arith)

-- A hop that succeeds opens its socket last and keeps the newest nine of the others in order; it
-- sets the time of the hop and changes nothing else, and at most ten sockets are open afterwards.
pub hop_port_sockets :
    (c : Connection) (socket now : ℕ) (c' : Connection)
    → hop_port c (ok socket) now ≡ ok c'
    → (c' ≡ record c {
      sockets = drop (length c.sockets - 9) c.sockets ++ (socket ∷ []);
      last_port_choice = now;
    })
      × (length c'.sockets ≤ 10)
unfolding hop_port
hop_port_sockets c socket now c' e =
    let all : List ℕ = c.sockets ++ (socket ∷ []) in
    let n : length all - 10 ≡ length c.sockets - 9 =
      omega (arith, length-append c.sockets (socket ∷ [])) in
    let kept : prune_sockets all ≡ drop (length c.sockets - 9) c.sockets ++ (socket ∷ []) =
      prune_sockets-drop all
      ∙ rw n (drop-snoc (length c.sockets - 9) c.sockets socket (omega arith)) in
    let next : c' ≡ record c {
      sockets = drop (length c.sockets - 9) c.sockets ++ (socket ∷ []);
      last_port_choice = now;
    } =
      ground (arith, kept) in
    (
      next,
      rw next (
          omega (
            arith,
            length-append (drop (length c.sockets - 9) c.sockets) (socket ∷ []),
            length-drop (length c.sockets - 9) c.sockets,
          )),
    )
