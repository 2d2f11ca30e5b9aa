-- ===== src/Client/Escape/Feeding.antt =====
-- crates/morsh-client/src/input.rs: the escape filter does not depend on how the input is cut into
-- reads, and lets every text through that is typed with the escape key doubled.
use morsh.Common.{
  ℕ, ◌≡◌, ◌≢◌, refl, sym, ap, subst, ◌∙◌, List, [], ◌∷◌, ◌++◌, Bool, true, false, not, ◌&&◌, ◌||◌,
  Option, none, some, ◌==◌, if◌then◌else◌, Bool-cases, inl, inr, arith, append_assoc, append-nil,
  ==→eq, ==_refl, ne→==,
}
use morsh.Client.Escape.{
  EscapeConfig, for_key, EscapeFilter, new_filter, Filtered, Scan, second_key, first_key, key_when,
  scan_byte, after_byte, scan, start_scan, feed_with, feed,
}

-- Two scans that differ in what they sent before.
record Behind (p : List ℕ) (s t : Scan) : Type 0 where
  armed : s.armed ≡ t.armed
  lf_entered : s.lf_entered ≡ t.lf_entered
  send : s.send ≡ p ++ t.send

abbrev BehindOption : List ℕ → Option Scan → Option Scan → Type 0
BehindOption p none none = Unit
BehindOption p none (some t) = ⊥
BehindOption p (some s) none = ⊥
BehindOption p (some s) (some t) = Behind p s t

module _ (c : EscapeConfig) (p : List ℕ) where
  second_key-Behind :
      (s t : Scan) (b : ℕ) → Behind p s t → BehindOption p (second_key c s b) (second_key c t b)
  second_key-Behind s t b h = elim (Bool-cases (b == 46)) [
    | inl x ↦ rw x tt
    | inr x ↦ elim (Bool-cases (b == 0x1a)) [
      | inl y ↦ rw (x, y) (record { armed = refl; lf_entered = h.lf_entered; send = h.send })
      | inr y ↦ elim (Bool-cases ((b == c.pass_key) || (b == c.pass_key2))) [
        | inl z ↦
            rw (x, y, z)
              (record {
                armed = refl;
                lf_entered = h.lf_entered;
                send = rw h.send (append_assoc p t.send (c.key ∷ []));
              })
        | inr z ↦
            rw (x, y, z)
              (record {
                armed = refl;
                lf_entered = h.lf_entered;
                send = rw h.send (append_assoc p t.send (c.key ∷ b ∷ []));
              })
      ]
    ]
  ]

  first_key-Behind :
      (s t : Scan) (b : ℕ) → Behind p s t → Behind p (first_key c s b) (first_key c t b)
  first_key-Behind s t b h =
      elim (Bool-cases ((b == c.key) && (t.lf_entered || not c.requires_lf))) [
        | inl x ↦ rw (h.lf_entered, x) (record { armed = refl; lf_entered = refl; send = h.send })
        | inr x ↦
            rw (h.lf_entered, x)
              (record {
                armed = h.armed;
                lf_entered = refl;
                send = rw h.send (append_assoc p t.send (b ∷ []));
              })
      ]

  key_when-Behind :
      (armed : Bool) (s t : Scan) (b : ℕ)
      → Behind p s t
      → BehindOption p (key_when armed c s b) (key_when armed c t b)
  key_when-Behind true s t b h = second_key-Behind s t b h
  key_when-Behind false s t b h = first_key-Behind s t b h

  scan_byte-Behind :
      (s t : Scan) (b : ℕ) → Behind p s t → BehindOption p (scan_byte c s b) (scan_byte c t b)
  scan_byte-Behind s t b h =
      subst (λ a. BehindOption p (key_when a c s b) (scan_byte c t b)) (sym h.armed)
        (key_when-Behind t.armed s t b h)

  -- What a scan leaves and sends does not hang on what was sent before.
  record SameScan (r q : Bool × Bool × Filtered) : Type 0 where
    armed : r.0 ≡ q.0
    lf_entered : r.1 ≡ q.1
    send : r.2.send ≡ p ++ q.2.send
    quit : r.2.quit ≡ q.2.quit

  after_byte-SameScan :
      (s t : Scan) (rest : Scan → Bool × Bool × Filtered)
      → Behind p s t
      → ((s' t' : Scan) → Behind p s' t' → SameScan (rest s') (rest t'))
      → (x y : Option Scan) → BehindOption p x y
      → SameScan (after_byte s rest x) (after_byte t rest y)
  after_byte-SameScan s t rest h ih none none k = record {
    armed = refl;
    lf_entered = h.lf_entered;
    send = h.send;
    quit = refl;
  }
  after_byte-SameScan s t rest h ih none (some t') k = absurd k
  after_byte-SameScan s t rest h ih (some s') none k = absurd k
  after_byte-SameScan s t rest h ih (some s') (some t') k = ih s' t' k

  scan-SameScan : (bs : List ℕ) (s t : Scan) → Behind p s t → SameScan (scan c s bs) (scan c t bs)
  scan-SameScan [] s t h = record {
    armed = h.armed;
    lf_entered = h.lf_entered;
    send = h.send;
    quit = refl;
  }
  scan-SameScan (b ∷ bs) s t h =
      after_byte-SameScan s t (λ s'. scan c s' bs) h (λ s' t' k. scan-SameScan bs s' t' k)
        (scan_byte c s b) (scan_byte c t b) (scan_byte-Behind s t b h)

-- The marks that a chunk leaves, at the start of the next one.
abbrev resumed : Bool × Bool × Filtered → Scan
resumed r = record { armed = r.0; lf_entered = r.1; was_armed = r.0; send = [] }

-- A scan of two pieces: where the first does not quit, the second goes on from its marks; where it
-- does, the second is not read.
record Pieces (c : EscapeConfig) (bs : List ℕ) (first whole : Bool × Bool × Filtered) : Type 0 where
  goes_on : first.2.quit ≡ false → SameScan c first.2.send whole (scan c (resumed first) bs)
  stops : first.2.quit ≡ true → whole ≡ first

module _ (c : EscapeConfig) (bs : List ℕ) where
  after_byte-Pieces :
      (s : Scan) (rest₁ rest₂ : Scan → Bool × Bool × Filtered)
      → ((s' : Scan) → Pieces c bs (rest₁ s') (rest₂ s'))
      → (x : Option Scan) → Pieces c bs (after_byte s rest₁ x) (after_byte s rest₂ x)
  after_byte-Pieces s rest₁ rest₂ ih none = record {
    goes_on = λ q. absurd (ground (arith, q));
    stops = λ q. refl;
  }
  after_byte-Pieces s rest₁ rest₂ ih (some s') = ih s'

  scan-append : (as' : List ℕ) (s : Scan) → Pieces c bs (scan c s as') (scan c s (as' ++ bs))
  scan-append [] s = record {
    goes_on = λ q.
        scan-SameScan c s.send bs s (resumed (scan c s []))
          (record { armed = refl; lf_entered = refl; send = sym (append-nil s.send) });
    stops = λ q. absurd (ground (arith, q));
  }
  scan-append (a ∷ as') s =
      after_byte-Pieces s (λ s'. scan c s' as') (λ s'. scan c s' (as' ++ bs)) (scan-append as')
        (scan_byte c s a)

-- Both cuts of the input leave the same filter and send the same.
abbrev pub SameFeed : EscapeFilter × Filtered → EscapeFilter × Filtered → Filtered → Type 0
SameFeed whole second first =
    (whole.0 ≡ second.0)
    × (whole.1.send ≡ first.send ++ second.1.send)
    × (whole.1.quit ≡ second.1.quit)

-- The filter after a chunk, on the two outcomes of it.
feed_with-append :
    (o : Option EscapeConfig) (f : EscapeFilter) (as' bs : List ℕ)
    → let first = feed_with o f as' in
      let whole = feed_with o f (as' ++ bs) in
      (first.1.quit ≡ false → SameFeed whole (feed_with o first.0 bs) first.1)
      × (first.1.quit ≡ true → whole ≡ first)
feed_with-append none f as' bs = (λ q. (refl, refl, refl), λ q. absurd (ground (arith, q)))
feed_with-append (some c) f as' bs =
    let p : Pieces c bs (scan c (start_scan f) as') (scan c (start_scan f) (as' ++ bs)) =
      scan-append c bs as' (start_scan f) in
    (
      λ q. let s : _ = p.goes_on q in (rw (s.armed, s.lf_entered) refl, s.send, s.quit),
      λ q. rw (p.stops q) refl,
    )

-- However a stream of input is cut in two reads, if the first does not quit then the filter is left
-- the same and sends the same as for one read of the whole, and it quits on the same input.
pub feed-append :
    (f : EscapeFilter) (as' bs : List ℕ)
    → (feed f as').1.quit ≡ false
    → SameFeed (feed f (as' ++ bs)) (feed (feed f as').0 bs) (feed f as').1
feed-append f as' bs q =
    let whole : _ = (feed_with-append f.config f as' bs).0 q in
    subst (λ o. SameFeed (feed f (as' ++ bs)) (feed_with o (feed f as').0 bs) (feed f as').1)
      (sym (feed_with-config f.config f as')) whole
  where
    feed_with-config :
        (o : Option EscapeConfig) (f : EscapeFilter) (bs : List ℕ)
        → (feed_with o f bs).0.config ≡ f.config
    feed_with-config none f bs = refl
    feed_with-config (some c) f bs = refl

-- A text typed with the escape key doubled wherever it counts as one.
abbrev pub quoted : EscapeConfig → Bool → List ℕ → List ℕ
quoted c lf [] = []
quoted c lf (b ∷ bs) =
    let after_key = quoted c false bs in
    let after_other = quoted c ((b == 10) || (b == 13)) bs in
    if (b == c.key) && (lf || not c.requires_lf)
    then b ∷ c.pass_key ∷ after_key
    else b ∷ after_other

record Passed (text : List ℕ) (r : Bool × Bool × Filtered) : Type 0 where
  unarmed : r.0 ≡ false
  send : r.2.send ≡ text
  quit : r.2.quit ≡ false

module _ (c : EscapeConfig) (dot : c.pass_key ≢ 46) (sub : c.pass_key ≢ 0x1a) where
  -- The pass key, after the escape key.
  pass_key-second :
      (s : Scan)
      → second_key c s c.pass_key ≡ some (record s { armed = false; send = s.send ++ c.key ∷ [] })
  pass_key-second s =
      rw (ne→== c.pass_key 46 dot, ne→== c.pass_key 0x1a sub, ==_refl c.pass_key) refl

  quoted-Passed :
      (bs : List ℕ) (lf was : Bool) (sent : List ℕ)
      → Passed (sent ++ bs) (
          scan c
            (record { armed = false; lf_entered = lf; was_armed = was; send = sent })
            (quoted c lf bs))
  quoted-Passed [] lf was sent = record {
    unarmed = refl;
    send = sym (append-nil sent);
    quit = refl;
  }
  quoted-Passed (b ∷ bs) lf was sent =
      elim (Bool-cases ((b == c.key) && (lf || not c.requires_lf))) [
        | inl x ↦
            let key : b ≡ c.key = ==→eq b c.key (ground (arith, x)) in
            let rest : Passed ((sent ++ c.key ∷ []) ++ bs) _ =
              quoted-Passed bs false true (sent ++ c.key ∷ []) in
            let armed : Scan = record {
              armed = true;
              lf_entered = false;
              was_armed = true;
              send = sent;
            } in
            rw x (
              rw x (
                rw (pass_key-second armed) (
                  subst
                    (λ text. Passed text (
                      scan c
                        (record {
                          armed = false;
                          lf_entered = false;
                          was_armed = true;
                          send = sent ++ c.key ∷ [];
                        })
                        (quoted c false bs)))
                    (append_assoc sent (c.key ∷ []) bs ∙ ap (λ k. sent ++ k ∷ bs) (sym key)) rest)))
        | inr x ↦
            let lf' : Bool = (b == 10) || (b == 13) in
            rw x (
              rw x (
                subst
                  (λ text. Passed text (
                    scan c
                      (record {
                        armed = false;
                        lf_entered = lf';
                        was_armed = was;
                        send = sent ++ b ∷ [];
                      })
                      (quoted c lf' bs)))
                  (append_assoc sent (b ∷ []) bs) (quoted-Passed bs lf' was (sent ++ b ∷ []))))
      ]

for_key-pass_key :
    (key : ℕ) → key ≢ 46 → ((for_key key).pass_key ≢ 46) × ((for_key key).pass_key ≢ 0x1a)
for_key-pass_key key ne = ground arith

-- With any escape key but a dot, a text typed with the key doubled wherever it counts as one, the
-- second time as the pass key, is sent as it is, whole, with no quit, and leaves the filter
-- unarmed.
pub feed-quoted :
    (key : ℕ) (text : List ℕ)
    → key ≢ 46
    → let r = feed (new_filter (some (for_key key))) (quoted (for_key key) false text) in
      (r.1.send ≡ text) × (r.1.quit ≡ false) × (r.0.armed ≡ false)
feed-quoted key text ne =
    let (dot, sub) = for_key-pass_key key ne in
    let p : _ = quoted-Passed (for_key key) dot sub text false false [] in
    (p.send, p.quit, p.unarmed)
