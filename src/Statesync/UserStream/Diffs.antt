-- ===== src/Statesync/UserStream/Diffs.antt =====
-- crates/morsh-statesync/src/user_stream.rs: diffs against a prefix, and what cutting one off does.
use morsh.Common.{
  ℕ, ◌+◌, ◌≡◌, refl, sym, ap, ap₂, ◌∙◌, List, [], ◌∷◌, ◌++◌, append_assoc, append-nil, Option, none,
  some, true, ==_refl, length, drop, drop-append, drop-drop, arith,
}
use morsh.Common.Int.{ℤ, pos, negsuc}
use morsh.Statesync.UserStream.{
  UserEvent, user_byte, resized, UserStream, UserWire, UserWireLaws, int_eq, event_eq,
  common_prefix_len, grouped, key_events, pushed_events, encode_diff_from, decode_and_apply,
  subtract,
}

int_eq_refl : (a : ℤ) → int_eq a a ≡ true
int_eq_refl (pos a) = ==_refl a
int_eq_refl (negsuc a) = ==_refl a

event_eq_refl : (e : UserEvent) → event_eq e e ≡ true
event_eq_refl (user_byte b) = ==_refl b
event_eq_refl (resized w h) = rw (int_eq_refl w) (int_eq_refl h)

common_prefix_len-append :
    (p a b : UserStream) → common_prefix_len (p ++ a) (p ++ b) ≡ length p + common_prefix_len a b
common_prefix_len-append [] a b = omega arith
common_prefix_len-append (e ∷ p) a b =
    let rest : _ = common_prefix_len-append p a b in rw (event_eq_refl e) (omega (arith, rest))

key_events-append : (xs ys : List ℕ) → key_events (xs ++ ys) ≡ key_events xs ++ key_events ys
key_events-append [] ys = refl
key_events-append (x ∷ xs) ys = ap (◌∷◌ (user_byte x)) (key_events-append xs ys)

-- The events of a group in progress come first.
pending : Option (List ℕ) → List UserEvent
pending none = []
pending (some keys) = key_events keys

pushed_events-grouped :
    (o : Option (List ℕ)) (es : List UserEvent) → pushed_events (grouped o es) ≡ pending o ++ es
unfolding pending
pushed_events-grouped none [] = refl
pushed_events-grouped (some keys) [] = refl
pushed_events-grouped none (user_byte b ∷ es) = pushed_events-grouped (some (b ∷ [])) es
pushed_events-grouped (some keys) (user_byte b ∷ es) =
    pushed_events-grouped (some (keys ++ (b ∷ []))) es
    ∙ ap (λ z. z ++ es) (key_events-append keys (b ∷ []))
    ∙ append_assoc (key_events keys) (user_byte b ∷ []) es
pushed_events-grouped none (resized w h ∷ es) =
    ap (◌∷◌ (resized w h)) (pushed_events-grouped none es)
pushed_events-grouped (some keys) (resized w h ∷ es) =
    ap (λ z. key_events keys ++ (resized w h ∷ z)) (pushed_events-grouped none es)

nothing_common : (a : UserStream) → common_prefix_len a [] ≡ 0
nothing_common [] = refl
nothing_common (e ∷ a) = refl

cut_prefix : (p a : UserStream) → drop (common_prefix_len (p ++ a) p) (p ++ a) ≡ a
cut_prefix p a =
    let whole : _ = common_prefix_len-append p a [] in
    let n : common_prefix_len (p ++ a) p ≡ length p =
      ap (common_prefix_len (p ++ a)) (sym (append-nil p))
      ∙ omega (arith, whole, nothing_common a) in
    ap (λ k. drop k (p ++ a)) n ∙ drop-append (length p) p a refl

pub subtract-append : (p a : UserStream) → subtract (p ++ a) p ≡ a
unfolding subtract
subtract-append p a = cut_prefix p a

module _ (wire : UserWire) where
  -- Where the message code decodes what it encodes: applying the diff from a known user stream to
  -- one that continues it gives the continued stream, however the keystrokes were grouped into
  -- instructions.
  pub decode_and_apply-encode_diff_from :
      (laws : UserWireLaws wire) (known new : UserStream)
      → decode_and_apply wire known (encode_diff_from wire (known ++ new) known)
        ≡ some (known ++ new)
  unfolding decode_and_apply encode_diff_from pending
  decode_and_apply-encode_diff_from laws known new =
      let cut : drop (common_prefix_len (known ++ new) known) (known ++ new) ≡ new =
        cut_prefix known new in
      let read : wire.decode (encode_diff_from wire (known ++ new) known)
          ≡ some (grouped none new) =
        ap (λ z. wire.decode (wire.encode (grouped none z))) cut
        ∙ laws.decode-encode (grouped none new) in
      rw (read, decode_and_apply) (ap (λ z. some (known ++ z)) (pushed_events-grouped none new))

  -- Cutting a common prefix off two user streams changes no diff between them: the diff of the two
  -- remainders is the diff of the two streams.
  pub encode_diff_from-subtract :
      (p a b : UserStream)
      → encode_diff_from wire (subtract (p ++ a) p) (subtract (p ++ b) p)
        ≡ encode_diff_from wire (p ++ a) (p ++ b)
  unfolding encode_diff_from
  encode_diff_from-subtract p a b =
      let whole : drop (common_prefix_len (p ++ a) (p ++ b)) (p ++ a)
          ≡ drop (common_prefix_len a b) a =
        ap (λ k. drop k (p ++ a)) (common_prefix_len-append p a b)
        ∙ sym (drop-drop (common_prefix_len a b) (length p) (p ++ a))
        ∙ ap (drop (common_prefix_len a b)) (drop-append (length p) p a refl) in
      ap₂ (encode_diff_from wire) (subtract-append p a) (subtract-append p b)
      ∙ ap (λ z. wire.encode (grouped none z)) (sym whole)
