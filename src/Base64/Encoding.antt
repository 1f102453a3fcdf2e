-- ===== src/Base64/Encoding.antt =====
-- The decoder on what an encoder of RFC 4648 produces.
use profile_service_cpp.Prelude.{
  ℕ, zero, suc, ◌+◌, ◌*◌, ◌/◌, ◌%◌, ◌<◌, List, [], ◌∷◌, Option, none, some, Bool, true, false, ◌&&◌,
  ◌≡◌, ◌≢◌, ◌∙◌, sym, ap, refl, nat_eq, nat_eq_iff, inl, inr, Bool-cases, All, arith, if◌then◌else◌,
}
use profile_service_cpp.Base64.{find_char, decode_bytes}
use profile_service_cpp.Base64.Reference.{
  sextets, join_sextets, split_bytes, symbol, encode, IsByte, join-split_bytes,
}
use profile_service_cpp.Base64.Laws.{skewed, decode_bytes-eq}

abbrev is_some_of : Option ℕ → ℕ → Bool
is_some_of none q = false
is_some_of (some p) q = nat_eq p q

-- every value below `n` is found again at its symbol, which is not `=`
checked_below : ℕ → Bool
checked_below zero = true
checked_below (suc n) =
    checked_below n
    && (if nat_eq (symbol n) b'=' then false else is_some_of (find_char (symbol n)) n)

checked_below_sound :
    (n q : ℕ)
    → checked_below n ≡ true
    → q < n
    → (nat_eq (symbol q) b'=' ≡ false) × (find_char (symbol q) ≡ some q)
unfolding checked_below
checked_below_sound zero q h lt = absurd (omega arith)
checked_below_sound (suc n) q h lt = elim (Bool-cases (nat_eq q n)) [
  | inl same ↦ rw ((nat_eq_iff q n).0 same) (ground arith)
  | inr other ↦ checked_below_sound n q (ground arith) (ground arith)
]

alphabet_checked : checked_below 64 ≡ true
unfolding checked_below symbol find_char
alphabet_checked = refl

-- A text that begins with a symbol carries the symbol's value first.
sextets-symbol :
    (q : ℕ) (cs : List ℕ) {qs : List ℕ}
    → q < 64
    → sextets cs ≡ qs
    → sextets (symbol q ∷ cs) ≡ q ∷ qs
unfolding sextets
sextets-symbol q cs h rest =
    let (plain, found) = checked_below_sound 64 q alphabet_checked h in
    rw (plain, found) (ap (λ t. q ∷ t) rest)

sextets-pad : (cs : List ℕ) → sextets (b'=' ∷ cs) ≡ []
unfolding sextets
sextets-pad cs = refl

sextets-nil : sextets [] ≡ []
unfolding sextets
sextets-nil = refl

sextets-encode : (bs : List ℕ) → All IsByte bs → sextets (encode bs) ≡ split_bytes bs
unfolding encode split_bytes
sextets-encode (x ∷ y ∷ z ∷ bs) (hx, (hy, (hz, h))) = sextets-symbol (x / 4) _ (omega arith) (
    sextets-symbol (x % 4 * 16 + y / 16) _ (omega arith) (
      sextets-symbol (y % 16 * 4 + z / 64) _ (omega arith)
        (sextets-symbol (z % 64) _ (omega arith) (sextets-encode bs h))))
sextets-encode (x ∷ y ∷ []) (hx, (hy, h)) = sextets-symbol (x / 4) _ (omega arith) (
    sextets-symbol (x % 4 * 16 + y / 16) _ (omega arith)
      (sextets-symbol (y % 16 * 4) _ (omega arith) (sextets-pad [])))
sextets-encode (x ∷ []) (hx, h) =
    sextets-symbol (x / 4) _ (omega arith)
      (sextets-symbol (x % 4 * 16) _ (omega arith) (sextets-pad (b'=' ∷ [])))
sextets-encode [] h = sextets-nil

-- The bytes that a text encodes by RFC 4648 are given back by joining the text's values.
join-sextets-encode : (bs : List ℕ) → All IsByte bs → join_sextets (sextets (encode bs)) ≡ bs
join-sextets-encode bs h = rw (sextets-encode bs h) (join-split_bytes bs h)

head_or : List ℕ → ℕ
head_or [] = 0
head_or (x ∷ xs) = x

head_or-skewed-split_bytes : (x : ℕ) (bs : List ℕ) → head_or (skewed (split_bytes (x ∷ bs))) ≡ x / 4
unfolding head_or split_bytes
head_or-skewed-split_bytes x [] = refl
head_or-skewed-split_bytes x (y ∷ []) = refl
head_or-skewed-split_bytes x (y ∷ z ∷ bs) = refl

-- The decoder does not undo the encoding of any sequence of bytes whose first byte is not 0.
pub decode_bytes-encode-ne :
    (x : ℕ) (bs : List ℕ) → All IsByte (x ∷ bs) → 0 < x → decode_bytes (encode (x ∷ bs)) ≢ x ∷ bs
unfolding head_or
decode_bytes-encode-ne x bs h pos e =
    let first : head_or (decode_bytes (encode (x ∷ bs))) ≡ x / 4 =
      rw (decode_bytes-eq, sextets-encode (x ∷ bs) h) (head_or-skewed-split_bytes x bs) in
    let same : x / 4 ≡ x = sym first ∙ ap head_or e in absurd (omega arith)
