-- ===== src/Base64/Laws.antt =====
-- What the decoder computes: the first value of the text becomes a byte of its own, and only the
-- values after it are joined as RFC 4648 joins them.
use mathlib.Core.List.{append_assoc, append-nil}
use profile_service_cpp.Prelude.{
  ℕ, suc, ◌+◌, ◌/◌, ◌%◌, ◌<◌, List, [], ◌∷◌, ◌++◌, none, some, ◌≡◌, ◌↔◌, ◌∙◌, ap, inl, inr, refl,
  nat_eq, Bool-cases, Option-cases, length, All, arith,
}
use profile_service_cpp.Prelude.Int.{negsuc}
use profile_service_cpp.Base64.{
  Decoder, base64_chars, find_from, find_char, take_sextet, decode_char, decode_loop, fresh_decoder,
  decode_bytes,
}
use profile_service_cpp.Base64.Reference.{sextets, join_sextets}
use profile_service_cpp.Base64.Words.{
  shift_in, byte_1, byte_2, byte_3, take-sextet-8, take-sextet-2, take-sextet-4, take-sextet-6,
}

abbrev IsSextet : ℕ → Type 0
IsSextet q = q < 64

-- the decoder's rounds over values
unfoldable take_all : Decoder → List ℕ → Decoder
take_all s [] = s
take_all s (q ∷ qs) = take_all (take_sextet s q) qs

take_all-cons :
    (s : Decoder) (q : ℕ) (qs : List ℕ) → take_all s (q ∷ qs) ≡ take_all (take_sextet s q) qs
unfolding take_all
take_all-cons s q qs = refl

take_all-nil : (s : Decoder) → take_all s [] ≡ s
unfolding take_all
take_all-nil s = refl

module _ (s : Decoder) (c : ℕ) where
  decode_char_skip : find_char c ≡ none → decode_char s c ≡ s
  unfolding decode_char
  decode_char_skip h = rw (h, decode_char)

  decode_char_take : {q : ℕ} → find_char c ≡ some q → decode_char s c ≡ take_sextet s q
  unfolding decode_char
  decode_char_take h = rw (h, decode_char)

-- The decoder is a loop over the text's values.
decode_loop-eq : (s : Decoder) (cs : List ℕ) → decode_loop s cs ≡ (take_all s (sextets cs)).decoded
unfolding decode_loop sextets take_all
decode_loop-eq s [] = refl
decode_loop-eq s (c ∷ cs) = elim (Bool-cases (nat_eq c b'=')) [
  | inl stop ↦ rw stop
  | inr more ↦ rw more (elim (Option-cases (find_char c)) [
    | inl skip ↦ rw (skip, decode_char_skip s c skip) (decode_loop-eq s cs)
    | inr (q, found) ↦ rw (found, decode_char_take s c found) (decode_loop-eq (take_sextet s q) cs)
  ])
]

find_from-lt : (xs : List ℕ) (i c : ℕ) {q : ℕ} → find_from xs i c ≡ some q → q < i + length xs
unfolding find_from
find_from-lt [] i c h = cc
find_from-lt (x ∷ xs) i c {q} h = ground (arith, find_from-lt xs (suc i) c {q = q})

find_char-lt : (c : ℕ) {q : ℕ} → find_char c ≡ some q → q < 64
unfolding find_char base64_chars
find_char-lt c h = find_from-lt base64_chars 0 c h

sextets-IsSextet : (cs : List ℕ) → All IsSextet (sextets cs)
unfolding sextets
sextets-IsSextet [] = tt
sextets-IsSextet (c ∷ cs) = elim (Bool-cases (nat_eq c b'=')) [
  | inl stop ↦ rw stop tt
  | inr more ↦ rw more (elim (Option-cases (find_char c)) [
    | inl skip ↦ rw skip (sextets-IsSextet cs)
    | inr (q, found) ↦ rw found (find_char-lt c found, sextets-IsSextet cs)
  ])
]

-- From the state in which no bits wait, values are joined in fours.
take_all-join :
    (qs : List ℕ) (out : List ℕ) (v : ℕ)
    → All IsSextet qs
    → (take_all (record { decoded = out; val = v; valb = negsuc 7 }) qs).decoded
      ≡ out ++ join_sextets qs
unfolding join_sextets
take_all-join (a ∷ b ∷ c ∷ d ∷ qs) out v (ha, (hb, (hc, (hd, h)))) =
    let v1 = shift_in v a in
    let v2 = shift_in v1 b in
    let v3 = shift_in v2 c in
    let out1 = out ++ (v2 / 16 % 256) ∷ [] in
    let out2 = out1 ++ (v3 / 4 % 256) ∷ [] in
    rw
      (
        take_all-cons,
        take-sextet-8 out v a,
        take_all-cons,
        take-sextet-2 out v1 b,
        take_all-cons,
        take-sextet-4 out1 v2 c,
        take_all-cons,
        take-sextet-6 out2 v3 d,
        byte_1 v a b ha hb,
        byte_2 v1 b c hb hc,
        byte_3 v2 c d hc hd,
      )
      (take_all-join qs _ _ h ∙ simp append_assoc)
take_all-join (a ∷ b ∷ c ∷ []) out v (ha, (hb, (hc, h))) =
    let v1 = shift_in v a in
    let v2 = shift_in v1 b in
    let out1 = out ++ (v2 / 16 % 256) ∷ [] in
    rw
      (
        take_all-cons,
        take-sextet-8 out v a,
        take_all-cons,
        take-sextet-2 out v1 b,
        take_all-cons,
        take-sextet-4 out1 v2 c,
        take_all-nil,
        byte_1 v a b ha hb,
        byte_2 v1 b c hb hc,
      )
      (append_assoc out _ _)
take_all-join (a ∷ b ∷ []) out v (ha, (hb, h)) = rw (
  take_all-cons,
  take-sextet-8 out v a,
  take_all-cons,
  take-sextet-2 out (shift_in v a) b,
  take_all-nil,
  byte_1 v a b ha hb,
)
take_all-join (a ∷ []) out v h = rw (take_all-cons, take-sextet-8 out v a, take_all-nil, append-nil)
take_all-join [] out v h = rw (take_all-nil, append-nil)

-- What the decoder makes of the values: the first is a byte, the others are joined.
abbrev pub skewed : List ℕ → List ℕ
skewed [] = []
skewed (q ∷ qs) = q ∷ join_sextets qs

take_all-skewed : (qs : List ℕ) → All IsSextet qs → (take_all fresh_decoder qs).decoded ≡ skewed qs
unfolding shift_in
take_all-skewed [] h = rw take_all-nil
take_all-skewed (q ∷ qs) (hq, h) =
    let low : shift_in 0 q % 256 ≡ q = omega arith in
    rw (take_all-cons, take-sextet-6 [] 0 q)
      (take_all-join qs _ _ h ∙ ap (λ t. t ∷ join_sextets qs) low)

-- On every text the decoder yields the value of the first character of the alphabet as a byte, and
-- after it the bytes that the later values, up to the first `=`, stand for in RFC 4648.
pub decode_bytes-eq : (cs : List ℕ) → decode_bytes cs ≡ skewed (sextets cs)
unfolding decode_bytes
decode_bytes-eq cs =
    decode_loop-eq fresh_decoder cs ∙ take_all-skewed (sextets cs) (sextets-IsSextet cs)

skewed-eq-nil_iff : (qs : List ℕ) → (skewed qs ≡ []) ↔ (qs ≡ [])
skewed-eq-nil_iff [] = ground arith
skewed-eq-nil_iff (q ∷ qs) = ground arith

-- The decoder yields no byte exactly when no character of the alphabet stands before the first `=`.
pub decode_bytes-eq-nil_iff : (cs : List ℕ) → (decode_bytes cs ≡ []) ↔ (sextets cs ≡ [])
decode_bytes-eq-nil_iff cs = rw decode_bytes-eq (skewed-eq-nil_iff (sextets cs))
