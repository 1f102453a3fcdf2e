-- ===== src/Base64/Reference.antt =====
-- Base64 as RFC 4648 defines it, in 6-bit values (sextets): the values that a text carries, the bytes
-- that a sequence of values stands for, and the encoder.
use profile_service_cpp.Prelude.{
  ℕ, ◌+◌, ◌*◌, ◌/◌, ◌%◌, ◌<◌, List, [], ◌∷◌, none, some, ◌≡◌, refl, nat_eq, get_elem?, value_or,
  All, arith, if◌then◌else◌,
}
use profile_service_cpp.Base64.{base64_chars, find_char}

-- the values of the characters before the first `=`; characters outside the alphabet carry none
unfoldable pub sextets : List ℕ → List ℕ
unfolding find_char
sextets [] = []
sextets (c ∷ cs) =
    let rest = sextets cs in
    if nat_eq c b'=' then [] else elim (find_char c) [ none ↦ rest | some q ↦ q ∷ rest ]

-- four values are three bytes; of what is left over, three values are two bytes and two are one
unfoldable pub join_sextets : List ℕ → List ℕ
join_sextets (a ∷ b ∷ c ∷ d ∷ qs) =
    (a * 4 + b / 16) ∷ (b % 16 * 16 + c / 4) ∷ (c % 4 * 64 + d) ∷ join_sextets qs
join_sextets (a ∷ b ∷ c ∷ []) = (a * 4 + b / 16) ∷ (b % 16 * 16 + c / 4) ∷ []
join_sextets (a ∷ b ∷ []) = (a * 4 + b / 16) ∷ []
join_sextets (a ∷ []) = []
join_sextets [] = []

unfoldable pub split_bytes : List ℕ → List ℕ
split_bytes (x ∷ y ∷ z ∷ bs) =
    x / 4 ∷ (x % 4 * 16 + y / 16) ∷ (y % 16 * 4 + z / 64) ∷ z % 64 ∷ split_bytes bs
split_bytes (x ∷ y ∷ []) = x / 4 ∷ (x % 4 * 16 + y / 16) ∷ y % 16 * 4 ∷ []
split_bytes (x ∷ []) = x / 4 ∷ x % 4 * 16 ∷ []
split_bytes [] = []

unfoldable pub symbol : ℕ → ℕ
unfolding base64_chars
symbol q = value_or (get_elem? base64_chars q) 0

-- the encoder, with its padding
unfoldable pub encode : List ℕ → List ℕ
unfolding symbol
encode (x ∷ y ∷ z ∷ bs) =
    symbol (x / 4)
    ∷ symbol (x % 4 * 16 + y / 16)
    ∷ symbol (y % 16 * 4 + z / 64)
    ∷ symbol (z % 64)
    ∷ encode bs
encode (x ∷ y ∷ []) =
    symbol (x / 4) ∷ symbol (x % 4 * 16 + y / 16) ∷ symbol (y % 16 * 4) ∷ b'=' ∷ []
encode (x ∷ []) = symbol (x / 4) ∷ symbol (x % 4 * 16) ∷ b'=' ∷ b'=' ∷ []
encode [] = []

abbrev pub IsByte : ℕ → Type 0
IsByte x = x < 256

pub join-split_bytes : (bs : List ℕ) → All IsByte bs → join_sextets (split_bytes bs) ≡ bs
unfolding join_sextets split_bytes
join-split_bytes (x ∷ y ∷ z ∷ bs) (hx, (hy, (hz, h))) = ground (arith, join-split_bytes bs h)
join-split_bytes (x ∷ y ∷ []) (hx, (hy, h)) = ground arith
join-split_bytes (x ∷ []) (hx, h) = ground arith
join-split_bytes [] h = refl
