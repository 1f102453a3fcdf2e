-- ===== src/Base64.antt =====
-- `DecodeBase64` of include/profile_service/utils/json_utils.hpp.
pub mod Reference
pub mod Words
pub mod Laws
pub mod Encoding
mod Tests
use profile_service_cpp.Prelude.{
  ℕ, zero, suc, ◌+◌, ◌*◌, ◌/◌, ◌%◌, ◌^◌, String, Bool, Option, none, some, List, [], ◌∷◌, ◌++◌,
  nat_eq, if◌then◌else◌,
}
use profile_service_cpp.Prelude.Text.{bytes_of}
use profile_service_cpp.Prelude.Int.{ℤ, pos, negsuc, ◌+ℤ◌, sign_extend}

unfoldable pub base64_chars : List ℕ
base64_chars = bytes_of "ABCDEFGHIJKLMNOPQRSTUVWXYZabcdefghijklmnopqrstuvwxyz0123456789+/"

-- `base64_chars.find(c)`, from position `i` of a text whose rest is given
unfoldable pub find_from : List ℕ → ℕ → ℕ → Option ℕ
find_from [] i c = none
find_from (x ∷ xs) i c = let later = find_from xs (suc i) c in if nat_eq x c then some i else later

unfoldable pub find_char : ℕ → Option ℕ
unfolding find_from base64_chars
find_char c = find_from base64_chars 0 c

-- The loop's variables. `val`, an `int`, is a 32-bit pattern: C++20 wraps `val << 6`, and the sum
-- with a `size_t` is cut to 32 bits when it is stored.
pub record Decoder : Type 0 where
  pub decoded : List ℕ
  pub val : ℕ
  pub valb : ℤ

-- `if (valb >= 0) { decoded.push_back((val >> valb) & 0xFF); valb -= 8; }`
abbrev emit : Decoder → ℤ → Decoder
emit s (negsuc n) = s
emit s (pos n) = record s {
  decoded = s.decoded ++ (sign_extend s.val / 2 ^ n % 256) ∷ [];
  valb = pos n +ℤ negsuc 7;
}

-- the round for a character at position `p` of the alphabet
unfoldable pub take_sextet : Decoder → ℕ → Decoder
take_sextet s p =
    let word = s.val * 2 ^ 6 % 2 ^ 32 in
    let bits = s.valb +ℤ pos 6 in
    emit (record s { val = (sign_extend word + p) % 2 ^ 32; valb = bits }) bits

-- the round for a character that is not `=`
unfoldable pub decode_char : Decoder → ℕ → Decoder
unfolding find_char take_sextet
decode_char s c = elim (find_char c) [ none ↦ s | some p ↦ take_sextet s p ]

unfoldable pub decode_loop : Decoder → List ℕ → List ℕ
unfolding decode_char
decode_loop s [] = s.decoded
decode_loop s (c ∷ cs) =
    let rest = decode_loop (decode_char s c) cs in if nat_eq c b'=' then s.decoded else rest

abbrev pub fresh_decoder : Decoder
fresh_decoder = record { decoded = []; val = 0; valb = negsuc 5 }

unfoldable pub decode_bytes : List ℕ → List ℕ
unfolding decode_loop
decode_bytes encoded = decode_loop fresh_decoder encoded

unfoldable pub decode_base64 : String → List ℕ
unfolding decode_bytes
decode_base64 encoded = decode_bytes (bytes_of encoded)
