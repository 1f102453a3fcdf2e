-- ===== src/Base64/Words.antt =====
-- The word arithmetic of one round of the decoder.
use profile_service_cpp.Prelude.{ℕ, ◌+◌, ◌*◌, ◌/◌, ◌%◌, ◌^◌, ◌<◌, List, [], ◌∷◌, ◌++◌, ◌≡◌, arith}
use profile_service_cpp.Prelude.Int.{negsuc, sign_extend}
use profile_service_cpp.Base64.{take_sextet}

-- `val = (val << 6) + pos` on the 32-bit patterns
unfoldable pub shift_in : ℕ → ℕ → ℕ
shift_in v p = (v * 64 + p) % 2 ^ 32

shift_in_lem : (v p : ℕ) → (sign_extend (v * 2 ^ 6 % 2 ^ 32) + p) % 2 ^ 32 ≡ shift_in v p
unfolding shift_in
shift_in_lem v p = ground arith

low_byte_0 : (w : ℕ) → w < 2 ^ 32 → sign_extend w / 2 ^ 0 % 256 ≡ w % 256
low_byte_0 w h = ground arith

low_byte_2 : (w : ℕ) → w < 2 ^ 32 → sign_extend w / 2 ^ 2 % 256 ≡ w / 4 % 256
low_byte_2 w h = ground arith

low_byte_4 : (w : ℕ) → w < 2 ^ 32 → sign_extend w / 2 ^ 4 % 256 ≡ w / 16 % 256
low_byte_4 w h = ground arith

shift_in-lt : (v p : ℕ) → shift_in v p < 2 ^ 32
unfolding shift_in
shift_in-lt v p = omega arith

pub byte_1 : (v a b : ℕ) → a < 64 → b < 64 → shift_in (shift_in v a) b / 16 % 256 ≡ a * 4 + b / 16
unfolding shift_in
byte_1 v a b ha hb = omega arith

pub byte_2 :
    (v b c : ℕ) → b < 64 → c < 64 → shift_in (shift_in v b) c / 4 % 256 ≡ b % 16 * 16 + c / 4
unfolding shift_in
byte_2 v b c hb hc = omega arith

pub byte_3 : (v c d : ℕ) → c < 64 → d < 64 → shift_in (shift_in v c) d % 256 ≡ c % 4 * 64 + d
unfolding shift_in
byte_3 v c d hc hd = omega arith

-- The rounds, by what `valb` is before them.
module _ (out : List ℕ) (v p : ℕ) where
  pub take-sextet-8 :
      take_sextet (record { decoded = out; val = v; valb = negsuc 7 }) p
      ≡ record { decoded = out; val = shift_in v p; valb = negsuc 1 }
  unfolding take_sextet
  take-sextet-8 = rw (shift_in_lem v p)

  pub take-sextet-2 : take_sextet (record { decoded = out; val = v; valb = negsuc 1 }) p ≡ record {
    decoded = out ++ (shift_in v p / 16 % 256) ∷ [];
    val = shift_in v p;
    valb = negsuc 3;
  }
  unfolding take_sextet
  take-sextet-2 = rw (shift_in_lem v p, low_byte_4 _ (shift_in-lt v p))

  pub take-sextet-4 : take_sextet (record { decoded = out; val = v; valb = negsuc 3 }) p ≡ record {
    decoded = out ++ (shift_in v p / 4 % 256) ∷ [];
    val = shift_in v p;
    valb = negsuc 5;
  }
  unfolding take_sextet
  take-sextet-4 = rw (shift_in_lem v p, low_byte_2 _ (shift_in-lt v p))

  pub take-sextet-6 :
      take_sextet (record { decoded = out; val = v; valb = negsuc 5 }) p
      ≡ record { decoded = out ++ (shift_in v p % 256) ∷ []; val = shift_in v p; valb = negsuc 7 }
  unfolding take_sextet
  take-sextet-6 = rw (shift_in_lem v p, low_byte_0 _ (shift_in-lt v p))
