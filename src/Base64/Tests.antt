-- ===== src/Base64/Tests.antt =====
-- The decoder at concrete texts.
use profile_service_cpp.Prelude.{◌≡◌, ◌≢◌, refl, [], ◌∷◌, arith}
use profile_service_cpp.Base64.{decode_base64, decode_bytes}
use profile_service_cpp.Base64.Reference.{encode, sextets}
use profile_service_cpp.Base64.Laws.{skewed, decode_bytes-eq}
use profile_service_cpp.Base64.Encoding.{decode_bytes-encode-ne}

-- "TWFu" encodes the three bytes of "Man".
decode_man : decode_base64 "TWFu" ≡ 19 ∷ 88 ∷ 91 ∷ []
unfolding decode_base64
decode_man = refl

encode_man : encode (77 ∷ 97 ∷ 110 ∷ []) ≡ 84 ∷ 87 ∷ 70 ∷ 117 ∷ []
unfolding encode
encode_man = refl

decode_bytes-encode-ne_example : decode_bytes (encode (77 ∷ 97 ∷ [])) ≢ 77 ∷ 97 ∷ []
decode_bytes-encode-ne_example = decode_bytes-encode-ne 77 (97 ∷ []) (omega arith) (omega arith)

decode_bytes-eq_example :
    decode_bytes (84 ∷ 87 ∷ 70 ∷ 117 ∷ []) ≡ skewed (sextets (84 ∷ 87 ∷ 70 ∷ 117 ∷ []))
decode_bytes-eq_example = decode_bytes-eq (84 ∷ 87 ∷ 70 ∷ 117 ∷ [])
