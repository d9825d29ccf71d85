-- ===== src/Base64/Examples.antt =====
-- Runs of the encoder, and the theorems at concrete inputs.
use spdm_working.Common.{ℕ, ◌≡◌, refl, List, [], ◌∷◌, some, length, arith}
use spdm_working.Common.Text.{codes}
use spdm_working.Base64.{base64_encode}
use spdm_working.Base64.Reference.{encoding}
use spdm_working.Base64.Loop.{base64_encode-encoding}
use spdm_working.Base64.Decode.{decoding, decoding-base64_encode}

encodes_man : base64_encode (codes "Man") ≡ some (codes "TWFu")
unfolding base64_encode
encodes_man = refl

encodes_hello : base64_encode (codes "Hello") ≡ some (codes "SGVsbG8=")
unfolding base64_encode
encodes_hello = refl

base64_encode-encoding_example : base64_encode (codes "Hello") ≡ some (encoding (codes "Hello"))
base64_encode-encoding_example = base64_encode-encoding (codes "Hello") (omega arith)

decoding-base64_encode_example :
    (base64 : List ℕ) × (base64_encode (1 ∷ 2 ∷ []) ≡ some base64)
    × (decoding base64 ≡ 1 ∷ 2 ∷ [])
    × (length base64 ≡ 4)
decoding-base64_encode_example = decoding-base64_encode (1 ∷ 2 ∷ []) (omega arith)
