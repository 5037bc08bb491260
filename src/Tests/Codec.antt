-- ===== src/Tests/Codec.antt =====
-- A small base64: each byte as so many marks and a stop.
use Prim.Native.Char.{code}
use controlplane_operator.Base.{
  ℕ, zero, suc, ◌+◌, String, ◌≡◌, refl, ap, ◌∙◌, [], ◌∷◌, nat_eq, if◌then◌else◌, arith,
}
use controlplane_operator.Utils.Kubeconfig.{Bytes}

abbrev marks : ℕ → String → String
marks zero s = String.◌∷◌ "." s
marks (suc n) s = String.◌∷◌ "1" (marks n s)

abbrev pub encode : Bytes → String
encode [] = ""
encode (b ∷ bs) = marks b (encode bs)

abbrev bytes_from : ℕ → String → Bytes
bytes_from k String.[] = []
bytes_from k (String.◌∷◌ c s) =
    if nat_eq (code c) 46 then k ∷ bytes_from 0 s else bytes_from (suc k) s

abbrev pub decode : String → Bytes
decode s = bytes_from 0 s

bytes_from-marks : (k n : ℕ) (s : String) → bytes_from k (marks n s) ≡ (k + n) ∷ bytes_from 0 s
bytes_from-marks k zero s = let same : k ≡ k + 0 = omega arith in ap (λ x. x ∷ bytes_from 0 s) same
bytes_from-marks k (suc n) s =
    let same : suc k + n ≡ k + suc n = omega arith in
    bytes_from-marks (suc k) n s ∙ ap (λ x. x ∷ bytes_from 0 s) same

pub decode-encode : (b : Bytes) → decode (encode b) ≡ b
decode-encode [] = refl
decode-encode (b ∷ bs) =
    let same : 0 + b ≡ b = omega arith in
    bytes_from-marks 0 b (encode bs)
    ∙ ap (λ x. x ∷ decode (encode bs)) same
    ∙ ap (λ x. b ∷ x) (decode-encode bs)
