-- ===== src/RunnerClient/Base64/Encoded.antt =====
-- An encoding is decoded to the bytes that it encodes.
use policy_witness.Base.{
  ℕ, ◌+◌, ◌*◌, ◌/◌, ◌%◌, ◌<◌, Bool, true, false, some, [], ◌∷◌, ◌==◌, ==_true, length, is_empty,
  Bytes, All, ok, ◌≡◌, refl, subst, ap, inl, inr, arith, Bool-cases,
}
use policy_witness.RunnerClient.Base64.{
  digit, decode_fourth, decode_third, decode_chunk, decode_chunks, letter, encode_base64,
}
use policy_witness.RunnerClient.Base64.Digits.{digit-letter}

abbrev pub IsByte : ℕ → Type 0
IsByte b = b < 256

no_padding : (d : ℕ) → d < 64 → (letter d == b'=') ≡ false
unfolding digit
no_padding d l = elim (Bool-cases (letter d == b'=')) [
  | inl e ↦ absurd (
      let p = digit-letter d l in
      let q = subst (λ c. digit c ≡ some d) (==_true (letter d) b'=' e) p in cc)
  | inr f ↦ f
]

decode_fourth-letter :
    (last : Bool) (c d : ℕ)
    → d < 64
    → decode_fourth last c (letter d) ≡ ok ((c * 64 % 256 + d) ∷ [])
unfolding decode_fourth
decode_fourth-letter last c d ld = rw (no_padding d ld, digit-letter d ld)

decode_third-letter :
    (last : Bool) (b c fourth : ℕ) (more : Bytes)
    → c < 64
    → decode_fourth last c fourth ≡ ok more
    → decode_third last b (letter c) fourth ≡ ok ((b * 16 % 256 + c / 4) ∷ more)
unfolding decode_third
decode_third-letter last b c fourth more lc h = rw (no_padding c lc, digit-letter c lc, h)

decode_chunk-letter :
    (last : Bool) (a b third fourth : ℕ) (more : Bytes)
    → a < 64
    → b < 64
    → decode_third last b third fourth ≡ ok more
    → decode_chunk last (letter a) (letter b) third fourth ≡ ok ((a * 4 % 256 + b / 16) ∷ more)
unfolding decode_chunk
decode_chunk-letter last a b third fourth more la lb h =
    rw (digit-letter a la, digit-letter b lb, h)

fourth_padding : (c : ℕ) → (c % 4) ≡ 0 → decode_fourth true c b'=' ≡ ok []
unfolding decode_fourth
fourth_padding c h = rw (h)

third_padding : (b : ℕ) → (b % 16) ≡ 0 → decode_third true b b'=' b'=' ≡ ok []
unfolding decode_third
third_padding b h = rw (h)

encode_three :
    (x y z : ℕ)
    → x < 256
    → y < 256
    → z < 256
    → (x / 4 * 4 % 256 + (x % 4 * 16 + y / 16) / 16 ≡ x)
      × (((x % 4 * 16 + y / 16) * 16 % 256 + (y % 16 * 4 + z / 64) / 4 ≡ y)
          × ((y % 16 * 4 + z / 64) * 64 % 256 + z % 64 ≡ z))
encode_three x y z lx ly lz = (omega arith, (omega arith, omega arith))

pub decode_chunks-encode_base64 :
    (bytes : Bytes) → All IsByte bytes → decode_chunks (encode_base64 bytes) ≡ ok bytes
unfolding decode_chunks encode_base64
decode_chunks-encode_base64 [] h = refl
decode_chunks-encode_base64 (x ∷ []) h =
    let third = third_padding (x % 4 * 16) (omega arith) in
    let chunk =
      decode_chunk-letter true (x / 4) (x % 4 * 16) b'=' b'=' [] (omega (arith, h.0)) (omega arith)
        third in
    rw (chunk) (ap (λ b. ok (b ∷ [])) (omega (arith, h.0)))
decode_chunks-encode_base64 (x ∷ y ∷ []) h =
    let e = encode_three x y 0 h.0 h.1.0 (omega arith) in
    let fourth = fourth_padding (y % 16 * 4) (omega arith) in
    let third =
      decode_third-letter true (x % 4 * 16 + y / 16) (y % 16 * 4) b'=' [] (omega arith) fourth in
    let chunk =
      decode_chunk-letter true (x / 4) (x % 4 * 16 + y / 16) (letter (y % 16 * 4)) b'='
        ((((x % 4 * 16 + y / 16) * 16 % 256) + y % 16 * 4 / 4) ∷ []) (omega (arith, h.0))
        (omega (arith, h.1.0)) third in
    rw (chunk, e.0) (ap (λ q. ok (x ∷ q ∷ [])) (omega (arith, e.1.0)))
decode_chunks-encode_base64 (x ∷ y ∷ z ∷ rest) h =
    let last = is_empty (encode_base64 rest) in
    let e = encode_three x y z h.0 h.1.0 h.1.1.0 in
    let b = x % 4 * 16 + y / 16 in
    let c = y % 16 * 4 + z / 64 in
    let d = z % 64 in
    let fourth = decode_fourth-letter last c d (omega arith) in
    let third =
      decode_third-letter last b c (letter d) ((c * 64 % 256 + d) ∷ []) (omega (arith, h.1.1.0))
        fourth in
    let chunk =
      decode_chunk-letter last (x / 4) b (letter c) (letter d)
        ((b * 16 % 256 + c / 4) ∷ (c * 64 % 256 + d) ∷ []) (omega (arith, h.0))
        (omega (arith, h.1.0)) third in
    rw (chunk, decode_chunks-encode_base64 rest h.1.1.1, e.0, e.1.0, e.1.1)

pub length-encode_base64 :
    (bytes : Bytes) → length (encode_base64 bytes) ≡ (length bytes + 2) / 3 * 4
unfolding encode_base64
length-encode_base64 [] = refl
length-encode_base64 (x ∷ []) = refl
length-encode_base64 (x ∷ y ∷ []) = refl
length-encode_base64 (x ∷ y ∷ z ∷ rest) = omega (arith, length-encode_base64 rest)
