-- ===== src/RunnerClient/Base64/RoundTrip.antt =====
-- Decoding undoes encoding, and accepts nothing but encodings.
use policy_witness.Base.{
  ℕ, ◌+◌, ◌*◌, ◌/◌, ◌%◌, ◌≤◌, true, ◌==◌, ==_iff, ==_true, and_true, leb, length, Bytes, All, codes,
  ok, ◌>>=◌, went_on, ok_injective, ◌≡◌, subst, ◌↔◌, arith, le_of_leb, leb_of,
}
use policy_witness.RunnerClient.{reply_capture_bytes, require, required}
use policy_witness.RunnerClient.Base64.{
  decode_chunks, is_base64_length, decode_base64, encode_base64,
}
use policy_witness.RunnerClient.Base64.Encoded.{
  IsByte, decode_chunks-encode_base64, length-encode_base64,
}
use policy_witness.RunnerClient.Base64.Groups.{decode_chunks-encoded}

is_base64_length-encoded :
    (n bytes : ℕ)
    → n ≡ (bytes + 2) / 3 * 4
    → bytes ≤ reply_capture_bytes
    → is_base64_length n ≡ true
is_base64_length-encoded n bytes e l =
    let whole : (n % 4 == 0) ≡ true = (==_iff (n % 4) 0).1 (omega (arith, e)) in
    let bound = leb_of n ((reply_capture_bytes + 2) / 3 * 4) (omega (arith, e, l)) in
    rw (whole, bound)

-- The texts that are decoded are the encodings of at most 92 MiB: a text gives those bytes exactly
-- when it is what they are encoded as. No other spelling of them is taken.
pub decode_base64-encode_base64 :
    (text bytes : Bytes)
    → (decode_base64 text ≡ ok bytes)
      ↔ (All IsByte bytes × ((length bytes ≤ reply_capture_bytes) × (encode_base64 bytes ≡ text)))
unfolding decode_base64
decode_base64-encode_base64 text bytes =
    (read, λ h. subst (λ t. decode_base64 t ≡ ok bytes) h.1.1 (back h.0 h.1.0))
  where
    read :
        decode_base64 text ≡ ok bytes
        → All IsByte bytes × ((length bytes ≤ reply_capture_bytes) × (encode_base64 bytes ≡ text))
    read h =
        let output_of = λ (output : Bytes).
          require (leb (length output) reply_capture_bytes)
            (codes "decoded reply exceeds retention limit")
          >>= λ u. ok output in
        let p =
          required (is_base64_length (length text)) (codes "invalid or oversized reply base64")
            (decode_chunks text >>= output_of) h in
        let q = went_on (decode_chunks text) output_of p.1 in
        let r =
          required (leb (length q.0) reply_capture_bytes)
            (codes "decoded reply exceeds retention limit") (ok q.0) q.2 in
        let same = ok_injective r.1 in
        let whole =
          and_true (length text % 4 == 0) (leb (length text) ((reply_capture_bytes + 2) / 3 * 4))
            p.0 in
        let found = decode_chunks-encoded text q.0 (==_true (length text % 4) 0 whole.0) q.1 in
        subst (λ b. All IsByte b × ((length b ≤ reply_capture_bytes) × (encode_base64 b ≡ text)))
          same (found.0, (le_of_leb (length q.0) reply_capture_bytes r.0, found.1))

    back :
        All IsByte bytes
        → length bytes ≤ reply_capture_bytes
        → decode_base64 (encode_base64 bytes) ≡ ok bytes
    back h l =
        let n = length-encode_base64 bytes in
        let whole = is_base64_length-encoded (length (encode_base64 bytes)) (length bytes) n l in
        let bounded = leb_of (length bytes) reply_capture_bytes l in
        rw (whole, decode_chunks-encode_base64 bytes h, bounded)
