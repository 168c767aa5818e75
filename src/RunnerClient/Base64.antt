-- ===== src/RunnerClient/Base64.antt =====
-- The strict base64 of a reply in controller/src/runner_client.rs: `decode_base64`, and the
-- `encode_base64` beside it. A byte's shifts are products and quotients, modulo 256 where a bit
-- would leave the byte; the two sides of each `|` have no bit in common.
mod Digits
pub mod Encoded
mod Groups
pub mod RoundTrip
use policy_witness.Base.{
  ℕ, ◌+◌, ◌-◌, ◌*◌, ◌/◌, ◌%◌, Bool, true, false, ◌&&◌, Option, none, some, List, [], ◌∷◌, ◌++◌,
  ◌==◌, if◌then◌else◌, leb, length, is_empty, unwrap_or, Bytes, codes, Result, ok, err, ◌>>=◌,
}
use policy_witness.RunnerClient.{reply_capture_bytes, require}

unfoldable pub digit : ℕ → Option ℕ
digit byte =
    if leb b'A' byte && leb byte b'Z'
    then some (byte - b'A')
    else if leb b'a' byte && leb byte b'z'
    then some (byte - b'a' + 26)
    else if leb b'0' byte && leb byte b'9'
    then some (byte - b'0' + 52)
    else if byte == b'+'
    then some 62
    else if byte == b'/'
    then some 63
    else none

abbrev pub digit_or_refuse : Option ℕ → Result ℕ
digit_or_refuse (some n) = ok n
digit_or_refuse none = err (codes "invalid reply base64 alphabet")

-- The third digit, and what the fourth byte says.
unfoldable pub decode_fourth : Bool → ℕ → ℕ → Result Bytes
unfolding digit
decode_fourth last c fourth =
    if fourth == b'='
    then (do valid ← require (last && c % 4 == 0) (codes "invalid reply base64 padding"); ok [])
    else (do d ← digit_or_refuse (digit fourth); ok ((c * 64 % 256 + d) ∷ []))

-- What follows the first byte of a group: the second digit, the third and the fourth byte.
unfoldable pub decode_third : Bool → ℕ → ℕ → ℕ → Result Bytes
unfolding digit decode_fourth
decode_third last b third fourth =
    if third == b'='
    then (do
      valid ←
          require (last && (fourth == b'=' && b % 16 == 0)) (codes "invalid reply base64 padding")
      ok [])
    else (do
      c ← digit_or_refuse (digit third)
      more ← decode_fourth last c fourth
      ok ((b * 16 % 256 + c / 4) ∷ more))

unfoldable pub decode_chunk : Bool → ℕ → ℕ → ℕ → ℕ → Result Bytes
unfolding digit decode_third
decode_chunk last first second third fourth = do
  a ← digit_or_refuse (digit first)
  b ← digit_or_refuse (digit second)
  more ← decode_third last b third fourth
  ok ((a * 4 % 256 + b / 16) ∷ more)

-- `chunks_exact(4)`. The text is whole chunks, so a chunk is the last one when nothing follows it.
unfoldable pub decode_chunks : Bytes → Result Bytes
unfolding decode_chunk
decode_chunks (first ∷ second ∷ third ∷ fourth ∷ rest) = do
  output ← decode_chunk (is_empty rest) first second third fourth
  later ← decode_chunks rest
  ok (output ++ later)
decode_chunks _ = ok []

abbrev pub is_base64_length : ℕ → Bool
is_base64_length n = n % 4 == 0 && leb n ((reply_capture_bytes + 2) / 3 * 4)

unfoldable pub decode_base64 : Bytes → Result Bytes
unfolding decode_chunks
decode_base64 text = do
  whole ← require (is_base64_length (length text)) (codes "invalid or oversized reply base64")
  output ← decode_chunks text
  bounded ←
      require (leb (length output) reply_capture_bytes)
        (codes "decoded reply exceeds retention limit")
  ok output

abbrev pub alphabet : Bytes
alphabet = codes "ABCDEFGHIJKLMNOPQRSTUVWXYZabcdefghijklmnopqrstuvwxyz0123456789+/"

unfoldable pub item_at : Bytes → ℕ → ℕ
item_at [] n = 0
item_at (x ∷ xs) n = let rest = item_at xs (n - 1) in if n == 0 then x else rest

-- `alphabet[n]`: no index of the encoder is past the end.
unfoldable pub letter : ℕ → ℕ
unfolding item_at
letter n = item_at alphabet n

unfoldable pub encode_base64 : Bytes → Bytes
unfolding letter
encode_base64 [] = []
encode_base64 (x ∷ []) = letter (x / 4) ∷ letter (x % 4 * 16) ∷ b'=' ∷ b'=' ∷ []
encode_base64 (x ∷ y ∷ []) =
    letter (x / 4) ∷ letter (x % 4 * 16 + y / 16) ∷ letter (y % 16 * 4) ∷ b'=' ∷ []
encode_base64 (x ∷ y ∷ z ∷ rest) =
    letter (x / 4)
    ∷ letter (x % 4 * 16 + y / 16)
    ∷ letter (y % 16 * 4 + z / 64)
    ∷ letter (z % 64)
    ∷ encode_base64 rest
