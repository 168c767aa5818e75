-- ===== src/RunnerClient/Base64/Groups.antt =====
-- What is decoded has the text as its encoding, group by group.
use policy_witness.Base.{
  ℕ, ◌+◌, ◌*◌, ◌/◌, ◌%◌, ◌<◌, Bool, true, ◌&&◌, [], ◌∷◌, ◌++◌, ◌==◌, ==_true, and_true, if_rule,
  length, is_empty, Bytes, All, All-append, codes, Result, ok, ◌>>=◌, went_on, ok_injective, ◌≡◌,
  refl, sym, subst, ap, ◌∙◌, ◌⊎◌, inl, inr, arith, Option-cases, append-nil,
}
use policy_witness.RunnerClient.{required}
use policy_witness.RunnerClient.Base64.{
  digit, digit_or_refuse, decode_fourth, decode_third, decode_chunk, decode_chunks, letter,
  encode_base64,
}
use policy_witness.RunnerClient.Base64.Digits.{letter-digit}
use policy_witness.RunnerClient.Base64.Encoded.{IsByte}

-- What an accepted fourth byte stands for.
abbrev Fourth : Bool → ℕ → ℕ → Bytes → Type 0
Fourth last c fourth out =
    ((last ≡ true) × ((fourth ≡ b'=') × ((c % 4 ≡ 0) × (out ≡ []))))
    ⊎ ((d : ℕ) × ((d < 64) × ((letter d ≡ fourth) × (out ≡ (c * 64 % 256 + d) ∷ []))))

read_digit :
    (byte : ℕ) (out : Bytes) (next : ℕ → Result Bytes)
    → (digit_or_refuse (digit byte) >>= next) ≡ ok out
    → (n : ℕ) × ((n < 64) × ((letter n ≡ byte) × (next n ≡ ok out)))
read_digit byte out next h = elim (Option-cases (digit byte)) [
  | inl e ↦ absurd (let k = subst (λ o. (digit_or_refuse o >>= next) ≡ ok out) e h in cc)
  | inr (n, e) ↦
      let l = letter-digit byte n e in
      (n, (l.1, (l.0, subst (λ o. (digit_or_refuse o >>= next) ≡ ok out) e h)))
]

decode_fourth-Fourth :
    (last : Bool) (c fourth : ℕ) (out : Bytes)
    → decode_fourth last c fourth ≡ ok out
    → Fourth last c fourth out
unfolding decode_fourth
decode_fourth-Fourth last c fourth out =
    if_rule (λ (r : Result Bytes). r ≡ ok out → Fourth last c fourth out) (fourth == b'=') _ _
      (λ t h.
        let p = required (last && c % 4 == 0) (codes "invalid reply base64 padding") (ok []) h in
        let q = and_true last (c % 4 == 0) p.0 in
        inl (q.0, (==_true fourth b'=' t, (==_true (c % 4) 0 q.1, sym (ok_injective p.1)))))
      (λ f h.
        let p = read_digit fourth out (λ d. ok ((c * 64 % 256 + d) ∷ [])) h in
        inr (p.0, (p.1.0, (p.1.1.0, sym (ok_injective p.1.1.1)))))

-- What an accepted third and fourth byte stand for.
abbrev Third : Bool → ℕ → ℕ → ℕ → Bytes → Type 0
Third last b third fourth out =
    ((last ≡ true) × ((third ≡ b'=') × ((fourth ≡ b'=') × ((b % 16 ≡ 0) × (out ≡ [])))))
    ⊎ ((c : ℕ) × (more : Bytes) × ((c < 64)
          × ((letter c ≡ third)
              × (Fourth last c fourth more × (out ≡ (b * 16 % 256 + c / 4) ∷ more)))))

decode_third-Third :
    (last : Bool) (b third fourth : ℕ) (out : Bytes)
    → decode_third last b third fourth ≡ ok out
    → Third last b third fourth out
unfolding decode_third
decode_third-Third last b third fourth out =
    if_rule (λ (r : Result Bytes). r ≡ ok out → Third last b third fourth out) (third == b'=') _ _
      (λ t h.
        let p =
          required (last && (fourth == b'=' && b % 16 == 0)) (codes "invalid reply base64 padding")
            (ok []) h in
        let q = and_true last (fourth == b'=' && b % 16 == 0) p.0 in
        let r = and_true (fourth == b'=') (b % 16 == 0) q.1 in
        inl (
          q.0,
          (
            ==_true third b'=' t,
            (==_true fourth b'=' r.0, (==_true (b % 16) 0 r.1, sym (ok_injective p.1))),
          ),
        ))
      (λ f h.
        let next = λ (c : ℕ). λ (more : Bytes). ok ((b * 16 % 256 + c / 4) ∷ more) in
        let p = read_digit third out (λ c. decode_fourth last c fourth >>= next c) h in
        let q = went_on (decode_fourth last p.0 fourth) (next p.0) p.1.1.1 in
        inr (
          p.0,
          q.0,
          (
            p.1.0,
            (p.1.1.0, (decode_fourth-Fourth last p.0 fourth q.0 q.1, sym (ok_injective q.2))),
          ),
        ))

-- Four bytes of a text that a group of bytes is encoded as; it has three but at the end.
abbrev Group : Bool → Bytes → Bytes → Type 0
Group last four out =
    All IsByte out × ((encode_base64 out ≡ four) × ((last ≡ true) ⊎ (length out ≡ 3)))

Fourth-Group :
    (last : Bool) (a b c fourth : ℕ) (more : Bytes)
    → a < 64
    → b < 64
    → c < 64
    → Fourth last c fourth more
    → Group last
        (letter a ∷ letter b ∷ letter c ∷ fourth ∷ [])
        ((a * 4 % 256 + b / 16) ∷ (b * 16 % 256 + c / 4) ∷ more)
unfolding encode_base64
Fourth-Group last a b c fourth more la lb lc (inl (t, (e, (m, o)))) =
    let first : (a * 4 % 256 + b / 16) / 4 ≡ a = omega (arith, la, lb) in
    let second : (a * 4 % 256 + b / 16) % 4 * 16 + (b * 16 % 256 + c / 4) / 16 ≡ b =
      omega (arith, la, lb, lc) in
    let third : (b * 16 % 256 + c / 4) % 16 * 4 ≡ c = omega (arith, lb, lc, m) in
    rw (o, e)
      ((omega (arith, la, lb), (omega (arith, lb, lc), tt)), (rw (first, second, third), inl t))
Fourth-Group last a b c fourth more la lb lc (inr (d, (ld, (e, o)))) =
    let first : (a * 4 % 256 + b / 16) / 4 ≡ a = omega (arith, la, lb) in
    let second : (a * 4 % 256 + b / 16) % 4 * 16 + (b * 16 % 256 + c / 4) / 16 ≡ b =
      omega (arith, la, lb, lc) in
    let third : (b * 16 % 256 + c / 4) % 16 * 4 + (c * 64 % 256 + d) / 64 ≡ c =
      omega (arith, lb, lc, ld) in
    let last_digit : (c * 64 % 256 + d) % 64 ≡ d = omega (arith, lc, ld) in
    rw (o, sym e)
      (
        (omega (arith, la, lb), (omega (arith, lb, lc), (omega (arith, lc, ld), tt))),
        (rw (first, second, third, last_digit), inr refl),
      )

Third-Group :
    (last : Bool) (a b third fourth : ℕ) (more : Bytes)
    → a < 64
    → b < 64
    → Third last b third fourth more
    → Group last (letter a ∷ letter b ∷ third ∷ fourth ∷ []) ((a * 4 % 256 + b / 16) ∷ more)
unfolding encode_base64
Third-Group last a b third fourth more la lb (inl (t, (e, (f, (m, o))))) =
    let first : (a * 4 % 256 + b / 16) / 4 ≡ a = omega (arith, la, lb) in
    let second : (a * 4 % 256 + b / 16) % 4 * 16 ≡ b = omega (arith, la, lb, m) in
    rw (o, e, f) ((omega (arith, la, lb), tt), (rw (first, second), inl t))
Third-Group last a b third fourth more la lb (inr (c, rest, (lc, (e, (f, o))))) =
    rw (o, sym e) (Fourth-Group last a b c fourth rest la lb lc f)

read-Group :
    (last : Bool) (a b w x third fourth : ℕ) (more out : Bytes)
    → (a < 64) × (letter a ≡ w)
    → (b < 64) × (letter b ≡ x)
    → Third last b third fourth more
    → (a * 4 % 256 + b / 16) ∷ more ≡ out
    → Group last (w ∷ x ∷ third ∷ fourth ∷ []) out
read-Group last a b w x third fourth more out ha hb t e =
    rw (sym e, sym ha.1, sym hb.1) (Third-Group last a b third fourth more ha.0 hb.0 t)

decode_chunk-Group :
    (last : Bool) (w x y z : ℕ) (out : Bytes)
    → decode_chunk last w x y z ≡ ok out
    → Group last (w ∷ x ∷ y ∷ z ∷ []) out
unfolding decode_chunk
decode_chunk-Group last w x y z out h =
    let next = λ (a b : ℕ). λ (more : Bytes). ok ((a * 4 % 256 + b / 16) ∷ more) in
    let second =
      λ (a : ℕ). digit_or_refuse (digit x) >>= λ b. decode_third last b y z >>= next a b in
    let p = read_digit w out second h in
    let q = read_digit x out (λ b. decode_third last b y z >>= next p.0 b) p.1.1.1 in
    let r = went_on (decode_third last q.0 y z) (next p.0 q.0) q.1.1.1 in
    read-Group last p.0 q.0 w x y z r.0 out (p.1.0, p.1.1.0) (q.1.0, q.1.1.0)
      (decode_third-Third last q.0 y z r.0 r.1) (ok_injective r.2)

encode_base64-append :
    (three later : Bytes)
    → length three ≡ 3
    → encode_base64 (three ++ later) ≡ encode_base64 three ++ encode_base64 later
unfolding encode_base64
encode_base64-append (x ∷ y ∷ z ∷ []) later h = refl
encode_base64-append (x ∷ y ∷ z ∷ w ∷ more) later h = absurd (omega (arith, h))
encode_base64-append [] later h = absurd (omega (arith, h))
encode_base64-append (x ∷ []) later h = absurd (omega (arith, h))
encode_base64-append (x ∷ y ∷ []) later h = absurd (omega (arith, h))

Group-append :
    (rest four out later : Bytes)
    → Group (is_empty rest) four out
    → All IsByte later × (encode_base64 later ≡ rest)
    → decode_chunks rest ≡ ok later
    → All IsByte (out ++ later) × (encode_base64 (out ++ later) ≡ four ++ rest)
unfolding decode_chunks encode_base64
Group-append rest four out later (bytes, (e, inr three)) (bs, f) h = (
  All-append IsByte out later bytes bs,
  encode_base64-append out later three
      ∙ ap (λ b. b ++ encode_base64 later) e
      ∙ ap (λ b. four ++ b) f,
)
Group-append (x ∷ rest) four out later (bytes, (e, inl last)) (bs, f) h = absurd cc
Group-append [] four out later (bytes, (e, inl last)) (bs, f) h =
    let none_left : later ≡ [] = sym (ok_injective h) in
    rw (none_left, append-nil out, append-nil four) (bytes, e)

pub decode_chunks-encoded :
    (text out : Bytes)
    → (length text % 4) ≡ 0
    → decode_chunks text ≡ ok out
    → All IsByte out × (encode_base64 out ≡ text)
unfolding decode_chunks encode_base64
decode_chunks-encoded [] out l h = rw (sym (ok_injective h)) (tt, refl)
decode_chunks-encoded (w ∷ []) out l h = absurd (omega (arith, l))
decode_chunks-encoded (w ∷ x ∷ []) out l h = absurd (omega (arith, l))
decode_chunks-encoded (w ∷ x ∷ y ∷ []) out l h = absurd (omega (arith, l))
decode_chunks-encoded (w ∷ x ∷ y ∷ z ∷ rest) out l h =
    let next = λ (output later : Bytes). ok (output ++ later) in
    let p =
      went_on (decode_chunk (is_empty rest) w x y z) (λ output. decode_chunks rest >>= next output)
        h in
    let q = went_on (decode_chunks rest) (next p.0) p.2 in
    let ih = decode_chunks-encoded rest q.0 (omega (arith, l)) q.1 in
    rw (sym (ok_injective q.2)) (
      Group-append rest (w ∷ x ∷ y ∷ z ∷ []) p.0 q.0
        (decode_chunk-Group (is_empty rest) w x y z p.0 p.1) ih q.1)
