-- ===== src/Trust/Tokens.antt =====
-- A fence that is persisted by its token is restored as it was.
use local_engineer.Prelude.{
  ℕ, ◌/◌, ◌%◌, ◌≡◌, ◌<◌, refl, List, [], ◌∷◌, some, arith, length, All, ◌∙◌, ap, inl, inr, ◌==◌,
  Option-cases, Bool-cases,
}
use local_engineer.GoStrings.{Text}
use local_engineer.Trust.{
  nonce_bytes, accept_token, Fence, hex_digit, hex_encode, hex_value, hex_decode, new_fence,
  restore_fence,
}

hex_value-hex_digit : (n : ℕ) → n < 16 → hex_value (hex_digit n) ≡ some n
hex_value-hex_digit n h = ground arith

-- Decoding what was encoded gives the bytes back.
pub hex_decode-hex_encode :
    (bs : List ℕ) → All (λ b. b < 256) bs → hex_decode (hex_encode bs) ≡ some bs
unfolding hex_decode hex_encode
hex_decode-hex_encode [] h = refl
hex_decode-hex_encode (b ∷ bs) h =
    rw
      (
        hex_value-hex_digit (b / 16) (omega arith),
        hex_value-hex_digit (b % 16) (omega arith),
        hex_decode-hex_encode bs h.1,
      )
      (ap (λ n. some (n ∷ bs)) (omega arith))

-- A fence made from sixteen random bytes is restored from its token alone, to the same fence.
pub restore_fence-new_fence :
    (bytes : List ℕ) (f : Fence)
    → length bytes ≡ 16
    → All (λ b. b < 256) bytes
    → new_fence (some bytes) ≡ some f
    → restore_fence f.nonce ≡ some f
unfolding restore_fence new_fence
restore_fence-new_fence bytes f n h e =
    let token : f.nonce ≡ hex_encode bytes = ground arith in
    let decoded : hex_decode f.nonce ≡ some bytes =
      ap hex_decode token ∙ hex_decode-hex_encode bytes h in
    ground (arith, decoded)

-- A fence that is restored carries the token that it is restored from.
pub restore_fence-nonce :
    (token : Text) (f : Fence) → restore_fence token ≡ some f → f.nonce ≡ token
unfolding restore_fence accept_token
restore_fence-nonce token f h = elim (Option-cases (hex_decode token)) [
  | inl e ↦ absurd (ground (arith, e))
  | inr (bytes, e) ↦ elim (Bool-cases (length bytes == nonce_bytes)) [
    | inl right ↦ ground (arith, e, right)
    | inr wrong ↦ absurd (ground (arith, e, wrong))
  ]
]
