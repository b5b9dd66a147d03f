-- ===== src/Proto/Codec.antt =====
-- `Frame::encode` and `Frame::decode` are inverse to one another.
mod Tests
use devpipe.Prelude.{
  ℕ, zero, suc, ◌^◌, ◌<◌, ◌≡◌, ◌⊎◌, inl, inr, refl, List, [], ◌∷◌, some, arith, length, All,
  get_elem?,
}
use devpipe.Prelude.Result.{Result, ok, err}
use devpipe.Proto.{
  Op, data_op, event, close_op, Error, shorter_than_header, unknown_opcode, Frame, encode, decode,
  header,
}

-- A frame with a 32-bit channel survives the wire, whatever its payload holds.
pub decode-encode : (f : Frame) → f.channel < 2 ^ 32 → decode (encode f) ≡ ok f
unfolding encode decode
decode-encode f h = by_op f.channel f.op f.payload h
  where
    by_op :
        (c : ℕ) (o : Op) (p : List ℕ)
        → c < 2 ^ 32
        → decode (encode (record { channel = c; op = o; payload = p }))
          ≡ ok (record { channel = c; op = o; payload = p })
    by_op c data_op p h = ground arith
    by_op c event p h = ground arith
    by_op c close_op p h = ground arith

-- What decodes came from exactly the frame it decodes to: no two messages decode alike.
pub encode-decode :
    (bytes : List ℕ) (f : Frame) → All (λ b. b < 256) bytes → decode bytes ≡ ok f → encode f ≡ bytes
unfolding encode decode
encode-decode (a ∷ b ∷ c ∷ d ∷ o ∷ p) f h e = by_op o h e
  where
    by_op :
        (o : ℕ)
        → All (λ b. b < 256) (a ∷ b ∷ c ∷ d ∷ o ∷ p)
        → decode (a ∷ b ∷ c ∷ d ∷ o ∷ p) ≡ ok f
        → encode f ≡ a ∷ b ∷ c ∷ d ∷ o ∷ p
    by_op zero h e = ground arith
    by_op (suc zero) h e = ground arith
    by_op (suc (suc zero)) h e = ground arith
    by_op (suc (suc (suc o))) h e = cc
encode-decode [] f h e = cc
encode-decode (a ∷ []) f h e = cc
encode-decode (a ∷ b ∷ []) f h e = cc
encode-decode (a ∷ b ∷ c ∷ []) f h e = cc
encode-decode (a ∷ b ∷ c ∷ d ∷ []) f h e = cc

-- A message is refused for one of two reasons: it is shorter than a header, or the byte behind the
-- channel is none of the three opcodes.
pub decode-eq-err :
    (bytes : List ℕ) (e : Error)
    → decode bytes ≡ err e
    → ((e ≡ shorter_than_header) × (length bytes < header))
      ⊎ ((o : ℕ) × (e ≡ unknown_opcode o) × (2 < o) × (get_elem? bytes 4 ≡ some o))
unfolding decode
decode-eq-err (a ∷ b ∷ c ∷ d ∷ o ∷ p) e h = by_op o h
  where
    by_op :
        (o : ℕ)
        → decode (a ∷ b ∷ c ∷ d ∷ o ∷ p) ≡ err e
        → ((e ≡ shorter_than_header) × (length (a ∷ b ∷ c ∷ d ∷ o ∷ p) < header))
          ⊎ ((k : ℕ) × (e ≡ unknown_opcode k)
              × (2 < k)
              × (get_elem? (a ∷ b ∷ c ∷ d ∷ o ∷ p) 4 ≡ some k))
    by_op zero h = cc
    by_op (suc zero) h = cc
    by_op (suc (suc zero)) h = cc
    by_op (suc (suc (suc o))) h = inr (suc (suc (suc o)), ground arith, omega arith, refl)
decode-eq-err [] e h = inl (ground arith, omega arith)
decode-eq-err (a ∷ []) e h = inl (ground arith, omega arith)
decode-eq-err (a ∷ b ∷ []) e h = inl (ground arith, omega arith)
decode-eq-err (a ∷ b ∷ c ∷ []) e h = inl (ground arith, omega arith)
decode-eq-err (a ∷ b ∷ c ∷ d ∷ []) e h = inl (ground arith, omega arith)
