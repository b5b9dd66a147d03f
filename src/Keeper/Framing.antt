-- ===== src/Keeper/Framing.antt =====
-- `write_frame` and `read_frame` of devpipe/src/keeper.rs: frames on a unix stream, which has bytes
-- and no messages. A stream is the bytes that arrive on it before it ends.
mod Tests
use devpipe.Prelude.{
  ◌/◌, ℕ, zero, suc, ◌+◌, ◌%◌, ◌^◌, ◌<◌, ◌≤◌, ◌≡◌, refl, sym, ap, ◌∙◌, arith, Option, none, some,
  List, [], ◌∷◌, ◌++◌, append_assoc, append-nil, length, length-append, All, ltb, if◌then◌else◌,
  Bool-cases, inl, inr,
}
use devpipe.Prelude.Result.{Result, ok, err}
use devpipe.Proto.{Frame, Error, encode, decode, be_bytes, from_be_bytes}
use devpipe.Proto.Codec.{decode-encode}

abbrev pub ceiling : ℕ
ceiling = 8388608

pub data ReadError : Type 0 where
  not_a_frame : (len : ℕ) → ReadError
  ended_early : ReadError
  undecodable : Error → ReadError

pub write_frame : Frame → List ℕ
write_frame f = be_bytes (length (encode f)) ++ encode f

-- `read_exact`: that many bytes and the rest, or `none` at the end of the stream.
pub read_exact : ℕ → List ℕ → Option (List ℕ × List ℕ)
read_exact zero bytes = some ([], bytes)
read_exact (suc n) [] = none
read_exact (suc n) (b ∷ bytes) = elim (read_exact n bytes) [
  | none ↦ none
  | some (got, rest) ↦ some (b ∷ got, rest)
]

abbrev decoded : List ℕ → Result Error Frame → Result ReadError (Option (Frame × List ℕ))
decoded rest (ok f) = ok (some (f, rest))
decoded rest (err e) = err (undecodable e)

abbrev body : Option (List ℕ × List ℕ) → Result ReadError (Option (Frame × List ℕ))
body none = err ended_early
body (some (payload, rest)) = decoded rest (decode payload)

-- `ok none` is the end of the stream, which may come inside the four bytes of the length.
pub read_frame : List ℕ → Result ReadError (Option (Frame × List ℕ))
unfolding read_exact
read_frame (a ∷ b ∷ c ∷ d ∷ bytes) =
    let len = from_be_bytes a b c d in
    if ltb ceiling len then err (not_a_frame len) else body (read_exact len bytes)
read_frame _ = ok none

pub read_exact-append : (xs rest : List ℕ) → read_exact (length xs) (xs ++ rest) ≡ some (xs, rest)
unfolding read_exact
read_exact-append [] rest = refl
read_exact-append (x ∷ xs) rest = rw (read_exact-append xs rest)

length-encode : (f : Frame) → length (encode f) ≡ 5 + length f.payload
unfolding encode
length-encode f = omega arith

from_be_bytes-be_bytes :
    (n : ℕ)
    → n < 2 ^ 32
    → from_be_bytes ((n / 2 ^ 24) % 256) ((n / 2 ^ 16) % 256) ((n / 2 ^ 8) % 256) (n % 256) ≡ n
from_be_bytes-be_bytes n h = omega arith

-- What the reader does with a length that the writer sent.
read_frame-be_bytes :
    (n : ℕ) (bytes : List ℕ)
    → n < 2 ^ 32
    → read_frame (be_bytes n ++ bytes)
      ≡ (if ltb ceiling n then err (not_a_frame n) else body (read_exact n bytes))
unfolding read_frame
read_frame-be_bytes n bytes h =
    ap (λ (len : ℕ). if ltb ceiling len then err (not_a_frame len) else body (read_exact len bytes))
      (from_be_bytes-be_bytes n h)

-- A frame whose encoding is within the ceiling is read back, and the stream goes on behind it.
pub read_frame-write_frame :
    (f : Frame) (rest : List ℕ)
    → f.channel < 2 ^ 32
    → 5 + length f.payload ≤ ceiling
    → read_frame (write_frame f ++ rest) ≡ ok (some (f, rest))
unfolding write_frame
read_frame-write_frame f rest channel fits =
    read_frame-be_bytes (length (encode f)) (encode f ++ rest) (omega (arith, length-encode f))
    ∙ rw (read_exact-append (encode f) rest, decode-encode f channel)
        (ground (arith, length-encode f))

-- The writer has no such ceiling: a longer frame (below the 2 ^ 32 bytes that its length field can
-- say) is sent whole, and ends the conversation at the reader.
pub read_frame-too_long :
    (f : Frame) (rest : List ℕ)
    → ceiling < 5 + length f.payload
    → 5 + length f.payload < 2 ^ 32
    → read_frame (write_frame f ++ rest) ≡ err (not_a_frame (5 + length f.payload))
unfolding write_frame
read_frame-too_long f rest long fits =
    read_frame-be_bytes (length (encode f)) (encode f ++ rest) (omega (arith, length-encode f))
    ∙ ground (arith, length-encode f)

-- `while let Ok(Some(frame)) = read_frame(…)`: the frames up to the end or the first error.
pub read_frames : ℕ → List ℕ → List Frame
read_frames zero bytes = []
read_frames (suc fuel) bytes = elim (read_frame bytes) [
  | err e ↦ []
  | ok none ↦ []
  | ok (some (f, rest)) ↦ f ∷ read_frames fuel rest
]

pub write_frames : List Frame → List ℕ
write_frames [] = []
write_frames (f ∷ fs) = write_frame f ++ write_frames fs

abbrev pub Fits : Frame → Type 0
Fits f = (f.channel < 2 ^ 32) × (5 + length f.payload ≤ ceiling)

read_frames-cons :
    (fuel : ℕ) (f : Frame) (bytes rest : List ℕ)
    → read_frame bytes ≡ ok (some (f, rest))
    → read_frames (suc fuel) bytes ≡ f ∷ read_frames fuel rest
unfolding read_frames
read_frames-cons fuel f bytes rest e = rw (e, read_frames)

-- Frames that fit, written one after another, are read as they were written, in their order, and
-- with nothing after them; one round for each frame and one for the end are enough.
pub read_frames-write_frames :
    (fs : List Frame) (fuel : ℕ)
    → All Fits fs
    → length fs < fuel
    → read_frames fuel (write_frames fs) ≡ fs
unfolding write_frames
read_frames-write_frames fs zero h n = elim n [ ]
read_frames-write_frames [] (suc fuel) h n = unfold read_frames read_frame in refl
read_frames-write_frames (f ∷ fs) (suc fuel) h n =
    read_frames-cons fuel f (write_frame f ++ write_frames fs) (write_frames fs)
      (read_frame-write_frame f (write_frames fs) h.0.0 h.0.1)
    ∙ ap (◌∷◌ f) (read_frames-write_frames fs fuel h.1 (omega arith))
