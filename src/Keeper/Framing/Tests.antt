-- ===== src/Keeper/Framing/Tests.antt =====
-- Framing at concrete inputs.
use devpipe.Prelude.{◌++◌, List, ap, refl, ◌+◌, suc, zero, ℕ, length, ◌≡◌, [], ◌∷◌, arith}
use devpipe.Prelude.Text.{codes}
use devpipe.Proto.{Frame, data_frame, close_frame}
use devpipe.Keeper.Framing.{
  read_frame-too_long, not_a_frame, write_frame, read_frame, read_frames, write_frames,
  read_frames-write_frames,
}
use devpipe.Prelude.Result.{err}

abbrev typed : Frame
typed = data_frame 0 (codes "ls")

read_frames-write_frames_example :
    read_frames 3 (write_frames (typed ∷ close_frame 0 ∷ [])) ≡ typed ∷ close_frame 0 ∷ []
read_frames-write_frames_example =
    read_frames-write_frames (typed ∷ close_frame 0 ∷ []) 3 (omega arith) (omega arith)

filler : ℕ → List ℕ
filler zero = []
filler (suc n) = 0 ∷ filler n

length-filler : (n : ℕ) → length (filler n) ≡ n
unfolding filler
length-filler zero = refl
length-filler (suc n) = ap suc (length-filler n)

read_frame-too_long_example :
    read_frame (write_frame (data_frame 0 (filler 9000000)) ++ [])
    ≡ err (not_a_frame (5 + length (filler 9000000)))
read_frame-too_long_example =
    read_frame-too_long (data_frame 0 (filler 9000000)) [] (omega (arith, length-filler 9000000))
      (omega (arith, length-filler 9000000))
