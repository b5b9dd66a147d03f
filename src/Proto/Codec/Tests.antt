-- ===== src/Proto/Codec/Tests.antt =====
-- The tests of devpipe/src/proto.rs as evaluations, and the theorems at concrete inputs.
use devpipe.Prelude.{List, ℕ, ◌≡◌, refl, [], ◌∷◌}
use devpipe.Prelude.Result.{err}
use devpipe.Prelude.Text.{codes}
use devpipe.Proto.{Frame, shorter_than_header, data_frame, encode, decode}

abbrev hello_frame : Frame
hello_frame = data_frame 7 (codes "hello")

truncated : decode (0 ∷ 0 ∷ 0 ∷ []) ≡ err shorter_than_header
unfolding decode
truncated = refl

on_the_wire : encode hello_frame ≡ 0 ∷ 0 ∷ 0 ∷ 7 ∷ 0 ∷ codes "hello"
unfolding encode
on_the_wire = refl

abbrev unknown_op : List ℕ
unknown_op = 0 ∷ 0 ∷ 0 ∷ 3 ∷ 9 ∷ []
