-- ===== src/Attach/Tests.antt =====
-- Two reads of a keyboard, with ctrl-] in the second.
use devpipe.Attach.Keyboard.{read_stdin-before_detach, typed_bytes}
use devpipe.Prelude.{◌++◌, ◌∷◌, [], ◌≡◌}
use devpipe.Attach.{read_stdin}
use devpipe.Prelude.Text.{codes}

read_stdin-before_detach_example :
    typed_bytes (read_stdin (codes "ls" ∷ (codes "x" ++ 29 ∷ codes "y") ∷ codes "z" ∷ []))
    ≡ codes "lsx"
read_stdin-before_detach_example =
    read_stdin-before_detach (codes "ls" ∷ (codes "x" ++ 29 ∷ codes "y") ∷ codes "z" ∷ [])
