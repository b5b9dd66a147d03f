-- ===== src/Attach/Keyboard.antt =====
-- What reaches the session of what is typed.
use devpipe.Attach.{typed_chunk, Input, typed, detach, read_stdin, detach_byte}
use devpipe.Prelude.{
  false, true, Bool, append-nil, ◌++◌, ◌∷◌, [], List, some, none, Option, ◌∙◌, ap, sym, refl, ◌≡◌,
  ℕ, if◌then◌else◌, ◌==◌,
}
use devpipe.Prelude.Text.{prepend_left, split_once}

-- What stands before the first detach.
abbrev pub before_detach : List ℕ → List ℕ
before_detach [] = []
before_detach (b ∷ bytes) = if b == detach_byte then [] else b ∷ before_detach bytes

abbrev pub typed_bytes : List Input → List ℕ
typed_bytes [] = []
typed_bytes (typed bytes ∷ more) = bytes ++ typed_bytes more
typed_bytes (detach ∷ more) = typed_bytes more

-- The keyboard up to its end.
abbrev pub keys : List (List ℕ) → List ℕ
keys [] = []
keys ([] ∷ chunks) = []
keys ((b ∷ chunk) ∷ chunks) = (b ∷ chunk) ++ keys chunks

Agrees : Option (List ℕ × List ℕ) → List ℕ → List ℕ → Type 0
Agrees none chunk later = before_detach (chunk ++ later) ≡ chunk ++ before_detach later
Agrees (some (before, _)) chunk later = before_detach (chunk ++ later) ≡ before

split_once-Agrees : (chunk later : List ℕ) → Agrees (split_once detach_byte chunk) chunk later
unfolding Agrees
split_once-Agrees [] later = refl
split_once-Agrees (b ∷ chunk) later =
    go (b == detach_byte) refl (split_once detach_byte chunk) (split_once-Agrees chunk later)
  where
    go :
        (test : Bool)
        → (b == detach_byte) ≡ test
        → (o : Option (List ℕ × List ℕ)) → Agrees o chunk later
        → Agrees (if test then some ([], chunk) else prepend_left b o) (b ∷ chunk) later
    go true e o a = rw e refl
    go false e none a = rw e (ap (◌∷◌ b) a)
    go false e (some (before, after)) a = rw e (ap (◌∷◌ b) a)

typed_chunk-bytes :
    (chunk : List ℕ) (o : Option (List ℕ × List ℕ)) (more : List Input) (later : List ℕ)
    → Agrees o chunk later
    → typed_bytes more ≡ before_detach later
    → typed_bytes (typed_chunk chunk o more) ≡ before_detach (chunk ++ later)
unfolding Agrees
typed_chunk-bytes chunk none more later a h = ap (λ r. chunk ++ r) h ∙ sym a
typed_chunk-bytes chunk (some ([], after)) more later a h = sym a
typed_chunk-bytes chunk (some (b ∷ before, after)) more later a h = append-nil (b ∷ before) ∙ sym a

-- Every byte that is typed before the first detach is sent to the session, in order, and none behind
-- it, wherever the reads of the keyboard end.
pub read_stdin-before_detach :
    (chunks : List (List ℕ)) → typed_bytes (read_stdin chunks) ≡ before_detach (keys chunks)
unfolding read_stdin
read_stdin-before_detach [] = refl
read_stdin-before_detach ([] ∷ chunks) = refl
read_stdin-before_detach ((b ∷ chunk) ∷ chunks) =
    typed_chunk-bytes (b ∷ chunk) (split_once detach_byte (b ∷ chunk)) (read_stdin chunks)
      (keys chunks) (split_once-Agrees (b ∷ chunk) (keys chunks)) (read_stdin-before_detach chunks)
