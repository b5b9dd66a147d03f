-- ===== src/SessionCheck/Answer/Bounds.antt =====
-- How much of an answer is read.
use devpipe.SessionCheck.Answer.{gather, ceiling, unless_whole, is_whole, headers_end, Error}
use devpipe.Prelude.{
  arith, append_assoc, refl, ◌++◌, ◌∷◌, [], List, some, none, Option, false, true, Bool, inr, inl,
  subst, ◌≡◌, ◌≤◌, ℕ, length, Bool-cases, ltb,
}
use devpipe.Prelude.Result.{err, ok, Result}

-- What arrives before a read fails.
abbrev pub stream : List (Option (List ℕ)) → List ℕ
stream [] = []
stream (none ∷ reads) = []
stream (some chunk ∷ reads) = chunk ++ stream reads

-- No more than the ceiling, and the beginning of the stream.
abbrev pub IsRead : List ℕ → List ℕ → Type 0
IsRead whole got = (length got ≤ ceiling) × ((rest : List ℕ) × (whole ≡ got ++ rest))

unless_whole-IsRead :
    (whole said got : List ℕ) (w : Result Error Bool) (more : Result Error (List ℕ))
    → IsRead whole said
    → (more ≡ ok got → IsRead whole got)
    → unless_whole said w more ≡ ok got
    → IsRead whole got
unless_whole-IsRead whole said got (err e) more here next h = cc
unless_whole-IsRead whole said got (ok true) more here next h =
    let same : said ≡ got = cc h in subst (IsRead whole) same here
unless_whole-IsRead whole said got (ok false) more here next h = next h

-- What is taken for the app's answer is the beginning of what it sent, and at most 64 KiB, however the
-- reads cut it and wherever it is found to be whole.
pub gather-IsRead :
    (said : List ℕ) (ends : Option ℕ) (reads : List (Option (List ℕ))) (got : List ℕ)
    → length said ≤ ceiling
    → gather said ends reads ≡ ok got
    → IsRead (said ++ stream reads) got
unfolding gather
gather-IsRead said ends [] got small h =
    let same : said ≡ got = cc h in rw⁻¹ same (small, ([], refl))
gather-IsRead said ends (none ∷ reads) got small h = cc
gather-IsRead said ends (some [] ∷ reads) got small h =
    let same : said ≡ got = cc h in rw⁻¹ same (small, (stream reads, refl))
gather-IsRead said ends (some (b ∷ chunk) ∷ reads) got small h =
    let now = said ++ b ∷ chunk in
    let known = headers_end now ends in
    elim (Bool-cases (ltb ceiling (length now))) [
      | inl much ↦ absurd (cc (rw much at h))
      | inr fits ↦
          let within : length now ≤ ceiling = ground (arith, fits) in
          rw⁻¹ (append_assoc said (b ∷ chunk) (stream reads)) (
            unless_whole-IsRead (now ++ stream reads) now got (is_whole now known)
              (gather now known reads) (within, (stream reads, refl))
              (gather-IsRead now known reads got within) (rw fits at h))
    ]
