-- ===== src/Keeper/Run/Grace.antt =====
-- When a keeper leaves, and that it does.
use devpipe.Keeper.Run.{
  waits, expired, noticed, served, accepted, deadline_from, grace, accepts, serves, exits, notices,
  expires, passes, here, next, Step, Reach, Keeper, started,
}
use devpipe.Prelude.{
  ◌∙◌, Bool-cases, ◌==◌, arith, some, none, Option, false, true, Bool, inr, inl, ◌⊎◌, refl, ◌≡◌,
  ◌≤◌, ◌+◌, ℕ,
}

-- Where no deadline is set, the child is there or the loop is yet to be told; a deadline is at least
-- the grace period after the child went.
Waiting : Option ℕ → Bool → Option ℕ → Type 0
Waiting gone changed none = (gone ≡ none) ⊎ (changed ≡ true)
Waiting gone changed (some at) = (t : ℕ) × (gone ≡ some t) × (t + grace ≤ at)

-- The child went by then, if it has gone.
abbrev pub Past : Option ℕ → ℕ → Type 0
Past none now = Unit
Past (some t) now = t ≤ now

-- The child has been gone for the grace period and nobody is connected.
abbrev pub IsOver : Keeper → Type 0
IsOver k = (t : ℕ) × (k.gone_at ≡ some t) × (t + grace ≤ k.now) × (k.live ≡ 0)

Sound : Keeper → Type 0
Sound k =
    Waiting k.gone_at k.changed k.deadline × Past k.gone_at k.now × (k.running ≡ false → IsOver k)

deadline_from-Waiting :
    (now : ℕ) (gone : Option ℕ) (changed : Bool)
    → Past gone now
    → Waiting gone changed (deadline_from now gone)
unfolding Waiting
deadline_from-Waiting now none changed p = inl refl
deadline_from-Waiting now (some t) changed p = (t, refl, omega arith)

started-Sound : (now : ℕ) (gone : Option ℕ) → Past gone now → Sound (started now gone)
unfolding Sound started
started-Sound now gone p = (deadline_from-Waiting now gone false p, p, λ e. cc)

Waiting-some :
    (gone : Option ℕ) (changed : Bool) (deadline : Option ℕ) (at : ℕ)
    → deadline ≡ some at
    → Waiting gone changed deadline
    → (t : ℕ) × (gone ≡ some t) × (t + grace ≤ at)
unfolding Waiting
Waiting-some _ changed none at e w = cc
Waiting-some _ changed (some a) at e (t, g, le) = (t, g, ground arith)

Past-waits : (gone : Option ℕ) (now n : ℕ) → Past gone now → Past gone (now + n)
Past-waits none now n p = tt
Past-waits (some t) now n p = omega arith

exits-Waiting :
    (now : ℕ) (changed : Bool) (deadline : Option ℕ)
    → Waiting none changed deadline
    → Waiting (some now) true deadline
unfolding Waiting
exits-Waiting now changed none w = inr refl
exits-Waiting now changed (some at) (t, e, le) = cc

Step-Sound : {j k : Keeper} → Step j k → Sound j → Sound k
unfolding Sound accepted served noticed expired Waiting
Step-Sound {j} (accepts on) (w, p, o) = (w, p, λ off. cc)
Step-Sound {j} (serves on some_live) (w, p, o) = (w, p, λ off. cc)
Step-Sound {j} (exits on there) (w, p, o) =
    (exits-Waiting j.now j.changed j.deadline (rw there at w), (omega arith), λ off. cc)
Step-Sound {j} (notices on unset told) (w, p, o) =
    (deadline_from-Waiting j.now j.gone_at false p, p, λ off. cc)
Step-Sound {j} (expires at on set due) (w, p, o) =
    let (t, went, le) = Waiting-some j.gone_at j.changed j.deadline at set w in
    elim (Bool-cases (j.live == 0)) [
      | inl nobody ↦ rw nobody (w, p, λ off. (t, went, omega arith, ground (arith, nobody)))
      | inr somebody ↦ rw somebody ((t, went, omega arith), p, λ off. cc)
    ]
Step-Sound {j} (passes n on) (w, p, o) = (w, Past-waits j.gone_at j.now n p, λ off. cc)

Reach-Sound : {j k : Keeper} → Reach j k → Sound j → Sound k
Reach-Sound here s = s
Reach-Sound (next r step) s = Step-Sound step (Reach-Sound r s)

-- However accepts, hang-ups, the child's end and the timer fall, and whether the child was still
-- there when the loop began or had gone before: a keeper that has left did so with nobody connected
-- and no earlier than the grace period after its child went.
pub Reach-IsOver :
    (now : ℕ) (gone : Option ℕ) {k : Keeper}
    → Past gone now
    → Reach (started now gone) k
    → k.running ≡ false
    → IsOver k
unfolding Sound
Reach-IsOver now gone p r off =
    let (_, _, over) = Reach-Sound r (started-Sound now gone p) in over off

-- From a deadline that is set, with nobody connected.
leaves :
    (at : ℕ) {j k : Keeper}
    → Reach j k
    → k.running ≡ true
    → k.deadline ≡ some at
    → k.live ≡ 0
    → (l : Keeper) × Reach j l × (l.running ≡ false) × (l.gone_at ≡ k.gone_at)
unfolding expired
leaves at {j} {k} r on set nobody =
    let later = waits at k in
    (
      expired later,
      next (next r (passes at on)) (expires at on set (omega arith)),
      rw nobody refl,
      rw nobody refl,
    )

told_leaves :
    {j k : Keeper} (d : Option ℕ)
    → Reach j k
    → k.running ≡ true
    → k.deadline ≡ d
    → Waiting k.gone_at k.changed d
    → (t : ℕ) → k.gone_at ≡ some t
    → k.live ≡ 0
    → (l : Keeper) × Reach j l × (l.running ≡ false) × (l.gone_at ≡ k.gone_at)
unfolding Waiting noticed
told_leaves (some at) r on set w t went nobody = leaves at r on set nobody
told_leaves none r on unset (inl there) t went nobody = absurd (cc)
told_leaves {j} {k} none r on unset (inr told) t went nobody =
    leaves (k.now + grace) (next r (notices on unset told)) on (rw went refl) nobody

-- A keeper whose child has gone, before the loop began or since, and to which nobody is connected can
-- always go on to leave, whatever came before.
pub can_leave :
    (now : ℕ) (gone : Option ℕ) (t : ℕ) {k : Keeper}
    → Past gone now
    → Reach (started now gone) k
    → k.gone_at ≡ some t
    → k.live ≡ 0
    → (l : Keeper) × Reach (started now gone) l × (l.running ≡ false) × (l.gone_at ≡ some t)
unfolding Sound
can_leave now gone t {k} p r went nobody =
    let (w, _, _) = Reach-Sound r (started-Sound now gone p) in
    elim (Bool-cases k.running) [
      | inr off ↦ (k, r, off, went)
      | inl on ↦
          let (l, reached, off, same) = told_leaves k.deadline r on refl w t went nobody in
          (l, reached, off, same ∙ went)
    ]
