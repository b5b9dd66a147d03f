-- ===== src/Keeper/Run/Tests.antt =====
-- A keeper whose child goes while a client is connected.
use devpipe.Keeper.Run.{
  child_exits, waits, noticed, expired, accepted, served, accepts, serves, exits, notices, expires,
  passes, here, next, Reach, Keeper, started,
}
use devpipe.Prelude.{arith, some, none, false, refl, ◌≡◌}
use devpipe.Keeper.Run.Grace.{Reach-IsOver, can_leave, IsOver}

-- A client is there, the child goes after five seconds, and the client hangs up.
abbrev hung_up : Keeper
hung_up = served (noticed (child_exits (waits 5000 (accepted (started 0 none)))))

Reach-hung_up : Reach (started 0 none) hung_up
unfolding started accepted noticed served
Reach-hung_up =
    next
      (next (next (next (next here (accepts refl)) (passes 5000 refl)) (exits refl refl))
        (notices refl refl refl))
      (serves refl (omega arith))

abbrev left : Keeper
left = expired (waits 10000 hung_up)

Reach-left : Reach (started 0 none) left
unfolding started accepted noticed served
Reach-left = next (next Reach-hung_up (passes 10000 refl)) (expires 15000 refl refl (omega arith))

has_left : left.running ≡ false
unfolding started accepted noticed served expired
has_left = refl

Reach-IsOver_example : IsOver left
Reach-IsOver_example = Reach-IsOver 0 none tt Reach-left has_left

-- A child that had gone two seconds before the loop began.
abbrev late : Keeper
late = started 5000 (some 3000)

went_before : late.gone_at ≡ some 3000
unfolding started
went_before = refl

nobody_there : late.live ≡ 0
unfolding started
nobody_there = refl

can_leave_example : (l : Keeper) × Reach late l × (l.running ≡ false) × (l.gone_at ≡ some 3000)
can_leave_example = can_leave 5000 (some 3000) 3000 (omega arith) here went_before nobody_there
