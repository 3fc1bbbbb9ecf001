-- ===== src/Tests/Intervals.antt =====
-- The thread of an interval, from its start to the join.
use kv_database.Prelude.{◌+◌, ◌≡◌, ◌≤◌, refl}
use kv_database.Worker.Background.{
  Background, new, next_place, calls_of, advance, advances, time_out, times_out, acts, clear,
  clears, notify, notifies, roused, join, joins, Reach, here, moves, destroys,
}
use kv_database.Worker.Background.Ends.{IsJoined, GoesOn, Reach-ends}

-- The thread has read a true `active` behind its wait when the stop comes: it works once more.
abbrev asleep_once : Background
asleep_once = advance (advance (advance new))

abbrev stopping : Background
stopping = clear (advance (time_out asleep_once))

abbrev gone : Background
gone = join (advance (advance (advance (notify stopping))))

to_stopping : Reach new 5 stopping
unfolding new advance next_place clear time_out
to_stopping =
    destroys 5 _ _
      (moves 4 _ _
        (moves 3 _ _
          (moves 2 _ _
            (moves 1 _ _ (moves 0 _ _ here (acts (advances (λ e. cc) (λ e. cc) refl)))
              (acts (advances (λ e. cc) (λ e. cc) refl)))
            (acts (advances (λ e. cc) (λ e. cc) refl)))
          (acts (times_out refl refl)))
        (acts (advances (λ e. cc) (λ e. cc) refl)))
      (clears refl refl)

to_gone : Reach stopping 3 gone
unfolding new advance next_place clear notify roused time_out join
to_gone =
    destroys 3 _ _
      (moves 2 _ _
        (moves 1 _ _
          (moves 0 _ _ (destroys 0 _ _ here (notifies refl refl))
            (acts (advances (λ e. cc) (λ e. cc) refl)))
          (acts (advances (λ e. cc) (λ e. cc) refl)))
        (acts (advances (λ e. cc) (λ e. cc) refl)))
      (joins refl refl refl)

Reach-ends_example :
    (3 ≤ 4)
    × (gone.calls + calls_of gone.place ≡ stopping.calls + calls_of stopping.place)
    × IsJoined gone.teardown gone.place
    × GoesOn gone
unfolding clear
Reach-ends_example = Reach-ends 5 3 stopping gone to_stopping (λ e. cc) to_gone
