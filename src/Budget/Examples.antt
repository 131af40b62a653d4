-- ===== src/Budget/Examples.antt =====
-- A queue for two tasks, and the theorems at it.
use dsh_carbonclub.Base.{ℕ, ◌≡◌, refl, false, some, [], ◌∷◌}
use dsh_carbonclub.Budget.Queue.{
  Queue, new_queue, enqueue, end_task, Reach, start, admit, refuse, finish, IsQueue, Reach-IsQueue,
}

abbrev empty_queue : Queue ℕ
empty_queue = record { capacity = 2; pending_count = 0; tail = []; ended = [] }

made : new_queue 2 ≡ some empty_queue
unfolding new_queue
made = refl

abbrev one : Queue ℕ
unfolding enqueue
one = (enqueue empty_queue 7).0

abbrev two : Queue ℕ
unfolding enqueue one
two = (enqueue one 8).0

-- The third task is refused while two are pending.
refused_third : (enqueue two 9).1 ≡ false
unfolding enqueue two one
refused_third = refl

reached : Reach (end_task two) (7 ∷ 8 ∷ [])
unfolding enqueue one two
reached = finish (refuse 9 (admit 8 (admit 7 (start 2 made) refl) refl) refused_third)

Reach-IsQueue_example : IsQueue (end_task two) (7 ∷ 8 ∷ [])
Reach-IsQueue_example = Reach-IsQueue reached
