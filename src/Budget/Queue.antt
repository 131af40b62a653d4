-- ===== src/Budget/Queue.antt =====
-- `BoundedSerialQueue` of src/network/resource-budget.ts. The chain of promises behind `tail` is the list
-- of the tasks that have not ended, the running one first; how a task ends makes no difference to it.
use dsh_carbonclub.Base.{
  ℕ, ◌+◌, ◌-◌, ◌≤◌, ◌≡◌, refl, sym, ap, ◌∙◌, Bool, true, false, ◌&&◌, Option, none, some, List, [],
  ◌∷◌, ◌++◌, length, length-append, append_assoc, some_injective, none_some, false_true, leb,
  if◌then◌else◌, arith, Bool-cases, inl, inr, subst,
}
use dsh_carbonclub.Verify.Values.{max_safe}

pub record Queue {ℓ} (Task : Type ℓ) : Type ℓ where
  pub capacity : ℕ
  pub pending_count : ℕ
  pub tail : List Task
  pub ended : List Task

module _ {ℓ} {Task : Type ℓ} where
  -- The constructor, which throws where the capacity is no safe integer from 1 on.
  unfoldable pub new_queue : ℕ → Option (Queue Task)
  new_queue capacity =
      if leb 1 capacity && leb capacity max_safe
      then some (record { capacity = capacity; pending_count = 0; tail = []; ended = [] })
      else none

  unfoldable pub enqueue : Queue Task → Task → Queue Task × Bool
  enqueue q task =
      if leb q.capacity q.pending_count
      then (q, false)
      else (record q { pending_count = q.pending_count + 1; tail = q.tail ++ task ∷ [] }, true)

  -- The running task, the first of the tail, ends, and `finally` counts it off.
  unfoldable pub end_first : Queue Task → List Task → Queue Task
  end_first q [] = q
  end_first q (task ∷ rest) = record q {
    pending_count = q.pending_count - 1;
    tail = rest;
    ended = q.ended ++ task ∷ [];
  }

  unfoldable pub end_task : Queue Task → Queue Task
  unfolding end_first
  end_task q = end_first q q.tail

  -- A queue and the tasks that it took, in their order.
  pub data Reach : Queue Task → List Task → Type ℓ where
    start : (capacity : ℕ) {q : Queue Task} → new_queue capacity ≡ some q → Reach q []
    admit :
        {q : Queue Task} {taken : List Task} (task : Task)
        → Reach q taken
        → (enqueue q task).1 ≡ true
        → Reach (enqueue q task).0 (taken ++ task ∷ [])
    refuse :
        {q : Queue Task} {taken : List Task} (task : Task)
        → Reach q taken
        → (enqueue q task).1 ≡ false
        → Reach (enqueue q task).0 taken
    finish : {q : Queue Task} {taken : List Task} → Reach q taken → Reach (end_task q) taken

  -- The tasks that were taken have ended or wait, in the order in which they were taken; those that wait
  -- are counted, and no more of them than the capacity.
  pub record IsQueue (q : Queue Task) (taken : List Task) : Type ℓ where
    pub in_order : q.ended ++ q.tail ≡ taken
    pub counted : q.pending_count ≡ length q.tail
    pub bounded : q.pending_count ≤ q.capacity

  new_queue-IsQueue : (capacity : ℕ) (q : Queue Task) → new_queue capacity ≡ some q → IsQueue q []
  unfolding new_queue
  new_queue-IsQueue capacity q h =
      let fresh : Queue Task = record {
        capacity = capacity;
        pending_count = 0;
        tail = [];
        ended = [];
      } in
      elim (Bool-cases (leb 1 capacity && leb capacity max_safe)) [
        | inl right ↦
            let made : new_queue capacity ≡ some fresh = rw (right, new_queue) refl in
            subst (λ (p : Queue Task). IsQueue p []) (some_injective (sym made ∙ h))
              (record { in_order = refl; counted = refl; bounded = omega arith })
        | inr wrong ↦ none_some (rw (wrong, new_queue) refl) h
      ]

  enqueue-IsQueue :
      (q : Queue Task) (taken : List Task) (task : Task)
      → (enqueue q task).1 ≡ true
      → IsQueue q taken
      → IsQueue (enqueue q task).0 (taken ++ task ∷ [])
  unfolding enqueue
  enqueue-IsQueue q taken task accepted i = elim (Bool-cases (leb q.capacity q.pending_count)) [
    | inl full ↦ false_true (rw (full, enqueue) refl) accepted
    | inr free ↦
        rw (free, enqueue)
          (record {
            in_order =
                sym (append_assoc q.ended q.tail (task ∷ []))
                ∙ ap (λ (l : List Task). l ++ task ∷ []) i.in_order;
            counted = omega (arith, i.counted, length-append q.tail (task ∷ []));
            bounded = ground (arith, free);
          })
  ]

  enqueue-full :
      (q : Queue Task) (task : Task) → (enqueue q task).1 ≡ false → (enqueue q task).0 ≡ q
  unfolding enqueue
  enqueue-full q task refused = elim (Bool-cases (leb q.capacity q.pending_count)) [
    | inl full ↦ rw (full, enqueue) refl
    | inr free ↦ false_true refused (rw (free, enqueue) refl)
  ]

  end_first-IsQueue :
      (q : Queue Task) (tail taken : List Task)
      → q.tail ≡ tail
      → IsQueue q taken
      → IsQueue (end_first q tail) taken
  unfolding end_first
  end_first-IsQueue q [] taken e i = i
  end_first-IsQueue q (task ∷ rest) taken e i = record {
    in_order =
        append_assoc q.ended (task ∷ []) rest
        ∙ ap (λ (l : List Task). q.ended ++ l) (sym e)
        ∙ i.in_order;
    counted = omega (arith, i.counted, ap length e);
    bounded = omega (arith, i.bounded);
  }

  end_task-IsQueue :
      (q : Queue Task) (taken : List Task) → IsQueue q taken → IsQueue (end_task q) taken
  unfolding end_task
  end_task-IsQueue q taken i = end_first-IsQueue q q.tail taken refl i

  -- A queue that was made and used by any number of calls and ends of tasks has at most as many tasks
  -- waiting or running as its capacity, counts them, and ends those that it took in the order it took them.
  pub Reach-IsQueue : {q : Queue Task} {taken : List Task} → Reach q taken → IsQueue q taken
  Reach-IsQueue {q = q} (start capacity made) = new_queue-IsQueue capacity q made
  Reach-IsQueue (admit {q = q} {taken = taken} task r accepted) =
      enqueue-IsQueue q taken task accepted (Reach-IsQueue r)
  Reach-IsQueue (refuse {q = q} {taken = taken} task r refused) =
      subst (λ (p : Queue Task). IsQueue p taken) (sym (enqueue-full q task refused))
        (Reach-IsQueue r)
  Reach-IsQueue (finish {q = q} {taken = taken} r) = end_task-IsQueue q taken (Reach-IsQueue r)
