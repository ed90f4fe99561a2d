-- ===== src/Tests/Watcher.antt =====
-- pkg/watcher/debouncer.go at a short history.
use graph_context.Base.{◌≡◌, none, Memᴰ, refl, List, [], ◌∷◌, Str, bytes, true}
use graph_context.Watcher.Debouncer.{
  ChangeOp, op_create, op_modify, op_delete, FileChange, Debouncer, new_debouncer, pending_op,
  record_change, record_all, fire, flush,
}
use graph_context.Watcher.Debouncer.Net.{History, quiet, event, ops_of, net, record_all-net}
use graph_context.Watcher.Debouncer.Timer.{
  IsValid, recorded, fired, flushed, Reach, here, next, Reach-IsValid, Flushed, flush-Flushed,
}

abbrev change : Str → ChangeOp → FileChange
change name op = record { path = name; rel_path = name; op = op }

abbrev some_changes : List FileChange
some_changes =
    change (bytes "a") op_modify
    ∷ change (bytes "b") op_create
    ∷ change (bytes "a") op_delete
    ∷ change (bytes "b") op_modify
    ∷ change (bytes "a") op_create
    ∷ []

some_changes-History : History true (ops_of (bytes "a") some_changes) true
some_changes-History = event refl (event refl (event refl quiet))

record_all-net_example :
    pending_op (bytes "a") (record_all new_debouncer some_changes).pending
    ≡ net true (ops_of (bytes "a") some_changes) true
record_all-net_example = record_all-net (bytes "a") some_changes true true some_changes-History

abbrev recorded_one : Debouncer
recorded_one = record_change new_debouncer (change (bytes "a") op_modify)

recorded_one-Reach : Reach recorded_one
recorded_one-Reach = next here (recorded new_debouncer (change (bytes "a") op_modify))

-- The timer runs out, and while the flush waits for the lock another change is recorded: it starts a
-- timer that the flush does not stop.
abbrev fired_one : Debouncer
fired_one = fire 0 recorded_one

timer_runs : Memᴰ 0 recorded_one.scheduled
timer_runs = unfold record_change new_debouncer in Memᴰ.head refl

abbrev recorded_two : Debouncer
recorded_two = record_change fired_one (change (bytes "b") op_create)

one_waits : recorded_two.waiting ≡ 1
one_waits = unfold record_change fire new_debouncer in refl

abbrev raced : Debouncer
raced = (flush (record recorded_two { waiting = 0 })).0

-- Nothing is pending, and the second timer still runs.
raced-timer : (raced.pending ≡ []) × (raced.timer ≡ none) × (raced.scheduled ≡ 1 ∷ [])
raced-timer = unfold record_change fire flush new_debouncer in (refl, refl, refl)

Reach-IsValid_example : IsValid raced
Reach-IsValid_example = Reach-IsValid (
    next
      (next (next recorded_one-Reach (fired 0 recorded_one timer_runs))
        (recorded fired_one (change (bytes "b") op_create)))
      (flushed 0 recorded_two one_waits))

recorded_one-IsValid : IsValid recorded_one
recorded_one-IsValid = Reach-IsValid recorded_one-Reach

flush-Flushed_example : Flushed recorded_one (flush recorded_one)
flush-Flushed_example = flush-Flushed recorded_one recorded_one-IsValid
