-- ===== src/Watcher/Debouncer.antt =====
-- pkg/watcher/debouncer.go: events of the same file are merged until the timer fires. A method holds
-- the lock while it runs, so each is one step. The timers of the runtime are numbered as they are
-- started: `timer` is the one that the debouncer knows, `scheduled` are those that run and `waiting`
-- counts the flushes of those that fired and wait for the lock, which nothing stops any more. A
-- flush hands its batch to the channel after the lock is released: the model's flush returns it.
pub mod Net
pub mod Timer
use graph_context.Base.{
  ℕ, zero, suc, nat_beq, keep, List, [], ◌∷◌, ◌++◌, Str, str_eq, str_lt, ◌==◌, Bool, true, false,
  not, ◌&&◌, ◌||◌, Option, none, some, lookup, insert, delete, sort_by, values, if◌then◌else◌,
}

pub data ChangeOp : Type 0 where
  op_create op_modify op_delete : ChangeOp

pub record FileChange : Type 0 where
  pub path : Str
  pub rel_path : Str
  pub op : ChangeOp

pub record Debouncer : Type 0 where
  pub pending : List (Str × FileChange)
  pub timer : Option ℕ
  pub stopped : Bool
  pub scheduled : List ℕ
  pub waiting : ℕ
  pub next : ℕ

unfoldable pub new_debouncer : Debouncer
new_debouncer = record {
  pending = [];
  timer = none;
  stopped = false;
  scheduled = [];
  waiting = 0;
  next = 0;
}

-- `none` for the existing operation is the empty string of a missing entry, and for the result that
-- the change is not kept.
unfoldable pub coalesce_operations : Option ChangeOp → ChangeOp → Option ChangeOp
coalesce_operations none incoming = some incoming
coalesce_operations (some op_create) op_delete = none
coalesce_operations (some op_create) _ = some op_create
coalesce_operations (some op_modify) op_delete = some op_delete
coalesce_operations (some op_modify) _ = some op_modify
coalesce_operations (some op_delete) op_create = some op_modify
coalesce_operations (some op_delete) _ = some op_delete

abbrev pub pending_op : Str → List (Str × FileChange) → Option ChangeOp
pending_op k m = elim (lookup k m) [ none ↦ none | some c ↦ some c.op ]

abbrev pub merge : FileChange → Option ChangeOp → List (Str × FileChange) → List (Str × FileChange)
merge c none m = delete c.rel_path m
merge c (some op) m = insert c.rel_path (record c { op = op }) m

abbrev pub is_empty {ℓ} : {A : Type ℓ} → List A → Bool
is_empty [] = true
is_empty (_ ∷ _) = false

abbrev pub without : ℕ → List ℕ → List ℕ
without i is = keep (λ j. not (nat_beq i j)) is

-- `if d.timer != nil { d.timer.Stop() }`: a timer that fired already is not in the list.
abbrev pub stop_timer : Option ℕ → List ℕ → List ℕ
stop_timer none is = is
stop_timer (some i) is = without i is

-- The end of record: no timer if nothing is pending, and else a new one.
abbrev pub rearm : List (Str × FileChange) → Debouncer → Debouncer
rearm [] d = record d { pending = []; timer = none; scheduled = stop_timer d.timer d.scheduled }
rearm (x ∷ m) d = record d {
  pending = x ∷ m;
  timer = some d.next;
  scheduled = d.next ∷ stop_timer d.timer d.scheduled;
  next = suc d.next;
}

unfoldable pub record_change : Debouncer → FileChange → Debouncer
unfolding coalesce_operations
record_change d c =
    if d.stopped
    then d
    else rearm (merge c (coalesce_operations (pending_op c.rel_path d.pending) c.op) d.pending) d

-- A timer runs out: it starts a flush, which waits for the lock.
unfoldable pub fire : ℕ → Debouncer → Debouncer
fire i d = record d { scheduled = without i d.scheduled; waiting = suc d.waiting }

-- A flush that has the lock; the batch, if there is one, is sorted by path. No timer is stopped.
unfoldable pub flush : Debouncer → Debouncer × Option (List FileChange)
flush d = if d.stopped || is_empty d.pending then (d, none) else (
  record d { pending = []; timer = none },
  some (sort_by (λ a b. str_lt a.rel_path b.rel_path) (values d.pending)),
)

unfoldable pub stop : Debouncer → Debouncer
stop d = record d { stopped = true; timer = none; scheduled = stop_timer d.timer d.scheduled }

unfoldable pub record_all : Debouncer → List FileChange → Debouncer
unfolding record_change
record_all d [] = d
record_all d (c ∷ cs) = record_all (record_change d c) cs
