-- ===== src/Watcher/Debouncer/Timer.antt =====
-- pkg/watcher/debouncer.go: when a flush is due, and what it sends.
use graph_context.Base.{
  ℕ, suc, ◌<◌, ◌≢◌, sym, subst, contains, map, IsDistinct, IsDistinct-sort_by, ◌==◌, ◌≡◌, refl,
  List, [], ◌∷◌, Str, str_eq, Bool, true, false, Option, none, some, lookup, arith, Bool-cases, inl,
  inr, IsMap, IsKeyed, IsMap-insert, IsMap-delete, IsKeyed-insert, IsKeyed-delete, Memᴰ, ◌↔◌,
  sort_by, Memᴰ-sort_by, IsSortedBy, sort_by-IsSortedBy, IsOrder, str_lt, str_lt-asym, str_lt-chain,
  lookup_of_mem, mem_of_lookup, ◌⊎◌, values, mem-values, values-mem, ◌||◌,
}
use graph_context.Watcher.Debouncer.{
  FileChange, Debouncer, new_debouncer, is_empty, coalesce_operations, pending_op, merge, rearm,
  ChangeOp, record_change, fire, flush, stop,
}
use graph_context.Watcher.Debouncer.Net.{with_change, record_change-running, record_change-ended}

abbrev pub rel_path_of : FileChange → Str
rel_path_of c = c.rel_path

-- A flush is due: the timer that the debouncer knows runs, or a flush waits for the lock.
abbrev pub IsDue : Debouncer → Type 0
IsDue d = ((i : ℕ) × (d.timer ≡ some i) × Memᴰ i d.scheduled) ⊎ (0 < d.waiting)

-- As long as it was not stopped, a debouncer with pending changes has a flush that is due, and there
-- is one pending change for a path.
pub record IsValid (d : Debouncer) : Type 0 where
  pub due : d.stopped ≡ false → d.pending ≢ [] → IsDue d
  pub one_each : IsMap d.pending
  pub keyed : IsKeyed rel_path_of d.pending

pub new_debouncer-IsValid : IsValid new_debouncer
unfolding new_debouncer
new_debouncer-IsValid = record {
  due = λ _ some_left. absurd (some_left refl);
  one_each = tt;
  keyed = tt;
}

merge-IsMap :
    (c : FileChange) (o : Option ChangeOp) (m : List (Str × FileChange))
    → IsMap m
    → IsMap (merge c o m)
merge-IsMap c none m h = IsMap-delete c.rel_path m h
merge-IsMap c (some op) m h = IsMap-insert c.rel_path (record c { op = op }) m h

merge-IsKeyed :
    (c : FileChange) (o : Option ChangeOp) (m : List (Str × FileChange))
    → IsKeyed rel_path_of m
    → IsKeyed rel_path_of (merge c o m)
merge-IsKeyed c none m h = IsKeyed-delete rel_path_of c.rel_path m h
merge-IsKeyed c (some op) m h =
    IsKeyed-insert rel_path_of c.rel_path (record c { op = op }) m refl h

rearm-IsValid :
    (m : List (Str × FileChange)) (d : Debouncer)
    → IsMap m
    → IsKeyed rel_path_of m
    → IsValid (rearm m d)
rearm-IsValid [] d one keys = record {
  due = λ _ some_left. absurd (some_left refl);
  one_each = tt;
  keyed = tt;
}
rearm-IsValid (x ∷ m) d one keys = record {
  due = λ _ _. inl (d.next, refl, Memᴰ.head refl);
  one_each = one;
  keyed = keys;
}

record_change-IsValid : (d : Debouncer) (c : FileChange) → IsValid d → IsValid (record_change d c)
record_change-IsValid d c v = elim (Bool-cases d.stopped) [
  | inl t ↦ subst IsValid (sym (record_change-ended d c t)) v
  | inr f ↦
      let o = coalesce_operations (pending_op c.rel_path d.pending) c.op in
      subst IsValid (sym (record_change-running d c f)) (
        rearm-IsValid (with_change d c) d (merge-IsMap c o d.pending v.one_each)
          (merge-IsKeyed c o d.pending v.keyed))
]

fire-IsValid : (i : ℕ) (d : Debouncer) → IsValid d → IsValid (fire i d)
unfolding fire
fire-IsValid i d v = record {
  due = λ _ _. inr (omega arith);
  one_each = v.one_each;
  keyed = v.keyed;
}

empty_or :
    (d : Debouncer)
    → (d.stopped || is_empty d.pending) ≡ true
    → (d.stopped ≡ true) ⊎ (d.pending ≡ [])
empty_or d h = go d.stopped d.pending h
  where
    go : (b : Bool) (m : List (Str × FileChange)) → (b || is_empty m) ≡ true → (b ≡ true) ⊎ (m ≡ [])
    go b [] h = inr refl
    go b (x ∷ m) h = inl (ground arith)

-- A flush that gets the lock leaves nothing pending, if the debouncer was not stopped.
flush-IsValid : (n : ℕ) (d : Debouncer) → IsValid d → IsValid (flush (record d { waiting = n })).0
unfolding flush
flush-IsValid n d v = elim (Bool-cases (d.stopped || is_empty d.pending)) [
  | inl t ↦ simp t (record {
    due = λ running some_left. elim (empty_or d t) [
      | inl s ↦ absurd (ground arith)
      | inr e ↦ absurd (some_left e)
    ];
    one_each = v.one_each;
    keyed = v.keyed;
  })
  | inr f ↦
      simp f (record { due = λ _ some_left. absurd (some_left refl); one_each = tt; keyed = tt })
]

stop-IsValid : (d : Debouncer) → IsValid d → IsValid (stop d)
unfolding stop
stop-IsValid d v = record {
  due = λ q. absurd (ground arith);
  one_each = v.one_each;
  keyed = v.keyed;
}

-- The methods and the timers, in any order, as the lock lets them run.
pub data Step : Debouncer → Debouncer → Type 0 where
  recorded : (d : Debouncer) (c : FileChange) → Step d (record_change d c)
  fired : (i : ℕ) (d : Debouncer) → Memᴰ i d.scheduled → Step d (fire i d)
  flushed :
      (n : ℕ) (d : Debouncer) → d.waiting ≡ suc n → Step d (flush (record d { waiting = n })).0
  stopping : (d : Debouncer) → Step d (stop d)

pub data Reach : Debouncer → Type 0 where
  here : Reach new_debouncer
  next : {d e : Debouncer} → Reach d → Step d e → Reach e

Step-IsValid : {d e : Debouncer} → Step d e → IsValid d → IsValid e
Step-IsValid (recorded d c) v = record_change-IsValid d c v
Step-IsValid (fired i d m) v = fire-IsValid i d v
Step-IsValid (flushed n d q) v = flush-IsValid n d v
Step-IsValid (stopping d) v = stop-IsValid d v

-- In every state that any interleaving of the methods and of timers that run out leads to, no path
-- has two pending changes, and as long as the debouncer was not stopped a flush is due whenever it has
-- pending changes: the timer that it knows runs, or a flush waits for the lock.
pub Reach-IsValid : {d : Debouncer} → Reach d → IsValid d
Reach-IsValid here = new_debouncer-IsValid
Reach-IsValid (next r s) = Step-IsValid s (Reach-IsValid r)

abbrev pub path_less : FileChange → FileChange → Bool
path_less a b = str_lt a.rel_path b.rel_path

path_less-IsOrder : IsOrder path_less
path_less-IsOrder = record {
  asym = λ a b. str_lt-asym a.rel_path b.rel_path;
  chain = λ a b c. str_lt-chain a.rel_path b.rel_path c.rel_path;
}

-- What a flush does: nothing if the debouncer was stopped or has nothing pending; otherwise it
-- empties the pending changes, forgets the timer and sends a batch.
abbrev pub Flushed : Debouncer → Debouncer × Option (List FileChange) → Type 0
Flushed d (e, none) = (e ≡ d) × ((d.stopped ≡ true) ⊎ (d.pending ≡ []))
Flushed d (e, some batch) =
    (d.stopped ≡ false)
    × (e.pending ≡ [])
    × (e.timer ≡ none)
    × IsSortedBy path_less batch
    × IsDistinct rel_path_of batch
    × ((c : FileChange) → Memᴰ c batch ↔ (lookup c.rel_path d.pending ≡ some c))

mem-batch :
    (d : Debouncer)
    → IsValid d
    → (c : FileChange)
    → Memᴰ c (sort_by path_less (values d.pending)) ↔ (lookup c.rel_path d.pending ≡ some c)
mem-batch d v c = (
  λ m. lookup_of_mem c.rel_path c d.pending v.one_each (
      mem-values rel_path_of c d.pending v.keyed
        ((Memᴰ-sort_by path_less c (values d.pending)).0 m)),
  λ q.
      (Memᴰ-sort_by path_less c (values d.pending)).1
        (values-mem c.rel_path c d.pending (mem_of_lookup c.rel_path c d.pending q)),
)

-- A map whose changes stand under their paths has no path twice.
values-absent :
    (k : Str) (m : List (Str × FileChange))
    → IsKeyed rel_path_of m
    → lookup k m ≡ none
    → contains (map rel_path_of (values m)) k ≡ false
values-absent k [] keys q = refl
values-absent k ((j, c) ∷ m) keys q = elim (Bool-cases (j == k)) [
  | inl t ↦ absurd (ground arith)
  | inr f ↦ ground (arith, keys.0, values-absent k m keys.1 (ground arith))
]

values-IsDistinct :
    (m : List (Str × FileChange))
    → IsMap m
    → IsKeyed rel_path_of m
    → IsDistinct rel_path_of (values m)
values-IsDistinct [] one keys = tt
values-IsDistinct ((j, c) ∷ m) one keys = (
  subst (λ k. contains (map rel_path_of (values m)) k ≡ false) (sym keys.0)
      (values-absent j m keys.1 one.0),
  values-IsDistinct m one.1 keys.1,
)

-- A flush of a debouncer in a state that its methods keep sends each pending change once, in the order
-- of the paths, of which none stands twice, and leaves nothing pending; a stopped debouncer, or one with nothing pending, sends nothing
-- and stays as it is.
pub flush-Flushed : (d : Debouncer) → IsValid d → Flushed d (flush d)
unfolding flush
flush-Flushed d v = elim (Bool-cases (d.stopped || is_empty d.pending)) [
  | inl t ↦ simp t (refl, empty_or d t)
  | inr f ↦ simp f (
    ground arith,
    refl,
    refl,
    sort_by-IsSortedBy path_less-IsOrder (values d.pending),
    IsDistinct-sort_by rel_path_of path_less (values d.pending)
        (values-IsDistinct d.pending v.one_each v.keyed),
    mem-batch d v,
  )
]
