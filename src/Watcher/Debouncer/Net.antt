-- ===== src/Watcher/Debouncer/Net.antt =====
-- pkg/watcher/debouncer.go: the merged operation is the net effect of the events on the file.
use graph_context.Base.{
  ◌≡◌, refl, ap, ◌∙◌, List, [], ◌∷◌, Str, str_eq, eq_iff, ◌==◌, Bool, true, false, Option, none,
  some, lookup-insert, lookup-delete, if◌then◌else◌, arith, Bool-cases, inl, inr,
}
use graph_context.Watcher.Debouncer.{
  ChangeOp, op_create, op_modify, op_delete, FileChange, Debouncer, new_debouncer,
  coalesce_operations, pending_op, merge, rearm, record_change, record_all,
}

-- Whether the file is there after an operation.
abbrev pub present_after : ChangeOp → Bool
present_after op_delete = false
present_after _ = true

-- An operation happens to a file only as its presence allows.
abbrev pub Allows : Bool → ChangeOp → Type 0
Allows present op_create = present ≡ false
Allows present op_modify = present ≡ true
Allows present op_delete = present ≡ true

-- The operations on a file, in order, from its presence at first to that at the end.
pub data History : Bool → List ChangeOp → Bool → Type 0 where
  quiet : {b : Bool} → History b [] b
  event :
      {b c : Bool} {op : ChangeOp} {ops : List ChangeOp}
      → Allows b op
      → History (present_after op) ops c
      → History b (op ∷ ops) c

-- What the operations on one file leave pending.
abbrev pub merged : Option ChangeOp → List ChangeOp → Option ChangeOp
merged p [] = p
merged p (op ∷ ops) = merged (coalesce_operations p op) ops

-- The net effect of a history that is not empty, from the presence of the file at its ends.
abbrev pub net_effect : Bool → Bool → Option ChangeOp
net_effect false false = none
net_effect false true = some op_create
net_effect true false = some op_delete
net_effect true true = some op_modify

abbrev pub net : Bool → List ChangeOp → Bool → Option ChangeOp
net first [] last = none
net first (op ∷ ops) last = net_effect first last

-- One more operation takes the net effect so far to that with it.
coalesce-net_effect :
    (first now : Bool) (op : ChangeOp)
    → Allows now op
    → coalesce_operations (net_effect first now) op ≡ net_effect first (present_after op)
unfolding coalesce_operations
coalesce-net_effect false false op_create a = refl
coalesce-net_effect false false op_modify a = absurd (ground arith)
coalesce-net_effect false false op_delete a = absurd (ground arith)
coalesce-net_effect false true op_create a = absurd (ground arith)
coalesce-net_effect false true op_modify a = refl
coalesce-net_effect false true op_delete a = refl
coalesce-net_effect true false op_create a = refl
coalesce-net_effect true false op_modify a = absurd (ground arith)
coalesce-net_effect true false op_delete a = absurd (ground arith)
coalesce-net_effect true true op_create a = absurd (ground arith)
coalesce-net_effect true true op_modify a = refl
coalesce-net_effect true true op_delete a = refl

-- The first operation is its own net effect.
first-net_effect :
    (now : Bool) (op : ChangeOp)
    → Allows now op
    → coalesce_operations none op ≡ net_effect now (present_after op)
unfolding coalesce_operations
first-net_effect now op_create a = rw a refl
first-net_effect now op_modify a = rw a refl
first-net_effect now op_delete a = rw a refl

merged-net_effect :
    (first now last : Bool) (p : Option ChangeOp) (ops : List ChangeOp)
    → p ≡ net_effect first now
    → History now ops last
    → merged p ops ≡ net_effect first last
merged-net_effect first now last p [] n quiet = n
merged-net_effect first now last p (op ∷ ops) n (event a h) =
    merged-net_effect first (present_after op) last (coalesce_operations p op) ops
      (ap (λ q. coalesce_operations q op) n ∙ coalesce-net_effect first now op a) h

merged-net :
    (first last : Bool) (ops : List ChangeOp)
    → History first ops last
    → merged none ops ≡ net first ops last
merged-net first last [] quiet = refl
merged-net first last (op ∷ ops) (event a h) =
    merged-net_effect first (present_after op) last (coalesce_operations none op) ops
      (first-net_effect first op a) h

-- The operations of the changes to one file.
abbrev pub ops_of : Str → List FileChange → List ChangeOp
ops_of k [] = []
ops_of k (c ∷ cs) = let rest = ops_of k cs in if c.rel_path == k then c.op ∷ rest else rest

pending_op-merge :
    (k : Str) (c : FileChange) (o : Option ChangeOp) (m : List (Str × FileChange))
    → pending_op k (merge c o m) ≡ (if c.rel_path == k then o else pending_op k m)
pending_op-merge k c none m = ground (arith, lookup-delete c.rel_path k m)
pending_op-merge k c (some op) m =
    ground (arith, lookup-insert c.rel_path k (record c { op = op }) m)

pending-rearm : (m : List (Str × FileChange)) (d : Debouncer) → (rearm m d).pending ≡ m
pending-rearm [] d = refl
pending-rearm (x ∷ m) d = refl

stopped-rearm : (m : List (Str × FileChange)) (d : Debouncer) → (rearm m d).stopped ≡ d.stopped
stopped-rearm [] d = refl
stopped-rearm (x ∷ m) d = refl

if-true : (b : Bool) (d e : Debouncer) → b ≡ true → (if b then d else e) ≡ d
if-true b d e h = rw h refl

if-false : (b : Bool) (d e : Debouncer) → b ≡ false → (if b then d else e) ≡ e
if-false b d e h = rw h refl

-- The pending changes with one more.
abbrev pub with_change : Debouncer → FileChange → List (Str × FileChange)
with_change d c = merge c (coalesce_operations (pending_op c.rel_path d.pending) c.op) d.pending

pub record_change-running :
    (d : Debouncer) (c : FileChange)
    → d.stopped ≡ false
    → record_change d c ≡ rearm (with_change d c) d
unfolding record_change
record_change-running d c h = if-false d.stopped d (rearm (with_change d c) d) h

pub record_change-ended :
    (d : Debouncer) (c : FileChange) → d.stopped ≡ true → record_change d c ≡ d
unfolding record_change
record_change-ended d c h = if-true d.stopped d (rearm (with_change d c) d) h

record_change-pending :
    (k : Str) (d : Debouncer) (c : FileChange)
    → d.stopped ≡ false
    → pending_op k (record_change d c).pending ≡ merged (pending_op k d.pending) (ops_of k (c ∷ []))
record_change-pending k d c h =
    let o = coalesce_operations (pending_op c.rel_path d.pending) c.op in
    ap (λ (e : Debouncer). pending_op k e.pending) (record_change-running d c h)
    ∙ ap (pending_op k) (pending-rearm (with_change d c) d)
    ∙ pending_op-merge k c o d.pending
    ∙ elim (Bool-cases (c.rel_path == k)) [
      | inl t ↦
          let same = (eq_iff c.rel_path k).0 t in
          rw t (ap (λ j. coalesce_operations (pending_op j d.pending) c.op) same)
      | inr f ↦ rw f refl
    ]

record_change-stopped : (d : Debouncer) (c : FileChange) → (record_change d c).stopped ≡ d.stopped
record_change-stopped d c = elim (Bool-cases d.stopped) [
  | inl t ↦ ap (λ (e : Debouncer). e.stopped) (record_change-ended d c t)
  | inr f ↦
      ap (λ (e : Debouncer). e.stopped) (record_change-running d c f)
      ∙ stopped-rearm (with_change d c) d
]

merged-ops_of :
    (k : Str) (p : Option ChangeOp) (c : FileChange) (cs : List FileChange)
    → merged (merged p (ops_of k (c ∷ []))) (ops_of k cs) ≡ merged p (ops_of k (c ∷ cs))
merged-ops_of k p c cs = elim (Bool-cases (c.rel_path == k)) [ inl t ↦ rw t | inr f ↦ rw f ]

record_all-pending :
    (k : Str) (d : Debouncer) (cs : List FileChange)
    → d.stopped ≡ false
    → pending_op k (record_all d cs).pending ≡ merged (pending_op k d.pending) (ops_of k cs)
unfolding record_all
record_all-pending k d [] h = refl
record_all-pending k d (c ∷ cs) h =
    record_all-pending k (record_change d c) cs (record_change-stopped d c ∙ h)
    ∙ ap (λ p. merged p (ops_of k cs)) (record_change-pending k d c h)
    ∙ merged-ops_of k (pending_op k d.pending) c cs

-- Whatever events of whatever files a fresh debouncer records, if those of one file are a possible
-- history of it, what is pending for that file is exactly their net effect: nothing without events
-- or if the file was not there at first and is not now, a creation if it was not there and is now, a
-- deletion if it was there and is gone, and a modification if it was there, had events, and is there.
pub record_all-net :
    (k : Str) (cs : List FileChange) (first last : Bool)
    → History first (ops_of k cs) last
    → pending_op k (record_all new_debouncer cs).pending ≡ net first (ops_of k cs) last
record_all-net k cs first last h =
    record_all-pending k new_debouncer cs fresh
    ∙ (unfold new_debouncer in merged-net first last (ops_of k cs) h)
  where
    fresh : new_debouncer.stopped ≡ false
    fresh = unfold new_debouncer in refl
