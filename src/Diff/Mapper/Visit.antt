-- ===== src/Diff/Mapper/Visit.antt =====
-- pkg/diff/mapper.go: what the loops keep.
use graph_context.Base.{
  ℕ, ◌≡◌, refl, sym, ap, ◌∙◌, subst, List, [], ◌∷◌, map, Str, str_eq, true, false, Option, none,
  some, eq_iff, contains, IsDistinct, contains-concat, IsDistinct-concat, Memᴰ, Memᴰ-concat,
  not-Memᴰ-nil, Bool-cases, Option-cases, inl, inr, arith,
}
use mathlib.Core.List.Memᴰ
use graph_context.Store.Types.{Node}
use graph_context.Store.Db.{Db}
use graph_context.Diff.Parse.{FileDiff, path}
use graph_context.Diff.Mapper.{
  ChangedSymbol, Found, lines_of, matched, first_deleted, touched_lines, change_of, add_change,
  visit_node, visit_nodes, visit_diffs, file_nodes,
}

abbrev pub symbol_id : ChangedSymbol → Str
symbol_id c = c.node.id

-- The change comes from the diff of a file, at a node that is in it.
abbrev pub Comes : Db → List FileDiff → ChangedSymbol → Type 0
Comes db diffs c =
    (fd : FileDiff) × Memᴰ fd diffs
    × Memᴰ c.node (file_nodes db (path fd))
    × (change_of fd c.node ≡ some c)

first_deleted-node :
    (fd : FileDiff) (n : Node) (ls : List ℕ) (c : ChangedSymbol)
    → first_deleted fd n ls ≡ some c
    → c.node ≡ n
unfolding first_deleted
first_deleted-node fd n [] c q = cc
first_deleted-node fd n (l ∷ ls) c q = ground (arith, first_deleted-node fd n ls c)

touched_lines-node :
    (fd : FileDiff) (n : Node) (ls : List ℕ) (c : ChangedSymbol)
    → touched_lines fd n ls ≡ some c
    → c.node ≡ n
unfolding touched_lines
touched_lines-node fd n [] c q = first_deleted-node fd n (lines_of n) c q
touched_lines-node fd n (l ∷ ls) c q = ground arith

-- A change is that of the node.
change_of-node :
    (fd : FileDiff) (n : Node) (c : ChangedSymbol) → change_of fd n ≡ some c → c.node ≡ n
unfolding change_of
change_of-node fd n c q = elim (Bool-cases fd.is_deleted) [
  | inl t ↦ let r = rw t at q in ground arith
  | inr f ↦ touched_lines-node fd n (matched fd n) c (rw f at q)
]

-- Of the results so far: each comes from a diff, no node has two, and the seen IDs are theirs.
pub record Kept (db : Db) (diffs : List FileDiff) (s : Found) : Type 0 where
  pub sound : (c : ChangedSymbol) → Memᴰ c s.results → Comes db diffs c
  pub distinct : IsDistinct symbol_id s.results
  pub same : (id : Str) → contains s.seen id ≡ contains (map symbol_id s.results) id

module _ (db : Db) (diffs : List FileDiff) (fd : FileDiff) (there : Memᴰ fd diffs) where
  add-Kept :
      (s : Found) (n : Node) (c : ChangedSymbol)
      → Memᴰ n (file_nodes db (path fd))
      → change_of fd n ≡ some c
      → c.node ≡ n
      → contains s.seen n.id ≡ false
      → Kept db diffs s
      → Kept db diffs (add_change s n.id (some c))
  unfolding add_change
  add-Kept s n c m q cn f k =
      let ids : c.node.id ≡ n.id = ap (λ (x : Node). x.id) cn in
      record {
        sound = λ d at. elim ((Memᴰ-concat d c s.results).0 at) [
          | inl old ↦ k.sound d old
          | inr new ↦ subst (Comes db diffs) (sym new) (
            fd,
            there,
            subst (λ x. Memᴰ x (file_nodes db (path fd))) (sym cn) m,
            ap (change_of fd) cn ∙ q,
          )
        ];
        distinct =
            IsDistinct-concat symbol_id s.results c k.distinct
              (ap (contains (map symbol_id s.results)) ids ∙ sym (k.same n.id) ∙ f);
        same = λ id. ground (arith, k.same id, contains-concat symbol_id id s.results c, ids);
      }

  touch-Kept :
      (s : Found) (n : Node) (o : Option ChangedSymbol)
      → Memᴰ n (file_nodes db (path fd))
      → change_of fd n ≡ o
      → contains s.seen n.id ≡ false
      → Kept db diffs s
      → Kept db diffs (add_change s n.id o)
  unfolding add_change
  touch-Kept s n none m q f k = k
  touch-Kept s n (some c) m q f k = add-Kept s n c m q (change_of-node fd n c q) f k

  visit_node-Kept :
      (s : Found) (n : Node)
      → Memᴰ n (file_nodes db (path fd))
      → Kept db diffs s
      → Kept db diffs (visit_node fd s n)
  unfolding visit_node
  visit_node-Kept s n m k = elim (Bool-cases (contains s.seen n.id)) [
    | inl t ↦ rw t k
    | inr f ↦ rw f (touch-Kept s n (change_of fd n) m refl f k)
  ]

  pub visit_nodes-Kept :
      (s : Found) (ns : List Node)
      → ((n : Node) → Memᴰ n ns → Memᴰ n (file_nodes db (path fd)))
      → Kept db diffs s
      → Kept db diffs (visit_nodes fd s ns)
  unfolding visit_nodes
  visit_nodes-Kept s [] m k = k
  visit_nodes-Kept s (n ∷ ns) m k =
      visit_nodes-Kept (visit_node fd s n) ns (λ x at. m x (Memᴰ.tail at))
        (visit_node-Kept s n (m n (Memᴰ.head refl)) k)

pub visit_diffs-Kept :
    (db : Db) (diffs : List FileDiff) (s : Found) (fds : List FileDiff)
    → ((fd : FileDiff) → Memᴰ fd fds → Memᴰ fd diffs)
    → Kept db diffs s
    → Kept db diffs (visit_diffs db s fds)
unfolding visit_diffs
visit_diffs-Kept db diffs s [] m k = k
visit_diffs-Kept db diffs s (fd ∷ fds) m k =
    let ns = file_nodes db (path fd) in
    visit_diffs-Kept db diffs (visit_nodes fd s ns) fds (λ x at. m x (Memᴰ.tail at))
      (visit_nodes-Kept db diffs fd (m fd (Memᴰ.head refl)) s ns (λ n at. at) k)

-- What was seen stays seen.
visit_node-seen :
    (fd : FileDiff) (s : Found) (n : Node) (id : Str)
    → contains s.seen id ≡ true
    → contains (visit_node fd s n).seen id ≡ true
unfolding visit_node add_change
visit_node-seen fd s n id h = elim (Bool-cases (contains s.seen n.id)) [
  | inl t ↦ rw t h
  | inr f ↦
      rw f
        (elim (Option-cases (change_of fd n)) [ inl q ↦ rw q h | inr (c, q) ↦ rw q (ground arith) ])
]

visit_nodes-seen :
    (fd : FileDiff) (s : Found) (ns : List Node) (id : Str)
    → contains s.seen id ≡ true
    → contains (visit_nodes fd s ns).seen id ≡ true
unfolding visit_nodes
visit_nodes-seen fd s [] id h = h
visit_nodes-seen fd s (n ∷ ns) id h =
    visit_nodes-seen fd (visit_node fd s n) ns id (visit_node-seen fd s n id h)

visit_diffs-seen :
    (db : Db) (s : Found) (fds : List FileDiff) (id : Str)
    → contains s.seen id ≡ true
    → contains (visit_diffs db s fds).seen id ≡ true
unfolding visit_diffs
visit_diffs-seen db s [] id h = h
visit_diffs-seen db s (fd ∷ fds) id h =
    let ns = file_nodes db (path fd) in
    visit_diffs-seen db (visit_nodes fd s ns) fds id (visit_nodes-seen fd s ns id h)

-- A node that a diff changes is seen once it was visited.
visit_node-marks :
    (fd : FileDiff) (s : Found) (n : Node) (c : ChangedSymbol)
    → change_of fd n ≡ some c
    → contains (visit_node fd s n).seen n.id ≡ true
unfolding visit_node add_change
visit_node-marks fd s n c q = elim (Bool-cases (contains s.seen n.id)) [
  | inl t ↦ rw t t
  | inr f ↦ rw (f, q) (ground (arith, eq_iff n.id n.id))
]

visit_nodes-marks :
    (fd : FileDiff) (s : Found) (ns : List Node) (n : Node) (c : ChangedSymbol)
    → change_of fd n ≡ some c
    → Memᴰ n ns
    → contains (visit_nodes fd s ns).seen n.id ≡ true
unfolding visit_nodes
visit_nodes-marks fd s [] n c q m = absurd (not-Memᴰ-nil m)
visit_nodes-marks fd s (x ∷ ns) n c q m = elim (Memᴰ.cases_cons m) [
  | inl e ↦
      visit_nodes-seen fd (visit_node fd s x) ns n.id
        (subst (λ y. contains (visit_node fd s y).seen n.id ≡ true) e (visit_node-marks fd s n c q))
  | inr t ↦ visit_nodes-marks fd (visit_node fd s x) ns n c q t
]

pub visit_diffs-marks :
    (db : Db) (s : Found) (fds : List FileDiff) (fd : FileDiff) (n : Node) (c : ChangedSymbol)
    → Memᴰ fd fds
    → Memᴰ n (file_nodes db (path fd))
    → change_of fd n ≡ some c
    → contains (visit_diffs db s fds).seen n.id ≡ true
unfolding visit_diffs
visit_diffs-marks db s [] fd n c at m q = absurd (not-Memᴰ-nil at)
visit_diffs-marks db s (x ∷ fds) fd n c at m q = elim (Memᴰ.cases_cons at) [
  | inl e ↦ visit_diffs-seen db (visit_nodes x s (file_nodes db (path x))) fds n.id (
      subst (λ y. contains (visit_nodes y s (file_nodes db (path y))).seen n.id ≡ true) e
        (visit_nodes-marks fd s (file_nodes db (path fd)) n c q m))
  | inr t ↦ visit_diffs-marks db (visit_nodes x s (file_nodes db (path x))) fds fd n c t m q
]
