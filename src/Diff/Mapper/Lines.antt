-- ===== src/Diff/Mapper/Lines.antt =====
-- pkg/diff/mapper.go: the lines and the nodes that the loops run through, and what a diff says of a
-- node.
use graph_context.Base.{
  ℕ, zero, suc, ◌+◌, ◌-◌, ◌≤◌, ◌<◌, ◌≡◌, ◌≢◌, refl, sym, ap, subst, List, [], ◌∷◌, Str, str_eq,
  nat_eq, true, false, none, some, eq_iff, ◌==◌, contains, contains_iff, keep, Memᴰ, Memᴰ-keep,
  Memᴰ-sort_by, not-Memᴰ-nil, Bool-cases, Option-cases, ◌⊎◌, inl, inr, ◌↔◌, arith, values, sort_by,
  Bool, length, length-keep, leb, leb→le, leb→lt, ◌∙◌,
}
use mathlib.Core.List.Memᴰ
use graph_context.Store.Types.{Node}
use graph_context.Store.Db.{Db}
use graph_context.Store.Query.{nodes_in_file, all_nodes, node_id_less, in_file_less}
use graph_context.Diff.Parse.{FileDiff}
use graph_context.Diff.Mapper.{
  change_deleted, change_modified, change_added, added_or_modified, ChangedSymbol, count_up,
  lines_of, matched, first_deleted, touched_lines, change_of, or_all, file_nodes,
}

abbrev pub IsWithin : Node → ℕ → Type 0
IsWithin n l = (n.start_line ≤ l) × (l ≤ n.end_line)

-- The diff deletes the file, or adds or deletes a line of the node.
abbrev pub IsTouched : FileDiff → Node → Type 0
IsTouched fd n =
    (fd.is_deleted ≡ true)
    ⊎ ((l : ℕ) × IsWithin n l × (Memᴰ l fd.added_lines ⊎ Memᴰ l fd.deleted_lines))

-- The three kinds of change: in a deleted file; at added lines, which are those of the node; and
-- where no line of the node is added, at a deleted one.
abbrev pub ByDeletion : FileDiff → ChangedSymbol → Type 0
ByDeletion fd c = (fd.is_deleted ≡ true) × (c.change_type ≡ change_deleted) × (c.matched_lines ≡ [])

-- The file is new, or every line of the node is added.
abbrev pub IsAdded : FileDiff → Node → Type 0
IsAdded fd n = (fd.is_new ≡ true) ⊎ ((l : ℕ) → IsWithin n l → Memᴰ l fd.added_lines)

abbrev pub ByAddition : FileDiff → ChangedSymbol → Type 0
ByAddition fd c =
    (fd.is_deleted ≡ false)
    × (c.matched_lines ≢ [])
    × (((c.change_type ≡ change_added) × IsAdded fd c.node)
        ⊎ ((c.change_type ≡ change_modified) × (¬ IsAdded fd c.node)))
    × ((l : ℕ) → Memᴰ l c.matched_lines ↔ (IsWithin c.node l × Memᴰ l fd.added_lines))

abbrev pub ByRemoval : FileDiff → ChangedSymbol → Type 0
ByRemoval fd c =
    (fd.is_deleted ≡ false)
    × (c.change_type ≡ change_modified)
    × ((l : ℕ) × (c.matched_lines ≡ l ∷ []) × IsWithin c.node l × Memᴰ l fd.deleted_lines)
    × (¬ ((l : ℕ) × IsWithin c.node l × Memᴰ l fd.added_lines))

abbrev pub Describes : FileDiff → ChangedSymbol → Type 0
Describes fd c = ByDeletion fd c ⊎ ByAddition fd c ⊎ ByRemoval fd c

mem-count_up : (l from k : ℕ) → Memᴰ l (count_up from k) ↔ ((from ≤ l) × (l < from + k))
mem-count_up l from zero = (λ m. absurd (not-Memᴰ-nil m), λ (a, b). absurd (omega arith))
mem-count_up l from (suc k) =
    let (to, of) = mem-count_up l (suc from) k in
    (
      λ m. elim (Memᴰ.cases_cons m) [
        | inl e ↦ (omega arith, omega arith)
        | inr t ↦ let (a, b) = to t in (omega arith, omega arith)
      ],
      λ (a, b). elim (Bool-cases (l == from)) [
        | inl t ↦ Memᴰ.head ((eq_iff l from).0 t)
        | inr f ↦ Memᴰ.tail (of (ground (arith, eq_iff l from), omega arith))
      ],
    )

pub mem-lines_of : (l : ℕ) (n : Node) → Memᴰ l (lines_of n) ↔ IsWithin n l
mem-lines_of l n =
    let (to, of) = mem-count_up l n.start_line (n.end_line + 1 - n.start_line) in
    (λ m. let (a, b) = to m in (a, omega arith), λ (a, b). of (a, omega arith))

pub mem-matched :
    (l : ℕ) (fd : FileDiff) (n : Node)
    → Memᴰ l (matched fd n) ↔ (IsWithin n l × Memᴰ l fd.added_lines)
unfolding matched
mem-matched l fd n =
    let (to, of) = Memᴰ-keep (contains fd.added_lines) l (lines_of n) in
    let (lines, back) = mem-lines_of l n in
    let (mem, has) = contains_iff fd.added_lines l in
    (λ m. let (a, b) = to m in (lines a, mem b), λ (a, b). of (back a, has b))

-- A filter that drops nothing keeps every element.
keep_whole :
    (p : ℕ → Bool) (x : ℕ) (xs : List ℕ) → length xs ≤ length (keep p xs) → Memᴰ x xs → p x ≡ true
keep_whole p x [] h m = absurd (not-Memᴰ-nil m)
keep_whole p x (y ∷ ys) h m = elim (Bool-cases (p y)) [
  | inr f ↦ absurd (ground (arith, length-keep p ys))
  | inl t ↦ elim (Memᴰ.cases_cons m) [
    | inl e ↦ ap p e ∙ t
    | inr at ↦ keep_whole p x ys (ground arith) at
  ]
]

length-keep_whole :
    (p : ℕ → Bool) (xs : List ℕ)
    → ((x : ℕ) → Memᴰ x xs → p x ≡ true)
    → length (keep p xs) ≡ length xs
length-keep_whole p [] h = refl
length-keep_whole p (x ∷ xs) h =
    rw (h x (Memᴰ.head refl)) (ap suc (length-keep_whole p xs (λ y m. h y (Memᴰ.tail m))))

length-count_up : (from k : ℕ) → length (count_up from k) ≡ k
length-count_up from zero = refl
length-count_up from (suc k) = ap suc (length-count_up (suc from) k)

-- A node at which a line is added is reported as added just if all of its lines are, or the file is
-- new.
added_or_modified_lem :
    (fd : FileDiff) (n : Node)
    → ((added_or_modified fd n (matched fd n) ≡ change_added) × IsAdded fd n)
      ⊎ ((added_or_modified fd n (matched fd n) ≡ change_modified) × (¬ IsAdded fd n))
unfolding added_or_modified matched
added_or_modified_lem fd n =
    let test = contains fd.added_lines in
    let wide = n.end_line + 1 - n.start_line in
    let kept = length (keep test (lines_of n)) in
    let count = length-count_up n.start_line (n.end_line + 1 - n.start_line) in
    elim (Bool-cases fd.is_new) [
      | inl t ↦ inl (rw t refl, inl t)
      | inr f ↦
          elim (Bool-cases
            (leb (n.end_line + 1 - n.start_line) (length (keep test (lines_of n))))) [
              | inl t ↦ inl (
                rw (f, t) refl,
                inr (λ l w. (contains_iff fd.added_lines l).0 (
                    keep_whole test l (lines_of n) (omega (arith, leb→le wide kept t, count))
                      ((mem-lines_of l n).1 w))),
              )
              | inr few ↦ inr (
                rw (f, few) refl,
                λ added. elim added [
                  | inl t ↦ absurd (ground arith)
                  | inr all ↦ absurd (
                      omega (
                        arith,
                        leb→lt wide kept few,
                        count,
                        length-keep_whole test (lines_of n) (λ l m.
                            (contains_iff fd.added_lines l).1 (all l ((mem-lines_of l n).0 m))),
                      ))
                ],
              )
            ]
    ]

first_deleted-some :
    (fd : FileDiff) (n : Node) (ls : List ℕ) (c : ChangedSymbol)
    → first_deleted fd n ls ≡ some c
    → (c.change_type ≡ change_modified)
      × ((l : ℕ) × (c.matched_lines ≡ l ∷ []) × Memᴰ l ls × Memᴰ l fd.deleted_lines)
unfolding first_deleted
first_deleted-some fd n [] c q = cc
first_deleted-some fd n (l ∷ ls) c q = elim (Bool-cases (contains fd.deleted_lines l)) [
  | inl t ↦
      let r = rw t at q in
      (ground arith, (l, ground arith, Memᴰ.head refl, (contains_iff fd.deleted_lines l).0 t))
  | inr f ↦
      let (ct, (k, ml, at, del)) = first_deleted-some fd n ls c (rw f at q) in
      (ct, (k, ml, Memᴰ.tail at, del))
]

first_deleted-none :
    (fd : FileDiff) (n : Node) (l : ℕ) (ls : List ℕ)
    → first_deleted fd n ls ≡ none
    → Memᴰ l ls
    → ¬ Memᴰ l fd.deleted_lines
unfolding first_deleted
first_deleted-none fd n l [] q m = absurd (not-Memᴰ-nil m)
first_deleted-none fd n l (k ∷ ks) q m = λ d. elim (Bool-cases (contains fd.deleted_lines k)) [
  | inl t ↦ absurd (ground arith)
  | inr f ↦ elim (Memᴰ.cases_cons m) [
    | inl e ↦
        absurd (ground (arith, contains_iff fd.deleted_lines l, ap (contains fd.deleted_lines) e))
    | inr at ↦ first_deleted-none fd n l ks (rw f at q) at d
  ]
]

touched_lines-Describes :
    (fd : FileDiff) (n : Node) (ls : List ℕ) (c : ChangedSymbol)
    → fd.is_deleted ≡ false
    → matched fd n ≡ ls
    → touched_lines fd n ls ≡ some c
    → c.node ≡ n
    → Describes fd c
unfolding touched_lines
touched_lines-Describes fd n [] c f same q cn =
    let (ct, (l, ml, at, del)) = first_deleted-some fd n (lines_of n) c q in
    inr (
      inr (
        f,
        ct,
        (l, ml, subst (λ x. IsWithin x l) (sym cn) ((mem-lines_of l n).0 at), del),
        λ (k, within, plus). not-Memᴰ-nil (
            subst (λ xs. Memᴰ k xs) same
              ((mem-matched k fd n).1 (subst (λ x. IsWithin x k) cn within, plus))),
      ))
touched_lines-Describes fd n (l ∷ ls) c f same q cn =
    let lines : c.matched_lines ≡ matched fd n = ground arith in
    let kind : added_or_modified fd n (l ∷ ls) ≡ c.change_type = ground arith in
    inr (
      inl (
        f,
        λ none_matched. absurd (ground arith),
        subst
            (λ t.
              ((t ≡ change_added) × IsAdded fd c.node)
              ⊎ ((t ≡ change_modified) × (¬ IsAdded fd c.node)))
            (ap (added_or_modified fd n) same ∙ kind)
            (subst
              (λ x.
                ((added_or_modified fd n (matched fd n) ≡ change_added) × IsAdded fd x)
                ⊎ ((added_or_modified fd n (matched fd n) ≡ change_modified) × (¬ IsAdded fd x)))
              (sym cn) (added_or_modified_lem fd n)),
        λ k.
            subst (λ xs. Memᴰ k xs ↔ (IsWithin c.node k × Memᴰ k fd.added_lines)) (sym lines)
              (subst (λ x. Memᴰ k (matched fd n) ↔ (IsWithin x k × Memᴰ k fd.added_lines)) (sym cn)
                (mem-matched k fd n)),
      ))

pub change_of-Describes :
    (fd : FileDiff) (n : Node) (c : ChangedSymbol)
    → change_of fd n ≡ some c
    → c.node ≡ n
    → Describes fd c
unfolding change_of
change_of-Describes fd n c q cn = elim (Bool-cases fd.is_deleted) [
  | inl t ↦ let r = rw t at q in inl (t, ground arith, ground arith)
  | inr f ↦ touched_lines-Describes fd n (matched fd n) c f refl (rw f at q) cn
]

touched_lines-some :
    (fd : FileDiff) (n : Node) (l : ℕ) (ls : List ℕ)
    → IsWithin n l
    → (Memᴰ l ls ⊎ Memᴰ l fd.deleted_lines)
    → (c : ChangedSymbol) × (touched_lines fd n ls ≡ some c)
unfolding touched_lines
touched_lines-some fd n l (k ∷ ks) within m = (_, refl)
touched_lines-some fd n l [] within (inl m) = absurd (not-Memᴰ-nil m)
touched_lines-some fd n l [] within (inr m) =
    elim (Option-cases (first_deleted fd n (lines_of n))) [
      | inl q ↦ absurd (first_deleted-none fd n l (lines_of n) q ((mem-lines_of l n).1 within) m)
      | inr found ↦ found
    ]

-- The diff changes every node that it touches.
pub change_of-some :
    (fd : FileDiff) (n : Node) → IsTouched fd n → (c : ChangedSymbol) × (change_of fd n ≡ some c)
unfolding change_of
change_of-some fd n touched = elim (Bool-cases fd.is_deleted) [
  | inl t ↦ rw t (_, refl)
  | inr f ↦ rw f (go f touched)
]
  where
    go :
        fd.is_deleted ≡ false
        → IsTouched fd n
        → (c : ChangedSymbol) × (touched_lines fd n (matched fd n) ≡ some c)
    go f (inl t) = absurd (ground arith)
    go f (inr (l, within, inl m)) =
        touched_lines-some fd n l (matched fd n) within (inl ((mem-matched l fd n).1 (within, m)))
    go f (inr (l, within, inr m)) = touched_lines-some fd n l (matched fd n) within (inr m)

mem-or_all :
    (db : Db) (p : Str) (n : Node) (ns : List Node)
    → (Memᴰ n ns ↔ (Memᴰ n (values db.nodes) × (n.file_path ≡ p)))
    → Memᴰ n (or_all db p ns) ↔ (Memᴰ n (values db.nodes) × (n.file_path ≡ p))
unfolding or_all all_nodes
mem-or_all db p n (x ∷ ns) h = h
mem-or_all db p n [] h =
    let (to, of) = Memᴰ-keep (λ x. x.file_path == p) n (sort_by node_id_less (values db.nodes)) in
    let (sto, sof) = Memᴰ-sort_by node_id_less n (values db.nodes) in
    let (is, was) = eq_iff n.file_path p in
    (λ m. let (a, b) = to m in (sto a, is b), λ (a, b). of (sof a, was b))

-- The nodes of a file are the stored nodes with its path.
pub mem-file_nodes :
    (db : Db) (p : Str) (n : Node)
    → Memᴰ n (file_nodes db p) ↔ (Memᴰ n (values db.nodes) × (n.file_path ≡ p))
unfolding file_nodes nodes_in_file
mem-file_nodes db p n =
    let in_file = keep (λ x. x.file_path == p) (values db.nodes) in
    let (to, of) = Memᴰ-keep (λ x. x.file_path == p) n (values db.nodes) in
    let (is, was) = eq_iff n.file_path p in
    mem-or_all db p n (nodes_in_file db p) (
      λ m. let (a, b) = to ((Memᴰ-sort_by in_file_less n in_file).0 m) in (a, is b),
      λ (a, b). (Memᴰ-sort_by in_file_less n in_file).1 (of (a, was b)),
    )
