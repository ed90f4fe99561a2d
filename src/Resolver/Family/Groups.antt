-- ===== src/Resolver/Family/Groups.antt =====
-- pkg/resolver/resolver.go: the files by their language family, and the nodes of all families.
use graph_context.Base.{
  ℕ, ◌+◌, ◌≡◌, refl, sym, ap, ◌∙◌, subst, List, [], ◌∷◌, ◌++◌, ◌↔◌, Str, str_eq, Bool, false, none,
  lookup, insert, get_list, get_list-push, get_list-cons, push, map, contains, sort_by, insert_by,
  Memᴰ, Memᴰ-sort_by, not-Memᴰ-nil, IsMap, IsMap-insert, All, AllValues, AllValues-push,
  AllValues-get_list, All-mem, mem-All, Bool-cases, inl, inr, if◌then◌else◌, ◌==◌, eq_iff, arith,
}
use mathlib.Core.List.Memᴰ
use graph_context.Store.Types.{Node}
use graph_context.Lang.Ir.{LangIr}
use graph_context.Lang.Registry.{family}
use graph_context.Resolver.Index.Nodes.{nodes_of}
use graph_context.Resolver.Refs.Stats.{ref_count}
use graph_context.Resolver.Family.{group_files}

abbrev pub Groups : Type 0
Groups = List (Str × List LangIr)

abbrev pub families_of : Groups → List Str
families_of m = map (λ (k, _). k) m

-- The nodes and the number of references of the families, in their order.
abbrev pub group_nodes : Groups → List Str → List Node
group_nodes m [] = []
group_nodes m (k ∷ ks) = nodes_of (get_list k m) ++ group_nodes m ks

abbrev pub group_refs : Groups → List Str → ℕ
group_refs m [] = 0
group_refs m (k ∷ ks) = ref_count (get_list k m) + group_refs m ks

ref_count-append : (fs gs : List LangIr) → ref_count (fs ++ gs) ≡ ref_count fs + ref_count gs
ref_count-append [] gs = omega arith
ref_count-append (f ∷ fs) gs = omega (arith, ref_count-append fs gs)

group_refs-insert_by :
    (m : Groups) (less : Str → Str → Bool) (k : Str) (ks : List Str)
    → group_refs m (insert_by less k ks) ≡ ref_count (get_list k m) + group_refs m ks
group_refs-insert_by m less k [] = refl
group_refs-insert_by m less k (j ∷ ks) = elim (Bool-cases (less j k)) [
  | inl t ↦ rw t (omega (arith, group_refs-insert_by m less k ks))
  | inr f ↦ rw f refl
]

pub group_refs-sort_by :
    (m : Groups) (less : Str → Str → Bool) (ks : List Str)
    → group_refs m (sort_by less ks) ≡ group_refs m ks
group_refs-sort_by m less [] = refl
group_refs-sort_by m less (k ∷ ks) =
    omega (arith, group_refs-insert_by m less k (sort_by less ks), group_refs-sort_by m less ks)

-- Keys other than k read the rest of the map.
group_refs-cons :
    (m : Groups) (k : Str) (vs : List LangIr) (ks : List Str)
    → contains ks k ≡ false
    → group_refs ((k, vs) ∷ m) ks ≡ group_refs m ks
group_refs-cons m k vs [] h = refl
group_refs-cons m k vs (j ∷ ks) h =
    ground (arith, group_refs-cons m k vs ks, get_list-cons k j vs m, eq_iff k j, eq_iff j k)

abbrev row_refs : Groups → ℕ
row_refs [] = 0
row_refs ((k, vs) ∷ m) = ref_count vs + row_refs m

row_refs-insert :
    (k : Str) (vs : List LangIr) (m : Groups)
    → row_refs (insert k vs m) + ref_count (get_list k m) ≡ row_refs m + ref_count vs
row_refs-insert k vs [] = omega arith
row_refs-insert k vs ((j, ws) ∷ m) = ground (arith, row_refs-insert k vs m, get_list-cons j k ws m)

row_refs-group_files :
    (fs : List LangIr) (m : Groups) → row_refs (group_files fs m) ≡ row_refs m + ref_count fs
unfolding group_files
row_refs-group_files [] m = omega arith
row_refs-group_files (f ∷ fs) m =
    let k = family f.language in
    omega (
      arith,
      row_refs-group_files fs (push k f m),
      row_refs-insert k (get_list k m ++ f ∷ []) m,
      ref_count-append (get_list k m) (f ∷ []),
    )

group_files-IsMap : (fs : List LangIr) (m : Groups) → IsMap m → IsMap (group_files fs m)
unfolding group_files
group_files-IsMap [] m h = h
group_files-IsMap (f ∷ fs) m h =
    let k = family f.language in
    group_files-IsMap fs (push k f m) (IsMap-insert k (get_list k m ++ f ∷ []) m h)

contains-families_of :
    (k : Str) (m : Groups) → lookup k m ≡ none → contains (families_of m) k ≡ false
contains-families_of k [] h = refl
contains-families_of k ((j, vs) ∷ m) h = elim (Bool-cases (j == k)) [
  | inl t ↦ cc (rw t at h)
  | inr f ↦ rw f (contains-families_of k m (rw f at h))
]

get_list-here : (k : Str) (vs : List LangIr) (m : Groups) → get_list k ((k, vs) ∷ m) ≡ vs
get_list-here k vs m = ground (arith, get_list-cons k k vs m, eq_iff k k)

group_refs-families_of : (m : Groups) → IsMap m → group_refs m (families_of m) ≡ row_refs m
group_refs-families_of [] h = refl
group_refs-families_of ((k, vs) ∷ m) h = omega (
  arith,
  group_refs-cons m k vs (families_of m) (contains-families_of k m h.0),
  group_refs-families_of m h.1,
  ap ref_count (get_list-here k vs m),
)

-- The families hold all references of the files.
pub group_refs-group_files :
    (fs : List LangIr)
    → group_refs (group_files fs []) (families_of (group_files fs [])) ≡ ref_count fs
group_refs-group_files fs = omega (
  arith,
  group_refs-families_of (group_files fs []) (group_files-IsMap fs [] tt),
  row_refs-group_files fs [],
)

-- The files of the families are those given.
pub AllRows-group_files :
    (P : LangIr → Type 0) (fs : List LangIr) (m : Groups)
    → All P fs
    → AllValues (All P) m
    → AllValues (All P) (group_files fs m)
unfolding group_files
AllRows-group_files P [] m h k = k
AllRows-group_files P (f ∷ fs) m h k =
    AllRows-group_files P fs (push (family f.language) f m) h.1
      (AllValues-push P (family f.language) f m h.0 k)

-- A file of the group stays in it.
Memᴰ-get_list-push :
    (f g : LangIr) (k j : Str) (m : Groups)
    → Memᴰ f (get_list j m)
    → Memᴰ f (get_list j (push k g m))
Memᴰ-get_list-push f g k j m h = elim (Bool-cases (k == j)) [
  | inl t ↦ rw (get_list-push k j g m) (
      rw t
        (Memᴰ.append_left (g ∷ []) (subst (λ i. Memᴰ f (get_list i m)) (sym ((eq_iff k j).0 t)) h)))
  | inr no_match ↦ rw (get_list-push k j g m) (rw no_match h)
]

Memᴰ-group_files-kept :
    (f : LangIr) (j : Str) (fs : List LangIr) (m : Groups)
    → Memᴰ f (get_list j m)
    → Memᴰ f (get_list j (group_files fs m))
unfolding group_files
Memᴰ-group_files-kept f j [] m h = h
Memᴰ-group_files-kept f j (g ∷ fs) m h =
    Memᴰ-group_files-kept f j fs (push (family g.language) g m)
      (Memᴰ-get_list-push f g (family g.language) j m h)

Memᴰ-group_files :
    (f : LangIr) (fs : List LangIr) (m : Groups)
    → Memᴰ f fs
    → Memᴰ f (get_list (family f.language) (group_files fs m))
unfolding group_files
Memᴰ-group_files f [] m h = absurd (not-Memᴰ-nil h)
Memᴰ-group_files f (g ∷ fs) m h = elim (Memᴰ.cases_cons h) [
  | inr t ↦ Memᴰ-group_files f fs (push (family g.language) g m) t
  | inl q ↦ Memᴰ-group_files-kept f (family f.language) fs (push (family g.language) g m) (
      subst (λ (x : LangIr). Memᴰ f (get_list (family x.language) (push (family g.language) g m)))
        (sym q)
        (rw (get_list-push (family g.language) (family g.language) g m) (
          rw ((eq_iff (family g.language) (family g.language)).1 refl)
            (Memᴰ.append_right (get_list (family g.language) m) (Memᴰ.head q)))))
]

Memᴰ-nodes_of :
    (x : Node) (f : LangIr) (fs : List LangIr) → Memᴰ x f.nodes → Memᴰ f fs → Memᴰ x (nodes_of fs)
Memᴰ-nodes_of x f [] m h = absurd (not-Memᴰ-nil h)
Memᴰ-nodes_of x f (g ∷ fs) m h = elim (Memᴰ.cases_cons h) [
  | inl q ↦ Memᴰ.append_left (nodes_of fs) (subst (λ (y : LangIr). Memᴰ x y.nodes) q m)
  | inr t ↦ Memᴰ.append_right g.nodes (Memᴰ-nodes_of x f fs m t)
]

file_of :
    (x : Node) (fs : List LangIr) → Memᴰ x (nodes_of fs) → (f : LangIr) × Memᴰ f fs × Memᴰ x f.nodes
file_of x [] h = absurd (not-Memᴰ-nil h)
file_of x (g ∷ fs) h = elim (Memᴰ.append_cases g.nodes h) [
  | inl l ↦ (g, Memᴰ.head refl, l)
  | inr r ↦ let (f, m, at) = file_of x fs r in (f, Memᴰ.tail m, at)
]

Memᴰ-group_nodes :
    (x : Node) (k : Str) (m : Groups) (ks : List Str)
    → Memᴰ x (nodes_of (get_list k m))
    → Memᴰ k ks
    → Memᴰ x (group_nodes m ks)
Memᴰ-group_nodes x k m [] h at = absurd (not-Memᴰ-nil at)
Memᴰ-group_nodes x k m (j ∷ ks) h at = elim (Memᴰ.cases_cons at) [
  | inl q ↦ Memᴰ.append_left (group_nodes m ks) (subst (λ i. Memᴰ x (nodes_of (get_list i m))) q h)
  | inr t ↦ Memᴰ.append_right (nodes_of (get_list j m)) (Memᴰ-group_nodes x k m ks h t)
]

group_of :
    (x : Node) (m : Groups) (ks : List Str)
    → Memᴰ x (group_nodes m ks)
    → (k : Str) × Memᴰ x (nodes_of (get_list k m))
group_of x m [] h = absurd (not-Memᴰ-nil h)
group_of x m (j ∷ ks) h = elim (Memᴰ.append_cases (nodes_of (get_list j m)) h) [
  | inl l ↦ (j, l)
  | inr r ↦ group_of x m ks r
]

-- A key with files is a family of the map.
family_in : (f : LangIr) (k : Str) (m : Groups) → Memᴰ f (get_list k m) → Memᴰ k (families_of m)
family_in f k [] h = absurd (not-Memᴰ-nil h)
family_in f k ((j, vs) ∷ m) h = elim (Bool-cases (j == k)) [
  | inl t ↦ Memᴰ.head (sym ((eq_iff j k).0 t))
  | inr no_match ↦ Memᴰ.tail (
      family_in f k m (
        subst (Memᴰ f) (get_list-cons j k vs m ∙ ap (λ b. if b then vs else get_list k m) no_match)
          h))
]

-- The nodes of the families, in any order of these, are the nodes of the files.
pub Memᴰ-group_nodes-group_files :
    (x : Node) (less : Str → Str → Bool) (fs : List LangIr)
    → let m = group_files fs [] in
      Memᴰ x (group_nodes m (sort_by less (families_of m))) ↔ Memᴰ x (nodes_of fs)
Memᴰ-group_nodes-group_files x less fs = (there, back)
  where
    there :
        let m = group_files fs [] in
        Memᴰ x (group_nodes m (sort_by less (families_of m))) → Memᴰ x (nodes_of fs)
    there h =
        let m = group_files fs [] in
        let (k, at) = group_of x m (sort_by less (families_of m)) h in
        let (f, among, mine) = file_of x (get_list k m) at in
        Memᴰ-nodes_of x f fs mine (
          All-mem (λ g. Memᴰ g fs) (get_list k m)
            (AllValues-get_list (λ g. Memᴰ g fs) k m
              (AllRows-group_files (λ g. Memᴰ g fs) fs [] (mem-All (λ g. Memᴰ g fs) fs (λ g t. t))
                tt))
            among)

    back :
        let m = group_files fs [] in
        Memᴰ x (nodes_of fs) → Memᴰ x (group_nodes m (sort_by less (families_of m)))
    back h =
        let m = group_files fs [] in
        let (f, among, mine) = file_of x fs h in
        let k = family f.language in
        let at = Memᴰ-group_files f fs [] among in
        Memᴰ-group_nodes x k m (sort_by less (families_of m))
          (Memᴰ-nodes_of x f (get_list k m) mine at)
          ((Memᴰ-sort_by less k (families_of m)).1 (family_in f k m at))
