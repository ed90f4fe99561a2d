-- ===== src/Resolver/Types/Ends.antt =====
-- pkg/resolver/types.go: the searches through the base types end within their rounds.
use graph_context.Base.{
  ℕ, zero, suc, ◌+◌, ◌≤◌, ◌<◌, ◌≡◌, refl, subst, List, [], ◌∷◌, ◌++◌, Str, str_eq, false, not,
  Option, some, get_list, get_list-cons, lookup2, contains, length, length-append, length-keep,
  fresh, fresh-lt, Memᴰ, not-Memᴰ-nil, Bool-cases, inl, inr, if◌then◌else◌, ◌==◌, arith,
}
use mathlib.Core.List.Memᴰ
use graph_context.Store.Types.{Node}
use graph_context.Resolver.Index.{Index}
use graph_context.Resolver.Types.{
  text_at, all_bases, climb_rounds, FieldScan, going, found, scan_fields, climb_fields, MethodScan,
  add_result, scan_methods, climb_methods,
}

mem-all_bases :
    (t b : Str) (m : List (Str × List Str)) → Memᴰ b (get_list t m) → Memᴰ b (all_bases m)
mem-all_bases t b [] h = absurd (not-Memᴰ-nil h)
mem-all_bases t b ((k, bs) ∷ m) h =
    split (mem-all_bases t b m) (subst (Memᴰ b) (get_list-cons k t bs m) h)
  where
    split :
        (Memᴰ b (get_list t m) → Memᴰ b (all_bases m))
        → Memᴰ b (if k == t then bs else get_list t m)
        → Memᴰ b (bs ++ all_bases m)
    split rest h = elim (Bool-cases (k == t)) [
      | inl y ↦ Memᴰ.append_left _ (rw y at h)
      | inr n ↦ Memᴰ.append_right bs (rest (rw n at h))
    ]

-- What is left to do: the bases that are not visited, and the queue.
abbrev pub left : List Str → List Str → List Str → ℕ
left universe visited queue = fresh visited universe + length queue

left-visit :
    (universe visited queue : List Str) (b : Str)
    → Memᴰ b universe
    → contains visited b ≡ false
    → left universe (b ∷ visited) (queue ++ b ∷ []) ≤ left universe visited queue
left-visit universe visited queue b m f =
    omega (arith, fresh-lt b visited universe m f, length-append queue (b ∷ []))

abbrev pub Shrinks : List Str → ℕ → FieldScan → Type 0
Shrinks universe n (found t) = Unit
Shrinks universe n (going visited queue) = left universe visited queue ≤ n

module _ (idx : Index) (member : Str) where
  abbrev bases : List Str
  bases = all_bases idx.type_bases

  scan_fields-Shrinks :
      (n : ℕ) (visited queue bs : List Str)
      → ((b : Str) → Memᴰ b bs → Memᴰ b bases)
      → left bases visited queue ≤ n
      → Shrinks bases n (scan_fields idx member visited queue bs)
  unfolding scan_fields
  scan_fields-Shrinks n visited queue [] m le = le
  scan_fields-Shrinks n visited queue (b ∷ bs) m le = elim (Bool-cases (contains visited b)) [
    | inl y ↦ rw y (scan_fields-Shrinks n visited queue bs (λ x at. m x (Memᴰ.tail at)) le)
    | inr f ↦
        let rest =
          scan_fields-Shrinks n (b ∷ visited) (queue ++ b ∷ []) bs (λ x at. m x (Memᴰ.tail at))
            (omega (arith, left-visit bases visited queue b (m b (Memᴰ.head refl)) f)) in
        rw f (go (text_at (b ++ b'.' ∷ member) idx.type_fields) rest)
  ]
    where
      go :
          (t : Str)
          → Shrinks bases n (scan_fields idx member (b ∷ visited) (queue ++ b ∷ []) bs)
          → Shrinks bases n (elim t [
            | [] ↦ scan_fields idx member (b ∷ visited) (queue ++ b ∷ []) bs
            | c ∷ s ↦ found (c ∷ s)
          ])
      go [] rest = rest
      go (c ∷ s) rest = tt

  climb_fields-returns :
      (fuel : ℕ) (visited queue : List Str)
      → left bases visited queue < fuel
      → (t : Str) × (climb_fields idx member fuel visited queue ≡ some t)
  unfolding climb_fields
  climb_fields-returns fuel visited [] h = ([], refl)
  climb_fields-returns zero visited (t ∷ queue) h = absurd (omega arith)
  climb_fields-returns (suc fuel) visited (t ∷ queue) h =
      go (scan_fields idx member visited queue (get_list t idx.type_bases))
        (scan_fields-Shrinks (left bases visited queue) visited queue (get_list t idx.type_bases)
          (λ b at. mem-all_bases t b idx.type_bases at) (omega arith))
        (climb_fields-returns fuel)
    where
      go :
          (r : FieldScan)
          → Shrinks bases (left bases visited queue) r
          → ((v q : List Str)
              → left bases v q < fuel
              → (x : Str) × (climb_fields idx member fuel v q ≡ some x))
          → (x : Str) × (elim r [
            | found ft ↦ some ft
            | going visited' queue' ↦ climb_fields idx member fuel visited' queue'
          ]
              ≡ some x)
      go (found ft) le rec = (ft, refl)
      go (going v q) le rec = rec v q (omega arith)

  -- The search for a field through the base types of a type ends within its rounds.
  pub climb_fields-climb_rounds :
      (type_name : Str)
      → (t : Str) × (climb_fields idx member (climb_rounds idx) (type_name ∷ []) (type_name ∷ [])
          ≡ some t)
  climb_fields-climb_rounds type_name =
      climb_fields-returns (climb_rounds idx) (type_name ∷ []) (type_name ∷ [])
        (omega (arith, length-keep (λ b. not (contains (type_name ∷ []) b)) bases))

  scan_methods-left :
      (s : MethodScan) (bs : List Str)
      → ((b : Str) → Memᴰ b bs → Memᴰ b bases)
      → left bases (scan_methods idx member s bs).visited (scan_methods idx member s bs).queue
        ≤ left bases s.visited s.queue
  unfolding scan_methods
  scan_methods-left s [] m = omega arith
  scan_methods-left s (b ∷ bs) m = elim (Bool-cases (contains s.visited b)) [
    | inl y ↦ rw y (scan_methods-left s bs (λ x at. m x (Memᴰ.tail at)))
    | inr f ↦
        let next : MethodScan = record {
          visited = b ∷ s.visited;
          queue = s.queue ++ b ∷ [];
          results = add_result (lookup2 b member idx.type_methods) s.results;
        } in
        rw f (
          omega (
            arith,
            scan_methods-left next bs (λ x at. m x (Memᴰ.tail at)),
            left-visit bases s.visited s.queue b (m b (Memᴰ.head refl)) f,
          ))
  ]

  climb_methods-returns :
      (fuel : ℕ) (visited queue : List Str)
      → left bases visited queue < fuel
      → (ns : List Node) × (climb_methods idx member fuel visited queue ≡ some ns)
  unfolding climb_methods
  climb_methods-returns fuel visited [] h = ([], refl)
  climb_methods-returns zero visited (t ∷ queue) h = absurd (omega arith)
  climb_methods-returns (suc fuel) visited (t ∷ queue) h =
      let start : MethodScan = record { visited = visited; queue = queue; results = [] } in
      let s = scan_methods idx member start (get_list t idx.type_bases) in
      let le =
        scan_methods-left start (get_list t idx.type_bases)
          (λ b at. mem-all_bases t b idx.type_bases at) in
      go s.results (climb_methods-returns fuel s.visited s.queue (omega (arith, le)))
    where
      go :
          (results : List Node) {r : Option (List Node)}
          → ((ns : List Node) × (r ≡ some ns))
          → (ns : List Node) × (elim results [ n ∷ rest ↦ some (n ∷ rest) | [] ↦ r ] ≡ some ns)
      go [] h = h
      go (n ∷ rest) h = (n ∷ rest, refl)

  -- The search for a method through the base types of a type ends within its rounds.
  pub climb_methods-climb_rounds :
      (type_name : Str)
      → (ns : List Node) × (climb_methods idx member
            (climb_rounds idx)
            (type_name ∷ [])
            (type_name ∷ [])
          ≡ some ns)
  climb_methods-climb_rounds type_name =
      climb_methods-returns (climb_rounds idx) (type_name ∷ []) (type_name ∷ [])
        (omega (arith, length-keep (λ b. not (contains (type_name ∷ []) b)) bases))
