-- ===== src/Server/Session/Safe.antt =====
-- pkg/mcp_server/session.go: the calls on a session, and what openSession keeps of them.
use graph_context.Base.{
  ℕ, zero, suc, ◌+◌, ◌<◌, ◌≡◌, refl, sym, ap, ◌∙◌, subst, List, [], ◌∷◌, Str, str_eq, nat_eq,
  nat_beq, nat_beq_iff, Bool, true, false, none, some, lookup, insert, lookup-insert, if◌then◌else◌,
  ◌==◌, eq_iff, Bool-cases, inl, inr, arith,
}
use mathlib.Core.Option.{some-injective}
use graph_context.Server.Session.{Session, Server, touch, new_session, add_session}

-- The number of calls on a session.
abbrev pub calls_on : ℕ → List ℕ → ℕ
calls_on id [] = 0
calls_on id (i ∷ is) = if nat_beq i id then suc (calls_on id is) else calls_on id is

-- As long as the server is not down, a session with a call in flight is open.
pub record IsSafe (down : Bool) (v : Server) : Type 0 where
  pub counted : (i : ℕ) (s : Session) → lookup i v.heap ≡ some s → s.in_use ≡ calls_on i v.calls
  pub held :
      (i : ℕ)
      → 0 < calls_on i v.calls
      → (s : Session) × (lookup i v.heap ≡ some s) × (down ≡ false → s.closed ≡ false)
  pub tabled :
      (p : Str) (i : ℕ)
      → lookup p v.sessions ≡ some i
      → (s : Session) × (lookup i v.heap ≡ some s) × (s.closed ≡ false) × (s.path ≡ p)
  pub below : (i : ℕ) (s : Session) → lookup i v.heap ≡ some s → i < v.next

abbrev pub put : ℕ → Session → List ℕ → Server → Server
put id s calls v = record v { heap = insert id s v.heap; calls = calls }

pub lookup-put :
    (id i : ℕ) (s : Session) (m : List (ℕ × Session))
    → lookup i (insert id s m) ≡ (if nat_beq id i then some s else lookup i m)
lookup-put id i s m = lookup-insert id i s m

-- A session that is open is changed, and with it the calls on it.
pub put-IsSafe :
    (down : Bool) (v : Server) (id : ℕ) (s t : Session) (calls : List ℕ)
    → IsSafe down v
    → lookup id v.heap ≡ some s
    → t.closed ≡ s.closed
    → (down ≡ false → s.closed ≡ false)
    → t.path ≡ s.path
    → t.in_use ≡ calls_on id calls
    → ((i : ℕ) → nat_beq id i ≡ false → calls_on i calls ≡ calls_on i v.calls)
    → IsSafe down (put id t calls v)
put-IsSafe down v id s t calls h q still alive same count others = record {
  counted = λ i x e. elim (Bool-cases (nat_beq id i)) [
    | inl y ↦
        let tx = some-injective t x (rw y at (sym (lookup-put id i t v.heap) ∙ e)) in
        ap (λ (z : Session). z.in_use) (sym tx)
        ∙ count
        ∙ ap (λ j. calls_on j calls) ((nat_beq_iff id i).0 y)
    | inr n ↦ h.counted i x (rw n at (sym (lookup-put id i t v.heap) ∙ e)) ∙ sym (others i n)
  ];
  held = λ i c. elim (Bool-cases (nat_beq id i)) [
    | inl y ↦ (t, lookup-put id i t v.heap ∙ (rw y refl), λ up. still ∙ alive up)
    | inr n ↦
        let (x, e, o) = h.held i (subst (λ k. 0 < k) (others i n) c) in
        (x, lookup-put id i t v.heap ∙ (rw n e), o)
  ];
  tabled = λ p i e.
      let (x, found, o, path) = h.tabled p i e in
      elim (Bool-cases (nat_beq id i)) [
        | inl y ↦
            let sx =
              some-injective s x
                (sym q ∙ ap (λ j. lookup j v.heap) ((nat_beq_iff id i).0 y) ∙ found) in
            (
              t,
              lookup-put id i t v.heap ∙ (rw y refl),
              still ∙ ap (λ (z : Session). z.closed) sx ∙ o,
              same ∙ ap (λ (z : Session). z.path) sx ∙ path,
            )
        | inr n ↦ (x, lookup-put id i t v.heap ∙ (rw n found), o, path)
      ];
  below = λ i x e. elim (Bool-cases (nat_beq id i)) [
    | inl y ↦ subst (λ j. j < v.next) ((nat_beq_iff id i).0 y) (h.below id s q)
    | inr n ↦ h.below i x (rw n at (sym (lookup-put id i t v.heap) ∙ e))
  ];
}

pub touch-IsSafe :
    (down hold : Bool) (now id : ℕ) (s : Session) (v : Server)
    → IsSafe down v
    → lookup id v.heap ≡ some s
    → (down ≡ false → s.closed ≡ false)
    → IsSafe down (touch hold now id s v)
unfolding touch
touch-IsSafe down true now id s v h q alive =
    put-IsSafe down v id s (record s { last_used = now; in_use = s.in_use + 1 }) (id ∷ v.calls) h q
      refl alive refl (rw ((nat_beq_iff id id).1 refl) (omega (arith, h.counted id s q)))
      (λ i n. rw n refl)
touch-IsSafe down false now id s v h q alive =
    put-IsSafe down v id s (record s { last_used = now }) v.calls h q refl alive refl
      (h.counted id s q) (λ i n. refl)

pub add_session-IsSafe :
    (down : Bool) (path : Str) (v : Server)
    → IsSafe down v
    → lookup path v.sessions ≡ none
    → IsSafe down (add_session path v)
unfolding add_session
add_session-IsSafe down path v h missing = record {
  counted = λ i x e. elim (Bool-cases (nat_beq v.next i)) [
    | inl y ↦
        let sx =
          some-injective (new_session path) x (rw y at (sym (lookup-put v.next i _ v.heap) ∙ e)) in
        ap (λ (z : Session). z.in_use) (sym sx) ∙ sym (idle i y)
    | inr n ↦ h.counted i x (rw n at (sym (lookup-put v.next i _ v.heap) ∙ e))
  ];
  held = λ i c.
      let (x, e, o) = h.held i c in
      (x, lookup-put v.next i (new_session path) v.heap ∙ (rw (other i x e) e), o);
  tabled = λ p i e. elim (Bool-cases (path == p)) [
    | inl y ↦
        let at =
          some-injective v.next i (rw y at (sym (lookup-insert path p v.next v.sessions) ∙ e)) in
        (
          new_session path,
          subst (λ j. lookup j (insert v.next (new_session path) v.heap) ≡ some (new_session path))
              at
              (lookup-put v.next v.next (new_session path) v.heap
                ∙ (rw ((nat_beq_iff v.next v.next).1 refl) refl)),
          refl,
          (eq_iff path p).0 y,
        )
    | inr n ↦
        let (x, found, o, same) =
          h.tabled p i (rw n at (sym (lookup-insert path p v.next v.sessions) ∙ e)) in
        (x, lookup-put v.next i (new_session path) v.heap ∙ (rw (other i x found) found), o, same)
  ];
  below = λ i x e. elim (Bool-cases (nat_beq v.next i)) [
    | inl y ↦ omega (arith, (nat_beq_iff v.next i).0 y)
    | inr n ↦ omega (arith, h.below i x (rw n at (sym (lookup-put v.next i _ v.heap) ∙ e)))
  ];
}
  where
    other : (i : ℕ) (x : Session) → lookup i v.heap ≡ some x → nat_beq v.next i ≡ false
    other i x e = ground (arith, h.below i x e, nat_beq_iff v.next i)

    idle : (i : ℕ) → nat_beq v.next i ≡ true → calls_on i v.calls ≡ 0
    idle i y = go (calls_on i v.calls) refl
      where
        go : (n : ℕ) → calls_on i v.calls ≡ n → n ≡ 0
        go zero q = refl
        go (suc n) q =
            let (x, e, o) = h.held i (omega (arith, q)) in
            let clash : true ≡ false = sym y ∙ other i x e in absurd (cc)
