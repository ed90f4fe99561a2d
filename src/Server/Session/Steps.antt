-- ===== src/Server/Session/Steps.antt =====
-- pkg/mcp_server/session.go: no session is closed under a call, but at the end of the server.
use graph_context.Base.{
  ℕ, ◌-◌, ◌<◌, ◌≡◌, refl, sym, ap, ◌∙◌, subst, List, [], ◌∷◌, Str, str_eq, nat_eq, nat_beq,
  nat_beq_iff, Bool, true, false, Option, none, some, lookup, lookup-delete, map, if◌then◌else◌,
  ◌==◌, eq_iff, Bool-cases, inl, inr, arith,
}
use mathlib.Core.Option.{some-injective, none-ne-some}
use graph_context.Server.Session.{
  Session, Server, new_server, new_session, add_session, refresh_graph, found_or_new, open_session,
  drop_call, release_session, release, close_session, stays_open, evict_session, evict_found,
  evict_path, evict_paths, evict_idle_sessions, close_found, close_path, close_paths,
  close_all_sessions,
}
use graph_context.Server.Session.Safe.{
  calls_on, IsSafe, lookup-put, put-IsSafe, touch-IsSafe, add_session-IsSafe,
}

refresh_graph-IsSafe :
    (down fresh hold : Bool) (now id : ℕ) (s : Session) (v : Server)
    → IsSafe down v
    → lookup id v.heap ≡ some s
    → (down ≡ false → s.closed ≡ false)
    → IsSafe down (refresh_graph fresh hold now id (some s) v)
unfolding refresh_graph
refresh_graph-IsSafe down true hold now id s v h q alive =
    touch-IsSafe down hold now id s v h q alive
refresh_graph-IsSafe down false hold now id s v h q alive = h

open_session-IsSafe :
    (down opened fresh hold : Bool) (now : ℕ) (path : Str) (v : Server)
    → IsSafe down v
    → IsSafe down (open_session opened fresh hold now path v)
unfolding open_session add_session
open_session-IsSafe down opened fresh hold now path v h = go (lookup path v.sessions) refl
  where
    anew :
        (b : Bool)
        → lookup path v.sessions ≡ none
        → IsSafe down (
            if b
            then refresh_graph fresh hold now v.next (some (new_session path)) (add_session path v)
            else v)
    anew false q = h
    anew true q =
        refresh_graph-IsSafe down fresh hold now v.next (new_session path) (add_session path v)
          (add_session-IsSafe down path v h q)
          (lookup-put v.next v.next (new_session path) v.heap
            ∙ (rw ((nat_beq_iff v.next v.next).1 refl) refl))
          (λ _. refl)

    go :
        (o : Option ℕ)
        → lookup path v.sessions ≡ o
        → IsSafe down (found_or_new opened fresh hold now path o v)
    go none q = anew opened q
    go (some id) q =
        let (s, e, alive, same) = h.tabled path id q in
        subst (λ o. IsSafe down (refresh_graph fresh hold now id o v)) (sym e)
          (refresh_graph-IsSafe down fresh hold now id s v h e (λ _. alive))

calls_on-drop_call :
    (id i : ℕ) (is : List ℕ)
    → calls_on i (drop_call id is) ≡ (if nat_beq id i then calls_on i is - 1 else calls_on i is)
calls_on-drop_call id i [] = ground arith
calls_on-drop_call id i (j ∷ is) =
    ground (arith, calls_on-drop_call id i is, nat_beq_iff j id, nat_beq_iff j i, nat_beq_iff id i)

-- A call in flight is released.
release-IsSafe :
    (down : Bool) (now id : ℕ) (v : Server)
    → 0 < calls_on id v.calls
    → IsSafe down v
    → IsSafe down (release now id v)
unfolding release
release-IsSafe down now id v c h =
    let (s, e, alive) = h.held id c in
    subst (λ o. IsSafe down (release_session now id o v)) (sym e)
      (put-IsSafe down v id s (record s { last_used = now; in_use = s.in_use - 1 })
        (drop_call id v.calls) h e refl alive refl
        (ap (λ n. n - 1) (h.counted id s e)
          ∙ sym (calls_on-drop_call id id v.calls ∙ (rw ((nat_beq_iff id id).1 refl) refl)))
        (λ i n. calls_on-drop_call id i v.calls ∙ (rw n refl)))

close_session-IsSafe :
    (down : Bool) (path : Str) (id : ℕ) (s : Session) (v : Server)
    → IsSafe down v
    → lookup path v.sessions ≡ some id
    → lookup id v.heap ≡ some s
    → (down ≡ false → s.in_use ≡ 0)
    → IsSafe down (close_session path id s v)
unfolding close_session
close_session-IsSafe down path id s v h at q idle = record {
  counted = λ i x e. elim (Bool-cases (nat_beq id i)) [
    | inl y ↦
        let tx = some-injective t x (rw y at (sym (lookup-put id i t v.heap) ∙ e)) in
        ap (λ (z : Session). z.in_use) (sym tx)
        ∙ h.counted id s q
        ∙ ap (λ j. calls_on j v.calls) ((nat_beq_iff id i).0 y)
    | inr n ↦ h.counted i x (rw n at (sym (lookup-put id i t v.heap) ∙ e))
  ];
  held = λ i c. elim (Bool-cases (nat_beq id i)) [
    | inl y ↦ (
      t,
      lookup-put id i t v.heap ∙ (rw y refl),
      λ up. absurd (
          omega (
            arith,
            c,
            h.counted id s q,
            idle up,
            ap (λ j. calls_on j v.calls) ((nat_beq_iff id i).0 y),
          )),
    )
    | inr n ↦ let (x, e, o) = h.held i c in (x, lookup-put id i t v.heap ∙ (rw n e), o)
  ];
  tabled = λ p i e. elim (Bool-cases (path == p)) [
    | inl y ↦ absurd (none-ne-some _ (rw y at (sym (lookup-delete path p v.sessions) ∙ e)))
    | inr n ↦
        let (x, found, o, same) =
          h.tabled p i (rw n at (sym (lookup-delete path p v.sessions) ∙ e)) in
        elim (Bool-cases (nat_beq id i)) [
          | inl y ↦
              let (z, found', o', mine) = h.tabled path id at in
              let zx =
                some-injective z x
                  (sym found' ∙ ap (λ j. lookup j v.heap) ((nat_beq_iff id i).0 y) ∙ found) in
              let clash : true ≡ false =
                sym ((eq_iff path p).1 (sym mine ∙ ap (λ (w : Session). w.path) zx ∙ same)) ∙ n in
              absurd (cc)
          | inr m ↦ (x, lookup-put id i t v.heap ∙ (rw m found), o, same)
        ]
  ];
  below = λ i x e. elim (Bool-cases (nat_beq id i)) [
    | inl y ↦ subst (λ j. j < v.next) ((nat_beq_iff id i).0 y) (h.below id s q)
    | inr n ↦ h.below i x (rw n at (sym (lookup-put id i t v.heap) ∙ e))
  ];
}
  where
    t : Session
    t = record s { closed = true }

evict_path-IsSafe :
    (down : Bool) (now ttl : ℕ) (path : Str) (v : Server)
    → IsSafe down v
    → IsSafe down (evict_path now ttl path v)
unfolding evict_path
evict_path-IsSafe down now ttl path v h = go (lookup path v.sessions) refl
  where
    one :
        (id : ℕ) (o : Option Session)
        → lookup path v.sessions ≡ some id
        → lookup id v.heap ≡ o
        → IsSafe down (evict_session now ttl path id o v)
    one id none at q = h
    one id (some s) at q = elim (Bool-cases (stays_open now ttl s)) [
      | inl y ↦ rw y h
      | inr n ↦ rw n (close_session-IsSafe down path id s v h at q (λ _. ground arith))
    ]

    go : (o : Option ℕ) → lookup path v.sessions ≡ o → IsSafe down (evict_found now ttl path o v)
    go none q = h
    go (some id) q = one id (lookup id v.heap) q refl

evict_paths-IsSafe :
    (down : Bool) (now ttl : ℕ) (ps : List Str) (v : Server)
    → IsSafe down v
    → IsSafe down (evict_paths now ttl ps v)
unfolding evict_paths
evict_paths-IsSafe down now ttl [] v h = h
evict_paths-IsSafe down now ttl (p ∷ ps) v h =
    evict_paths-IsSafe down now ttl ps (evict_path now ttl p v)
      (evict_path-IsSafe down now ttl p v h)

close_path-IsSafe :
    (path : Str) (v : Server)
    → IsSafe true v
    → IsSafe true (close_path path (lookup path v.sessions) v)
unfolding close_found
close_path-IsSafe path v h = go (lookup path v.sessions) refl
  where
    go : (o : Option ℕ) → lookup path v.sessions ≡ o → IsSafe true (close_path path o v)
    go none q = h
    go (some id) q =
        let (s, e, alive, same) = h.tabled path id q in
        subst (λ o. IsSafe true (close_found path id o v)) (sym e)
          (close_session-IsSafe true path id s v h q e (λ up. absurd (ground arith)))

close_paths-IsSafe : (ps : List Str) (v : Server) → IsSafe true v → IsSafe true (close_paths ps v)
unfolding close_paths
close_paths-IsSafe [] v h = h
close_paths-IsSafe (p ∷ ps) v h =
    close_paths-IsSafe ps (close_path p (lookup p v.sessions) v) (close_path-IsSafe p v h)

-- From then on a session with a call may be closed.
IsSafe-down : {down : Bool} {v : Server} → IsSafe down v → IsSafe true v
IsSafe-down h = record {
  counted = h.counted;
  held = λ i c. let (s, e, o) = h.held i c in (s, e, λ up. absurd (ground arith));
  tabled = h.tabled;
  below = h.below;
}

-- What the lock lets run, in any order: a session is opened, with or without a call that holds it, a
-- call on it ends, idle sessions are evicted, and when the server goes down all sessions are closed.
-- The first state of a step tells whether the server is down.
pub data Step : Bool → Server → Bool → Server → Type 0 where
  opening :
      {down : Bool} (opened fresh hold : Bool) (now : ℕ) (path : Str) (v : Server)
      → Step down v down (open_session opened fresh hold now path v)
  releasing :
      {down : Bool} (now id : ℕ) (v : Server)
      → 0 < calls_on id v.calls
      → Step down v down (release now id v)
  evicting :
      {down : Bool} (now ttl : ℕ) (v : Server) → Step down v down (evict_idle_sessions now ttl v)
  closing : {down : Bool} (v : Server) → Step down v true (close_all_sessions v)

pub data Reach : Bool → Server → Type 0 where
  start : Reach false new_server
  next : {b c : Bool} {v w : Server} → Reach b v → Step b v c w → Reach c w

Step-IsSafe : {b c : Bool} {v w : Server} → Step b v c w → IsSafe b v → IsSafe c w
unfolding evict_idle_sessions close_all_sessions
Step-IsSafe {b = b} (opening opened fresh hold now path v) h =
    open_session-IsSafe b opened fresh hold now path v h
Step-IsSafe {b = b} (releasing now id v c) h = release-IsSafe b now id v c h
Step-IsSafe {b = b} (evicting now ttl v) h =
    evict_paths-IsSafe b now ttl (map (λ (p, _). p) v.sessions) v h
Step-IsSafe (closing v) h = close_paths-IsSafe (map (λ (p, _). p) v.sessions) v (IsSafe-down h)

-- In every state that calls, their ends, evictions and the closing of all sessions at the end of the
-- server can lead to, in whatever order, the count of a session is the number of the calls in flight
-- on it, and the session found for a project is an open one of this project; and as long as the
-- sessions were not all closed, each with a call in flight is open.
pub Reach-IsSafe : {down : Bool} {v : Server} → Reach down v → IsSafe down v
Reach-IsSafe start = record {
  counted = λ i s q. absurd (none-ne-some _ q);
  held = λ i c. absurd (omega (arith, c));
  tabled = λ p i q. absurd (none-ne-some _ q);
  below = λ i s q. absurd (none-ne-some _ q);
}
Reach-IsSafe (next r s) = Step-IsSafe s (Reach-IsSafe r)
