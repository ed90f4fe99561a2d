-- ===== src/Analysis/Reach/Walk.antt =====
-- The walks of a view, counted by their edges, against which the search is judged.
use graph_context.Base.{ℕ, suc, ◌≤◌, ◌<◌, ◌≡◌, true, Str, str_eq, get_list, Memᴰ, lookup, some}
use graph_context.Store.Types.{Edge}
use graph_context.Analysis.Reach.{View, Reached}

module _ (w : View) where
  -- An edge of one of the kinds that leads from `u` to `v`.
  pub data Link (u v : Str) : Type 0 where
    link : (e : Edge) → Memᴰ e (get_list u w.adj) → w.kinds e.kind ≡ true → v ≡ w.far e → Link u v

  pub data Walk (seed : Str) : ℕ → Str → Type 0 where
    here : Walk seed 0 seed
    step : {k : ℕ} {u v : Str} → Walk seed k u → Link u v → Walk seed (suc k) v

  -- No walk to `v` is shorter than `d`.
  abbrev pub IsLeast : Str → Str → ℕ → Type 0
  IsLeast seed v d = (k : ℕ) → Walk seed k v → d ≤ k

  -- The result stands for a node of the graph, at its distance from the seed.
  pub record IsNearest (seed : Str) (r : Reached) : Type 0 where
    pub key : Str
    pub found : lookup key w.nodes ≡ some r.node
    pub walk : Walk seed r.depth key
    pub least : IsLeast seed key r.depth
    pub positive : 0 < r.depth
