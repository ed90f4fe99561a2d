-- ===== src/Analysis/Reach/Order.antt =====
-- The order of the results: by depth, then by ID.
use graph_context.Base.{arith, str_lt-asym, str_lt-chain, IsOrder}
use graph_context.Analysis.Reach.{reached_less}

pub reached_less-IsOrder : IsOrder reached_less
unfolding reached_less
reached_less-IsOrder = record {
  asym = λ a b h. ground (arith, str_lt-asym a.node.id b.node.id);
  chain = λ a b c h k. ground (arith, str_lt-chain a.node.id b.node.id c.node.id);
}
