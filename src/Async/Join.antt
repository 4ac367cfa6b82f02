-- ===== src/Async/Join.antt =====
-- `futures::future::join_all`: all futures are awaited, and their results are kept in order.
use kakarot_rpc_adapter.Prelude.{List, [], ◌∷◌, ◌⊎◌}
use kakarot_rpc_adapter.Async.{Async, pure, attempt, ◌>>=◌}

-- The futures one after the other. That is one of the orders in which their requests can reach the
-- node.
unfoldable pub join_all : {E A : Type 0} → List (Async E A) → Async E (List (E ⊎ A))
join_all [] = pure []
join_all (m ∷ ms) = do r ← attempt m; rs ← join_all ms; pure (r ∷ rs)
