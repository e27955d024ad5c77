-- ===== src/Query/Tree.antt =====
-- The syntax tree of query_parser.hpp. The tagged struct QueryNode is a data type: a constructor for
-- each kind, with the payload fields that the kind uses.
use snow_seek.Prelude.{Bytes, List, max, ℕ, ◌+◌}
use snow_seek.Prelude.Int.{ℤ}

pub data ComparisonOperator : Type 0 where
  equal not_equal less less_equal greater greater_equal : ComparisonOperator

pub data QueryNode : Type 0 where
  term : Bytes → QueryNode
  prefix : Bytes → QueryNode
  phrase : List Bytes → ℕ → QueryNode
  path_filter : Bytes → QueryNode
  extension_filter : Bytes → QueryNode
  size_filter : Bytes → ComparisonOperator → ℕ → QueryNode
  mtime_filter : Bytes → ComparisonOperator → ℤ → QueryNode
  conjunction : QueryNode → QueryNode → QueryNode
  disjunction : QueryNode → QueryNode → QueryNode
  negation : QueryNode → QueryNode

-- The number of nodes from the root to the deepest leaf.
unfoldable pub expression_depth : QueryNode → ℕ
expression_depth (conjunction l r) = 1 + max (expression_depth l) (expression_depth r)
expression_depth (disjunction l r) = 1 + max (expression_depth l) (expression_depth r)
expression_depth (negation l) = 1 + max (expression_depth l) 0
expression_depth (term v) = 1 + max 0 0
expression_depth (prefix v) = 1 + max 0 0
expression_depth (phrase ts p) = 1 + max 0 0
expression_depth (path_filter v) = 1 + max 0 0
expression_depth (extension_filter v) = 1 + max 0 0
expression_depth (size_filter v c n) = 1 + max 0 0
expression_depth (mtime_filter v c d) = 1 + max 0 0
