-- ===== src/Consistency/Complete.antt =====
-- src/simloom/_consistency.py: the dependencies of a history, as edges of its graph.
use simloom.Prelude.{ℕ, String, List, drop}
use mathlib.Core.List.{Memᴰ}
use simloom.Consistency.{
  Transaction, Graph, add_ww_edges, add_wr_edges, add_rw_edges, first_unseen, add_all_reads,
}
use simloom.Consistency.Links.{Links}

-- What a read adds.
abbrev read_edges : List (ℕ × ℕ) → List ℕ → ℕ → List ℕ → Graph → Graph
read_edges appender order index observed g =
    add_rw_edges appender index (drop (first_unseen observed order) order)
      (add_wr_edges appender index observed g)

-- What a key adds.
abbrev key_edges : List (ℕ × ℕ) → List Transaction → String → List ℕ → Graph → Graph
key_edges appender txns key order g =
    add_all_reads appender key order txns (add_ww_edges appender order g)
