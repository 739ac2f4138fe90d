-- ===== src/Consistency/Examples.antt =====
-- A lost update: two transactions read a list, and append to it behind each other's back.
use simloom.Prelude.{List, [], ◌∷◌, ◌≡◌, refl, lookup, put}
use simloom.Consistency.{
  append, read, other, Transaction, record_ops, ww, wr, rw_dep, writer, is_longer, note_op,
  note_ops, note_all, has_edge, push_successor, add_edge, add_between, add_ww, add_ww_edges,
  add_wr_edges, add_rw_edges, place_behind, first_unseen, add_read, add_reads, add_all_reads,
  add_keys, versions_of, dependency_graph,
}

checker : Unit {0}
unfolding lookup put record_ops writer is_longer note_op note_ops note_all has_edge push_successor
    add_edge add_between add_ww add_ww_edges add_wr_edges add_rw_edges place_behind first_unseen
    add_read add_reads add_all_reads add_keys versions_of dependency_graph
checker = tt

-- Transaction 2 sees both values of "x", and transaction 0 wrote "y" too.
abbrev lost_update : List Transaction
lost_update = record_ops (read "x" (1 ∷ 2 ∷ []) ∷ other "noop" ∷ []) 1 (
    record_ops (read "x" [] ∷ append "x" 2 ∷ []) 2
      (record_ops (read "x" [] ∷ append "x" 1 ∷ append "y" 3 ∷ []) 1 []))

edges :
    (dependency_graph lost_update).types
    ≡ ((0, 1), ww) ∷ ((1, 0), rw_dep) ∷ ((0, 2), wr) ∷ ((1, 2), wr) ∷ []
unfolding checker
edges = refl

successors : (dependency_graph lost_update).succ ≡ (0, 1 ∷ 2 ∷ []) ∷ (1, 0 ∷ 2 ∷ []) ∷ []
unfolding checker
successors = refl

last_seen_twice : first_unseen (4 ∷ 7 ∷ []) (7 ∷ 5 ∷ 7 ∷ 6 ∷ []) ≡ 3
unfolding checker
last_seen_twice = refl

last_seen_nowhere : first_unseen (8 ∷ []) (7 ∷ 5 ∷ []) ≡ 0
unfolding checker
last_seen_nowhere = refl
