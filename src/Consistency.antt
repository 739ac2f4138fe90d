-- ===== src/Consistency.antt =====
-- src/simloom/_consistency.py: the history of list-append transactions, and its dependency graph. A value is
-- a number; `appender` is a dict that is only looked up in, so its newest entry stands first.
pub mod Unread
pub mod Edges
pub mod Links
pub mod Complete
mod Examples
use simloom.Prelude.{
  ℕ, suc, String, Bool, true, false, ◌||◌, ◌&&◌, Option, none, some, List, [], ◌∷◌, ◌++◌, ltb, ◌==◌,
  str_eq, if◌then◌else◌, length, drop, any, Dict, lookup, put,
}

-- `append(key, value)` and `read(key, value)`; any other name of an operation is not looked at.
pub data Op : Type 0 where
  append : String → ℕ → Op
  read : String → List ℕ → Op
  other : String → Op

pub record Transaction : Type 0 where
  pub index : ℕ
  pub process : ℕ
  pub ops : List Op

-- `History.record`
unfoldable pub record_ops : List Op → ℕ → List Transaction → List Transaction
record_ops ops process txns =
    txns ++ record { index = length txns; process = process; ops = ops } ∷ []

pub data Dependency : Type 0 where
  ww wr rw_dep : Dependency

-- What the first pass over the history finds.
pub record Versions : Type 0 where
  pub version_order : Dict (List ℕ)
  pub appender : List (ℕ × ℕ)

-- `appender.get(value)`
unfoldable pub writer : List (ℕ × ℕ) → ℕ → Option ℕ
writer [] value = none
writer ((v, index) ∷ l) value = let rest = writer l value in if v == value then some index else rest

-- `op.key not in version_order or len(observed) > len(version_order[op.key])`
unfoldable pub is_longer : List ℕ → Option (List ℕ) → Bool
is_longer observed none = true
is_longer observed (some order) = ltb (length order) (length observed)

unfoldable pub note_op : ℕ → Op → Versions → Versions
unfolding is_longer lookup put
note_op index (append key value) vs = record vs { appender = (value, index) ∷ vs.appender }
note_op index (read key observed) vs =
    if is_longer observed (lookup key vs.version_order)
    then record vs { version_order = put key observed vs.version_order }
    else vs
note_op index (other f) vs = vs

unfoldable pub note_ops : ℕ → List Op → Versions → Versions
unfolding note_op
note_ops index [] vs = vs
note_ops index (op ∷ ops) vs = note_ops index ops (note_op index op vs)

unfoldable pub note_all : List Transaction → Versions → Versions
unfolding note_ops
note_all [] vs = vs
note_all (t ∷ ts) vs = note_all ts (note_ops t.index t.ops vs)

pub record Graph : Type 0 where
  pub succ : List (ℕ × List ℕ)
  pub types : List ((ℕ × ℕ) × Dependency)

unfoldable pub has_edge : ℕ → ℕ → List ((ℕ × ℕ) × Dependency) → Bool
has_edge u v es = any (λ e. (e.0.0 == u) && (e.0.1 == v)) es

-- `self.succ.setdefault(u, []).append(v)`
unfoldable pub push_successor : ℕ → ℕ → List (ℕ × List ℕ) → List (ℕ × List ℕ)
push_successor u v [] = (u, v ∷ []) ∷ []
push_successor u v ((w, vs) ∷ l) =
    let rest = push_successor u v l in if w == u then (w, vs ++ v ∷ []) ∷ l else (w, vs) ∷ rest

-- `_Graph.add`
unfoldable pub add_edge : ℕ → ℕ → Dependency → Graph → Graph
unfolding has_edge push_successor
add_edge u v kind g =
    if u == v
    then g
    else if has_edge u v g.types
    then g
    else record { succ = push_successor u v g.succ; types = g.types ++ ((u, v), kind) ∷ [] }

-- An edge between two transactions, if both are known.
unfoldable pub add_between : Option ℕ → Option ℕ → Dependency → Graph → Graph
unfolding add_edge
add_between none v kind g = g
add_between (some u) none kind g = g
add_between (some u) (some v) kind g = add_edge u v kind g

-- The edges along a version order, from its first value on.
unfoldable pub add_ww : List (ℕ × ℕ) → ℕ → List ℕ → Graph → Graph
unfolding writer add_between
add_ww appender a [] g = g
add_ww appender a (b ∷ order) g =
    add_ww appender b order (add_between (writer appender a) (writer appender b) ww g)

unfoldable pub add_ww_edges : List (ℕ × ℕ) → List ℕ → Graph → Graph
unfolding add_ww
add_ww_edges appender [] g = g
add_ww_edges appender (a ∷ order) g = add_ww appender a order g

-- `for v in observed: …`
unfoldable pub add_wr_edges : List (ℕ × ℕ) → ℕ → List ℕ → Graph → Graph
unfolding writer add_between
add_wr_edges appender index [] g = g
add_wr_edges appender index (v ∷ observed) g =
    add_wr_edges appender index observed (add_between (writer appender v) (some index) wr g)

-- `for v in order[last_seen + 1 :]: …`
unfoldable pub add_rw_edges : List (ℕ × ℕ) → ℕ → List ℕ → Graph → Graph
unfolding writer add_between
add_rw_edges appender index [] g = g
add_rw_edges appender index (v ∷ unseen) g =
    add_rw_edges appender index unseen (add_between (some index) (writer appender v) rw_dep g)

-- `index_of.get(value, -1) + 1`: the place behind the last occurrence of a value.
unfoldable pub place_behind : ℕ → List ℕ → ℕ
place_behind value [] = 0
place_behind value (v ∷ order) =
    let rest = place_behind value order in
    if ltb 0 rest then suc rest else if v == value then 1 else 0

-- `last_seen + 1`
unfoldable pub first_unseen : List ℕ → List ℕ → ℕ
unfolding place_behind
first_unseen [] order = 0
first_unseen (v ∷ []) order = place_behind v order
first_unseen (v ∷ w ∷ observed) order = first_unseen (w ∷ observed) order

unfoldable pub add_read : List (ℕ × ℕ) → String → List ℕ → ℕ → Op → Graph → Graph
unfolding add_wr_edges add_rw_edges first_unseen
add_read appender key order index (append k value) g = g
add_read appender key order index (other f) g = g
add_read appender key order index (read k observed) g =
    if str_eq k key
    then add_rw_edges appender index (drop (first_unseen observed order) order)
        (add_wr_edges appender index observed g)
    else g

unfoldable pub add_reads : List (ℕ × ℕ) → String → List ℕ → ℕ → List Op → Graph → Graph
unfolding add_read
add_reads appender key order index [] g = g
add_reads appender key order index (op ∷ ops) g =
    add_reads appender key order index ops (add_read appender key order index op g)

unfoldable pub add_all_reads : List (ℕ × ℕ) → String → List ℕ → List Transaction → Graph → Graph
unfolding add_reads
add_all_reads appender key order [] g = g
add_all_reads appender key order (t ∷ ts) g =
    add_all_reads appender key order ts (add_reads appender key order t.index t.ops g)

-- `for key, order in version_order.items(): …`
unfoldable pub add_keys : List (ℕ × ℕ) → List Transaction → Dict (List ℕ) → Graph → Graph
unfolding add_ww_edges add_all_reads
add_keys appender txns [] g = g
add_keys appender txns ((key, order) ∷ l) g =
    add_keys appender txns l (add_all_reads appender key order txns (add_ww_edges appender order g))

unfoldable pub versions_of : List Transaction → Versions
unfolding note_all
versions_of txns = note_all txns (record { version_order = []; appender = [] })

-- The graph that `check_serializable` builds.
unfoldable pub dependency_graph : List Transaction → Graph
unfolding versions_of add_keys
dependency_graph txns =
    let vs = versions_of txns in
    add_keys vs.appender txns vs.version_order (record { succ = []; types = [] })
