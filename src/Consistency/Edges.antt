-- ===== src/Consistency/Edges.antt =====
-- src/simloom/_consistency.py: the dependencies between the transactions of a history, and the edges of the
-- dependency graph.
use simloom.Prelude.{
  ℕ, String, Bool, true, false, Option, none, some, List, [], ◌∷◌, ◌==◌, str_eq, if◌then◌else◌,
  drop, Dict, All, All-append, Bool-cases, inl, inr, arith, ◌≡◌, refl, sym, ap, subst,
}
use mathlib.Core.List.{Memᴰ}
use mathlib.Core.List.Memᴰ.{head, tail}
use text.Mathlib.TextEquality.{eq_iff}
use simloom.Consistency.Unread.{Unread, drop-Unread}
use simloom.Consistency.{
  Op, append, read, other, Transaction, Dependency, ww, wr, rw_dep, Versions, writer, Graph,
  has_edge, add_edge, add_between, add_ww, add_ww_edges, add_wr_edges, add_rw_edges, first_unseen,
  add_read, add_reads, add_all_reads, add_keys, versions_of, dependency_graph,
}

-- The place of two values, one behind the other.
pub data Next (a b : ℕ) : List ℕ → Type 0 where
  first : {l : List ℕ} → Next a b (a ∷ b ∷ l)
  further : {c : ℕ} {l : List ℕ} → Next a b l → Next a b (c ∷ l)

-- The transaction `u` must come before `v`.
pub data Depends (vs : Versions) (txns : List Transaction) : ℕ → ℕ → Dependency → Type 0 where
  overwrites :
      {key : String} {order : List ℕ} {a b u v : ℕ}
      → Memᴰ (key, order) vs.version_order
      → Next a b order
      → writer vs.appender a ≡ some u
      → writer vs.appender b ≡ some v
      → Depends vs txns u v ww
  is_read :
      {key : String} {order observed : List ℕ} {x u : ℕ} {t : Transaction}
      → Memᴰ (key, order) vs.version_order
      → Memᴰ t txns
      → Memᴰ (read key observed) t.ops
      → Memᴰ x observed
      → writer vs.appender x ≡ some u
      → Depends vs txns u t.index wr
  is_unseen :
      {key : String} {order observed rest : List ℕ} {x v : ℕ} {t : Transaction}
      → Memᴰ (key, order) vs.version_order
      → Memᴰ t txns
      → Memᴰ (read key observed) t.ops
      → Unread observed order rest
      → Memᴰ x rest
      → writer vs.appender x ≡ some v
      → Depends vs txns t.index v rw_dep

-- All edges of a graph satisfy `P`.
abbrev pub Within : (ℕ → ℕ → Dependency → Type 0) → Graph → Type 0
Within P g = All (λ e. P e.0.0 e.0.1 e.1) g.types

module _ (P : ℕ → ℕ → Dependency → Type 0) where
  add_edge-Within :
      (u v : ℕ) (kind : Dependency) (g : Graph)
      → P u v kind
      → Within P g
      → Within P (add_edge u v kind g)
  unfolding add_edge
  add_edge-Within u v kind g h w = elim (Bool-cases (u == v)) [
    | inl e ↦ rw e w
    | inr e ↦ elim (Bool-cases (has_edge u v g.types)) [
      | inl f ↦ rw (e, f) w
      | inr f ↦ rw (e, f) (All-append (λ e. P e.0.0 e.0.1 e.1) g.types _ w (h, tt))
    ]
  ]

  add_between-Within :
      (a b : Option ℕ) (kind : Dependency) (g : Graph)
      → ((u v : ℕ) → a ≡ some u → b ≡ some v → P u v kind)
      → Within P g
      → Within P (add_between a b kind g)
  unfolding add_between
  add_between-Within none b kind g h w = w
  add_between-Within (some u) none kind g h w = w
  add_between-Within (some u) (some v) kind g h w = add_edge-Within u v kind g (h u v refl refl) w

  add_ww-Within :
      (appender : List (ℕ × ℕ)) (a : ℕ) (order : List ℕ) (g : Graph)
      → ((c d u v : ℕ)
          → Next c d (a ∷ order)
          → writer appender c ≡ some u
          → writer appender d ≡ some v
          → P u v ww)
      → Within P g
      → Within P (add_ww appender a order g)
  unfolding add_ww
  add_ww-Within appender a [] g h w = w
  add_ww-Within appender a (b ∷ order) g h w =
      add_ww-Within appender b order _ (λ c d u v n. h c d u v (further n))
        (add_between-Within _ _ ww g (λ u v. h a b u v first) w)

  add_wr_edges-Within :
      (appender : List (ℕ × ℕ)) (index : ℕ) (observed : List ℕ) (g : Graph)
      → ((x u : ℕ) → Memᴰ x observed → writer appender x ≡ some u → P u index wr)
      → Within P g
      → Within P (add_wr_edges appender index observed g)
  unfolding add_wr_edges
  add_wr_edges-Within appender index [] g h w = w
  add_wr_edges-Within appender index (x ∷ observed) g h w =
      add_wr_edges-Within appender index observed _ (λ y u m. h y u (tail m))
        (add_between-Within _ _ wr g
          (λ u v e f. subst (λ n. P u n wr) (same_some f) (h x u (head refl) e)) w)
    where
      same_some : {m n : ℕ} → some m ≡ some n → m ≡ n
      same_some e = ground arith

  add_rw_edges-Within :
      (appender : List (ℕ × ℕ)) (index : ℕ) (unseen : List ℕ) (g : Graph)
      → ((x v : ℕ) → Memᴰ x unseen → writer appender x ≡ some v → P index v rw_dep)
      → Within P g
      → Within P (add_rw_edges appender index unseen g)
  unfolding add_rw_edges
  add_rw_edges-Within appender index [] g h w = w
  add_rw_edges-Within appender index (x ∷ unseen) g h w =
      add_rw_edges-Within appender index unseen _ (λ y v m. h y v (tail m))
        (add_between-Within _ _ rw_dep g
          (λ u v e f. subst (λ n. P n v rw_dep) (same_some e) (h x v (head refl) f)) w)
    where
      same_some : {m n : ℕ} → some m ≡ some n → m ≡ n
      same_some e = ground arith

  -- The dependencies that one operation shows are among `P`.
  record Shown (appender : List (ℕ × ℕ)) (key : String) (order : List ℕ) (index : ℕ) (op : Op)
      : Type 0 where
    writes :
        {observed : List ℕ} (x u : ℕ)
        → read key observed ≡ op
        → Memᴰ x observed
        → writer appender x ≡ some u
        → P u index wr
    misses :
        {observed : List ℕ} (x v : ℕ)
        → read key observed ≡ op
        → Memᴰ x (drop (first_unseen observed order) order)
        → writer appender x ≡ some v
        → P index v rw_dep

  same_key :
      (k key : String) (observed : List ℕ)
      → str_eq k key ≡ true
      → read key observed ≡ read k observed
  same_key k key observed e = ap (λ j. read j observed) (sym ((eq_iff k key).0 e))

  add_read-Within :
      (appender : List (ℕ × ℕ)) (key : String) (order : List ℕ) (index : ℕ) (op : Op) (g : Graph)
      → Shown appender key order index op
      → Within P g
      → Within P (add_read appender key order index op g)
  unfolding add_read
  add_read-Within appender key order index (append k value) g h w = w
  add_read-Within appender key order index (other f) g h w = w
  add_read-Within appender key order index (read k observed) g h w = on_test (str_eq k key) refl
    where
      on_test :
          (b : Bool)
          → str_eq k key ≡ b
          → Within P (
              if b
              then add_rw_edges appender index
                  (drop (first_unseen observed order) order)
                  (add_wr_edges appender index observed g)
              else g)
      on_test true e =
          add_rw_edges-Within appender index _ _ (λ x v. h.misses x v (same_key k key observed e))
            (add_wr_edges-Within appender index observed g
              (λ x u. h.writes x u (same_key k key observed e)) w)
      on_test false e = w

  add_reads-Within :
      (appender : List (ℕ × ℕ)) (key : String) (order : List ℕ) (index : ℕ) (ops : List Op)
      (g : Graph)
      → ((op : Op) → Memᴰ op ops → Shown appender key order index op)
      → Within P g
      → Within P (add_reads appender key order index ops g)
  unfolding add_reads
  add_reads-Within appender key order index [] g h w = w
  add_reads-Within appender key order index (op ∷ ops) g h w =
      add_reads-Within appender key order index ops _ (λ o m. h o (tail m))
        (add_read-Within appender key order index op g (h op (head refl)) w)

  add_all_reads-Within :
      (appender : List (ℕ × ℕ)) (key : String) (order : List ℕ) (txns : List Transaction)
      (g : Graph)
      → ((t : Transaction)
          → Memᴰ t txns
          → (op : Op) → Memᴰ op t.ops
          → Shown appender key order t.index op)
      → Within P g
      → Within P (add_all_reads appender key order txns g)
  unfolding add_all_reads
  add_all_reads-Within appender key order [] g h w = w
  add_all_reads-Within appender key order (t ∷ ts) g h w =
      add_all_reads-Within appender key order ts _ (λ s m. h s (tail m))
        (add_reads-Within appender key order t.index t.ops g (h t (head refl)) w)

  add_ww_edges-Within :
      (appender : List (ℕ × ℕ)) (order : List ℕ) (g : Graph)
      → ((c d u v : ℕ)
          → Next c d order
          → writer appender c ≡ some u
          → writer appender d ≡ some v
          → P u v ww)
      → Within P g
      → Within P (add_ww_edges appender order g)
  unfolding add_ww_edges
  add_ww_edges-Within appender [] g h w = w
  add_ww_edges-Within appender (a ∷ order) g h w = add_ww-Within appender a order g h w

  -- The dependencies of one key are among `P`.
  record Ordered (appender : List (ℕ × ℕ)) (txns : List Transaction) (key : String) (order : List ℕ)
      : Type 0 where
    next :
        (c d u v : ℕ)
        → Next c d order
        → writer appender c ≡ some u
        → writer appender d ≡ some v
        → P u v ww
    shown :
        (t : Transaction)
        → Memᴰ t txns
        → (op : Op) → Memᴰ op t.ops
        → Shown appender key order t.index op

  add_keys-Within :
      (appender : List (ℕ × ℕ)) (txns : List Transaction) (d : Dict (List ℕ)) (g : Graph)
      → ((key : String) (order : List ℕ) → Memᴰ (key, order) d → Ordered appender txns key order)
      → Within P g
      → Within P (add_keys appender txns d g)
  unfolding add_keys
  add_keys-Within appender txns [] g h w = w
  add_keys-Within appender txns ((key, order) ∷ l) g h w =
      add_keys-Within appender txns l _ (λ k o m. h k o (tail m))
        (add_all_reads-Within appender key order txns _ (h key order (head refl)).shown
          (add_ww_edges-Within appender order g (h key order (head refl)).next w))

-- The edges are dependencies.
pub dependency_graph-Within :
    (txns : List Transaction) → Within (Depends (versions_of txns) txns) (dependency_graph txns)
unfolding dependency_graph
dependency_graph-Within txns =
    add_keys-Within P vs.appender txns vs.version_order _
      (λ key order m. record {
        next = λ c d u v n e f. overwrites m n e f;
        shown = λ t i op j. record {
          writes = λ x u e k f. is_read m i (subst (λ o. Memᴰ o t.ops) (sym e) j) k f;
          misses = λ x v e k f.
              is_unseen m i (subst (λ o. Memᴰ o t.ops) (sym e) j) (drop-Unread _ _) k f;
        };
      })
      tt
  where
    vs : Versions
    vs = versions_of txns

    P : ℕ → ℕ → Dependency → Type 0
    P = Depends vs txns
