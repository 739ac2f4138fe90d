-- ===== src/Consistency/Links.antt =====
-- src/simloom/_consistency.py: the steps that build the dependency graph, and the edges that they keep and
-- make.
use simloom.Prelude.{
  ℕ, Bool, true, ◌||◌, Option, none, some, List, [], ◌∷◌, ◌++◌, ◌==◌, any, Bool-cases, inl, inr,
  arith, ◌≡◌, ◌≢◌, refl, sym, ap, ◌∙◌, subst,
}
use mathlib.Core.List.{Memᴰ}
use mathlib.Core.List.Memᴰ.{head, tail}
use simloom.Consistency.{
  Dependency, ww, wr, rw_dep, writer, Graph, has_edge, add_edge, add_between, add_ww, add_wr_edges,
  add_rw_edges,
}
use simloom.Consistency.Edges.{Next, first, further}

any-append :
    {A : Type 0} (q : A → Bool) (xs ys : List A) → any q (xs ++ ys) ≡ (any q xs || any q ys)
any-append q [] ys = refl
any-append q (x ∷ xs) ys = ground (arith, any-append q xs ys)

-- The graph has an edge from `u` to `v`.
abbrev pub Linked : ℕ → ℕ → Graph → Type 0
Linked u v g = has_edge u v g.types ≡ true

-- A step that loses no edge.
abbrev pub Keeps : (Graph → Graph) → Type 0
Keeps f = (u v : ℕ) (g : Graph) → Linked u v g → Linked u v (f g)

-- A step that makes an edge.
abbrev pub Links : ℕ → ℕ → (Graph → Graph) → Type 0
Links u v f = (g : Graph) → Linked u v (f g)

add_edge-Keeps : (u v : ℕ) (kind : Dependency) → Keeps (add_edge u v kind)
unfolding add_edge has_edge
add_edge-Keeps u v kind x y g h = elim (Bool-cases (u == v)) [
  | inl e ↦ rw e h
  | inr e ↦ elim (Bool-cases (has_edge u v g.types)) [
    | inl f ↦ rw (e, f) h
    | inr f ↦ rw (e, f) (any-append _ g.types _ ∙ (ground (arith, h)))
  ]
]

add_edge-Links : (u v : ℕ) (kind : Dependency) → u ≢ v → Links u v (add_edge u v kind)
unfolding add_edge has_edge
add_edge-Links u v kind n g = elim (Bool-cases (u == v)) [
  | inl e ↦ absurd (n (ground arith))
  | inr e ↦ elim (Bool-cases (has_edge u v g.types)) [
    | inl f ↦ rw (e, f) f
    | inr f ↦ rw (e, f) (any-append _ g.types _ ∙ ground arith)
  ]
]

add_between-Keeps : (a b : Option ℕ) (kind : Dependency) → Keeps (add_between a b kind)
unfolding add_between
add_between-Keeps none b kind x y g h = h
add_between-Keeps (some u) none kind x y g h = h
add_between-Keeps (some u) (some v) kind x y g h = add_edge-Keeps u v kind x y g h

add_between-Links :
    (a b : Option ℕ) (kind : Dependency) (u v : ℕ)
    → a ≡ some u
    → b ≡ some v
    → u ≢ v
    → Links u v (add_between a b kind)
unfolding add_between
add_between-Links a b kind u v e f n g =
    subst (λ x. Linked u v (add_between x b kind g)) (sym e)
      (subst (λ y. Linked u v (add_between (some u) y kind g)) (sym f)
        (add_edge-Links u v kind n g))

pub add_ww-Keeps :
    (appender : List (ℕ × ℕ)) (a : ℕ) (order : List ℕ) → Keeps (add_ww appender a order)
unfolding add_ww
add_ww-Keeps appender a [] x y g h = h
add_ww-Keeps appender a (b ∷ order) x y g h =
    add_ww-Keeps appender b order x y _
      (add_between-Keeps (writer appender a) (writer appender b) ww x y g h)

pub add_ww-Links :
    (appender : List (ℕ × ℕ)) (a : ℕ) (order : List ℕ) (c d u v : ℕ)
    → Next c d (a ∷ order)
    → writer appender c ≡ some u
    → writer appender d ≡ some v
    → u ≢ v
    → Links u v (add_ww appender a order)
unfolding add_ww
add_ww-Links appender a [] c d u v (further m) e f n g = elim m [ ]
add_ww-Links appender a (b ∷ order) c d u v first e f n g =
    add_ww-Keeps appender b order u v _
      (add_between-Links (writer appender a) (writer appender b) ww u v e f n g)
add_ww-Links appender a (b ∷ order) c d u v (further m) e f n g =
    add_ww-Links appender b order c d u v m e f n _

pub add_wr_edges-Keeps :
    (appender : List (ℕ × ℕ)) (index : ℕ) (observed : List ℕ)
    → Keeps (add_wr_edges appender index observed)
unfolding add_wr_edges
add_wr_edges-Keeps appender index [] x y g h = h
add_wr_edges-Keeps appender index (v ∷ observed) x y g h =
    add_wr_edges-Keeps appender index observed x y _
      (add_between-Keeps (writer appender v) (some index) wr x y g h)

pub add_wr_edges-Links :
    (appender : List (ℕ × ℕ)) (index : ℕ) (observed : List ℕ) (x u : ℕ)
    → Memᴰ x observed
    → writer appender x ≡ some u
    → u ≢ index
    → Links u index (add_wr_edges appender index observed)
unfolding add_wr_edges
add_wr_edges-Links appender index [] x u m e n g = elim m [ ]
add_wr_edges-Links appender index (v ∷ observed) x u (head q) e n g =
    add_wr_edges-Keeps appender index observed u index _ (
      add_between-Links (writer appender v) (some index) wr u index
        (sym (ap (writer appender) q) ∙ e) refl n g)
add_wr_edges-Links appender index (v ∷ observed) x u (tail m) e n g =
    add_wr_edges-Links appender index observed x u m e n _

pub add_rw_edges-Keeps :
    (appender : List (ℕ × ℕ)) (index : ℕ) (unseen : List ℕ)
    → Keeps (add_rw_edges appender index unseen)
unfolding add_rw_edges
add_rw_edges-Keeps appender index [] x y g h = h
add_rw_edges-Keeps appender index (v ∷ unseen) x y g h =
    add_rw_edges-Keeps appender index unseen x y _
      (add_between-Keeps (some index) (writer appender v) rw_dep x y g h)

pub add_rw_edges-Links :
    (appender : List (ℕ × ℕ)) (index : ℕ) (unseen : List ℕ) (x v : ℕ)
    → Memᴰ x unseen
    → writer appender x ≡ some v
    → index ≢ v
    → Links index v (add_rw_edges appender index unseen)
unfolding add_rw_edges
add_rw_edges-Links appender index [] x v m e n g = elim m [ ]
add_rw_edges-Links appender index (w ∷ unseen) x v (head q) e n g =
    add_rw_edges-Keeps appender index unseen index v _ (
      add_between-Links (some index) (writer appender w) rw_dep index v refl
        (sym (ap (writer appender) q) ∙ e) n g)
add_rw_edges-Links appender index (w ∷ unseen) x v (tail m) e n g =
    add_rw_edges-Links appender index unseen x v m e n _
