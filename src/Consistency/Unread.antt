-- ===== src/Consistency/Unread.antt =====
-- src/simloom/_consistency.py: the part of a version order that a read did not observe.
use simloom.Prelude.{
  ℕ, true, false, List, [], ◌∷◌, ◌==◌, ltb, drop, any, Bool-cases, inl, inr, arith, ◌≡◌, refl, sym,
  ap, subst,
}
use simloom.Consistency.{place_behind, first_unseen}

-- The part of a list behind the last occurrence of a value.
pub data Behind (v : ℕ) : List ℕ → List ℕ → Type 0 where
  at_first : {l : List ℕ} → any (λ x. x == v) l ≡ false → Behind v (v ∷ l) l
  at_later : {x : ℕ} {l rest : List ℕ} → Behind v l rest → Behind v (x ∷ l) rest

-- What a read that observed the list has not seen of an order: all of it if it observed nothing or if the
-- last that it observed is not in the order, and else what is behind that.
pub data Unread : List ℕ → List ℕ → List ℕ → Type 0 where
  saw_nothing : {order : List ℕ} → Unread [] order order
  saw_unknown :
      {v : ℕ} {order : List ℕ} → any (λ x. x == v) order ≡ false → Unread (v ∷ []) order order
  saw : {v : ℕ} {order rest : List ℕ} → Behind v order rest → Unread (v ∷ []) order rest
  saw_before :
      {v w : ℕ} {observed order rest : List ℕ}
      → Unread (w ∷ observed) order rest
      → Unread (v ∷ w ∷ observed) order rest

place_absent : (v : ℕ) (l : List ℕ) → any (λ x. x == v) l ≡ false → place_behind v l ≡ 0
unfolding place_behind
place_absent v [] h = refl
place_absent v (x ∷ l) h = elim (Bool-cases (x == v)) [
  | inl e ↦ ground arith
  | inr e ↦ let r = place_absent v l (ground arith) in rw (r, e) refl
]

itself : (v : ℕ) → (v == v) ≡ true
itself v = ground arith

-- The place is right.
place_lem :
    (v : ℕ) (l rest : List ℕ)
    → Behind v l rest
    → (rest ≡ drop (place_behind v l) l) × (ltb 0 (place_behind v l) ≡ true)
unfolding place_behind
place_lem v [] rest b = elim b [ ]
place_lem v (x ∷ l) rest (at_first h) = let r = place_absent v l h in rw (r, itself v) (refl, refl)
place_lem v (x ∷ l) rest (at_later b) = let r = place_lem v l rest b in rw (r.1) (r.0, ground arith)

pub first_unseen-Unread :
    (observed order rest : List ℕ)
    → Unread observed order rest
    → rest ≡ drop (first_unseen observed order) order
unfolding first_unseen
first_unseen-Unread [] order rest saw_nothing = refl
first_unseen-Unread (v ∷ []) order rest (saw_unknown h) =
    ap (λ n. drop n order) (sym (place_absent v order h))
first_unseen-Unread (v ∷ []) order rest (saw b) = (place_lem v order rest b).0
first_unseen-Unread (v ∷ w ∷ observed) order rest (saw_before u) =
    first_unseen-Unread (w ∷ observed) order rest u

place-Behind :
    (v : ℕ) (l : List ℕ) → any (λ x. x == v) l ≡ true → Behind v l (drop (place_behind v l) l)
unfolding place_behind
place-Behind v [] h = ground arith
place-Behind v (x ∷ l) h = elim (Bool-cases (any (λ y. y == v) l)) [
  | inl e ↦ let b = place-Behind v l e in rw (place_lem v l _ b).1 (at_later b)
  | inr e ↦
      let r = place_absent v l e in
      let f : (x == v) ≡ true = ground (arith, h, e) in
      rw (r, f) (subst (λ y. Behind v (y ∷ l) l) (ground (arith, f)) (at_first e))
]

-- Each read has such a part.
pub drop-Unread :
    (observed order : List ℕ) → Unread observed order (drop (first_unseen observed order) order)
unfolding first_unseen
drop-Unread [] order = saw_nothing
drop-Unread (v ∷ []) order = elim (Bool-cases (any (λ x. x == v) order)) [
  | inl e ↦ saw (place-Behind v order e)
  | inr e ↦ rw (place_absent v order e) (saw_unknown e)
]
drop-Unread (v ∷ w ∷ observed) order = saw_before (drop-Unread (w ∷ observed) order)
