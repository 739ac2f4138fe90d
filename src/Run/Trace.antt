-- ===== src/Run/Trace.antt =====
-- The executions of a program, without a tape: the draws along a branch of it, and the verdict there.
use simloom.Prelude.{ℕ, suc, ◌<◌, ◌≡◌, String, List, [], ◌∷◌, ◌∙◌, sym}
use simloom.Tape.{Draw}
use simloom.Tape.Drawing.{drawn}
use simloom.Run.{Program, finish, request, Verdict}

-- The draw answers the request of `label` below `bound`.
abbrev pub Answers : String → ℕ → Draw → Type 0
Answers label bound d = (d.label ≡ label) × (d.bound ≡ bound) × (d.value < bound)

-- The program can make just these draws, and ends with the verdict.
abbrev pub Trace : Program → List Draw → Verdict → Type 0
Trace (finish v) [] w = v ≡ w
Trace (finish v) (d ∷ ds) w = ⊥
Trace (request label k next rescue) [] w = ⊥
Trace (request label k next rescue) (d ∷ ds) w = Answers label (suc k) d × Trace (next d.value) ds w

-- The program can begin with these draws.
abbrev pub Feasible : Program → List Draw → Type 0
Feasible program [] = Unit
Feasible (finish v) (d ∷ ds) = ⊥
Feasible (request label k next rescue) (d ∷ ds) =
    Answers label (suc k) d × Feasible (next d.value) ds

-- Every draw answered by 0.
unfoldable pub default : Program → List Draw
default (finish v) = []
default (request label k next rescue) = drawn label 0 (suc k) ∷ default (next 0)

-- The draws of a plan, and then every draw answered by 0.
unfoldable pub complete : Program → List Draw → List Draw
unfolding default
complete program [] = default program
complete (finish v) (d ∷ ds) = []
complete (request label k next rescue) (d ∷ ds) = d ∷ complete (next d.value) ds

-- The draws of an execution determine its verdict.
pub Trace-verdict :
    (program : Program) (ds : List Draw) (v w : Verdict)
    → Trace program ds v
    → Trace program ds w
    → v ≡ w
Trace-verdict (finish x) [] v w a b = sym a ∙ b
Trace-verdict (finish x) (d ∷ ds) v w a b = absurd a
Trace-verdict (request label k next rescue) [] v w a b = absurd a
Trace-verdict (request label k next rescue) (d ∷ ds) v w a b =
    Trace-verdict (next d.value) ds v w a.1 b.1
