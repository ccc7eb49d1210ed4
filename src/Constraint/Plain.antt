-- ===== src/Constraint/Plain.antt =====
-- Constraints on which `operator==` is equality of attribute, predicate and operand: those with a
-- string or an integer operand. On floats it is not reflexive, on groups not symmetric.
use u_actor.Prelude.{
  ◌≡◌, sym, Bool, true, false, ◌==◌, text_eq, text_beq_iff, int_eq, arith, ◌↔◌, &&_parts,
}
use u_actor.Constraint.Predicates.{predicate_beq_iff}
use u_actor.Constraint.{
  Constraint, constraint, Operand, monostate, text, number, real, group, attribute, operand,
  operand_beq, is_equal_to, constraint_beq,
}

abbrev pub is_plain : Operand → Bool
is_plain (text s p) = true
is_plain (number n p) = true
is_plain _ = false

pub operand_beq-plain : (o d : Operand) → is_plain o ≡ true → (operand_beq o d ≡ true) ↔ (d ≡ o)
unfolding operand_beq
operand_beq-plain (text s p) (text t q) h = ground (arith, text_beq_iff s t, predicate_beq_iff p q)
operand_beq-plain (number s p) (number t q) h = ground (arith, predicate_beq_iff p q)
operand_beq-plain (text s p) monostate h = ground arith
operand_beq-plain (text s p) (number n q) h = ground arith
operand_beq-plain (text s p) (real n q) h = ground arith
operand_beq-plain (text s p) (group n q) h = ground arith
operand_beq-plain (number s p) monostate h = ground arith
operand_beq-plain (number s p) (text n q) h = ground arith
operand_beq-plain (number s p) (real n q) h = ground arith
operand_beq-plain (number s p) (group n q) h = ground arith
operand_beq-plain monostate d h = cc
operand_beq-plain (real s p) d h = cc
operand_beq-plain (group s p) d h = cc

-- A constraint equals a plain one exactly when it has its attribute and its operand.
pub constraint_beq-plain :
    (d c : Constraint)
    → is_plain (operand c) ≡ true
    → (constraint_beq d c ≡ true) ↔ ((attribute d ≡ attribute c) × (operand d ≡ operand c))
unfolding is_equal_to
constraint_beq-plain (constraint b u f) (constraint a o opt) h = (
  λ e.
      let both = &&_parts (a == b) (operand_beq o u) e in
      (sym ((text_beq_iff a b).0 both.0), (operand_beq-plain o u h).0 both.1),
  λ e. rw ((text_beq_iff a b).1 (sym e.0)) ((operand_beq-plain o u h).1 e.1),
)

-- What a test says of two constraints that agree with a plain one is the same.
pub constraint_beq-agree :
    (d e c : Constraint)
    → attribute d ≡ attribute e
    → operand d ≡ operand e
    → constraint_beq d c ≡ constraint_beq e c
unfolding is_equal_to
constraint_beq-agree d e (constraint a o opt) p q = cc
