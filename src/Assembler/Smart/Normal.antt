-- ===== src/Assembler/Smart/Normal.antt =====
-- The text that `SmartOpAssembler` writes can be read back, and does what the appended ops do.
use etherpad_go.Prelude.{
  ◌+◌, ◌≤◌, ◌<◌, ◌≡◌, ap, ◌∙◌, List, [], ◌∷◌, ◌++◌, Text, length, length-append, count_lines,
  count_lines-le, append_assoc, append-nil, arith,
}
use etherpad_go.Num.{int_limit}
use etherpad_go.Op.{OpCode, Op, blank, plus, minus, keep, deserialize_ops}
use etherpad_go.Op.RoundTrip.{
  serialize, IsWire, AllWire, AllGroups, star_all, deserialize_ops-serialize,
}
use etherpad_go.Result.{ok}
use etherpad_go.Apply.Runs.{Covers, Step, Runs}
use etherpad_go.Assembler.Merging.Pending.{AllOps}
use etherpad_go.Assembler.Smart.{Smart, new_smart, append, to_string, end_document}
use etherpad_go.Assembler.Smart.Tracks.{Good}
use etherpad_go.Assembler.Smart.Keeps.{Knows, Knows-new, append-Knows}
use etherpad_go.Assembler.Smart.Finish.{end-Written}

-- An attribute text `*a*b…`.
abbrev pub IsAttribs : Text → Type 0
IsAttribs a = (gs : List Text) × AllGroups gs × (a ≡ star_all gs)

Covers-IsWire :
    (op : Op) (s : Text)
    → Good IsAttribs op.opcode op.attribs
    → Covers op s
    → length s < int_limit
    → IsWire op
Covers-IsWire op s (full, form) (n, l) h = record {
  has_code = full;
  chars_fit = omega arith;
  lines_fit = (count_lines s, l, omega (arith, count_lines-le s));
  attribs_form = form;
}

-- Ops that run between texts whose runes an `int` counts have numbers that an `int` holds.
Step-AllWire :
    (code : OpCode) (op : Op) (ops : List Op) (bank t u : Text)
    → Good IsAttribs op.opcode op.attribs
    → length t < int_limit
    → length u < int_limit
    → ((b t' u' : Text)
        → length t' < int_limit
        → length u' < int_limit
        → Runs ops b t' u'
        → AllWire ops)
    → Step code op (Runs ops) bank t u
    → IsWire op × AllWire ops
Step-AllWire blank op ops bank t u g h l ih r = absurd r
Step-AllWire plus op ops bank t u g h l ih (s, b', u', c, e1, e2, r) =
    let size = ap length e2 ∙ length-append s u' in
    (Covers-IsWire op s g c (omega arith), ih b' t u' h (omega arith) r)
Step-AllWire minus op ops bank t u g h l ih (s, t', c, e1, r) =
    let size = ap length e1 ∙ length-append s t' in
    (Covers-IsWire op s g c (omega arith), ih bank t' u (omega arith) l r)
Step-AllWire keep op ops bank t u g h l ih (s, t', u', c, e1, e2, r) =
    let size = ap length e1 ∙ length-append s t' in
    let size' = ap length e2 ∙ length-append s u' in
    (Covers-IsWire op s g c (omega arith), ih bank t' u' (omega arith) (omega arith) r)

pub Runs-AllWire :
    (ops : List Op) (bank t u : Text)
    → AllOps (Good IsAttribs) ops
    → length t < int_limit
    → length u < int_limit
    → Runs ops bank t u
    → AllWire ops
Runs-AllWire [] bank t u g h l r = tt
Runs-AllWire (op ∷ ops) bank t u g h l r =
    Step-AllWire op.opcode op ops bank t u g.0 h l
      (λ b t' u' h' l' r'. Runs-AllWire ops b t' u' g.1 h' l' r') r

-- A text that is made from a bank and a text is not longer than both.
Step-length :
    (code : OpCode) (op : Op) (ops : List Op) (bank t u : Text)
    → ((b t' u' : Text) → Runs ops b t' u' → length u' ≤ length b + length t')
    → Step code op (Runs ops) bank t u
    → length u ≤ length bank + length t
Step-length blank op ops bank t u ih r = absurd r
Step-length plus op ops bank t u ih (s, b', u', c, e1, e2, r) =
    omega
      (arith, ih b' t u' r, ap length e1 ∙ length-append s b', ap length e2 ∙ length-append s u')
Step-length minus op ops bank t u ih (s, t', c, e1, r) =
    omega (arith, ih bank t' u r, ap length e1 ∙ length-append s t')
Step-length keep op ops bank t u ih (s, t', u', c, e1, e2, r) =
    omega
      (arith, ih bank t' u' r, ap length e1 ∙ length-append s t', ap length e2 ∙ length-append s u')

pub Runs-length :
    (ops : List Op) (bank t u : Text) → Runs ops bank t u → length u ≤ length bank + length t
Runs-length [] bank t u r = omega (arith, ap length r)
Runs-length (op ∷ ops) bank t u r = Step-length op.opcode op ops bank t u (Runs-length ops) r

-- What a finished assembler has written is the text of ops that run where those it was given run.
pub Knows-written :
    (sm : Smart) (given : List Op) (bank t u : Text)
    → Knows IsAttribs sm given
    → length t < int_limit
    → length u < int_limit
    → Runs given bank t u
    → (ops : List Op) × ((to_string (end_document sm)).0 ≡ serialize ops)
      × AllWire ops
      × Runs ops bank t u
Knows-written sm given bank t u k h l r =
    let (ops, e, good, f) = end-Written IsAttribs sm given k in
    let r' = f bank t u r in (ops, e, Runs-AllWire ops bank t u good h l r', r')

-- A loop that appends each op, as `MakeSplice`, `CheckRep` and `MakeAttribution` have it.
unfoldable pub append_all : List Op → Smart → Smart
append_all [] sm = sm
append_all (op ∷ ops) sm = append_all ops (append op sm)

append_all-Knows :
    (ops given : List Op) (sm : Smart)
    → AllOps (Good IsAttribs) ops
    → Knows IsAttribs sm given
    → Knows IsAttribs (append_all ops sm) (given ++ ops)
unfolding append_all
append_all-Knows [] given sm g k = rw (append-nil given) k
append_all-Knows (op ∷ ops) given sm ((full, form), g) k = rw (← append_assoc given (op ∷ []) ops) (
    append_all-Knows ops (given ++ (op ∷ [])) (append op sm) g
      (append-Knows IsAttribs op sm given k form full))

-- Ops that were appended one by one to a new assembler, which was then ended.
pub append_all-written :
    (ops : List Op) (bank t u : Text)
    → AllOps (Good IsAttribs) ops
    → length bank + length t < int_limit
    → Runs ops bank t u
    → (ops' : List Op) × ((to_string (end_document (append_all ops new_smart))).0 ≡ serialize ops')
      × AllWire ops'
      × Runs ops' bank t u
append_all-written ops bank t u g h r =
    Knows-written (append_all ops new_smart) ops bank t u
      (append_all-Knows ops [] new_smart g (Knows-new IsAttribs)) (omega arith)
      (omega (arith, Runs-length ops bank t u r)) r

-- Normalising keeps the meaning: let ops with opcodes and attribute texts run from a bank and a text,
-- whose lengths together an `int` holds, to `u`. Appended one by one to a new `SmartOpAssembler` that
-- is then ended, they give a text that `DeserializeOps` reads without error, and the ops that it
-- reads run from the same bank and text to `u`, although deletions have moved before insertions, ops
-- have been merged and split at newlines, and a last keep may have been dropped.
pub normal_form :
    (ops : List Op) (bank t u : Text)
    → AllOps (Good IsAttribs) ops
    → length bank + length t < int_limit
    → Runs ops bank t u
    → (ops' : List Op) × (deserialize_ops (to_string (end_document (append_all ops new_smart))).0
        ≡ ok ops')
      × Runs ops' bank t u
normal_form ops bank t u g h r =
    let (ops', e, w, r') = append_all-written ops bank t u g h r in
    (ops', ap deserialize_ops e ∙ deserialize_ops-serialize ops' w, r')
