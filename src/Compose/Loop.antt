-- ===== src/Compose/Loop.antt =====
-- The loop of `ApplyZip` with the callback of `Compose`: it ends, and what it has written does what
-- the two op sequences do one after the other.
use etherpad_go.Prelude.{
  ◌+◌, true, false, ◌&&◌, Bool-cases, inl, inr, ◌≡◌, refl, sym, ap, ◌∙◌, subst, List, [], ◌∷◌, ◌++◌,
  append_assoc, append-nil, Text, length, arith,
}
use etherpad_go.Op.{OpCode, Op, blank, plus, minus, keep, is_blank}
use etherpad_go.Result.{Result, ok, ◌>>=◌}
use etherpad_go.Apply.Runs.{Runs}
use etherpad_go.Assembler.Merging.Pending.{AllOps}
use etherpad_go.Assembler.Smart.{Smart}
use etherpad_go.Assembler.Smart.Tracks.{Good}
use etherpad_go.Assembler.Smart.Keeps.{Knows, append-Knows}
use etherpad_go.Assembler.Smart.Normal.{IsAttribs}
use etherpad_go.Slicer.Cuts.{behind}
use etherpad_go.Zip.{Cursor, next, refill, is_done, op_of, put_back, emit}
use etherpad_go.Compose.{ComposeState, compose_callback}
use etherpad_go.Compose.Step.{weight, Stepped}
use etherpad_go.Compose.Step.Rounds.{Ends}

abbrev pub AllGood : List Op → Type 0
AllGood xs = AllOps (Good IsAttribs) xs

-- The op that a refilled cursor shows, and the ops behind it.
abbrev pub head : List Op → Op
head xs = op_of (next xs).current

abbrev pub tail : List Op → List Op
tail xs = (next xs).rest

pub behind-head : (xs : List Op) → AllGood xs → behind (head xs) (tail xs) ≡ xs
behind-head [] g = refl
behind-head (x ∷ xs) ((b, f), g) = rw b

Ends-full : (k : OpCode) (r : List Op) → is_blank k ≡ false → Ends k r
Ends-full blank r h = cc
Ends-full plus r h = tt
Ends-full minus r h = tt
Ends-full keep r h = tt

pub Ends-head : (xs : List Op) → AllGood xs → Ends (head xs).opcode (tail xs)
Ends-head [] g = refl
Ends-head (x ∷ xs) ((b, f), g) = Ends-full x.opcode xs b

pub head-IsAttribs : (xs : List Op) → AllGood xs → IsAttribs (head xs).attribs
head-IsAttribs [] g = ([], tt, refl)
head-IsAttribs (x ∷ xs) ((b, f), g) = f

pub tail-AllGood : (xs : List Op) → AllGood xs → AllGood (tail xs)
tail-AllGood [] g = tt
tail-AllGood (x ∷ xs) ((b, f), g) = g

blank_head : (xs : List Op) → AllGood xs → is_blank (head xs).opcode ≡ true → xs ≡ []
blank_head [] g h = refl
blank_head (x ∷ xs) ((b, f), g) h = cc (b, h)

pub behind-AllGood :
    (op : Op) (r : List Op) → IsAttribs op.attribs → AllGood r → AllGood (behind op r)
behind-AllGood op r f g = elim (Bool-cases (is_blank op.opcode)) [
  | inl b ↦ rw b g
  | inr b ↦ rw b ((b, f), g)
]

pub length-behind : (op : Op) (r : List Op) → length (behind op r) ≡ weight op.opcode + length r
length-behind op r = elim (Bool-cases (is_blank op.opcode)) [
  | inl b ↦ rw b (omega arith)
  | inr b ↦ rw b (omega arith)
]

pub length-head :
    (xs : List Op) → AllGood xs → length xs ≡ weight (head xs).opcode + length (tail xs)
length-head xs g = ap length (sym (behind-head xs g)) ∙ length-behind (head xs) (tail xs)

-- A cursor at which the ops `xs` are left.
pub record At (c : Cursor) (xs : List Op) : Type 0 where
  pub refilled : refill c ≡ next xs
  pub at_end : is_done c.current ≡ true → xs ≡ []

-- The cursor of the next round.
abbrev pub advance : List Op → Op → Cursor
advance xs op = record (next xs) { current = put_back (next xs).current op }

pub advance-At :
    (xs : List Op) (op : Op)
    → (is_blank (head xs).opcode ≡ true → is_blank op.opcode ≡ true)
    → At (advance xs op) (behind op (tail xs))
advance-At [] op h =
    let b : is_blank op.opcode ≡ true = h refl in
    rw b (record { refilled = refl; at_end = λ e. refl })
advance-At (x ∷ xs) op h = elim (Bool-cases (is_blank op.opcode)) [
  | inl b ↦ rw b (record { refilled = rw b refl; at_end = λ e. cc })
  | inr b ↦ rw b (record { refilled = rw b refl; at_end = λ e. cc })
]

-- A computation of the loop that gives a value, from a state in which the assembler was given `given`.
pub record Looped (m : Result (Smart × ComposeState)) (s : ComposeState) (given : List Op)
    (t v : Text) : Type 0 where
  pub assem : Smart
  pub state : ComposeState
  pub looped : m ≡ ok (assem, state)
  pub outs : List Op
  pub bank : Text
  pub knows : Knows IsAttribs assem (given ++ outs)
  pub wrote : state.bank_assem.str ≡ s.bank_assem.str ++ bank
  pub means : Runs outs bank t v

-- Nothing is left of either changeset.
pub Looped-end :
    (sm : Smart) (s : ComposeState) (given : List Op) (xs ys : List Op) (b1 b2 t u v : Text)
    → xs ≡ []
    → ys ≡ []
    → Knows IsAttribs sm given
    → Runs xs b1 t u
    → Runs ys b2 u v
    → Looped (ok (sm, s)) s given t v
Looped-end sm s given xs ys b1 b2 t u v e1 e2 k r1 r2 =
    let q1 : t ≡ u = subst (λ l. Runs l b1 t u) e1 r1 in
    let q2 : u ≡ v = subst (λ l. Runs l b2 u v) e2 r2 in
    record {
      assem = sm;
      state = s;
      looped = refl;
      outs = [];
      bank = [];
      knows = rw (append-nil given) k;
      wrote = sym (append-nil s.bank_assem.str);
      means = q1 ∙ q2;
    }

pub emit-Knows :
    (op : Op) (sm : Smart) (given : List Op)
    → IsAttribs op.attribs
    → Knows IsAttribs sm given
    → Knows IsAttribs (emit op sm) (given ++ behind op [])
emit-Knows op sm given f k = elim (Bool-cases (is_blank op.opcode)) [
  | inl b ↦ rw (b, append-nil given) k
  | inr b ↦ rw b (append-Knows IsAttribs op sm given k f b)
]

behind-append : (op : Op) (r : List Op) → behind op [] ++ r ≡ behind op r
behind-append op r = elim (Bool-cases (is_blank op.opcode)) [
  | inl b ↦ rw b refl
  | inr b ↦ rw b refl
]

-- A round, and then the rounds behind it.
pub Looped-round :
    (sm : Smart) (s : ComposeState) (given : List Op) (x y : Op) (r1 r2 : List Op) (t v : Text)
    (more : Op → Op → ComposeState → Smart → Result (Smart × ComposeState))
    (z : Stepped x y s r1 r2 t v)
    → Looped
        (more z.z.op1 z.z.op2 z.z.state (emit z.z.out sm))
        z.z.state
        (given ++ behind z.z.out [])
        z.t'
        z.v'
    → Looped (compose_callback x y s >>= λ r. more r.op1 r.op2 r.state (emit r.out sm)) s given t v
Looped-round sm s given x y r1 r2 t v more z l = record {
  assem = l.assem;
  state = l.state;
  looped = rw z.called l.looped;
  outs = behind z.z.out l.outs;
  bank = z.w ++ l.bank;
  knows =
      subst (λ ops. Knows IsAttribs l.assem ops)
        (append_assoc given (behind z.z.out []) l.outs
          ∙ ap (λ ops. given ++ ops) (behind-append z.z.out l.outs))
        l.knows;
  wrote = l.wrote ∙ ap (λ str. str ++ l.bank) z.wrote ∙ append_assoc s.bank_assem.str z.w l.bank;
  means = z.means l.outs l.bank l.means;
}

pub blank_both :
    (xs ys : List Op)
    → AllGood xs
    → AllGood ys
    → (is_blank (head xs).opcode && is_blank (head ys).opcode) ≡ true
    → (xs ≡ []) × (ys ≡ [])
blank_both xs ys g1 g2 h = (blank_head xs g1 (ground arith), blank_head ys g2 (ground arith))
