-- ===== src/Compose/Step.antt =====
-- One round of `Compose`: what its callback does with two ops that run one after the other.
pub mod Whole
pub mod Sliced
pub mod Rounds
use etherpad_go.Prelude.{true, ◌+◌, ◌<◌, if◌then◌else◌, ℕ, ℤ, ◌≡◌, Text, List, ◌++◌, Option, some}
use etherpad_go.Op.{OpCode, Op, is_blank}
use etherpad_go.Pool.{APool}
use etherpad_go.Result.{ok}
use etherpad_go.StringIterator.Rest.{rest_of}
use etherpad_go.Apply.Runs.{Runs}
use etherpad_go.Assembler.Smart.Normal.{IsAttribs}
use etherpad_go.Slicer.Cuts.{behind}
use etherpad_go.Zip.{Zipped}
use etherpad_go.Compose.{ComposeState, compose_callback}

abbrev pub mk : OpCode → ℕ → ℤ → Text → Op
mk k n l x = record { opcode = k; chars = n; lines = l; attribs = x }

-- The rounds that an op can take part in as the one that is used up.
abbrev pub weight : OpCode → ℕ
weight k = if is_blank k then 0 else 1

-- The closed-over variables: what is left of both banks, and a pool.
pub record Banks (s : ComposeState) (b1 b2 : Text) : Type 0 where
  pub first : rest_of s.bank1 ≡ b1
  pub second : rest_of s.bank2 ≡ b2
  pub pool : APool
  pub has_pool : s.pool ≡ some pool

-- After one round on `op1` and `op2`, with `r1` and `r2` behind them and `t` and `v` the texts before
-- and after both: what is left runs from `t'` over `u'` to `v'`, and the op that came out, before
-- anything that runs from `t'` to `v'`, runs from `t` to `v`.
pub record Stepped (op1 op2 : Op) (s : ComposeState) (r1 r2 : List Op) (t v : Text) : Type 0 where
  pub z : Zipped ComposeState
  pub called : compose_callback op1 op2 s ≡ ok z
  pub b1 : Text
  pub b2 : Text
  pub w : Text
  pub t' : Text
  pub u' : Text
  pub v' : Text
  pub banks : Banks z.state b1 b2
  pub left1 : Runs (behind z.op1 r1) b1 t' u'
  pub left2 : Runs (behind z.op2 r2) b2 u' v'
  pub wrote : z.state.bank_assem.str ≡ s.bank_assem.str ++ w
  pub means : (ops : List Op) (b : Text) → Runs ops b t' v' → Runs (behind z.out ops) (w ++ b) t v
  pub attribs1 : IsAttribs z.op1.attribs
  pub attribs2 : IsAttribs z.op2.attribs
  pub attribs_out : IsAttribs z.out.attribs
  pub stays1 : is_blank op1.opcode ≡ true → is_blank z.op1.opcode ≡ true
  pub stays2 : is_blank op2.opcode ≡ true → is_blank z.op2.opcode ≡ true
  pub progress : weight z.op1.opcode + weight z.op2.opcode < weight op1.opcode + weight op2.opcode
