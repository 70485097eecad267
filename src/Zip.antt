-- ===== src/Zip.antt =====
-- Iterator.go and `ApplyZip` of changeset.go: two op sequences are walked side by side. The callback
-- sees both current ops, gives one op to write, and leaves what it did not consume.
use etherpad_go.Prelude.{
  ℕ, zero, suc, ◌+◌, Bool, true, false, ◌&&◌, Option, none, some, List, [], ◌∷◌, Text,
  if◌then◌else◌, length,
}
use etherpad_go.Op.{Op, blank, is_blank, new_op, deserialize_ops}
use etherpad_go.Assembler.Smart
use etherpad_go.Assembler.Smart.{Smart, new_smart}
use etherpad_go.Result.{Result, ok, stuck, ◌>>=◌}

-- An iterator with the op that it gave last: `none` once it is done.
pub record Cursor : Type 0 where
  pub current : Option Op
  pub rest : List Op

abbrev pub next : List Op → Cursor
next [] = record { current = none; rest = [] }
next (op ∷ ops) = record { current = some op; rest = ops }

abbrev pub refill_from : Option Op → List Op → Cursor
refill_from none ops = record { current = none; rest = ops }
refill_from (some op) ops =
    if is_blank op.opcode then next ops else record { current = some op; rest = ops }

-- `if !done && op.OpCode == "" { op, done = it.Next() }`
abbrev pub refill : Cursor → Cursor
refill c = refill_from c.current c.rest

abbrev pub is_done : Option Op → Bool
is_done none = true
is_done (some op) = false

-- A done cursor shows a new blank op.
abbrev pub op_of : Option Op → Op
op_of none = new_op blank
op_of (some op) = op

-- The callback writes through the pointer; what it writes to the blank op of a done cursor is lost.
abbrev pub put_back : Option Op → Op → Option Op
put_back none op = none
put_back (some old) op = some op

-- What a callback gives: the op to write, both ops as it leaves them, and its own state.
pub record Zipped (S : Type 0) : Type 0 where
  pub out : Op
  pub op1 : Op
  pub op2 : Op
  pub state : S

abbrev pub emit : Op → Smart → Smart
emit op sm = if is_blank op.opcode then sm else Smart.append op sm

module _ {S : Type 0} (callback : Op → Op → S → Result (Zipped S)) where
  -- One round behind the two refills, and the rounds that follow it.
  abbrev pub zip_round :
      (Cursor → Cursor → S → Smart → Result (Smart × S))
      → Cursor
      → Cursor
      → S
      → Smart
      → Result (Smart × S)
  zip_round more c1 c2 s sm =
      if is_blank (op_of c1.current).opcode && is_blank (op_of c2.current).opcode
      then ok (sm, s)
      else callback (op_of c1.current) (op_of c2.current) s >>= λ z.
          more (record c1 { current = put_back c1.current z.op1 })
            (record c2 { current = put_back c2.current z.op2 }) z.state (emit z.out sm)

  unfoldable pub zip_loop : ℕ → Cursor → Cursor → S → Smart → Result (Smart × S)
  zip_loop zero c1 c2 s sm = stuck
  zip_loop (suc f) c1 c2 s sm = elim (is_done c1.current && is_done c2.current) [
    | true ↦ ok (sm, s)
    | false ↦ zip_round (zip_loop f) (refill c1) (refill c2) s sm
  ]

  -- A round of the callbacks of this package uses up an op, and one more round ends the loop.
  unfoldable pub apply_zip : Text → Text → S → Result (Text × S)
  apply_zip in1 in2 s = do
    ops1 ← deserialize_ops in1
    ops2 ← deserialize_ops in2
    (sm, s') ← zip_loop (length ops1 + length ops2 + 1) (next ops1) (next ops2) s new_smart
    ok ((Smart.to_string (Smart.end_document sm)).0, s')
