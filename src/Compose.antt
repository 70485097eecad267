-- ===== src/Compose.antt =====
-- `Compose`, `ApplyToAttribution` of changeset.go: the changeset that does what one changeset and
-- then another do, and the effect of a changeset on the attributes of a text.
pub mod Step
pub mod Loop
pub mod Meaning
use etherpad_go.Prelude.{ℕ, min, not, Option, none, some, Text, if◌then◌else◌, eqb_ℤ}
use etherpad_go.Op.{OpCode, Op, plus, minus}
use etherpad_go.Pool.{APool}
use etherpad_go.StringIterator.{StringIterator, new_iterator, iter_take, iter_skip}
use etherpad_go.Assembler.{StringAssembler, new_string_assembler, append_string}
use etherpad_go.Changeset.{Changeset, pack, unpack}
use etherpad_go.Slicer.{Sliced, slicer_zipper}
use etherpad_go.Zip.{Zipped, apply_zip}
use etherpad_go.Result.{Result, ok, err, mismatched_compose, ◌>>=◌}

-- The variables that the callback of `Compose` closes over.
pub record ComposeState : Type 0 where
  pub bank1 : StringIterator
  pub bank2 : StringIterator
  pub bank_assem : StringAssembler
  pub pool : Option APool

-- Characters that the first changeset inserts and the second deletes are skipped.
abbrev pub skip_deleted : OpCode → OpCode → Op → Op → ComposeState → Result ComposeState
skip_deleted plus minus op1 op2 s = do
  bank1 ← iter_skip (min op1.chars op2.chars) s.bank1
  ok (record s { bank1 = bank1 })
skip_deleted code1 code2 op1 op2 s = ok s

-- Inserted characters come from the bank of the changeset that inserts them.
abbrev pub take_inserted : OpCode → OpCode → ℕ → ComposeState → Result ComposeState
take_inserted plus plus n s = do
  (t, bank2) ← iter_take n s.bank2
  ok (record s { bank2 = bank2; bank_assem = append_string t s.bank_assem })
take_inserted plus code2 n s = do
  (t, bank1) ← iter_take n s.bank1
  ok (record s { bank1 = bank1; bank_assem = append_string t s.bank_assem })
take_inserted out_code code2 n s = ok s

abbrev pub zipped : Sliced → ComposeState → Zipped ComposeState
zipped z s = record { out = z.out; op1 = z.att; op2 = z.cs; state = s }

unfoldable pub compose_callback : Op → Op → ComposeState → Result (Zipped ComposeState)
compose_callback op1 op2 s = do
  s1 ← skip_deleted op1.opcode op2.opcode op1 op2 s
  z ← slicer_zipper op1 op2 s1.pool
  s2 ← take_inserted z.out.opcode op2.opcode z.out.chars (record s1 { pool = z.pool })
  ok (zipped z s2)

abbrev pub compose_start : Changeset → Changeset → Option APool → ComposeState
compose_start u1 u2 pool = record {
  bank1 = new_iterator u1.char_bank;
  bank2 = new_iterator u2.char_bank;
  bank_assem = new_string_assembler;
  pool = pool;
}

unfoldable pub compose_unpacked :
    Changeset → Changeset → Option APool → Result (Text × Option APool)
compose_unpacked u1 u2 pool =
    if not (eqb_ℤ u1.new_len u2.old_len) then err mismatched_compose else (do
      (ops, s) ← apply_zip compose_callback u1.ops u2.ops (compose_start u1 u2 pool)
      ok (pack u1.old_len u2.new_len ops s.bank_assem.str, s.pool))

unfoldable pub compose : Text → Text → Option APool → Result (Text × Option APool)
compose cs1 cs2 pool = do u1 ← unpack cs1; u2 ← unpack cs2; compose_unpacked u1 u2 pool

unfoldable pub attribution_callback : Op → Op → Option APool → Result (Zipped (Option APool))
attribution_callback op1 op2 pool = do
  z ← slicer_zipper op1 op2 pool
  ok (record { out = z.out; op1 = z.att; op2 = z.cs; state = z.pool })

-- The caller's pool, which was passed by value: it shares the maps with the copy, not `NextNum`.
abbrev callers_pool : APool → Option APool → APool
callers_pool pool none = pool
callers_pool pool (some copy) = record copy { next_num = pool.next_num }

-- The text, and the pool as the caller has it then.
unfoldable pub apply_to_attribution : Text → Text → APool → Result (Text × APool)
apply_to_attribution cs astr pool = do
  u ← unpack cs
  (attribs, copy) ← apply_zip attribution_callback astr u.ops (some pool)
  ok (attribs, callers_pool pool copy)
