-- ===== src/Assembler.antt =====
-- The assemblers of lib/changeset, which write ops as text: OpAssembler.go and StringAssembler.go
-- here, MergingOpAssembler.go and SmartOpAssembler.go in the children.
pub mod Merging
pub mod Smart
use etherpad_go.Prelude.{Text, [], ◌++◌}
use etherpad_go.Op.{Op, op_to_string}

pub record OpAssembler : Type 0 where
  pub serialized : Text

abbrev pub new_op_assembler : OpAssembler
new_op_assembler = record { serialized = [] }

abbrev pub append_op : Op → OpAssembler → OpAssembler
append_op op a = record { serialized = a.serialized ++ op_to_string op }

pub record StringAssembler : Type 0 where
  pub str : Text

abbrev pub new_string_assembler : StringAssembler
new_string_assembler = record { str = [] }

abbrev pub append_string : Text → StringAssembler → StringAssembler
append_string s a = record { str = a.str ++ s }
