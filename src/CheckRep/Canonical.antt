-- ===== src/CheckRep/Canonical.antt =====
-- What `CheckRep` accepts.
use etherpad_go.Prelude.{◌≡◌, Text, List}
use etherpad_go.Op.{Op}
use etherpad_go.Assembler.Smart.{new_smart, end_document, to_string}
use etherpad_go.Assembler.Smart.Normal.{append_all}
use etherpad_go.Changeset.{Changeset, pack}
use etherpad_go.CheckRep.Fit.{Fit}

-- A changeset whose ops fit, and which is its own canonical form.
pub record Canonical (cs r : Text) (u : Changeset) (ops : List Op) : Type 0 where
  pub same : r ≡ cs
  pub fit : Fit u 0 0 ops u.char_bank
  pub written :
      cs
      ≡ pack u.old_len u.new_len (to_string (end_document (append_all ops new_smart))).0 u.char_bank
