-- ===== src/Sheet/Document.antt =====
-- lib/sheet/reconcile.go: the server's document. A stale op is moved past every op that was logged
-- since the revision it was made for.
pub mod Rebased
pub mod Replay
use etherpad_go.Prelude.{
  ℕ, zero, suc, ◌+◌, ◌-◌, pos, pos_part, ltb_ℤ, ◌||◌, List, [], ◌∷◌, ◌++◌, drop, length,
}
use etherpad_go.Result.{Result, ok, panic, base_rev_range, ◌>>=◌, ◌>>◌}
use etherpad_go.Sheet.Ops.{Op}
use etherpad_go.Sheet.Validate.{validate, reject, negative}
use etherpad_go.Sheet.Transform.{transform}
use etherpad_go.Sheet.Workbook.{Workbook}
use etherpad_go.Sheet.Apply.{apply_op}

pub record Document : Type 0 where
  pub workbook : Workbook
  pub log : List Op
  pub head : ℕ

abbrev pub new_document : Workbook → Document
new_document w = record { workbook = w; log = []; head = 0 }

abbrev pub new_document_at : Workbook → List Op → Document
new_document_at w log = record { workbook = w; log = log; head = length log }

-- The op past the next `n` logged ops; to read beyond the log is a panic.
unfoldable pub rebase : ℕ → List Op → Op → Result Op
rebase zero log op = ok op
rebase (suc n) [] op = panic
rebase (suc n) (applied ∷ log) op = rebase n log (transform op applied)

abbrev pub record_op : Document → Op → Workbook → Document
record_op d op w = record { workbook = w; log = d.log ++ (op ∷ []); head = d.head + 1 }

abbrev pub based_at : Document → Op → Op
based_at d op = record op { base_rev = pos d.head }

abbrev pub apply_rebased : Document → Op → Result Document
apply_rebased d op = do w ← apply_op op d.workbook; ok (record_op d op w)

-- The new document; its `head` is the revision that `Submit` returns.
unfoldable pub submit : Op → Document → Result Document
submit op d =
    validate op
    >> (reject (negative op.base_rev || ltb_ℤ (pos d.head) op.base_rev) base_rev_range
        >> (rebase (d.head - pos_part op.base_rev) (drop (pos_part op.base_rev) d.log) op
            >>= λ rebased. apply_rebased d (based_at d rebased)))
