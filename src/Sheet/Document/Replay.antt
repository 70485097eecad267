-- ===== src/Sheet/Document/Replay.antt =====
-- What a document keeps: its log holds accepted ops, and to apply them in turn to the first workbook
-- gives the workbook.
use etherpad_go.Prelude.{
  ◌+◌, ◌-◌, pos, pos_part, ltb_ℤ, ◌||◌, false, ◌≡◌, refl, subst, List, [], ◌∷◌, ◌++◌, drop, length,
  arith, length-append,
}
use etherpad_go.Result.{Result, ok, err, panic, stuck, ◌>>=◌, >>=-eq-ok, base_rev_range}
use etherpad_go.Sheet.Ops.{Op}
use etherpad_go.Sheet.Validate.{validate, negative}
use etherpad_go.Sheet.Transform.Moved.{IsValid, reject->>}
use etherpad_go.Sheet.Transform.Room.{Room}
use etherpad_go.Sheet.Workbook.{Workbook}
use etherpad_go.Sheet.Apply.{apply_op}
use etherpad_go.Sheet.Document.{
  Document, new_document, submit, rebase, record_op, based_at, apply_rebased,
}
use etherpad_go.Sheet.Document.Rebased.{AllValid, AllValid-append, total_growth, AllFit, missed}

-- The logged ops, applied in turn.
unfoldable pub replay : List Op → Workbook → Result Workbook
replay [] w = ok w
replay (op ∷ ops) w = apply_op op w >>= replay ops

-- A document that began with the workbook `w0` and an empty log.
pub record IsReplayed (w0 : Workbook) (d : Document) : Type 0 where
  pub head_log : d.head ≡ length d.log
  pub valid_log : AllValid d.log
  pub replayed : replay d.log w0 ≡ ok d.workbook

replay-append :
    (ops : List Op) (op : Op) (w w' w'' : Workbook)
    → replay ops w ≡ ok w'
    → apply_op op w' ≡ ok w''
    → replay (ops ++ (op ∷ [])) w ≡ ok w''
unfolding replay
replay-append [] op w w' w'' e h = let same : w ≡ w' = cc e in rw (same, h)
replay-append (a ∷ ops) op w w' w'' e h =
    let (w1, e1, e2) = >>=-eq-ok (apply_op a w) (replay ops) e in
    rw e1 (replay-append ops op w1 w' w'' e2 h)

-- A submitted op that `Validate` accepts, whose revision is in range, and whose coordinates no logged
-- insert carries past the end of `int`.
pub record Submittable (op : Op) (d : Document) : Type 0 where
  pub accepted : IsValid op
  pub revision : (negative op.base_rev || ltb_ℤ (pos d.head) op.base_rev) ≡ false
  pub room : Room op (total_growth (missed op d))
  pub bands : AllFit (missed op d)

-- What `submit` makes of such an op.
pub record Submitted (w0 : Workbook) (d : Document) (op : Op) : Type 0 where
  pub rebased : Op
  pub next : Document
  pub submitted : submit op d ≡ ok next
  pub next_head : next.head ≡ d.head + 1
  pub next_log : next.log ≡ d.log ++ (rebased ∷ [])
  pub next_replayed : IsReplayed w0 next

-- The op that was applied is an accepted one, and is put behind the log.
record_op-IsReplayed :
    (w0 w : Workbook) (d : Document) (op : Op)
    → IsReplayed w0 d
    → apply_op op d.workbook ≡ ok w
    → IsReplayed w0 (record_op d op w)
unfolding apply_op
record_op-IsReplayed w0 w d op i e =
    let (_, v, _) = >>=-eq-ok (validate op) _ e in
    record {
      head_log = omega (arith, i.head_log, length-append d.log (op ∷ []));
      valid_log = AllValid-append d.log op i.valid_log v;
      replayed = replay-append d.log op w0 d.workbook w i.replayed (unfold apply_op in e);
    }

-- The document after one call of `Submit`: an error leaves it as it is.
abbrev after : Result Document → Document → Document
after (ok d') d = d'
after (err e) d = d
after panic d = d
after stuck d = d

unfoldable pub submit_all : List Op → Document → Document
submit_all [] d = d
submit_all (op ∷ ops) d = submit_all ops (after (submit op d) d)

submit-IsReplayed :
    (w0 : Workbook) (d d' : Document) (op : Op)
    → submit op d ≡ ok d'
    → IsReplayed w0 d
    → IsReplayed w0 d'
unfolding submit
submit-IsReplayed w0 d d' op e i =
    let (_, _, e1) = >>=-eq-ok (validate op) _ e in
    let (_, e2) =
      reject->> (negative op.base_rev || ltb_ℤ (pos d.head) op.base_rev) base_rev_range _ e1 in
    let (op', _, e3) =
      >>=-eq-ok (rebase (d.head - pos_part op.base_rev) (drop (pos_part op.base_rev) d.log) op)
        (λ rebased. apply_rebased d (based_at d rebased)) e2 in
    let (w, applied, e4) = >>=-eq-ok (apply_op (based_at d op') d.workbook) _ e3 in
    let same : record_op d (based_at d op') w ≡ d' = cc in
    subst (IsReplayed w0) same (record_op-IsReplayed w0 w d (based_at d op') i applied)

after-IsReplayed :
    (w0 : Workbook) (d : Document) (op : Op) (m : Result Document)
    → submit op d ≡ m
    → IsReplayed w0 d
    → IsReplayed w0 (after m d)
after-IsReplayed w0 d op (ok d') e i = submit-IsReplayed w0 d d' op e i
after-IsReplayed w0 d op (err x) e i = i
after-IsReplayed w0 d op panic e i = i
after-IsReplayed w0 d op stuck e i = i

submit_all-IsReplayed :
    (w0 : Workbook) (ops : List Op) (d : Document)
    → IsReplayed w0 d
    → IsReplayed w0 (submit_all ops d)
unfolding submit_all
submit_all-IsReplayed w0 [] d i = i
submit_all-IsReplayed w0 (op ∷ ops) d i =
    submit_all-IsReplayed w0 ops (after (submit op d) d)
      (after-IsReplayed w0 d op (submit op d) refl i)

-- Whatever ops are submitted to a new document, in whatever order and with whatever base revisions,
-- the head is then the length of the log, every logged op is one that `Validate` accepts, and the
-- log, applied op by op to the first workbook, gives the workbook of the document.
pub submit_all-replay :
    (w0 : Workbook) (ops : List Op) → IsReplayed w0 (submit_all ops (new_document w0))
unfolding replay
submit_all-replay w0 ops =
    submit_all-IsReplayed w0 ops (new_document w0)
      (record { head_log = omega arith; valid_log = tt; replayed = refl })
