-- ===== src/Assembler/Merging/Keeps.antt =====
-- `MergingOpAssembler` keeps the meaning of the ops that are appended to it.
use etherpad_go.Prelude.{
  subst, ◌+◌, pos, ◌+ℤ◌, pos-add, eqb_ℤ, ltb_ℤ, ◌≡◌, refl, sym, ap, ◌∙◌, List, [], ◌∷◌, ◌++◌, Text,
  count_lines, append_assoc, append-nil, arith, true, false, Bool-cases, inl, inr, text_eq, ◌&&◌,
  ◌==◌,
}
use etherpad_go.Apply.Runs.Joins.{join-Refines, empty-Refines, recast-Refines, no_newlines}
use etherpad_go.Assembler.Merging.Pending.{Holds, rest_op, pending, flush-Holds, flush-blank}
use etherpad_go.Op.{OpCode, Op, code_eq, is_blank}
use etherpad_go.Apply.Runs.{Refines, Refines-trans, Refines-eq, Refines-append_left}
use etherpad_go.Assembler.Merging.{Merging, flush, merge_op, append}

module _ (op : Op) (m : Merging) (same : m.buf_op.opcode ≡ op.opcode)
    (full : is_blank op.opcode ≡ false) where
  buf_full : is_blank m.buf_op.opcode ≡ false
  buf_full = ap is_blank same ∙ full

  pending-plain : (m.additional == 0) ≡ true → pending m ≡ m.buf_op ∷ []
  pending-plain z = rw (buf_full, z)

  pending-rest : (m.additional == 0) ≡ false → pending m ≡ m.buf_op ∷ rest_op m ∷ []
  pending-rest z = rw (buf_full, z)

  -- The op as it joins what followed the last newline.
  mid_op : Op
  mid_op = record op { chars = m.additional + op.chars }

  lines_buf : Op
  lines_buf = record m.buf_op {
    chars = m.buf_op.chars + (m.additional + op.chars);
    lines = m.buf_op.lines +ℤ op.lines;
  }

  merge_lines-Refines : Refines (pending m ++ (op ∷ [])) (lines_buf ∷ [])
  unfolding lines_buf mid_op
  merge_lines-Refines = elim (Bool-cases (m.additional == 0)) [
    | inl z ↦ rw (pending-plain z) (
        join-Refines m.buf_op op lines_buf op.opcode same refl same
          (ground arith, λ i j ei ej. rw (ei, ej) (pos-add i j)))
    | inr z ↦ rw (pending-rest z) (
        Refines-trans (m.buf_op ∷ rest_op m ∷ op ∷ []) (m.buf_op ∷ mid_op ∷ []) (lines_buf ∷ [])
          (Refines-append_left (m.buf_op ∷ []) (rest_op m ∷ op ∷ []) (mid_op ∷ []) (
            join-Refines (rest_op m) op mid_op op.opcode same refl refl
              (refl, λ i j ei ej. ground arith)))
          (join-Refines m.buf_op mid_op lines_buf op.opcode same refl same
            (refl, λ i j ei ej. rw (ei, ej) (pos-add i j))))
  ]

  short_buf : Op
  short_buf = record m.buf_op { chars = m.buf_op.chars + op.chars }

  merge_short-Refines :
      m.additional ≡ 0
      → ltb_ℤ (pos 0) op.lines ≡ false
      → Refines (pending m ++ (op ∷ [])) (short_buf ∷ [])
  unfolding short_buf
  merge_short-Refines z l = rw (pending-plain (ground arith)) (
      join-Refines m.buf_op op short_buf op.opcode same refl same
        (refl, λ i j ei ej. ei ∙ ap pos (omega (arith, no_newlines op.lines j l ej))))

  longer_rest : Op
  longer_rest = record m.buf_op { chars = m.additional + op.chars; lines = pos 0 }

  merge_behind-Refines :
      ltb_ℤ (pos 0) op.lines ≡ false
      → Refines (pending m ++ (op ∷ [])) (m.buf_op ∷ longer_rest ∷ [])
  unfolding longer_rest
  merge_behind-Refines l = elim (Bool-cases (m.additional == 0)) [
    | inl z ↦ rw (pending-plain z) (
        Refines-append_left (m.buf_op ∷ []) (op ∷ []) (longer_rest ∷ []) (
          recast-Refines op longer_rest (sym same) λ s c.
            (ground (arith, c.0), ap pos (sym (no_newlines op.lines (count_lines s) l c.1)))))
    | inr z ↦ rw (pending-rest z) (
        Refines-append_left (m.buf_op ∷ []) (rest_op m ∷ op ∷ []) (longer_rest ∷ []) (
          join-Refines (rest_op m) op longer_rest op.opcode same refl same
            (refl, λ i j ei ej. ground (arith, no_newlines op.lines j l ej))))
  ]

-- What an `Append` leaves: the ops written by then, and the meaning of all of them.
abbrev pub Appended : (OpCode → Text → Type 0) → Op → Merging → Merging → List Op → Type 0
Appended Q op m m' outs =
    (outs' : List Op) × Holds Q m' outs'
    × Refines (outs ++ (pending m ++ (op ∷ []))) (outs' ++ pending m')

module _ (Q : OpCode → Text → Type 0) (op : Op) (m : Merging) (outs : List Op) (h : Holds Q m outs)
    (full : is_blank op.opcode ≡ false) (good : Q op.opcode op.attribs) where
  kept :
      (m' : Merging) (held : List Op)
      → merge_op op m ≡ m'
      → Holds Q m' outs
      → pending m' ≡ held
      → Refines (pending m ++ (op ∷ [])) held
      → Appended Q op m (merge_op op m) outs
  kept m' held e h' p r =
      subst (λ x. Appended Q op m x outs) (sym e)
        (outs, h', Refines-append_left outs (pending m ++ (op ∷ [])) (pending m') (rw p r))

  append_merge :
      m.buf_op.opcode ≡ op.opcode → (op.chars == 0) ≡ false → Appended Q op m (merge_op op m) outs
  unfolding lines_buf short_buf longer_rest
  append_merge same n = elim (Bool-cases (ltb_ℤ (pos 0) op.lines)) [
    | inl l ↦
        kept (record m { buf_op = lines_buf op m same full; additional = 0 })
          (lines_buf op m same full ∷ []) (rw l)
          (record {
            outs_good = h.outs_good;
            buf_good = h.buf_good;
            written = h.written;
            blank_empty = λ _. refl;
            no_lines = λ _. refl;
          })
          (rw (buf_full op m same full)) (merge_lines-Refines op m same full)
    | inr l ↦ elim (Bool-cases (eqb_ℤ m.buf_op.lines (pos 0))) [
      | inl z ↦
          kept (record m { buf_op = short_buf op m same full }) (short_buf op m same full ∷ [])
            (rw (l, z))
            (record {
              outs_good = h.outs_good;
              buf_good = h.buf_good;
              written = h.written;
              blank_empty = h.blank_empty;
              no_lines = h.no_lines;
            })
            (rw (buf_full op m same full, h.no_lines z))
            (merge_short-Refines op m same full (h.no_lines z) l)
      | inr z ↦
          kept (record m { additional = m.additional + op.chars })
            (m.buf_op ∷ longer_rest op m same full ∷ []) (rw (l, z))
            (record {
              outs_good = h.outs_good;
              buf_good = h.buf_good;
              written = h.written;
              blank_empty = λ b. cc (b, buf_full op m same full);
              no_lines = λ e. cc (e, z);
            })
            (rw (buf_full op m same full, longer n)) (merge_behind-Refines op m same full l)
    ]
  ]
    where
      longer : (op.chars == 0) ≡ false → (m.additional + op.chars == 0) ≡ false
      longer n = ground arith

  append_other : Appended Q op m (record (flush false m) { buf_op = op }) outs
  append_other =
      let f = flush-Holds Q m outs h in
      let none_held = f.blank_empty (flush-blank m) in
      (
        outs ++ pending m,
        record {
          outs_good = f.outs_good;
          buf_good = λ _. good;
          written = f.written;
          blank_empty = λ _. none_held;
          no_lines = λ _. none_held;
        },
        Refines-eq (outs ++ (pending m ++ (op ∷ [])))
            ((outs ++ pending m) ++ pending (record (flush false m) { buf_op = op }))
            (rw (full, none_held, append_assoc)),
      )

  append_none : (op.chars == 0) ≡ true → Appended Q op m m outs
  append_none z = (
    outs,
    h,
    Refines-append_left outs (pending m ++ (op ∷ [])) (pending m) (
        Refines-trans (pending m ++ (op ∷ [])) (pending m ++ []) (pending m)
          (Refines-append_left (pending m) (op ∷ []) [] (empty-Refines op (ground arith)))
          (Refines-eq (pending m ++ []) (pending m) (append-nil (pending m)))),
  )

  same_code : (c d : OpCode) → code_eq c d ≡ true → c ≡ d
  unfolding code_eq
  same_code c d e = ground arith

  -- An op that is appended adds its meaning behind that of all the ops before it.
  pub append-Appended : Appended Q op m (append op m) outs
  unfolding append
  append-Appended = elim (Bool-cases (op.chars == 0)) [
    | inl z ↦ rw z (append_none z)
    | inr n ↦
        elim (Bool-cases
          (code_eq m.buf_op.opcode op.opcode && text_eq m.buf_op.attribs op.attribs)) [
            | inl s ↦
                rw (n, s) (append_merge (same_code m.buf_op.opcode op.opcode (ground arith)) n)
            | inr d ↦ rw (n, d) append_other
          ]
  ]
