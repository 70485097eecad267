-- ===== src/CheckRep/Fit.antt =====
-- What the loop of `CheckRep` checks, as a relation.
use etherpad_go.Prelude.{
  ℕ, ◌+◌, ◌≤◌, ◌<◌, ℤ, pos, pos_part, neg_part, int_limit, wrap, wrap-pos, wrap-small, pos-add,
  ◌+ℤ◌, ◌-ℤ◌, leb_ℤ, Bool, true, false, ◌⊎◌, inl, inr, ◌||◌, not, ltb, ◌≡◌, refl, sym, ap, ◌∙◌,
  subst, Text, eqb_ℤ, eqb_ℤ→eq, List, [], ◌∷◌, ◌++◌, length, take, drop, count_lines,
  take-append-drop, length-take_le, arith,
}
use etherpad_go.Op.{OpCode, Op, blank, plus, minus, keep}
use etherpad_go.Result.{
  Result, Error, ok, ◌>>◌, >>=-eq-ok, bank_too_short, bank_newlines, bank_no_final_newline,
  new_len_exceeded, old_pos_overflow,
}
use etherpad_go.Slicer.{guard}
use etherpad_go.Assembler.Smart.{append}
use etherpad_go.Changeset.{Changeset}
use etherpad_go.CheckRep.{RepState, check_by, check_ops, final_len, plus_chars, ends_with_newline}

pub guard->> {ℓ} :
    {A : Type ℓ} (b : Bool) (e : Error) (m : Result A) {a : A}
    → (guard b e >> m) ≡ ok a
    → (b ≡ true) × (m ≡ ok a)
guard->> true e m h = (refl, h)
guard->> false e m h = cc

-- The ops fit the lengths and the bank, behind `o` characters of the old text and `n` of the new one.
pub data Fit (u : Changeset) : ℕ → ℕ → List Op → Text → Type 0 where
  ends : (o n : ℕ) → pos n +ℤ (u.old_len -ℤ pos o) ≡ u.new_len → Fit u o n [] []
  inserts :
      (o n : ℕ) (op : Op) (ops : List Op) (piece bank : Text)
      → op.opcode ≡ plus
      → length piece ≡ op.chars
      → op.lines ≡ pos (count_lines piece)
      → (op.lines ≡ pos 0) ⊎ (ends_with_newline piece ≡ true)
      → leb_ℤ (pos (n + op.chars)) u.new_len ≡ true
      → Fit u o (n + op.chars) ops bank
      → Fit u o n (op ∷ ops) (piece ++ bank)
  deletes :
      (o n : ℕ) (op : Op) (ops : List Op) (bank : Text)
      → op.opcode ≡ minus
      → leb_ℤ (pos (o + op.chars)) u.old_len ≡ true
      → Fit u (o + op.chars) n ops bank
      → Fit u o n (op ∷ ops) bank
  keeps :
      (o n : ℕ) (op : Op) (ops : List Op) (bank : Text)
      → op.opcode ≡ keep
      → Fit u (o + op.chars) (n + op.chars) ops bank
      → Fit u o n (op ∷ ops) bank

abbrev pub total_chars : List Op → ℕ
total_chars [] = 0
total_chars (op ∷ ops) = op.chars + total_chars ops

plus_chars-exact :
    (x : ℤ) (n : ℕ) (op : Op)
    → x ≡ pos n
    → n + op.chars < int_limit
    → plus_chars x op ≡ pos (n + op.chars)
plus_chars-exact x n op e h =
    ap (λ y. wrap (y +ℤ pos op.chars)) e ∙ ap wrap (pos-add n op.chars) ∙ wrap-pos (n + op.chars) h

final-exact :
    (a : ℤ) (o n : ℕ)
    → o + neg_part a < int_limit
    → n + pos_part a < int_limit
    → wrap (pos n +ℤ wrap (a -ℤ pos o)) ≡ pos n +ℤ (a -ℤ pos o)
final-exact a o n g h =
    ap (λ x. wrap (pos n +ℤ x)) (wrap-small (a -ℤ pos o) (ground arith) (ground arith))
    ∙ wrap-small (pos n +ℤ (a -ℤ pos o)) (ground arith) (ground arith)

module _ (u : Changeset) (s : RepState) (o n : ℕ) (old : s.old_pos ≡ pos o)
    (new : s.calc_new_len ≡ pos n) (op : Op) (ops : List Op) (fits_old : o + op.chars < int_limit)
    (fits_new : n + op.chars < int_limit) where
  -- What is left to show behind the op.
  abbrev Behind : RepState → Type 0
  Behind s' =
      (o' n' : ℕ)
      → s'.old_pos ≡ pos o'
      → s'.calc_new_len ≡ pos n'
      → o' ≤ o + op.chars
      → n' ≤ n + op.chars
      → Fit u o' n' ops s'.char_bank

  check_by-Fit :
      (k : OpCode) (s' : RepState)
      → op.opcode ≡ k
      → check_by k u op s ≡ ok s'
      → Behind s'
      → Fit u o n (op ∷ ops) s.char_bank
  check_by-Fit keep s' is e behind =
      let same : record s {
        old_pos = plus_chars s.old_pos op;
        calc_new_len = plus_chars s.calc_new_len op;
      }
          ≡ s' =
        cc in
      keeps o n op ops s.char_bank is (
        subst Behind (sym same) behind (o + op.chars) (n + op.chars)
          (plus_chars-exact s.old_pos o op old fits_old)
          (plus_chars-exact s.calc_new_len n op new fits_new) (omega arith) (omega arith))
  check_by-Fit minus s' is e behind =
      let (within, e1) =
        guard->> (leb_ℤ (plus_chars s.old_pos op) u.old_len) old_pos_overflow _ e in
      let exact = plus_chars-exact s.old_pos o op old fits_old in
      let same : record s { old_pos = plus_chars s.old_pos op } ≡ s' = cc in
      deletes o n op ops s.char_bank is (subst (λ x. leb_ℤ x u.old_len ≡ true) exact within)
        (subst Behind (sym same) behind (o + op.chars) n exact new (omega arith) (omega arith))
  check_by-Fit plus s' is e behind =
      let piece = take op.chars s.char_bank in
      let (enough, e1) = guard->> (not (ltb (length s.char_bank) op.chars)) bank_too_short _ e in
      let (newlines, e2) = guard->> (eqb_ℤ (pos (count_lines piece)) op.lines) bank_newlines _ e1 in
      let (last, e3) =
        guard->> (eqb_ℤ op.lines (pos 0) || ends_with_newline piece) bank_no_final_newline _ e2 in
      let (within, e4) =
        guard->> (leb_ℤ (plus_chars s.calc_new_len op) u.new_len) new_len_exceeded _ e3 in
      let exact = plus_chars-exact s.calc_new_len n op new fits_new in
      let same : record s {
        char_bank = drop op.chars s.char_bank;
        calc_new_len = plus_chars s.calc_new_len op;
      }
          ≡ s' =
        cc in
      subst (λ t. Fit u o n (op ∷ ops) t) (take-append-drop op.chars s.char_bank)
        (inserts o n op ops piece (drop op.chars s.char_bank) is
          (length-take_le op.chars s.char_bank (ground (arith, enough)))
          (sym (eqb_ℤ→eq (pos (count_lines piece)) op.lines newlines))
          (lines_end op.lines (ends_with_newline piece) last)
          (subst (λ x. leb_ℤ x u.new_len ≡ true) exact within)
          (subst Behind (sym same) behind o (n + op.chars) old exact (omega arith) (omega arith)))
    where
      lines_end : (l : ℤ) (b : Bool) → (eqb_ℤ l (pos 0) || b) ≡ true → (l ≡ pos 0) ⊎ (b ≡ true)
      lines_end l true h = inr refl
      lines_end l false h = inl (eqb_ℤ→eq l (pos 0) (ground arith))
  check_by-Fit blank s' is e behind = cc

module _ (u : Changeset) where
  pub check_ops-Fit :
      (ops : List Op) (s s' : RepState) (o n : ℕ)
      → s.old_pos ≡ pos o
      → s.calc_new_len ≡ pos n
      → o + (total_chars ops + neg_part u.old_len) < int_limit
      → n + (total_chars ops + pos_part u.old_len) < int_limit
      → check_ops u ops s ≡ ok s'
      → s'.char_bank ≡ []
      → final_len u s' ≡ u.new_len
      → Fit u o n ops s.char_bank
  unfolding check_ops
  check_ops-Fit [] s s' o n old new g h e used len =
      let same : s ≡ s' = cc in
      let used' : s.char_bank ≡ [] = cc in
      let exact = final-exact u.old_len o n (omega arith) (omega arith) in
      let at_end : wrap (pos n +ℤ wrap (u.old_len -ℤ pos o)) ≡ u.new_len =
        subst (λ x. wrap (pos n +ℤ wrap (u.old_len -ℤ x)) ≡ u.new_len) old
          (subst (λ x. wrap (x +ℤ wrap (u.old_len -ℤ s.old_pos)) ≡ u.new_len) new
            (subst (λ x. final_len u x ≡ u.new_len) (sym same) len)) in
      subst (λ t. Fit u o n [] t) (sym used') (ends o n (sym exact ∙ at_end))
  check_ops-Fit (op ∷ ops) s s' o n old new g h e used len =
      let (s1, step, rest) = >>=-eq-ok (check_by op.opcode u op s) _ e in
      check_by-Fit u s o n old new op ops (omega arith) (omega arith) op.opcode s1 refl step
        (λ o' n' old' new' lo ln.
          check_ops-Fit ops (record s1 { assem = append op s1.assem }) s' o' n' old' new'
            (omega arith) (omega arith) rest used len)
