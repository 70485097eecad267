-- ===== src/Compose/Step/Whole.antt =====
-- The rounds in which one of the two ops comes out whole.
use etherpad_go.Prelude.{arith, ℕ, ℤ, ◌≡◌, refl, sym, ◌∙◌, Text, List, [], ◌∷◌, append-nil}
use etherpad_go.Op.{OpCode, Op, blank, plus, minus, keep}
use etherpad_go.Result.{ok}
use etherpad_go.StringIterator.{StringIterator, iter_take}
use etherpad_go.StringIterator.Rest.{iter_take-rest}
use etherpad_go.Apply.Runs.{Runs}
use etherpad_go.Assembler.{append_string}
use etherpad_go.Assembler.Smart.Normal.{IsAttribs}
use etherpad_go.Slicer.{slicer_zipper}
use etherpad_go.Slicer.Cuts.{behind}
use etherpad_go.Compose.{ComposeState, compose_callback}
use etherpad_go.Zip.{Zipped}
use etherpad_go.Compose.Step.{mk, Banks, Stepped}

-- Every opcode but a deletion.
abbrev pub NotMinus : OpCode → Type 0
NotMinus minus = ⊥
NotMinus blank = Unit
NotMinus plus = Unit
NotMinus keep = Unit

module _ (n1 n2 : ℕ) (l1 l2 : ℤ) (x1 x2 : Text) (s : ComposeState) (r1 r2 : List Op)
    (b1 b2 t u v : Text) (k : Banks s b1 b2) (f1 : IsAttribs x1) (f2 : IsAttribs x2) where
  abbrev took2 : OpCode → Text → StringIterator → Zipped ComposeState
  took2 c1 p bank = record {
    out = mk plus n2 l2 x2;
    op1 = mk c1 n1 l1 x1;
    op2 = mk blank n2 l2 x2;
    state = record s { bank2 = bank; bank_assem = append_string p s.bank_assem };
  }

  insert2_called :
      (c1 : OpCode) (p : Text) (bank : StringIterator)
      → NotMinus c1
      → iter_take n2 s.bank2 ≡ ok (p, bank)
      → compose_callback (mk c1 n1 l1 x1) (mk plus n2 l2 x2) s ≡ ok (took2 c1 p bank)
  unfolding compose_callback slicer_zipper
  insert2_called blank p bank h e = rw e
  insert2_called plus p bank h e = rw e
  insert2_called keep p bank h e = rw e
  insert2_called minus p bank h e = absurd h

  -- An insertion of the second changeset comes out whole, unless the first deletes there.
  pub insert2 :
      (c1 : OpCode)
      → NotMinus c1
      → Runs (behind (mk c1 n1 l1 x1) r1) b1 t u
      → Runs (mk plus n2 l2 x2 ∷ r2) b2 u v
      → Stepped (mk c1 n1 l1 x1) (mk plus n2 l2 x2) s r1 r2 t v
  insert2 c1 h run1 (p, b2', v', c, e1, e2, run2) =
      let (bank, taken, left) = iter_take-rest s.bank2 p b2' (k.second ∙ e1) in
      record {
        z = took2 c1 p bank;
        called = insert2_called c1 p bank h (rw (← c.0) taken);
        b1 = b1;
        b2 = b2';
        w = p;
        t' = t;
        u' = u;
        v' = v';
        banks = record { first = k.first; second = left; pool = k.pool; has_pool = k.has_pool };
        left1 = run1;
        left2 = run2;
        wrote = refl;
        means = λ ops b run. (p, b, v', c, refl, e2, run);
        attribs1 = f1;
        attribs2 = f2;
        attribs_out = f2;
        stays1 = λ h. cc;
        stays2 = λ h. cc;
        progress = ground arith;
      }

  -- The first changeset is at its end: a deletion or a keep of the second comes out whole.
  pub delete2 :
      t ≡ u
      → Runs (mk minus n2 l2 x2 ∷ r2) b2 u v
      → Stepped (mk blank n1 l1 x1) (mk minus n2 l2 x2) s [] r2 t v
  delete2 e (p, u', c, e1, run2) = record {
    z = record {
      out = mk minus n2 l2 x2;
      op1 = mk blank n1 l1 x1;
      op2 = mk blank n2 l2 x2;
      state = s;
    };
    called = unfold compose_callback slicer_zipper in refl;
    b1 = b1;
    b2 = b2;
    w = [];
    t' = u';
    u' = u';
    v' = v;
    banks = k;
    left1 = refl;
    left2 = run2;
    wrote = sym (append-nil s.bank_assem.str);
    means = λ ops b run. (p, u', c, e ∙ e1, run);
    attribs1 = f1;
    attribs2 = f2;
    attribs_out = f2;
    stays1 = λ h. cc;
    stays2 = λ h. cc;
    progress = ground arith;
  }

  pub keep2 :
      t ≡ u
      → Runs (mk keep n2 l2 x2 ∷ r2) b2 u v
      → Stepped (mk blank n1 l1 x1) (mk keep n2 l2 x2) s [] r2 t v
  keep2 e (p, u', v', c, e1, e2, run2) = record {
    z = record {
      out = mk keep n2 l2 x2;
      op1 = mk blank n1 l1 x1;
      op2 = mk blank n2 l2 x2;
      state = s;
    };
    called = unfold compose_callback slicer_zipper in refl;
    b1 = b1;
    b2 = b2;
    w = [];
    t' = u';
    u' = u';
    v' = v';
    banks = k;
    left1 = refl;
    left2 = run2;
    wrote = sym (append-nil s.bank_assem.str);
    means = λ ops b run. (p, u', v', c, e ∙ e1, e2, run);
    attribs1 = f1;
    attribs2 = f2;
    attribs_out = f2;
    stays1 = λ h. cc;
    stays2 = λ h. cc;
    progress = ground arith;
  }

  -- A deletion of the first changeset comes out whole.
  abbrev deleted1 : OpCode → Zipped ComposeState
  deleted1 c2 = record {
    out = mk minus n1 l1 x1;
    op1 = mk blank n1 l1 x1;
    op2 = mk c2 n2 l2 x2;
    state = s;
  }

  delete1_called :
      (c2 : OpCode) → compose_callback (mk minus n1 l1 x1) (mk c2 n2 l2 x2) s ≡ ok (deleted1 c2)
  unfolding compose_callback slicer_zipper
  delete1_called blank = refl
  delete1_called plus = refl
  delete1_called minus = refl
  delete1_called keep = refl

  pub delete1 :
      (c2 : OpCode)
      → Runs (mk minus n1 l1 x1 ∷ r1) b1 t u
      → Runs (behind (mk c2 n2 l2 x2) r2) b2 u v
      → Stepped (mk minus n1 l1 x1) (mk c2 n2 l2 x2) s r1 r2 t v
  delete1 c2 (p, t', c, e1, run1) run2 = record {
    z = deleted1 c2;
    called = delete1_called c2;
    b1 = b1;
    b2 = b2;
    w = [];
    t' = t';
    u' = u;
    v' = v;
    banks = k;
    left1 = run1;
    left2 = run2;
    wrote = sym (append-nil s.bank_assem.str);
    means = λ ops b run. (p, t', c, e1, run);
    attribs1 = f1;
    attribs2 = f2;
    attribs_out = f1;
    stays1 = λ h. cc;
    stays2 = λ h. cc;
    progress = ground arith;
  }

  -- The second changeset is at its end: an insertion or a keep of the first comes out whole.
  pub keep1 :
      u ≡ v
      → Runs (mk keep n1 l1 x1 ∷ r1) b1 t u
      → Stepped (mk keep n1 l1 x1) (mk blank n2 l2 x2) s r1 [] t v
  keep1 e (p, t', u', c, e1, e2, run1) = record {
    z = record {
      out = mk keep n1 l1 x1;
      op1 = mk blank n1 l1 x1;
      op2 = mk blank n2 l2 x2;
      state = s;
    };
    called = unfold compose_callback slicer_zipper in refl;
    b1 = b1;
    b2 = b2;
    w = [];
    t' = t';
    u' = u';
    v' = u';
    banks = k;
    left1 = run1;
    left2 = refl;
    wrote = sym (append-nil s.bank_assem.str);
    means = λ ops b run. (p, t', u', c, e1, sym e ∙ e2, run);
    attribs1 = f1;
    attribs2 = f2;
    attribs_out = f1;
    stays1 = λ h. cc;
    stays2 = λ h. cc;
    progress = ground arith;
  }

  abbrev took1 : Text → StringIterator → Zipped ComposeState
  took1 p bank = record {
    out = mk plus n1 l1 x1;
    op1 = mk blank n1 l1 x1;
    op2 = mk blank n2 l2 x2;
    state = record s { bank1 = bank; bank_assem = append_string p s.bank_assem };
  }

  insert1_called :
      (p : Text) (bank : StringIterator)
      → iter_take n1 s.bank1 ≡ ok (p, bank)
      → compose_callback (mk plus n1 l1 x1) (mk blank n2 l2 x2) s ≡ ok (took1 p bank)
  unfolding compose_callback slicer_zipper
  insert1_called p bank e = rw e

  pub insert1 :
      u ≡ v
      → Runs (mk plus n1 l1 x1 ∷ r1) b1 t u
      → Stepped (mk plus n1 l1 x1) (mk blank n2 l2 x2) s r1 [] t v
  insert1 e (p, b1', u', c, e1, e2, run1) =
      let (bank, taken, left) = iter_take-rest s.bank1 p b1' (k.first ∙ e1) in
      record {
        z = took1 p bank;
        called = insert1_called p bank (rw (← c.0) taken);
        b1 = b1';
        b2 = b2;
        w = p;
        t' = t;
        u' = u';
        v' = u';
        banks = record { first = left; second = k.second; pool = k.pool; has_pool = k.has_pool };
        left1 = run1;
        left2 = refl;
        wrote = refl;
        means = λ ops b run. (p, b, u', c, refl, sym e ∙ e2, run);
        attribs1 = f1;
        attribs2 = f2;
        attribs_out = f1;
        stays1 = λ h. cc;
        stays2 = λ h. cc;
        progress = ground arith;
      }
