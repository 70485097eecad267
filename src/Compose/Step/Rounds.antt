-- ===== src/Compose/Step/Rounds.antt =====
-- One round of `Compose`, whatever the two ops are.
use etherpad_go.Prelude.{ℕ, ℤ, false, ◌&&◌, ◌≡◌, sym, subst, Text, List, []}
use etherpad_go.Op.{OpCode, Op, blank, plus, minus, keep, is_blank}
use etherpad_go.Apply.Runs.{Runs}
use etherpad_go.Assembler.Smart.Normal.{IsAttribs}
use etherpad_go.Slicer.Cuts.{behind}
use etherpad_go.Compose.{ComposeState}
use etherpad_go.Compose.Step.{mk, Banks, Stepped}
use etherpad_go.Compose.Step.Whole.{insert2, delete2, keep2, delete1, keep1, insert1}
use etherpad_go.Compose.Step.Sliced.{keep_keep, keep_minus, plus_keep, plus_minus}

-- A blank op stands at the end of its changeset.
abbrev pub Ends : OpCode → List Op → Type 0
Ends blank r = r ≡ []
Ends plus r = Unit
Ends minus r = Unit
Ends keep r = Unit

module _ (n1 n2 : ℕ) (l1 l2 : ℤ) (x1 x2 : Text) (s : ComposeState) (r1 r2 : List Op)
    (b1 b2 t u v : Text) (k : Banks s b1 b2) (f1 : IsAttribs x1) (f2 : IsAttribs x2) where
  -- In a round in which not both ops are blank, an op is blank only at the end of its changeset, and
  -- both have attributes `*a*b…`, let the ops that are left of the first changeset run
  -- from `t` to `u` and those of the second from `u` to `v`, with the banks that are left. Then the
  -- callback of `Compose` returns without error or panic, what is left after it runs from some `t'`
  -- over some `u'` to some `v'`, and the op that it gives, in front of ops from `t'` to `v'` and with
  -- the characters that it adds to the new bank, runs from `t` to `v`.
  pub compose_callback-Stepped :
      (c1 c2 : OpCode)
      → (is_blank c1 && is_blank c2) ≡ false
      → Ends c1 r1
      → Ends c2 r2
      → Runs (behind (mk c1 n1 l1 x1) r1) b1 t u
      → Runs (behind (mk c2 n2 l2 x2) r2) b2 u v
      → Stepped (mk c1 n1 l1 x1) (mk c2 n2 l2 x2) s r1 r2 t v
  compose_callback-Stepped blank blank h e1 e2 run1 run2 = cc
  compose_callback-Stepped blank plus h e1 e2 run1 run2 =
      insert2 n1 n2 l1 l2 x1 x2 s r1 r2 b1 b2 t u v k f1 f2 blank tt run1 run2
  compose_callback-Stepped plus plus h e1 e2 run1 run2 =
      insert2 n1 n2 l1 l2 x1 x2 s r1 r2 b1 b2 t u v k f1 f2 plus tt run1 run2
  compose_callback-Stepped keep plus h e1 e2 run1 run2 =
      insert2 n1 n2 l1 l2 x1 x2 s r1 r2 b1 b2 t u v k f1 f2 keep tt run1 run2
  compose_callback-Stepped minus c2 h e1 e2 run1 run2 =
      delete1 n1 n2 l1 l2 x1 x2 s r1 r2 b1 b2 t u v k f1 f2 c2 run1 run2
  compose_callback-Stepped blank minus h e1 e2 run1 run2 =
      subst (λ r. Stepped (mk blank n1 l1 x1) (mk minus n2 l2 x2) s r r2 t v) (sym e1)
        (delete2 n1 n2 l1 l2 x1 x2 s r1 r2 b1 b2 t u v k f1 f2 (subst (λ r. Runs r b1 t u) e1 run1)
          run2)
  compose_callback-Stepped blank keep h e1 e2 run1 run2 =
      subst (λ r. Stepped (mk blank n1 l1 x1) (mk keep n2 l2 x2) s r r2 t v) (sym e1)
        (keep2 n1 n2 l1 l2 x1 x2 s r1 r2 b1 b2 t u v k f1 f2 (subst (λ r. Runs r b1 t u) e1 run1)
          run2)
  compose_callback-Stepped keep blank h e1 e2 run1 run2 =
      subst (λ r. Stepped (mk keep n1 l1 x1) (mk blank n2 l2 x2) s r1 r t v) (sym e2)
        (keep1 n1 n2 l1 l2 x1 x2 s r1 r2 b1 b2 t u v k f1 f2 (subst (λ r. Runs r b2 u v) e2 run2)
          run1)
  compose_callback-Stepped plus blank h e1 e2 run1 run2 =
      subst (λ r. Stepped (mk plus n1 l1 x1) (mk blank n2 l2 x2) s r1 r t v) (sym e2)
        (insert1 n1 n2 l1 l2 x1 x2 s r1 r2 b1 b2 t u v k f1 f2 (subst (λ r. Runs r b2 u v) e2 run2)
          run1)
  compose_callback-Stepped keep keep h e1 e2 run1 run2 =
      keep_keep n1 n2 l1 l2 x1 x2 s r1 r2 b1 b2 t u v k f1 f2 run1 run2
  compose_callback-Stepped keep minus h e1 e2 run1 run2 =
      keep_minus n1 n2 l1 l2 x1 x2 s r1 r2 b1 b2 t u v k f1 f2 run1 run2
  compose_callback-Stepped plus keep h e1 e2 run1 run2 =
      plus_keep n1 n2 l1 l2 x1 x2 s r1 r2 b1 b2 t u v k f1 f2 run1 run2
  compose_callback-Stepped plus minus h e1 e2 run1 run2 =
      plus_minus n1 n2 l1 l2 x1 x2 s r1 r2 b1 b2 t u v k f1 f2 run1 run2
