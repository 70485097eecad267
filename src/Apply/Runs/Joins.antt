-- ===== src/Apply/Runs/Joins.antt =====
-- Ops that together cover what one op covers, and ops that cover nothing.
use etherpad_go.Prelude.{
  ℕ, ◌+◌, ℤ, pos, ltb_ℤ, ◌≡◌, refl, sym, ap, ◌∙◌, List, [], ◌∷◌, ◌++◌, Text, length-append,
  count_lines, count_lines-append, append_assoc, arith, false,
}
use etherpad_go.Op.{OpCode, Op, blank, plus, minus, keep}
use etherpad_go.Apply.Runs.{Step-map, Step-code, Covers, Step, Runs, Refines}

-- `c` covers what `a` and then `b` cover.
abbrev pub Joins : Op → Op → Op → Type 0
Joins a b c =
    (c.chars ≡ a.chars + b.chars)
    × ((m n : ℕ) → a.lines ≡ pos m → b.lines ≡ pos n → c.lines ≡ pos (m + n))

Covers-append :
    (a b c : Op) (s t : Text) → Joins a b c → Covers a s → Covers b t → Covers c (s ++ t)
Covers-append a b c s t (n, l) (na, la) (nb, lb) = (
  omega (arith, length-append s t),
  l (count_lines s) (count_lines t) la lb ∙ ap pos (sym (count_lines-append s t)),
)

-- Two ops with one opcode, and the op that joins them.
Step-join :
    (code : OpCode) (a b c : Op) (P : Text → Text → Text → Type 0) (bank t u : Text)
    → Joins a b c
    → Step code a (Step code b P) bank t u
    → Step code c P bank t u
Step-join blank a b c P bank t u j h = h
Step-join plus a b c P bank t u j (s, b1, u1, ca, e1, e2, (s', b2, u2, cb, e3, e4, r)) = (
  s ++ s',
  b2,
  u2,
  Covers-append a b c s s' j ca cb,
  rw (append_assoc, ← e3) e1,
  rw (append_assoc, ← e4) e2,
  r,
)
Step-join minus a b c P bank t u j (s, t1, ca, e1, (s', t2, cb, e3, r)) =
    (s ++ s', t2, Covers-append a b c s s' j ca cb, rw (append_assoc, ← e3) e1, r)
Step-join keep a b c P bank t u j (s, t1, u1, ca, e1, e2, (s', t2, u2, cb, e3, e4, r)) = (
  s ++ s',
  t2,
  u2,
  Covers-append a b c s s' j ca cb,
  rw (append_assoc, ← e3) e1,
  rw (append_assoc, ← e4) e2,
  r,
)

pub join-Refines :
    (a b c : Op) (code : OpCode)
    → a.opcode ≡ code
    → b.opcode ≡ code
    → c.opcode ≡ code
    → Joins a b c
    → Refines (a ∷ b ∷ []) (c ∷ [])
join-Refines a b c code ea eb ec j ws bank t u h = Step-code c (Runs ws) bank t u (sym ec) (
    Step-join code a b c (Runs ws) bank t u j (
      Step-map code a (Step b.opcode b (Runs ws)) (Step code b (Runs ws))
        (λ bank' t' u'. Step-code b (Runs ws) bank' t' u' eb) bank t u
        (Step-code a (Step b.opcode b (Runs ws)) bank t u ea h)))

empty-piece : (op : Op) (s : Text) → op.chars ≡ 0 → Covers op s → s ≡ []
empty-piece op [] e c = refl
empty-piece op (x ∷ s) e c = absurd (omega (arith, c.0))

Step-empty :
    (code : OpCode) (op : Op) (ws : List Op) (bank t u : Text)
    → op.chars ≡ 0
    → Step code op (Runs ws) bank t u
    → Runs ws bank t u
Step-empty blank op ws bank t u e h = absurd h
Step-empty plus op ws bank t u e (s, b', u', c, e1, e2, r) =
    let n = empty-piece op s e c in rw (e1, e2, n) r
Step-empty minus op ws bank t u e (s, t', c, e1, r) = let n = empty-piece op s e c in rw (e1, n) r
Step-empty keep op ws bank t u e (s, t', u', c, e1, e2, r) =
    let n = empty-piece op s e c in rw (e1, e2, n) r

-- An op without characters does nothing where it runs.
pub empty-Refines : (op : Op) → op.chars ≡ 0 → Refines (op ∷ []) []
empty-Refines op e ws bank t u h = Step-empty op.opcode op ws bank t u e h

-- An op in the place of another that covers the same pieces.
Step-recast :
    (code : OpCode) (a c : Op) (P : Text → Text → Text → Type 0) (bank t u : Text)
    → ((s : Text) → Covers a s → Covers c s)
    → Step code a P bank t u
    → Step code c P bank t u
Step-recast blank a c P bank t u f h = h
Step-recast plus a c P bank t u f (s, b', u', ca, e1, e2, r) = (s, b', u', f s ca, e1, e2, r)
Step-recast minus a c P bank t u f (s, t', ca, e1, r) = (s, t', f s ca, e1, r)
Step-recast keep a c P bank t u f (s, t', u', ca, e1, e2, r) = (s, t', u', f s ca, e1, e2, r)

pub recast-Refines :
    (a c : Op)
    → a.opcode ≡ c.opcode
    → ((s : Text) → Covers a s → Covers c s)
    → Refines (a ∷ []) (c ∷ [])
recast-Refines a c e f ws bank t u h =
    Step-code c (Runs ws) bank t u e (Step-recast a.opcode a c (Runs ws) bank t u f h)

-- Where newlines are not counted, none are there.
pub no_newlines : (l : ℤ) (n : ℕ) → ltb_ℤ (pos 0) l ≡ false → l ≡ pos n → n ≡ 0
no_newlines l n h e = ground arith
