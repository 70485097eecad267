-- ===== src/Apply/Runs.antt =====
-- The meaning of a sequence of ops on a text, as a relation without cursors: which pieces of the bank
-- and of the text each op covers, and what is written.
pub mod Joins
use etherpad_go.Prelude.{
  ℕ, zero, suc, ◌+◌, ◌≤◌, ◌<◌, ℤ, pos, ◌≡◌, refl, sym, ap, subst, ◌∙◌, List, [], ◌∷◌, ◌++◌, Text,
  length, length-append, count_lines, count_lines-append, append_assoc, append-nil, arith,
}
use etherpad_go.Op.{OpCode, Op, blank, plus, minus, keep, code_eq}

-- The op covers this piece: it has its length, and counts its newlines.
abbrev pub Covers : Op → Text → Type 0
Covers op s = (length s ≡ op.chars) × (op.lines ≡ pos (count_lines s))

-- An insertion moves a piece of the bank to the result, a deletion drops a piece of the text, a keep
-- copies one; `Rest` is what the ops behind this one do.
abbrev pub Step : OpCode → Op → (Text → Text → Text → Type 0) → Text → Text → Text → Type 0
Step blank op Rest bank t u = ⊥
Step plus op Rest bank t u =
    (s : Text) × (bank' : Text) × (u' : Text) × Covers op s
    × (bank ≡ s ++ bank')
    × (u ≡ s ++ u')
    × Rest bank' t u'
Step minus op Rest bank t u =
    (s : Text) × (t' : Text) × Covers op s × (t ≡ s ++ t') × Rest bank t' u
Step keep op Rest bank t u =
    (s : Text) × (t' : Text) × (u' : Text) × Covers op s
    × (t ≡ s ++ t')
    × (u ≡ s ++ u')
    × Rest bank t' u'

-- From the bank and the text `t` the ops make `u`. What the ops do not reach is kept.
abbrev pub Runs : List Op → Text → Text → Text → Type 0
Runs [] bank t u = t ≡ u
Runs (op ∷ ops) bank t u = Step op.opcode op (Runs ops) bank t u

-- More may run behind one op where more may run behind another.
pub Step-map :
    (code : OpCode) (op : Op) (P Q : Text → Text → Text → Type 0)
    → ((bank t u : Text) → P bank t u → Q bank t u)
    → (bank t u : Text) → Step code op P bank t u
    → Step code op Q bank t u
Step-map blank op P Q f bank t u h = h
Step-map plus op P Q f bank t u (s, b', u', c, e1, e2, r) = (s, b', u', c, e1, e2, f b' t u' r)
Step-map minus op P Q f bank t u (s, t', c, e, r) = (s, t', c, e, f bank t' u r)
Step-map keep op P Q f bank t u (s, t', u', c, e1, e2, r) = (s, t', u', c, e1, e2, f bank t' u' r)

pub Step-code :
    (op : Op) (P : Text → Text → Text → Type 0) (bank t u : Text) {c d : OpCode}
    → c ≡ d
    → Step c op P bank t u
    → Step d op P bank t u
Step-code op P bank t u e h = subst (λ k. Step k op P bank t u) e h

-- Wherever `ys` run, `zs` run in their place, whatever follows.
abbrev pub Refines : List Op → List Op → Type 0
Refines ys zs =
    (ws : List Op) (bank t u : Text) → Runs (ys ++ ws) bank t u → Runs (zs ++ ws) bank t u

pub Refines-refl : (ys : List Op) → Refines ys ys
Refines-refl ys ws bank t u h = h

pub Refines-trans : (xs ys zs : List Op) → Refines xs ys → Refines ys zs → Refines xs zs
Refines-trans xs ys zs f g ws bank t u h = g ws bank t u (f ws bank t u h)

pub Refines-eq : (xs ys : List Op) → xs ≡ ys → Refines xs ys
Refines-eq xs ys e ws bank t u h = rw e at h

pub Refines-cons : (op : Op) (ys zs : List Op) → Refines ys zs → Refines (op ∷ ys) (op ∷ zs)
Refines-cons op ys zs f ws bank t u h =
    Step-map op.opcode op (Runs (ys ++ ws)) (Runs (zs ++ ws)) (f ws) bank t u h

pub Refines-append_left : (xs ys zs : List Op) → Refines ys zs → Refines (xs ++ ys) (xs ++ zs)
Refines-append_left [] ys zs f = f
Refines-append_left (x ∷ xs) ys zs f =
    Refines-cons x (xs ++ ys) (xs ++ zs) (Refines-append_left xs ys zs f)

pub Refines-append_right : (ys zs xs : List Op) → Refines ys zs → Refines (ys ++ xs) (zs ++ xs)
Refines-append_right ys zs xs f ws bank t u h =
    rw (append_assoc zs xs ws) (f (xs ++ ws) bank t u (rw (append_assoc ys xs ws) at h))

pub Runs-Refines :
    (ys zs : List Op) (bank t u : Text) → Refines ys zs → Runs ys bank t u → Runs zs bank t u
Runs-Refines ys zs bank t u f h = rw (append-nil zs) at (f [] bank t u (rw (← append-nil ys) at h))
