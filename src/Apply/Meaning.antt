-- ===== src/Apply/Meaning.antt =====
-- `ApplyToText` computes the relation `Runs`: it succeeds exactly when the ops run on the text, and
-- then answers what they write.
use etherpad_go.Prelude.{
  pos, ◌≡◌, refl, sym, ap, ◌∙◌, List, [], ◌∷◌, ◌++◌, Text, append_assoc, append-nil, eqb_ℤ,
  eqb_ℤ-refl, eqb_ℤ→eq, count_lines, Bool-cases, inl, inr,
}
use etherpad_go.Op.{OpCode, Op, blank, plus, minus, keep}
use etherpad_go.Result.{Result, ok, ◌>>=◌, >>=-eq-ok, >>=-assoc}
use etherpad_go.StringIterator.{StringIterator, iter_peek}
use etherpad_go.StringIterator.Rest.{
  rest_of, iter_take-rest, iter_peek-rest, iter_skip-rest, iter_peek-eq_ok, remaining-eq,
}
use etherpad_go.Apply.{ApplyState, check_newlines, apply_by, apply_ops, take_rest, apply_start}
use etherpad_go.Apply.Runs.{Covers, Step, Runs}

check_newlines-Covers : (op : Op) (s : Text) → Covers op s → check_newlines op s ≡ ok tt
check_newlines-Covers op s c = rw (c.1, eqb_ℤ-refl (pos (count_lines s)))

-- A state, by what its cursors still have to read and by what it has written.
abbrev Shows : ApplyState → Text → Text → Text → Type 0
Shows s bank t out = (rest_of s.bank ≡ bank) × (rest_of s.text ≡ t) × (s.out ≡ out)

module _ (op : Op) (x : ApplyState) (s t out : Text) (c : Covers op s) where
  apply_plus-Shows :
      (bank : Text)
      → Shows x (s ++ bank) t out
      → (y : ApplyState) × (apply_by plus op x ≡ ok y) × Shows y bank t (out ++ s)
  apply_plus-Shows bank (eb, et, eo) =
      let (bank', taken, left) = iter_take-rest x.bank s bank eb in
      (
        record x { bank = bank'; out = x.out ++ s },
        rw (← c.0, iter_peek-rest x.bank s bank eb, check_newlines-Covers op s c, taken),
        (left, et, rw eo),
      )

  apply_minus-Shows :
      (bank : Text)
      → Shows x bank (s ++ t) out
      → (y : ApplyState) × (apply_by minus op x ≡ ok y) × Shows y bank t out
  apply_minus-Shows bank (eb, et, eo) =
      let (text', skipped, left) = iter_skip-rest x.text s t et in
      (
        record x { text = text' },
        rw (← c.0, iter_peek-rest x.text s t et, check_newlines-Covers op s c, skipped),
        (eb, left, eo),
      )

  apply_keep-Shows :
      (bank : Text)
      → Shows x bank (s ++ t) out
      → (y : ApplyState) × (apply_by keep op x ≡ ok y) × Shows y bank t (out ++ s)
  apply_keep-Shows bank (eb, et, eo) =
      let (text', taken, left) = iter_take-rest x.text s t et in
      (
        record x { text = text'; out = x.out ++ s },
        rw (← c.0, iter_peek-rest x.text s t et, check_newlines-Covers op s c, taken),
        (eb, left, rw eo),
      )

abbrev Applied : List Op → ApplyState → Text → Type 0
Applied ops x u = (apply_ops ops x >>= take_rest) ≡ ok u

take_rest-Shows :
    (x : ApplyState) (bank t out : Text) → Shows x bank t out → take_rest x ≡ ok (out ++ t)
take_rest-Shows x bank t out (eb, et, eo) =
    let (text', taken, left) = iter_take-rest x.text t [] (rw (append-nil t) et) in
    rw (remaining-eq x.text, et, taken, eo)

-- One op that the loop applies, and the ops behind it.
Applied-cons :
    (op : Op) (ops : List Op) (x y : ApplyState) (u : Text)
    → apply_by op.opcode op x ≡ ok y
    → Applied ops y u
    → Applied (op ∷ ops) x u
unfolding apply_ops
Applied-cons op ops x y u e h = rw e h

-- What the ops behind the current one do, as the induction knows it.
abbrev Behind : List Op → Type 0
Behind ops =
    (y : ApplyState) (bank t out u : Text)
    → Shows y bank t out
    → Runs ops bank t u
    → Applied ops y (out ++ u)

apply_by-Step :
    (code : OpCode) (op : Op) (ops : List Op) (x : ApplyState) (bank t out u : Text)
    → Behind ops
    → Shows x bank t out
    → Step code op (Runs ops) bank t u
    → (y : ApplyState) × (apply_by code op x ≡ ok y) × Applied ops y (out ++ u)
apply_by-Step blank op ops x bank t out u ih v h = absurd h
apply_by-Step plus op ops x bank t out u ih (vb, vt, vo) (s, bank', u', c, eb, eu, r) =
    let (y, e, w) = apply_plus-Shows op x s t out c bank' (vb ∙ eb, vt, vo) in
    (y, e, rw (eu, ← append_assoc out s u') (ih y bank' t (out ++ s) u' w r))
apply_by-Step minus op ops x bank t out u ih (vb, vt, vo) (s, t', c, et, r) =
    let (y, e, w) = apply_minus-Shows op x s t' out c bank (vb, vt ∙ et, vo) in
    (y, e, ih y bank t' out u w r)
apply_by-Step keep op ops x bank t out u ih (vb, vt, vo) (s, t', u', c, et, eu, r) =
    let (y, e, w) = apply_keep-Shows op x s t' out c bank (vb, vt ∙ et, vo) in
    (y, e, rw (eu, ← append_assoc out s u') (ih y bank t' (out ++ s) u' w r))

apply_ops-Runs : (ops : List Op) → Behind ops
apply_ops-Runs [] x bank t out u v h =
    unfold apply_ops in (take_rest-Shows x bank t out v ∙ ap (λ s. ok (out ++ s)) h)
apply_ops-Runs (op ∷ ops) x bank t out u v h =
    let (y, e, r) = apply_by-Step op.opcode op ops x bank t out u (apply_ops-Runs ops) v h in
    Applied-cons op ops x y (out ++ u) e r

-- Where the ops run from the bank and the text to `u`, the loop of `ApplyToText` answers `u`.
pub apply_complete :
    (ops : List Op) (bank t u : Text)
    → Runs ops bank t u
    → (apply_ops ops (apply_start bank t) >>= take_rest) ≡ ok u
apply_complete ops bank t u h =
    apply_ops-Runs ops (apply_start bank t) bank t [] u (refl, refl, refl) h

-- The other way round: what one op of the loop has done.
check_newlines-eq_ok :
    (op : Op) (s : Text) → check_newlines op s ≡ ok tt → op.lines ≡ pos (count_lines s)
check_newlines-eq_ok op s h = elim (Bool-cases (eqb_ℤ op.lines (pos (count_lines s)))) [
  | inl e ↦ eqb_ℤ→eq op.lines (pos (count_lines s)) e
  | inr e ↦ cc (rw e at h)
]

abbrev Ran : List Op → ApplyState → Text → Text → Text → Text → Type 0
Ran ops x bank t out w = (u : Text) × (w ≡ out ++ u) × Runs ops bank t u

-- The piece that an op covers, from the two checks that it passes.
checked :
    (op : Op) (si : StringIterator) (B : Type 0) (f : Text → Result B) (b : B)
    → (iter_peek op.chars si >>= λ s. check_newlines op s >>= λ _. f s) ≡ ok b
    → (s : Text) × (r : Text) × Covers op s × (rest_of si ≡ s ++ r) × (f s ≡ ok b)
checked op si B f b h =
    let (s, peeked, h') = >>=-eq-ok (iter_peek op.chars si) _ h in
    let (x, checked, h'') = >>=-eq-ok (check_newlines op s) _ h' in
    let (r, e, n) = iter_peek-eq_ok op.chars si s peeked in
    (s, r, (n, check_newlines-eq_ok op s checked), e, h'')

ok-injective : {A : Type 0} {a b : A} → Result.ok a ≡ ok b → a ≡ b
ok-injective h = cc

-- One op of the loop: it covered a piece, and the state shows what is left.
apply_by-Ran :
    (code : OpCode) (op : Op) (ops : List Op) (x y : ApplyState) (bank t out w : Text)
    → Shows x bank t out
    → apply_by code op x ≡ ok y
    → ((bank' t' out' : Text) → Shows y bank' t' out' → Ran ops y bank' t' out' w)
    → (u : Text) × (w ≡ out ++ u) × Step code op (Runs ops) bank t u
apply_by-Ran blank op ops x y bank t out w v h ih = cc
apply_by-Ran plus op ops x y bank t out w (vb, vt, vo) h ih =
    let (s, r, c, e, h') = checked op x.bank ApplyState _ y h in
    let (bank', taken, left) = iter_take-rest x.bank s r e in
    let q : record x { bank = bank'; out = x.out ++ s } ≡ y =
      ok-injective (rw (← c.0, taken) at h') in
    let (u, eu, run) = ih r t (out ++ s) (rw (← q) (left, vt, rw vo)) in
    (s ++ u, eu ∙ append_assoc out s u, (s, r, u, c, sym vb ∙ e, refl, run))
apply_by-Ran minus op ops x y bank t out w (vb, vt, vo) h ih =
    let (s, r, c, e, h') = checked op x.text ApplyState _ y h in
    let (text', skipped, left) = iter_skip-rest x.text s r e in
    let q : record x { text = text' } ≡ y = ok-injective (rw (← c.0, skipped) at h') in
    let (u, eu, run) = ih bank r out (rw (← q) (vb, left, vo)) in
    (u, eu, (s, r, c, sym vt ∙ e, run))
apply_by-Ran keep op ops x y bank t out w (vb, vt, vo) h ih =
    let (s, r, c, e, h') = checked op x.text ApplyState _ y h in
    let (text', taken, left) = iter_take-rest x.text s r e in
    let q : record x { text = text'; out = x.out ++ s } ≡ y =
      ok-injective (rw (← c.0, taken) at h') in
    let (u, eu, run) = ih bank r (out ++ s) (rw (← q) (vb, left, rw vo)) in
    (s ++ u, eu ∙ append_assoc out s u, (s, r, u, c, sym vt ∙ e, refl, run))

Applied-nil : (x : ApplyState) (w : Text) → Applied [] x w → take_rest x ≡ ok w
unfolding apply_ops
Applied-nil x w h = h

Applied-cons-inv :
    (op : Op) (ops : List Op) (x : ApplyState) (w : Text)
    → Applied (op ∷ ops) x w
    → (y : ApplyState) × (apply_by op.opcode op x ≡ ok y) × Applied ops y w
unfolding apply_ops
Applied-cons-inv op ops x w h =
    >>=-eq-ok (apply_by op.opcode op x) (λ y. apply_ops ops y >>= take_rest)
      (sym (>>=-assoc (apply_by op.opcode op x) (apply_ops ops) take_rest) ∙ h)

apply_ops-Ran :
    (ops : List Op) (x : ApplyState) (bank t out w : Text)
    → Shows x bank t out
    → Applied ops x w
    → Ran ops x bank t out w
apply_ops-Ran [] x bank t out w v h =
    (t, ok-injective (sym (Applied-nil x w h) ∙ take_rest-Shows x bank t out v), refl)
apply_ops-Ran (op ∷ ops) x bank t out w v h =
    let (y, e, h') = Applied-cons-inv op ops x w h in
    apply_by-Ran op.opcode op ops x y bank t out w v e
      (λ bank' t' out' v'. apply_ops-Ran ops y bank' t' out' w v' h')

-- Where the loop of `ApplyToText` answers `w`, the ops run from the bank and the text to `w`.
pub apply_sound :
    (ops : List Op) (bank t w : Text)
    → (apply_ops ops (apply_start bank t) >>= take_rest) ≡ ok w
    → Runs ops bank t w
apply_sound ops bank t w h =
    let (u, e, run) = apply_ops-Ran ops (apply_start bank t) bank t [] w (refl, refl, refl) h in
    rw e run
