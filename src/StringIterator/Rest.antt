-- ===== src/StringIterator/Rest.antt =====
-- A cursor by the text that is left behind it.
use etherpad_go.Prelude.{
  ℕ, ◌+◌, ◌≤◌, ◌≡◌, refl, sym, ap, ◌++◌, Text, length, length-append, drop, length-drop, drop-add,
  take-append, drop-append, take-append-drop, length-take_le, ltb, Bool-cases, false, inl, inr,
  arith,
}
use etherpad_go.Result.{ok}
use etherpad_go.StringIterator.{
  StringIterator, remaining, segment, iter_take, iter_peek, iter_skip, after_take, after_skip,
}

-- What is left behind the cursor.
abbrev pub rest_of : StringIterator → Text
rest_of si = drop si.cur_index si.str

pub remaining-eq : (si : StringIterator) → remaining si ≡ length (rest_of si)
remaining-eq si = sym (length-drop si.cur_index si.str)

module _ (si : StringIterator) (s r : Text) (at : rest_of si ≡ s ++ r) where
  room : ltb (remaining si) (length s) ≡ false
  room = let e = ap length at in ground (arith, remaining-eq si, length-append s r, e)

  front : segment (length s) si ≡ s
  front = rw at (take-append s r (length s) refl)

  behind : drop (si.cur_index + length s) si.str ≡ r
  behind = rw (drop-add si.cur_index (length s) si.str, at) (drop-append s r (length s) refl)

  -- Where the text goes on with `s`, a cursor gives `s` and moves behind it.
  pub iter_take-rest :
      (si' : StringIterator) × (iter_take (length s) si ≡ ok (s, si')) × (rest_of si' ≡ r)
  unfolding iter_take
  iter_take-rest = (after_take (length s) si, rw (room, front), behind)

  pub iter_peek-rest : iter_peek (length s) si ≡ ok s
  unfolding iter_peek
  iter_peek-rest = rw (room, front)

  pub iter_skip-rest :
      (si' : StringIterator) × (iter_skip (length s) si ≡ ok si') × (rest_of si' ≡ r)
  unfolding iter_skip
  iter_skip-rest = (after_skip (length s) si, rw room, behind)

-- A peek that succeeds shows the piece with which the rest begins.
pub iter_peek-eq_ok :
    (n : ℕ) (si : StringIterator) (s : Text)
    → iter_peek n si ≡ ok s
    → (r : Text) × (rest_of si ≡ s ++ r) × (length s ≡ n)
unfolding iter_peek
iter_peek-eq_ok n si s h = elim (Bool-cases (ltb (remaining si) n)) [
  | inl short ↦ cc (rw short at h)
  | inr long ↦
      let fits : n ≤ length (rest_of si) = ground (arith, remaining-eq si) in
      let e : segment n si ≡ s = cc (rw long at h) in
      (
        drop n (rest_of si),
        rw (← e) (sym (take-append-drop n (rest_of si))),
        rw (← e) (length-take_le n (rest_of si) (ground (arith, remaining-eq si))),
      )
]
