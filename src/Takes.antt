-- ===== src/Takes.antt =====
-- Changesets as the texts that are stored and sent: `MakeSplice` and `Compose` from `Unpack` to `Pack`.
use etherpad_go.Prelude.{
  ℕ, ◌+◌, ◌-◌, ◌≤◌, ◌<◌, pos, ◌+ℤ◌, ◌-ℤ◌, pos-add, pos-sub, eqb_ℤ-refl, ◌≡◌, refl, ap, ◌∙◌, Option,
  some, List, ◌++◌, Text, length, length-append, drop, length-take_le, length-drop, arith,
}
use etherpad_go.Num.{int_limit}
use etherpad_go.Op.{Op}
use etherpad_go.Op.RoundTrip.{AllWire, serialize, serialize-Stops, deserialize_ops-serialize}
use etherpad_go.Pool.{APool}
use etherpad_go.Result.{ok}
use etherpad_go.Changeset.{Changeset, unpack, pack, rune_slice}
use etherpad_go.Assembler.Smart.Normal.{IsAttribs, Runs-length}
use etherpad_go.Changeset.Packed.{unpack-pack, serialize-NoDollar}
use etherpad_go.Apply.{apply_unpacked, apply_to_text}
use etherpad_go.Apply.Meaning.{apply_complete}
use etherpad_go.Splice.{make_splice, assembled}
use etherpad_go.Splice.Meaning.{made_ops, made_ops-written, make_splice-returned}
use etherpad_go.Compose.{compose}
use etherpad_go.Compose.Meaning.{compose_unpacked-Composes, apply_unpacked-eq_ok}

-- The text `cs` is a changeset from the text `t` to the text `u`: it unpacks, it says how long `u` is,
-- and applied to `t` it gives `u`.
pub record Takes (cs t u : Text) : Type 0 where
  pub parts : Changeset
  pub unpacked : unpack cs ≡ ok parts
  pub says : parts.new_len ≡ pos (length u)
  pub applied : apply_unpacked parts t ≡ ok u

-- `ApplyToText` on such a changeset.
pub apply_to_text-Takes : (cs t u : Text) → Takes cs t u → apply_to_text cs t ≡ ok u
unfolding apply_to_text
apply_to_text-Takes cs t u k = rw (k.unpacked, k.applied) refl

-- What is packed from written ops that go from `t` to `u`.
pub pack-Takes :
    (op_str bank t u : Text) (ops : List Op)
    → op_str ≡ serialize ops
    → AllWire ops
    → apply_unpacked
        (record {
          old_len = pos (length t);
          new_len = pos (length u);
          ops = op_str;
          char_bank = bank;
        })
        t
      ≡ ok u
    → length t < int_limit
    → length u < int_limit
    → Takes (pack (pos (length t)) (pos (length u)) op_str bank) t u
pack-Takes op_str bank t u ops e w h lt lu = record {
  parts = record {
    old_len = pos (length t);
    new_len = pos (length u);
    ops = op_str;
    char_bank = bank;
  };
  unpacked =
      unpack-pack (length t) (length u) op_str bank lt lu (rw e (serialize-Stops ops w))
        (rw e (serialize-NoDollar ops w));
  says = refl;
  applied = h;
}

-- `Compose`, with a pool, of a changeset from `t` to `u` and one from `u` to `v`, texts of lengths that
-- an `int` holds, returns without error or panic a changeset from `t` to `v`.
pub compose-Takes :
    (cs1 cs2 : Text) (p : APool) (t u v : Text)
    → Takes cs1 t u
    → Takes cs2 u v
    → length t < int_limit
    → length v < int_limit
    → (cs : Text) × (pool : Option APool) × (compose cs1 cs2 (some p) ≡ ok (cs, pool))
      × Takes cs t v
unfolding compose
compose-Takes cs1 cs2 p t u v k1 k2 lt lv =
    let c =
      compose_unpacked-Composes k1.parts k2.parts p t u v k1.applied k1.says k2.applied lt lv in
    let (ops, e, r, old) = apply_unpacked-eq_ok k1.parts t u k1.applied in
    (
      pack k1.parts.old_len k2.parts.new_len c.op_str c.bank,
      c.pool,
      rw (k1.unpacked, k2.unpacked) c.composed,
      rw (← old, k2.says)
          (pack-Takes c.op_str c.bank t v c.ops c.written c.wire (rw (← old, k2.says) at c.applied)
            lt lv),
    )

-- The length of a text in which a piece was replaced.
spliced_length :
    (orig ins : Text) (start ndel : ℕ)
    → start + ndel ≤ length orig
    → pos (length orig) +ℤ pos (length ins) -ℤ pos ndel
      ≡ pos (length (rune_slice orig 0 start ++ (ins ++ drop (start + ndel) orig)))
spliced_length orig ins start ndel h =
    let pre = rune_slice orig 0 start in
    let post = drop (start + ndel) orig in
    let e1 = length-append pre (ins ++ post) in
    let e2 = length-append ins post in
    let e3 = length-drop (start + ndel) orig in
    let e4 : length pre ≡ start - 0 = length-take_le (start - 0) orig (omega arith) in
    ap (λ n. n -ℤ pos ndel) (pos-add (length orig) (length ins))
    ∙ pos-sub (length orig + length ins) ndel (omega arith)
    ∙ ap pos (omega (arith, e1, e2, e3, e4, h))

-- `MakeSplice` within the text, with attributes `*a*b…` and lengths that an `int` holds, returns a
-- changeset from the text to the one in which `ins` stands in the place of the `ndel` characters at
-- `start`.
pub make_splice-Takes :
    (orig : Text) (start ndel : ℕ) (ins a : Text) (pool : Option APool)
    → start + ndel ≤ length orig
    → IsAttribs a
    → length ins + length orig < int_limit
    → (cs : Text) × (make_splice orig (pos start) (pos ndel) ins (some a) pool ≡ ok (cs, pool))
      × Takes cs orig (rune_slice orig 0 start ++ (ins ++ drop (start + ndel) orig))
unfolding apply_unpacked
make_splice-Takes orig start ndel ins a pool h f small =
    let w = rune_slice orig 0 start ++ (ins ++ drop (start + ndel) orig) in
    let op_str = assembled (made_ops orig start ndel ins a pool h) in
    let (ops, e, wire, r) = made_ops-written orig start ndel ins a pool h f small in
    let returned = make_splice-returned orig start ndel ins a pool h in
    let len = spliced_length orig ins start ndel h in
    let same = eqb_ℤ-refl (pos (length orig)) in
    (
      pack (pos (length orig)) (pos (length w)) op_str ins,
      rw len at returned,
      pack-Takes op_str ins orig w ops e wire
          (rw (same, e, deserialize_ops-serialize ops wire) (apply_complete ops ins orig w r))
          (omega arith) (omega (arith, Runs-length ops ins orig w r)),
    )
