-- ===== src/Atmosphere/Bodies.antt =====
-- What the client of jquery.atmosphere.js reads of a response.
use joshlong_examples.Common.{
  ℕ, ◌+◌, ◌≤◌, ◌≡◌, refl, inl, inr, arith, true, false, some, List, [], ◌∷◌, ◌++◌, length,
  length-append, take, Text, codes, index_of, contains, substring, lacks, index_of_pair, leb,
  starts_with, starts_with-append, take-drop_middle, take-length, take_all, drop_all, drop-append,
  Bool-cases,
}
use native.Mathlib.Nat.{le_refl}
use joshlong_examples.Atmosphere.Defs.{message_of, next_chunk}

-- The texts that a growing response shows, one after each piece.
abbrev pub shown : Text → List Text → List Text
shown before [] = []
shown before (p ∷ ps) = (before ++ p) ∷ shown (before ++ p) ps

-- The text that calls `parent.callback` with a message.
abbrev pub wrap : Text → Text → Text
wrap message rest = codes "parent.callback('" ++ (message ++ (codes "')" ++ rest))

wrap_start : (message rest : Text) → index_of (codes "('") (wrap message rest) ≡ some 15
wrap_start message rest =
    index_of_pair b'(' b'\'' (codes "parent.callback") (message ++ (codes "')" ++ rest)) refl

not-starts_with-append :
    (message rest : Text)
    → starts_with message (codes ")") ≡ false
    → starts_with (message ++ (codes "')" ++ rest)) (codes ")") ≡ false
unfolding starts_with
not-starts_with-append [] rest h = refl
not-starts_with-append (c ∷ message) rest h = ground arith

wrap_end :
    (message rest : Text)
    → lacks b'\'' message ≡ true
    → starts_with message (codes ")") ≡ false
    → index_of (codes "')") (wrap message rest) ≡ some (17 + length message)
unfolding index_of starts_with
wrap_end message rest h k =
    let found = index_of_pair b'\'' b')' message rest h in
    let later = not-starts_with-append message rest k in ground arith

contains-wrap :
    (message rest : Text) → contains (codes "parent.callback") (wrap message rest) ≡ true
unfolding contains index_of
contains-wrap message rest =
    rw (
      starts_with-append (codes "parent.callback")
        (codes "('" ++ (message ++ (codes "')" ++ rest))))

-- A message without an apostrophe that does not begin with `)` is read back whole from a body that
-- begins by handing it to `parent.callback`, whatever follows in the body.
pub message_of-wrap :
    (message rest : Text)
    → lacks b'\'' message ≡ true
    → starts_with message (codes ")") ≡ false
    → message_of (wrap message rest) ≡ message
unfolding message_of
message_of-wrap message rest h k =
    rw (contains-wrap message rest, wrap_start message rest, wrap_end message rest h k, message_of)
      (take-drop_middle (codes "parent.callback('") message (codes "')" ++ rest))

-- What is read past a beginning of the text is the piece that follows it.
pub next_chunk_pair : (before p : Text) → next_chunk (some (length before)) (before ++ p) ≡ p
unfolding next_chunk substring
next_chunk_pair before p =
    let ordered : leb (length before) (length (before ++ p)) ≡ true =
      ground (arith, length-append before p) in
    rw (ordered, take-length (before ++ p)) (drop-append before p)

-- Nothing is read of a text that is no longer than the index from which it is read.
pub next_chunk_lost : (n : ℕ) (text : Text) → length text ≤ n → next_chunk (some n) text ≡ []
unfolding next_chunk substring
next_chunk_lost n text h = elim (Bool-cases (leb n (length text))) [
  | inl t ↦ rw t (drop_all n (take (length text) text) (rw (take-length text) h))
  | inr f ↦ rw f (drop_all (length text) (take n text) (rw (take_all n text h) (le_refl _)))
]
