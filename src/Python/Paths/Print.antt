-- ===== src/Python/Paths/Print.antt =====
-- Reading back what `as_posix` writes.
use file_monitor.Prelude.{
  ℕ, ◌≡◌, refl, Bool, true, false, ◌||◌, List, [], ◌∷◌, ◌++◌, arith, if◌then◌else◌, null, filter,
  All,
}
use file_monitor.Python.Text.{Text}
use file_monitor.Python.Equality.{◌==◌, nat_eq, list_eq, list_beq}
use file_monitor.Python.Paths.{
  FilePath, slash, dot, join_parts, as_posix, root_of, split_slash, kept, parse,
}

abbrev has_slash : Text → Bool
has_slash [] = false
has_slash (c ∷ cs) = c == slash || has_slash cs

-- A part as `Path` makes them: not empty, not ".", and with no slash in it.
abbrev pub IsPart : Text → Type 0
IsPart t = (has_slash t ≡ false) × (kept t ≡ true)

split_slash-part : (t : Text) → has_slash t ≡ false → split_slash t ≡ t ∷ []
unfolding split_slash
split_slash-part [] h = refl
split_slash-part (c ∷ cs) h = ground (arith, split_slash-part cs)

split_slash-append :
    (t rest : Text) → has_slash t ≡ false → split_slash (t ++ slash ∷ rest) ≡ t ∷ split_slash rest
unfolding split_slash
split_slash-append [] rest h = refl
split_slash-append (c ∷ cs) rest h = ground (arith, split_slash-append cs rest)

kept-split-join :
    (parts : List Text) → All IsPart parts → filter kept (split_slash (join_parts parts)) ≡ parts
unfolding join_parts split_slash
kept-split-join [] h = refl
kept-split-join (p ∷ []) h = rw (split_slash-part p h.0.0) (ground arith)
kept-split-join (p ∷ q ∷ parts) h =
    rw (split_slash-append p (join_parts (q ∷ parts)) h.0.0)
      (ground (arith, kept-split-join (q ∷ parts) h.1))

root_of-cons : (c : ℕ) (cs : Text) → (c == slash) ≡ false → root_of (c ∷ cs) ≡ []
unfolding root_of
root_of-cons c [] h = rw h
root_of-cons c (a ∷ []) h = rw h
root_of-cons c (a ∷ b ∷ cs) h = rw h

root_of-join : (parts : List Text) → All IsPart parts → root_of (join_parts parts) ≡ []
unfolding join_parts
root_of-join [] h = unfold root_of in refl
root_of-join ([] ∷ parts) h = absurd (cc (h.0.1))
root_of-join ((c ∷ cs) ∷ []) h = root_of-cons c cs (ground arith)
root_of-join ((c ∷ cs) ∷ q ∷ parts) h =
    root_of-cons c (cs ++ slash ∷ join_parts (q ∷ parts)) (ground arith)

parse-join :
    (parts : List Text)
    → All IsPart parts
    → parse (if null parts then dot else join_parts parts) ≡ record { root = []; parts = parts }
unfolding parse
parse-join [] h = unfold root_of split_slash list_beq in refl
parse-join (p ∷ parts) h = ground (arith, root_of-join (p ∷ parts) h, kept-split-join (p ∷ parts) h)

-- A relative path is read back from its text with the same parts.
pub parse-as_posix : (p : FilePath) → p.root ≡ [] → All IsPart p.parts → parse (as_posix p) ≡ p
unfolding as_posix
parse-as_posix p relative h = ground (arith, parse-join p.parts h)

-- A part is read as the relative path of that one part.
pub parse-part : (t : Text) → IsPart t → parse t ≡ record { root = []; parts = t ∷ [] }
unfolding join_parts
parse-part t h = parse-join (t ∷ []) (h, tt)
