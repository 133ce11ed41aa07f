-- ===== src/Building.antt =====
-- Buffers that the sources build by one `concat` after the other.
use klunok.Prelude.{
  ℕ, ◌+◌, ◌*◌, ◌<◌, List, [], ◌∷◌, ◌++◌, append-nil, append_assoc, Option, some, Text, ◌≡◌, refl,
  sym, arith, length, length-append,
}
use klunok.Trace.{Host}
use klunok.Buffer.{Buffer, size_mod, new_buffer, concat_string, concat_char, concat_size}
use klunok.Buffer.Cells.{NonZero}
use klunok.Buffer.Contents.{Holds, new_buffer-Holds, Reads-get_string}
use klunok.Buffer.Append.{create_buffer_lem, create_buffer_ample}
use klunok.Buffer.Decimal.{decimal}
use klunok.Buffer.Ample.{IsAmple, string_fits, char_fits, size_fits}
use klunok.Linq.{build, text_of}

pub data Piece : Type 0 where
  string : Text → Piece
  char size : ℕ → Piece

abbrev pub append : Piece → Buffer → Host → Buffer × Host
append (string t) b h = concat_string t b h
append (char c) b h = concat_char c b h
append (size n) b h = concat_size n b h

unfoldable pub append_all : List Piece → Buffer → Host → Buffer × Host
append_all [] b h = (b, h)
append_all (p ∷ ps) b h = let (b', h') = append p b h in append_all ps b' h'

-- A new buffer with the pieces.
unfoldable pub assemble : List Piece → Host → Option Buffer × Host
assemble ps h = build (append_all ps) h

abbrev pub spell : Piece → Text
spell (string t) = t
spell (char c) = c ∷ []
spell (size n) = decimal n

abbrev pub spelled : List Piece → Text
spelled [] = []
spelled (p ∷ ps) = spell p ++ spelled ps

abbrev pub IsPiece : Piece → Type 0
IsPiece (string t) = NonZero t
IsPiece (char c) = 0 < c
IsPiece (size n) = n < size_mod

abbrev pub AllPieces : List Piece → Type 0
AllPieces [] = Unit {0}
AllPieces (p ∷ ps) = IsPiece p × AllPieces ps

module _ (h : Host) (a : IsAmple h) where
  append-Holds :
      (p : Piece) (t : Text) (b : Buffer)
      → Holds t b
      → IsPiece p
      → (length t + length (spell p) + 22) * 2 < size_mod
      → Holds (t ++ spell p) (append p b h).0 × ((append p b h).1 ≡ h)
  append-Holds (string u) t b v w fits = string_fits t b h v a u w (omega (arith, fits))
  append-Holds (char c) t b v w fits = char_fits t b h v a c w (omega (arith, fits))
  append-Holds (size n) t b v w fits = size_fits t b h v a n w (omega (arith, fits))

  append_all-Holds :
      (ps : List Piece) (t : Text) (b : Buffer)
      → Holds t b
      → AllPieces ps
      → (length t + length (spelled ps) + 22) * 2 < size_mod
      → Holds (t ++ spelled ps) (append_all ps b h).0 × ((append_all ps b h).1 ≡ h)
  unfolding append_all
  append_all-Holds [] t b v w fits = (rw (append-nil t) v, refl)
  append_all-Holds (p ∷ ps) t b v w fits =
      let size = length-append (spell p) (spelled ps) in
      let (holds, same) = append-Holds p t b v w.0 (omega (arith, fits, size)) in
      rw (append_all, same, sym (append_assoc t (spell p) (spelled ps)))
        (append_all-Holds ps (t ++ spell p) (append p b h).0 holds w.1
          (omega (arith, fits, size, length-append t (spell p))))

  -- With memory left, the pieces are put together.
  pub assemble-spelled :
      (ps : List Piece)
      → AllPieces ps
      → (length (spelled ps) + 22) * 2 < size_mod
      → (b : Buffer) × (assemble ps h ≡ (some b, h)) × (text_of (some b) ≡ spelled ps)
  unfolding assemble build
  assemble-spelled ps w fits =
      let e = create_buffer_ample h a.memory in
      let made = (create_buffer_lem h).0 (rw e a.fine) in
      let (holds, same) =
        append_all-Holds ps [] new_buffer new_buffer-Holds w (omega (arith, fits)) in
      let b = (append_all ps new_buffer h).0 in
      (b, rw (made, e, build, same) refl, Reads-get_string (spelled ps) b.view holds.reads)
