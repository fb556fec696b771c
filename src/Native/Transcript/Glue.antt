-- ===== src/Native/Transcript/Glue.antt =====
-- Texts joined by single spaces.
use agent_workboard.Prelude.{
  ◌+◌, ◌≡◌, refl, sym, ap, true, false, List, [], ◌∷◌, ◌++◌, Text, length, is_empty, length-append,
  append_assoc, arith,
}
use agent_workboard.Native.Transcript.{TranscriptChunk}

-- A text behind another, with a space between the two if both say something.
unfoldable pub glue : Text → Text → Text
glue before [] = before
glue [] (c ∷ s) = c ∷ s
glue (b ∷ before) (c ∷ s) = (b ∷ before) ++ b' ' ∷ c ∷ s

unfoldable pub glue_all : Text → List Text → Text
glue_all before [] = before
glue_all before (s ∷ texts) = glue_all (glue before s) texts

unfoldable pub glue_chunks : Text → List TranscriptChunk → Text
glue_chunks before [] = before
glue_chunks before (c ∷ chunks) = glue_chunks (glue before c.text) chunks

pub glue_chunks-append :
    (before : Text) (chunks : List TranscriptChunk) (c : TranscriptChunk)
    → glue_chunks before (chunks ++ c ∷ []) ≡ glue (glue_chunks before chunks) c.text
unfolding glue_chunks
glue_chunks-append before [] c = refl
glue_chunks-append before (d ∷ chunks) c = glue_chunks-append (glue before d.text) chunks c

-- Gluing is associative.
pub glue_assoc : (r s t : Text) → glue (glue r s) t ≡ glue r (glue s t)
unfolding glue
glue_assoc r s [] = refl
glue_assoc r [] (c ∷ t) = refl
glue_assoc [] (b ∷ s) (c ∷ t) = refl
glue_assoc (a ∷ r) (b ∷ s) (c ∷ t) = ap (λ x. a ∷ x) (append_assoc r _ _)

pub length-glue :
    (s t : Text)
    → is_empty s ≡ false
    → is_empty t ≡ false
    → length (glue s t) ≡ length s + (length t + 1)
unfolding glue
length-glue [] t h k = cc
length-glue (b ∷ s) [] h k = cc
length-glue (b ∷ s) (c ∷ t) h k = omega (arith, length-append s (b' ' ∷ c ∷ t))

pub glue_some :
    (s t : Text) → is_empty s ≡ false → is_empty t ≡ false → glue s t ≡ (s ++ b' ' ∷ []) ++ t
unfolding glue
glue_some [] t h k = cc
glue_some (b ∷ s) [] h k = cc
glue_some (b ∷ s) (c ∷ t) h k = ap (λ x. b ∷ x) (sym (append_assoc s _ _))

pub glue_empty : (t : Text) → glue [] t ≡ t
unfolding glue
glue_empty [] = refl
glue_empty (c ∷ t) = refl

pub is_empty-append : (s t : Text) → is_empty t ≡ false → is_empty (s ++ t) ≡ false
is_empty-append [] t h = h
is_empty-append (b ∷ s) t h = refl

pub is_empty-glue : (s t : Text) → is_empty t ≡ false → is_empty (glue s t) ≡ false
unfolding glue
is_empty-glue s [] h = cc
is_empty-glue [] (c ∷ t) h = refl
is_empty-glue (b ∷ s) (c ∷ t) h = refl

pub empty_text : (t : Text) → is_empty t ≡ true → t ≡ []
empty_text [] h = refl
empty_text (c ∷ t) h = cc

pub glue_fresh : (t : Text) → glue (glue_chunks [] []) t ≡ glue (glue (glue_chunks [] []) []) t
unfolding glue glue_chunks
glue_fresh t = refl

pub glue_nothing : (s t : Text) → is_empty t ≡ true → s ≡ glue s t
unfolding glue
glue_nothing s [] e = refl
glue_nothing s (c ∷ t) e = cc
