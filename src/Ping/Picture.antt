-- ===== src/Ping/Picture.antt =====
-- What the drawn icons look like.
use conwatch.Prelude.{ℕ, ◌+◌, ◌*◌, ◌≤◌, ◌≡◌, List, [], ◌∷◌, Text, ℤ, pos, is_empty, if◌then◌else◌}
use conwatch.Drawing.{
  Fonts, Color, black, white, Call, set_brush, set_pen, set_font, draw_ellipse, draw_centered,
  draw_text, Pixmap,
}
use conwatch.Drawing.Integers.{◌+ℤ◌}

module _ (fonts : Fonts) where
  -- How a text drawn in a font lies in a square of `size` pixels: its ink ends at the right edge and
  -- begins at the upper one.
  pub record Flush (size : ℕ) (font : fonts.Font) (x y : ℤ) (s : Text) : Type 0 where
    pub right_edge :
        let ink = fonts.tight_bounding_rect font s in x +ℤ ink.left +ℤ ink.width ≡ pos size
    pub upper_edge : y +ℤ (fonts.tight_bounding_rect font s).top ≡ pos 0

  -- A disc that leaves the same border on all sides, up to a pixel more at the far ones, and takes at
  -- least seven eighths of the side.
  pub record Inside (size margin side : ℕ) : Type 0 where
    pub centered : (size ≤ margin + side + margin + 1) × (margin + side + margin ≤ size)
    pub large : 7 * size ≤ 8 * side

  -- What the calls of a painter draw, with the brush, the pen and the font that each one finds.
  pub data Shape : Type 0 where
    disc : Color → ℕ → ℕ → ℕ → ℕ → Shape
    middle_text : Color → fonts.Font → ℕ → ℕ → ℕ → ℕ → Text → Shape
    placed_text : Color → fonts.Font → ℤ → ℤ → Text → Shape

  abbrev pub shapes : Color → Color → fonts.Font → List (Call fonts) → List Shape
  shapes brush pen font [] = []
  shapes brush pen font (set_brush c ∷ calls) = shapes c pen font calls
  shapes brush pen font (set_pen c ∷ calls) = shapes brush c font calls
  shapes brush pen font (set_font f ∷ calls) = shapes brush pen f calls
  shapes brush pen font (draw_ellipse x y w h ∷ calls) =
      disc brush x y w h ∷ shapes brush pen font calls
  shapes brush pen font (draw_centered x y w h s ∷ calls) =
      middle_text pen font x y w h s ∷ shapes brush pen font calls
  shapes brush pen font (draw_text x y s ∷ calls) =
      placed_text pen font x y s ∷ shapes brush pen font calls
  shapes brush pen font (c ∷ calls) = shapes brush pen font calls

  -- A pixmap of a size: a disc of the colour, on it the tag in black in the middle, and on that the
  -- glyph, if there is one, in white, with its ink in the upper right corner.
  pub record Looks (size : ℕ) (fill : Color) (tag glyph : Text) (p : Pixmap fonts) : Type 0 where
    pub sized : p.size ≡ size
    pub margin : ℕ
    pub side : ℕ
    pub inside : Inside size margin side
    pub tag_font : fonts.Font
    pub glyph_font : fonts.Font
    pub x : ℤ
    pub y : ℤ
    pub flush : Flush size glyph_font x y glyph
    pub seen :
        shapes black black fonts.painter_font p.calls
        ≡ disc fill margin margin side side
          ∷ middle_text black tag_font 0 0 size size tag
          ∷ (if is_empty glyph then [] else placed_text white glyph_font x y glyph ∷ [])

  abbrev pub AllLook : List ℕ → Color → Text → Text → List (Pixmap fonts) → Type 0
  AllLook [] fill tag glyph [] = Unit {0}
  AllLook [] fill tag glyph (p ∷ ps) = ⊥
  AllLook (n ∷ sizes) fill tag glyph [] = ⊥
  AllLook (n ∷ sizes) fill tag glyph (p ∷ ps) =
      Looks n fill tag glyph p × AllLook sizes fill tag glyph ps
