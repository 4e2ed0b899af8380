-- ===== src/Drawing.antt =====
-- What src/conwatch-tray/ping_monitor_icon.cpp asks of QPainter. The fonts and their metrics are a
-- parameter; a pixmap is the calls that drew it.
pub mod Integers
use conwatch.Prelude.{ℕ, Bool, List, [], ◌∷◌, ◌++◌, Text, ℤ}

-- The smallest rectangle around the ink of a text that is drawn at the origin.
pub record Ink : Type 0 where
  pub left : ℤ
  pub top : ℤ
  pub width : ℤ

-- `painter_font` is the font of a new painter.
pub record Fonts : Type 1 where
  pub Font : Type 0
  pub painter_font : Font
  pub set_bold : Bool → Font → Font
  pub set_pixel_size : ℕ → Font → Font
  pub tight_bounding_rect : Font → Text → Ink

pub data Color : Type 0 where
  rgb : ℕ → ℕ → ℕ → Color
  rgba : ℕ → ℕ → ℕ → ℕ → Color
  black : Color
  white : Color

module _ (fonts : Fonts) where
  -- `draw_ellipse x y w h`; `draw_centered x y w h s` has Qt::AlignCenter.
  pub data Call : Type 0 where
    fill_transparent : Call
    antialiasing : Call
    text_antialiasing : Call
    set_brush : Color → Call
    set_pen : Color → Call
    set_font : fonts.Font → Call
    draw_ellipse : ℕ → ℕ → ℕ → ℕ → Call
    draw_centered : ℕ → ℕ → ℕ → ℕ → Text → Call
    draw_text : ℤ → ℤ → Text → Call

  -- A painter has a font and has made calls, the first one first.
  pub record Painter : Type 0 where
    pub font : fonts.Font
    pub calls : List Call

  pub record Pixmap : Type 0 where
    pub size : ℕ
    pub calls : List Call

  abbrev pub call : Call → Painter → Painter
  call c p = record p { calls = p.calls ++ c ∷ [] }

  abbrev pub use_font : fonts.Font → Painter → Painter
  use_font f p = record (call (set_font f) p) { font = f }
