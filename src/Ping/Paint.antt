-- ===== src/Ping/Paint.antt =====
-- src/conwatch-tray/ping_monitor_icon.cpp: the drawing of an icon.
use conwatch.Prelude.{
  ℕ, ◌-◌, ◌*◌, ◌/◌, true, List, [], ◌∷◌, map, Text, pos, if◌then◌else◌, is_empty,
}
use conwatch.Drawing.{
  Fonts, Color, rgb, rgba, black, white, fill_transparent, antialiasing, text_antialiasing,
  set_brush, set_pen, draw_ellipse, draw_centered, draw_text, Painter, Pixmap, call, use_font,
}
use conwatch.Drawing.Integers.{◌-ℤ◌, negate}
use conwatch.Ping.{Severity, green, blue, yellow, red}

unfoldable pub q_color_for : Severity → Color
q_color_for green = rgb 0x2e 0xcc 0x71
q_color_for blue = rgb 0x34 0x98 0xdb
q_color_for yellow = rgb 0xf1 0xc4 0x0f
q_color_for red = rgb 0xe7 0x4c 0x3c

abbrev pub icon_sizes : List ℕ
icon_sizes = 16 ∷ 22 ∷ 24 ∷ 32 ∷ 48 ∷ 64 ∷ 128 ∷ []

module _ (fonts : Fonts) where
  unfoldable pub paint_icon_base : ℕ → Color → Text → Painter fonts → Painter fonts
  paint_icon_base size qc iface_tag p =
      let p1 = call fonts (set_pen (rgba 0 0 0 60)) (call fonts (set_brush qc) p) in
      let ellipse = draw_ellipse (size / 16) (size / 16) (size - size / 8) (size - size / 8) in
      let p2 = call fonts ellipse p1 in
      let iface_font = fonts.set_pixel_size (size * 26 / 64) (fonts.set_bold true p2.font) in
      let p3 = call fonts (set_pen black) (use_font fonts iface_font p2) in
      call fonts (draw_centered 0 0 size size iface_tag) p3

  unfoldable pub paint_icon_glyph : ℕ → Text → Painter fonts → Painter fonts
  paint_icon_glyph size glyph p =
      let proto_font = fonts.set_pixel_size (size * 22 / 64) (fonts.set_bold true p.font) in
      let p1 = call fonts (set_pen white) (use_font fonts proto_font p) in
      let proto_ink = fonts.tight_bounding_rect proto_font glyph in
      let proto_x = pos size -ℤ proto_ink.width -ℤ proto_ink.left in
      let proto_y = negate proto_ink.top in
      if is_empty glyph then p else call fonts (draw_text proto_x proto_y glyph) p1

  -- The pixmap is filled before it is painted on.
  unfoldable pub render_icon : ℕ → Color → Text → Text → Pixmap fonts
  render_icon size qc iface_tag glyph =
      let p : Painter fonts = record { font = fonts.painter_font; calls = fill_transparent ∷ [] } in
      let p1 = call fonts text_antialiasing (call fonts antialiasing p) in
      let p2 = paint_icon_glyph size glyph (paint_icon_base size qc iface_tag p1) in
      record { size = size; calls = p2.calls }

  -- The icon that `iconFor` makes: its pixmaps.
  unfoldable pub paint_icon : Text → Severity → Text → List (Pixmap fonts)
  paint_icon iface_tag worst glyph =
      map (λ size. render_icon size (q_color_for worst) iface_tag glyph) icon_sizes
