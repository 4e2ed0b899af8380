-- ===== src/Ping/Shown.antt =====
-- The icon in the tray against the README's account of its colour and its glyph.
use conwatch.Prelude.{◌||◌, [], Text, codes, if◌then◌else◌}
use conwatch.Ping.{ProtoTrack}
use conwatch.Ping.Rules.{is_answering, is_behind_gateway}

-- The protocols that answer or are behind their gateway.
abbrev pub reaching : ProtoTrack → ProtoTrack → Text
reaching t4 t6 =
    if is_answering t4 || is_behind_gateway t4
    then (if is_answering t6 || is_behind_gateway t6 then codes "4/6" else codes "4")
    else (if is_answering t6 || is_behind_gateway t6 then codes "6" else [])
