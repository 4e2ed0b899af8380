-- ===== src/Ping/Tests.antt =====
-- The monitor in a small network.
use conwatch.Processes.{Launch}
use conwatch.Ping.Icon.{shown_icon, ticks-shown_icon}
use conwatch.Prelude.{◌⊎◌, ◌≡◌, refl, some, [], codes}
use conwatch.Ping.{Monitor}
use conwatch.Ping.Setup.{short_iface_tag, leading, trailing_digits, construct}
use conwatch.Ping.History.{BothSound, ticks, ticks-BothSound}
use conwatch.Ping.Rules.{FollowsRules}
use conwatch.Ping.Paint.{paint_icon}
use conwatch.Ping.Judged.{Judged}
use conwatch.Ping.Lab.{fixed_fonts, lab, is_letter, is_digit, arguments, quiet_lab}
use conwatch.Ping.StatusLine.{shown_line, shown_tip, words, ticks-status}
use conwatch.Ping.Redraw.{ticks-FollowsRules}

abbrev monitor : Monitor lab
monitor = construct lab is_letter is_digit arguments 0x1234 quiet_lab

ticks-BothSound_example : BothSound lab (ticks lab 12 monitor)
ticks-BothSound_example = ticks-BothSound lab is_letter is_digit arguments 0x1234 quiet_lab 12

ticks-FollowsRules_example :
    let m = ticks lab 12 monitor in FollowsRules m.current_severity m.v4 m.v6
ticks-FollowsRules_example = ticks-FollowsRules lab is_letter is_digit arguments 0x1234 quiet_lab 12

ticks-shown_icon_example :
    let m = ticks lab 12 monitor in
    shown_icon lab m.calls
    ≡ some (paint_icon fixed_fonts m.iface_tag m.current_severity m.current_glyph)
ticks-shown_icon_example = ticks-shown_icon lab is_letter is_digit arguments 0x1234 quiet_lab 12

abbrev launch : Launch
launch = record {
  iface = codes "wg0";
  target = codes "10.10.0.1";
  target6 = [];
  label = codes "VPN";
  gateway_ip_override4 = [];
  gateway_ip_override6 = codes "none";
}

-- The two names of the source's comment.
long_name : short_iface_tag is_letter is_digit (codes "enp196s0f4u1u4") ≡ codes "en4"
unfolding short_iface_tag leading trailing_digits
long_name = refl

ticks-status_example :
    let m = ticks lab 12 monitor in
    (shown_line lab m.calls ≡ some (words lab m))
    × ((shown_tip lab m.calls ≡ some (words lab m)) ⊎ (words lab m ≡ []))
ticks-status_example = ticks-status lab is_letter is_digit arguments 0x1234 quiet_lab 12
