-- ===== src/Ping/Main.antt =====
-- src/conwatch-tray/main.cpp: the arguments of the program. `argv` starts with the program's name.
use conwatch.Prelude.{
  ℕ, zero, suc, Bool, true, false, not, Option, none, some, List, [], ◌∷◌, Text, length, ltb,
  if◌then◌else◌,
}
use conwatch.Ping.Setup.{Arguments}

unfoldable pub args_valid : Bool → List Text → Bool
args_valid tray_available argv =
    if ltb (length argv) 3 then false else (if not tray_available then false else true)

-- `QString(argv[n])` decodes UTF-8 and is the parameter `q_string`.
module _ (q_string : Text → Text) where
  -- `argc >= n + 1 ? argv[n] : otherwise`
  abbrev pub arg_or : ℕ → Text → List Text → Text
  arg_or n otherwise [] = otherwise
  arg_or zero otherwise (a ∷ argv) = q_string a
  arg_or (suc n) otherwise (a ∷ argv) = arg_or n otherwise argv

  -- What the monitor is made with, or `none` where the program leaves with status 1.
  unfoldable pub monitor_arguments : Bool → List Text → Option Arguments
  monitor_arguments tray_available argv =
      let iface = arg_or 1 [] argv in
      if not (args_valid tray_available argv)
      then none
      else some (record {
        iface = iface;
        target = arg_or 2 [] argv;
        target6 = arg_or 3 [] argv;
        label = arg_or 4 iface argv;
        gateway_ip_override4 = arg_or 5 [] argv;
        gateway_ip_override6 = arg_or 6 [] argv;
      })
