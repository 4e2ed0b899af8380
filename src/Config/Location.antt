-- ===== src/Config/Location.antt =====
-- Where the configuration file is looked for.
use mathlib.Core.List.{append_assoc}
use conwatch.Prelude.{
  ℕ, ◌≡◌, refl, ap, ◌∙◌, Bool, true, false, not, ◌&&◌, ◌==◌, Option, none, some, [], ◌∷◌, ◌++◌,
  Text, codes, is_empty, arith,
}
use conwatch.Config.File.{FileSystem, config_base, home_config_dir, home_or_dot, resolve_path}

abbrev pub ends_in_slash : Text → Bool
ends_in_slash [] = false
ends_in_slash (c ∷ []) = c == 47
ends_in_slash (c ∷ d ∷ s) = ends_in_slash (d ∷ s)

abbrev pub starts_with_slash : Text → Bool
starts_with_slash [] = false
starts_with_slash (c ∷ s) = c == 47

-- A directory's name that `/` puts a separator behind.
abbrev pub is_plain : Text → Bool
is_plain s = not (is_empty s) && not (ends_in_slash s)

-- The directory that the README names: XDG_CONFIG_HOME if that is set and not empty, else .config
-- under HOME, and under the working directory without a HOME.
abbrev pub unset_or_empty : Option Text → Bool
unset_or_empty none = true
unset_or_empty (some s) = is_empty s

pub data ConfigDir (getenv : Text → Option Text) : Text → Type 0 where
  from_xdg :
      (xdg : Text)
      → getenv (codes "XDG_CONFIG_HOME") ≡ some xdg
      → is_plain xdg ≡ true
      → ConfigDir getenv xdg
  from_home :
      (home : Text)
      → unset_or_empty (getenv (codes "XDG_CONFIG_HOME")) ≡ true
      → getenv (codes "HOME") ≡ some home
      → is_plain home ≡ true
      → ConfigDir getenv (home ++ codes "/.config")
  from_working_directory :
      unset_or_empty (getenv (codes "XDG_CONFIG_HOME")) ≡ true
      → getenv (codes "HOME") ≡ none
      → ConfigDir getenv (codes "./.config")

-- The paths of POSIX.
pub record IsPosix (fs : FileSystem) : Type 0 where
  pub text_path : (t : Text) → fs.text (fs.path t) ≡ t
  pub text_slash :
      (p q : fs.FilePath)
      → is_plain (fs.text p) ≡ true
      → starts_with_slash (fs.text q) ≡ false
      → fs.text (fs.slash p q) ≡ fs.text p ++ 47 ∷ fs.text q

is_plain-join : (s : Text) (c d : ℕ) (t : Text) → is_plain (s ++ c ∷ d ∷ t) ≡ is_plain (d ∷ t)
is_plain-join [] c d t = refl
is_plain-join (x ∷ []) c d t = refl
is_plain-join (x ∷ y ∷ s) c d t = is_plain-join (y ∷ s) c d t

module _ (fs : FileSystem) (posix : IsPosix fs) where
  open posix use {text_path, text_slash}

  text-join :
      (p : fs.FilePath) (s t : Text)
      → fs.text p ≡ s
      → is_plain s ≡ true
      → starts_with_slash t ≡ false
      → fs.text (fs.slash p (fs.path t)) ≡ s ++ 47 ∷ t
  text-join p s t e plain relative =
      text_slash p (fs.path t) (ap is_plain e ∙ plain)
        (ap starts_with_slash (text_path t) ∙ relative)
      ∙ ap (λ a. a ++ 47 ∷ fs.text (fs.path t)) e
      ∙ ap (λ b. s ++ 47 ∷ b) (text_path t)

  under :
      (base : fs.FilePath) (dir : Text)
      → fs.text base ≡ dir
      → is_plain dir ≡ true
      → fs.text
          (fs.slash (fs.slash base (fs.path (codes "conwatch"))) (fs.path (codes "config.yaml")))
        ≡ dir ++ codes "/conwatch/config.yaml"
  under base dir e plain =
      let inner = text-join base dir (codes "conwatch") e plain refl in
      let still = is_plain-join dir 47 99 (codes "onwatch") in
      text-join (fs.slash base (fs.path (codes "conwatch"))) (dir ++ codes "/conwatch")
        (codes "config.yaml") inner still refl
      ∙ append_assoc dir (codes "/conwatch") (codes "/config.yaml")

  home-text :
      (getenv : Text → Option Text) (home : Text)
      → home_or_dot fs (getenv (codes "HOME")) ≡ home
      → is_plain home ≡ true
      → fs.text (home_config_dir fs getenv) ≡ home ++ codes "/.config"
  unfolding home_config_dir
  home-text getenv home e plain =
      text-join (fs.path (home_or_dot fs (getenv (codes "HOME")))) home (codes ".config")
        (text_path _ ∙ e) plain refl

  base-home :
      (xdg : Option Text) (home : fs.FilePath)
      → unset_or_empty xdg ≡ true
      → config_base fs xdg home ≡ home
  base-home none home e = refl
  base-home (some s) home e = rw e refl

  base-xdg :
      (xdg : Text) (home : fs.FilePath)
      → is_plain xdg ≡ true
      → config_base fs (some xdg) home ≡ fs.path xdg
  base-xdg xdg home e = ground (arith, e)

  -- On POSIX paths the file is conwatch/config.yaml in the directory that the README names, where
  -- the variable that decides is not empty and does not end in a slash.
  pub resolve_path-ConfigDir :
      (getenv : Text → Option Text) (dir : Text)
      → ConfigDir getenv dir
      → resolve_path fs getenv ≡ dir ++ codes "/conwatch/config.yaml"
  unfolding resolve_path
  resolve_path-ConfigDir getenv dir (from_xdg xdg set plain) =
      let home = home_config_dir fs getenv in
      let b = ap (λ o. config_base fs o home) set ∙ base-xdg xdg home plain in
      rw (resolve_path, b) (under (fs.path xdg) xdg (text_path xdg) plain)
  resolve_path-ConfigDir getenv dir (from_home home unset set plain) =
      let b = base-home (getenv (codes "XDG_CONFIG_HOME")) (home_config_dir fs getenv) unset in
      let h = home-text getenv home (ap (home_or_dot fs) set) plain in
      rw (resolve_path, b)
        (under (home_config_dir fs getenv) (home ++ codes "/.config") h
          (is_plain-join home 47 46 (codes "config")))
  resolve_path-ConfigDir getenv dir (from_working_directory unset none_set) =
      let b = base-home (getenv (codes "XDG_CONFIG_HOME")) (home_config_dir fs getenv) unset in
      let h = home-text getenv (codes ".") (ap (home_or_dot fs) none_set) refl in
      rw (resolve_path, b) (under (home_config_dir fs getenv) (codes "./.config") h refl)
