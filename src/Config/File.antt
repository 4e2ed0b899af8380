-- ===== src/Config/File.antt =====
-- src/watcher/config.cpp: ConfigFile, which locates the configuration file and creates it. The calls
-- of std::filesystem, std::ofstream and getenv are parameters.
use conwatch.Prelude.{
  Bool, true, false, Option, none, some, List, [], ◌∷◌, Text, codes, is_empty, if◌then◌else◌,
}
use conwatch.Config.Default.{default_config_yaml}

-- `path`, `text`, `slash` and `append` are the constructor of fs::path, its `string()`, `/` and `+=`.
-- `none` from `exists`, and `false` from the two calls behind it, is an exception. The operations of
-- a stream throw nothing and report nothing that the source reads; `close` also writes what is left.
pub record FileSystem : Type 1 where
  pub FilePath : Type 0
  pub path : Text → FilePath
  pub text : FilePath → Text
  pub slash : FilePath → FilePath → FilePath
  pub append : FilePath → Text → FilePath
  pub parent_path : FilePath → FilePath
  pub World : Type 0
  pub exists : FilePath → World → Option Bool
  pub create_directories : FilePath → World → Bool × World
  pub rename : FilePath → FilePath → World → Bool × World
  pub Stream : Type 0
  pub open_truncated : FilePath → World → Stream × World
  pub insert : Text → Stream → World → Stream × World
  pub close : Stream → World → World

module _ (fs : FileSystem) where
  abbrev pub home_or_dot : Option Text → Text
  home_or_dot none = codes "."
  home_or_dot (some home) = home

  unfoldable pub home_config_dir : (Text → Option Text) → fs.FilePath
  home_config_dir getenv =
      fs.slash (fs.path (home_or_dot (getenv (codes "HOME")))) (fs.path (codes ".config"))

  abbrev pub config_base : Option Text → fs.FilePath → fs.FilePath
  config_base none home = home
  config_base (some xdg) home = if is_empty xdg then home else fs.path xdg

  unfoldable pub resolve_path : (Text → Option Text) → Text
  resolve_path getenv =
      let base = config_base (getenv (codes "XDG_CONFIG_HOME")) (home_config_dir getenv) in
      fs.text
        (fs.slash (fs.slash base (fs.path (codes "conwatch"))) (fs.path (codes "config.yaml")))

  -- What a call answers, `none` for an exception, and the worlds behind its steps, the latest first.
  pub record Ensured : Type 0 where
    pub answer : Option Bool
    pub world : fs.World
    pub seen : List fs.World

  abbrev pub temporary : fs.FilePath → fs.FilePath
  temporary p = fs.append p (codes ".tmp")

  -- The destructor of the stream closes it before the file gets its name.
  unfoldable pub write_default_config : fs.FilePath → fs.World → List fs.World → Ensured
  write_default_config p w seen =
      let (out, w1) = fs.open_truncated (temporary p) w in
      let (out', w2) = fs.insert default_config_yaml out w1 in
      let w3 = fs.close out' w2 in
      let (ok, w4) = fs.rename (temporary p) p w3 in
      record {
        answer = if ok then some true else none;
        world = w4;
        seen = w4 ∷ w3 ∷ w2 ∷ w1 ∷ seen;
      }

  unfoldable pub create_missing : fs.FilePath → fs.World → Ensured
  create_missing p w =
      let (ok, w1) = fs.create_directories (fs.parent_path p) w in
      if ok
      then write_default_config p w1 (w1 ∷ w ∷ [])
      else record { answer = none; world = w1; seen = w1 ∷ w ∷ [] }

  abbrev pub ensure_found : Option Bool → fs.FilePath → fs.World → Ensured
  ensure_found none p w = record { answer = none; world = w; seen = w ∷ [] }
  ensure_found (some true) p w = record { answer = some false; world = w; seen = w ∷ [] }
  ensure_found (some false) p w = create_missing p w

  unfoldable pub ensure_exists : Text → fs.World → Ensured
  ensure_exists file w = let p = fs.path file in ensure_found (fs.exists p w) p w

  -- The functions that config.hpp declares.
  abbrev pub resolve_config_path : (Text → Option Text) → Text
  resolve_config_path getenv = resolve_path getenv

  abbrev pub ensure_config_exists : Text → fs.World → Ensured
  ensure_config_exists path w = ensure_exists path w
