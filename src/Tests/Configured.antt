-- ===== src/Tests/Configured.antt =====
-- The configuration (src/trfx_config.c).
use trafix.Prelude.{List, [], ◌∷◌, none, some, ◌≡◌, refl, arith, if◌then◌else◌}
use trafix.Cstr.{codes, equal, is_alnum, is_digit, clip}
use trafix.Config.{initial, read_config}
use trafix.Config.Bounds.{InBounds}
use trafix.Config.Entries.{memory, refresh, yellow}
use trafix.Config.Entries.Files.{Entry, write, put_all, read_config-write}
use trafix.Config.Profile.{
  World, load_runtime_config, load_runtime_config-InBounds, build_profile_path, IsProfilePath,
  build_profile_path-IsProfilePath, is_valid_profile_name, base_dir,
}

-- All files ask for too fast a refresh, and the home directory is "/root".
abbrev pub world : World
world = record {
  getenv = λ name. if equal name (codes "HOME") then some (codes "/root") else none;
  read_file = λ path. some (codes "# fast\nTUI_REFRESH_INTERVAL_MS = 10\n");
}

load_runtime_config-InBounds_example :
    InBounds (load_runtime_config world initial (codes "home") 256).settings
load_runtime_config-InBounds_example = load_runtime_config-InBounds world (codes "home") 256

home_path :
    build_profile_path world (codes "home") 512
    ≡ some (codes "/root/.config/trafix/profiles/home.cfg")
unfolding build_profile_path is_valid_profile_name base_dir equal is_alnum is_digit clip
home_path = refl

build_profile_path-IsProfilePath_example :
    IsProfilePath world (codes "home") 512 (codes "/root/.config/trafix/profiles/home.cfg")
build_profile_path-IsProfilePath_example =
    build_profile_path-IsProfilePath world (codes "home") 512
      (codes "/root/.config/trafix/profiles/home.cfg") home_path

abbrev entries : List Entry
entries = (yellow, 60) ∷ (memory, 80) ∷ (refresh, 500) ∷ (memory, 85) ∷ []

read_config-write_example :
    read_config initial (codes "x.cfg") (some (write entries)) ≡ (put_all entries initial, [])
read_config-write_example = read_config-write initial (codes "x.cfg") entries (omega arith)
