-- ===== src/Config/Profile.antt =====
-- `is_valid_profile_name`, `build_profile_path` and `trfx_load_runtime_config` (src/trfx_config.c). The
-- environment and the files are functions that a caller supplies; a profile is opened twice, with the
-- same outcome. The error buffer has `error_size > 0` bytes.
use trafix.Prelude.{
  ℕ, ◌+◌, ◌<◌, Bool, true, false, not, ◌&&◌, ◌||◌, List, [], ◌∷◌, ◌++◌, Option, none, some, ltb,
  ◌==◌, ◌≡◌, refl, length, if◌then◌else◌, Bool-cases, inl, inr, arith, length-append, sym, subst,
  ltb→le,
}
use trafix.Cstr.{Text, codes, clip, is_alnum, is_digit, is_empty, mem_char}
use trafix.Config.{Settings, initial, read_config, Warning}
use trafix.Config.Bounds.{InBounds, read_config-InBounds}

pub record World : Type 0 where
  pub getenv : Text → Option Text
  pub read_file : Text → Option Text

abbrev name_char : ℕ → Bool
name_char c = is_alnum c || c == b'_' || c == b'-' || c == b'.'

name_chars : Text → Bool
name_chars [] = true
name_chars (c ∷ s) = if not (name_char c) then false else name_chars s

unfoldable pub is_valid_profile_name : Text → Bool
unfolding name_chars
is_valid_profile_name name = not (is_empty name) && name_chars name

-- A variable that is unset counts as empty.
abbrev or_empty : Option Text → Text
or_empty none = []
or_empty (some s) = s

-- The directory that holds the profiles.
unfoldable pub base_dir : World → Option Text
base_dir w =
    if not (is_empty (or_empty (w.getenv (codes "TRAFX_PROFILE_DIR"))))
    then some (or_empty (w.getenv (codes "TRAFX_PROFILE_DIR")))
    else if is_empty (or_empty (w.getenv (codes "HOME")))
    then none
    else some (clip 512 (or_empty (w.getenv (codes "HOME")) ++ codes "/.config/trafix/profiles"))

path_in : Text → ℕ → Option Text → Option Text
path_in name path_size none = none
path_in name path_size (some base) =
    if ltb path_size (length base + 1 + length name + 4 + 1)
    then none
    else some (base ++ b'/' ∷ (name ++ codes ".cfg"))

unfoldable pub build_profile_path : World → Text → ℕ → Option Text
unfolding path_in
build_profile_path w name path_size =
    if not (is_valid_profile_name name) || path_size == 0
    then none
    else path_in name path_size (base_dir w)

pub record Loaded : Type 0 where
  pub ok : Bool
  pub error : Text
  pub settings : Settings
  pub warnings : List Warning

abbrev with_file : ℕ → Settings → List Warning → Text → Option Text → Loaded
with_file error_size s warnings path none = record {
  ok = false;
  error = clip error_size (codes "profile not found: " ++ path);
  settings = s;
  warnings = warnings;
}
with_file error_size s warnings path (some file) =
    let (t, more) = read_config s path (some file) in
    record { ok = true; error = []; settings = t; warnings = warnings ++ more }

with_path : World → ℕ → Settings → List Warning → Option Text → Loaded
with_path w error_size s warnings none = record {
  ok = false;
  error = clip error_size (codes "invalid profile name or missing profile directory");
  settings = s;
  warnings = warnings;
}
with_path w error_size s warnings (some path) =
    with_file error_size s warnings path (w.read_file path)

abbrev pub config_file : Text
config_file = codes "/etc/trafix/config.cfg"

unfoldable pub base_config : World → Text
base_config w =
    if is_empty (or_empty (w.getenv (codes "TRAFX_CONFIG_FILE")))
    then config_file
    else or_empty (w.getenv (codes "TRAFX_CONFIG_FILE"))

-- A null profile name is empty.
unfoldable pub load_runtime_config : World → Settings → Text → ℕ → Loaded
unfolding with_path
load_runtime_config w s profile_name error_size =
    let (t, warnings) = read_config s (base_config w) (w.read_file (base_config w)) in
    if is_empty profile_name
    then record { ok = true; error = []; settings = t; warnings = warnings }
    else with_path w error_size t warnings (build_profile_path w profile_name 512)

with_path-InBounds :
    (w : World) (error_size : ℕ) (s : Settings) (warnings : List Warning) (path : Option Text)
    → InBounds s
    → InBounds (with_path w error_size s warnings path).settings
unfolding with_path
with_path-InBounds w n s warnings none h = h
with_path-InBounds w n s warnings (some path) h = go (w.read_file path)
  where
    go : (file : Option Text) → InBounds (with_file n s warnings path file).settings
    go none = h
    go (some file) = read_config-InBounds s path (some file) h

-- Whatever the files and the environment are, the settings that are loaded over the initial ones lie in
-- their ranges: percentages in 1 to 100, flags 0 or 1, the refresh intervals in 250 to 10000, the pause
-- in 25 to 1000, and the check in 1 to 250 milliseconds.
pub load_runtime_config-InBounds :
    (w : World) (profile_name : Text) (error_size : ℕ)
    → InBounds (load_runtime_config w initial profile_name error_size).settings
unfolding load_runtime_config
load_runtime_config-InBounds w name n =
    let path = base_config w in
    let base = read_config initial path (w.read_file path) in
    let h : InBounds base.0 = read_config-InBounds initial path (w.read_file path) (omega arith) in
    elim (Bool-cases (is_empty name)) [
      | inl e ↦ rw e h
      | inr e ↦ rw e (with_path-InBounds w n base.0 base.1 (build_profile_path w name 512) h)
    ]

name_chars_free : (s : Text) → name_chars s ≡ true → mem_char b'/' s ≡ false
unfolding name_chars mem_char is_alnum is_digit
name_chars_free [] h = refl
name_chars_free (c ∷ s) h = ground (arith, name_chars_free s)

-- Some directory holds the path directly, under the name with ".cfg".
abbrev pub IsProfilePath : World → Text → ℕ → Text → Type 0
IsProfilePath w name path_size path =
    (base : Text) × (base_dir w ≡ some base)
    × (path ≡ base ++ b'/' ∷ (name ++ codes ".cfg"))
    × (length path < path_size)
    × (mem_char b'/' name ≡ false)

path_in_lem :
    (w : World) (name : Text) (path_size : ℕ) (path : Text) (b : Option Text)
    → base_dir w ≡ b
    → name_chars name ≡ true
    → path_in name path_size b ≡ some path
    → IsProfilePath w name path_size path
unfolding path_in
path_in_lem w name n path none e v h = absurd (ground arith)
path_in_lem w name n path (some base) e v h =
    elim (Bool-cases (ltb n (length base + 1 + length name + 4 + 1))) [
      | inl f ↦ absurd (ground arith)
      | inr f ↦
          let p : path ≡ base ++ b'/' ∷ (name ++ codes ".cfg") = ground arith in
          let l : length (base ++ b'/' ∷ (name ++ codes ".cfg")) < n = omega (
            arith,
            ltb→le n (length base + 1 + length name + 4 + 1) f,
            length-append base (b'/' ∷ (name ++ codes ".cfg")),
            length-append name (codes ".cfg"),
          ) in
          (base, e, p, subst (λ t. length t < n) (sym p) l, name_chars_free name v)
    ]

-- A profile path that is built is the profile directory, a slash, the name and ".cfg"; the name has no
-- slash, and the path with its terminator fits in the buffer.
pub build_profile_path-IsProfilePath :
    (w : World) (name : Text) (path_size : ℕ) (path : Text)
    → build_profile_path w name path_size ≡ some path
    → IsProfilePath w name path_size path
unfolding build_profile_path is_valid_profile_name
build_profile_path-IsProfilePath w name path_size path h =
    path_in_lem w name path_size path (base_dir w) refl (ground arith) (ground arith)
