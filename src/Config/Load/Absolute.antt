-- ===== src/Config/Load/Absolute.antt =====
-- src/file_monitor/config.py: a configuration does not depend on the working directory.
use file_monitor.Prelude.{◌≡◌, refl, true, arith, ℤ, Result, ok, subst, ok-injective, >>=-keeps}
use file_monitor.Python.Text.{Text}
use file_monitor.Python.Equality.{nat_eq, list_eq}
use file_monitor.Python.Paths.{FilePath, is_absolute, join, as_posix}
use file_monitor.Python.Decimal.{Unicode}
use file_monitor.Config.{AppConfig, Entry, resolve_path}
use file_monitor.Config.Load.{Document, Environ, load_config}
use file_monitor.Config.Load.Settings.{assemble, specified}
use file_monitor.Config.Load.Loaded.{load_config_iff}

resolve_path-absolute :
    (base_dir : FilePath) (t : Text)
    → is_absolute base_dir ≡ true
    → is_absolute (resolve_path base_dir t) ≡ true
unfolding resolve_path join is_absolute
resolve_path-absolute base_dir t h = ground arith

-- the three paths of a configuration, made of these texts
pub record ArePaths (config_dir : FilePath) (c : AppConfig) : Type 0 where
  pub watch_path : Text
  pub socket_path : Text
  pub binary_path : Text
  pub is_watch_path : c.paths.watch_path ≡ resolve_path config_dir watch_path
  pub is_socket_path : c.paths.socket_path ≡ resolve_path config_dir socket_path
  pub is_binary_path : c.senders.binary_path ≡ as_posix (resolve_path config_dir binary_path)

absolute_at :
    (config_dir p : FilePath) (t : Text)
    → is_absolute config_dir ≡ true
    → p ≡ resolve_path config_dir t
    → is_absolute p ≡ true
absolute_at config_dir p t absolute is_p = rw is_p (resolve_path-absolute config_dir t absolute)

assemble-ArePaths :
    (config_dir : FilePath) (r1 r2 : Result Text) (r3 r4 r5 r6 r7 : Result ℤ) (r8 : Result Text)
    → (r9 : Result ℤ) (r10 : Result Text) (r11 : Result ℤ) (c : AppConfig)
    → assemble config_dir r1 r2 r3 r4 r5 r6 r7 r8 r9 r10 r11 ≡ ok c
    → ArePaths config_dir c
unfolding assemble
assemble-ArePaths config_dir r1 r2 r3 r4 r5 r6 r7 r8 r9 r10 r11 c done =
    >>=-keeps P r1 _ done (λ v1 e1. >>=-keeps P r2 _ e1 (λ v2 e2. >>=-keeps P r3 _ e2 (λ v3 e3.
      >>=-keeps P r4 _ e3 (λ v4 e4. >>=-keeps P r5 _ e4 (λ v5 e5. >>=-keeps P r6 _ e5 (λ v6 e6.
        >>=-keeps P r7 _ e6 (λ v7 e7. >>=-keeps P r8 _ e7 (λ v8 e8. >>=-keeps P r9 _ e8 (λ v9 e9.
          >>=-keeps P r10 _ e9 (λ v10 e10. >>=-keeps P r11 _ e10 (λ v11 e11.
            subst P (ok-injective e11) (record {
              watch_path = v1;
              socket_path = v2;
              binary_path = v10;
              is_watch_path = refl;
              is_socket_path = refl;
              is_binary_path = refl;
            }))))))))))))
  where
    P : AppConfig → Type 0
    P = ArePaths config_dir

specified-ArePaths :
    (unicode : Unicode) (config_dir : FilePath) (environment : Environ) (document : Document)
    (c : AppConfig)
    → specified unicode config_dir environment document ≡ ok c
    → ArePaths config_dir c
unfolding specified
specified-ArePaths unicode config_dir environment document c done =
    assemble-ArePaths config_dir _ _ _ _ _ _ _ _ _ _ _ c done

-- The paths of a configuration that load_config returns are absolute, if the directory of the file is:
-- nothing in it depends on the working directory. The path of the sender's program is the text of an
-- absolute path.
pub load_config-absolute :
    (unicode : Unicode) (read : Result Document) (config_dir : FilePath) (environment : Environ)
    (entry : FilePath → Entry) (c : AppConfig)
    → is_absolute config_dir ≡ true
    → load_config unicode read config_dir environment entry ≡ ok c
    → (is_absolute c.paths.watch_path ≡ true)
      × (is_absolute c.paths.socket_path ≡ true)
      × (binary_path : FilePath) × (c.senders.binary_path ≡ as_posix binary_path)
      × (is_absolute binary_path ≡ true)
load_config-absolute unicode read config_dir environment entry c absolute done =
    let (document, is_read, tables, is_specified, valid) =
      (load_config_iff unicode read config_dir environment entry c).0 done in
    let paths = specified-ArePaths unicode config_dir environment document c is_specified in
    (
      absolute_at config_dir c.paths.watch_path paths.watch_path absolute paths.is_watch_path,
      absolute_at config_dir c.paths.socket_path paths.socket_path absolute paths.is_socket_path,
      resolve_path config_dir paths.binary_path,
      paths.is_binary_path,
      resolve_path-absolute config_dir paths.binary_path absolute,
    )
