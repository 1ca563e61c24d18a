-- ===== src/Stations/Preferences.antt =====
-- stations/preferences.go: preferences in a bucket of their own.
pub mod Roundtrip
use go_dcc_ex_driver.Base.{
  ◌≡◌, Bool, true, false, List, [], ◌∷◌, Option, none, some, if◌then◌else◌, Bytes, codes, Error,
  Result, ok, ◌>>=◌,
}
use go_dcc_ex_driver.Base
use go_dcc_ex_driver.Config.Throttles.{ThrottleSettings, default_throttles}
use go_dcc_ex_driver.Config.Codec.{Json, decode_throttles, encode_throttles}
use go_dcc_ex_driver.Config.Settings.{Settings, SettingsJson, default_settings, decode, encode}
use go_dcc_ex_driver.Stations.Store.{Bolt}

abbrev pub preferences : Bytes
preferences = codes "preferences"

abbrev pub throttles_key : Bytes
throttles_key = codes "throttles"

abbrev pub modes_key : Bytes
modes_key = codes "function-modes"

module _ (bolt : Bolt) where
  -- `readPreference`: the stored text, if there is one.
  unfoldable pub read_preference : Bytes → bolt.Db → Option Bytes
  read_preference key db =
      if bolt.has_bucket db preferences then bolt.get db preferences key else none

  put_preference : Bytes → Bytes → bolt.Db → Result bolt.Db
  put_preference key text db =
      bolt.create db preferences >>= λ new. bolt.put new preferences key text

  -- `writePreference`
  unfoldable pub write_preference : Bytes → Bytes → bolt.Db → bolt.Db × Option Error
  unfolding put_preference
  write_preference key text db = bolt.update (put_preference key text) db

  load_from : Json ThrottleSettings → Option Bytes → ThrottleSettings × Option Error
  load_from json none = (default_throttles, none)
  load_from json (some text) = decode_throttles json text

  unfoldable pub load_throttles : Json ThrottleSettings → bolt.Db → ThrottleSettings × Option Error
  unfolding load_from
  load_throttles json db = load_from json (read_preference throttles_key db)

  save_text : Bytes → Result Bytes → bolt.Db → bolt.Db × Option Error
  save_text key (Base.err e) db = (db, some e)
  save_text key (ok text) db = write_preference key text db

  unfoldable pub save_throttles :
      Json ThrottleSettings → ThrottleSettings → bolt.Db → bolt.Db × Option Error
  unfolding save_text
  save_throttles json s db = save_text throttles_key (encode_throttles json s) db

  settings_from : SettingsJson → Option Bytes → Settings × Option Error
  settings_from json none = (default_settings, none)
  settings_from json (some text) = decode json text

  unfoldable pub load_settings : SettingsJson → bolt.Db → Settings × Option Error
  unfolding settings_from
  load_settings json db = settings_from json (read_preference modes_key db)

  unfoldable pub save_settings : SettingsJson → Settings → bolt.Db → bolt.Db × Option Error
  unfolding save_text
  save_settings json s db = save_text modes_key (encode json s) db
