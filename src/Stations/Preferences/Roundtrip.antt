-- ===== src/Stations/Preferences/Roundtrip.antt =====
-- stations/preferences.go: that a saved layout is loaded again.
use go_dcc_ex_driver.Base.{
  ◌≡◌, refl, sym, ap, ◌∙◌, subst, ◌⊎◌, inl, inr, ◌≤◌, Bool, true, false, Option, none, some, arith,
  ltb, if◌then◌else◌, length, Bytes, codes, eq_bytes, eq_bytes_refl, Error, Result, ok, bind_ok,
  Option-cases,
}
use go_dcc_ex_driver.Base
use go_dcc_ex_driver.Config.Throttles.{ThrottleSettings}
use go_dcc_ex_driver.Config.Codec.{Json, limit, encode_throttles}
use go_dcc_ex_driver.Config.Codec.Roundtrip.{JsonLaws, decode-encode}
use go_dcc_ex_driver.Config.Settings.{Settings, SettingsJson, encode}
use go_dcc_ex_driver.Config.Settings.Roundtrip.{SettingsLaws, decode-encode_settings}
use go_dcc_ex_driver.Stations.Store.{Bolt}
use go_dcc_ex_driver.Stations.Store.Refines.{BoltLaws}
use go_dcc_ex_driver.Stations.Preferences.{
  preferences, throttles_key, read_preference, put_preference, write_preference, load_from,
  load_throttles, save_text, save_throttles, modes_key, settings_from, load_settings, save_settings,
}

-- What bbolt says of a bucket that is made if it is not there: it is there then, with
-- nothing else changed, and stays there whatever is put.
pub record BucketLaws (bolt : Bolt) : Type 0 where
  pub has-create :
      (db new : bolt.Db) (bucket : Bytes)
      → bolt.create db bucket ≡ ok new
      → bolt.has_bucket new bucket ≡ true
  pub has-put :
      (db new : bolt.Db) (bucket key value b : Bytes)
      → bolt.put db bucket key value ≡ ok new
      → bolt.has_bucket new b ≡ bolt.has_bucket db b
  pub get-create :
      (db new : bolt.Db) (bucket b k : Bytes)
      → bolt.create db bucket ≡ ok new
      → bolt.get new b k ≡ bolt.get db b k

some-none {ℓ} : {A : Type ℓ} {o : Option A} {a : A} → o ≡ some a → o ≡ none → ⊥
some-none p q = ground arith

present_text :
    (b : Bool) (o : Option Bytes) (old : Bytes) → (if b then o else none) ≡ some old → o ≡ some old
present_text true o old h = h
present_text false o old h = ground arith

other_keys : eq_bytes modes_key throttles_key ≡ false
unfolding codes eq_bytes
other_keys = refl

module _ (bolt : Bolt) (laws : BoltLaws bolt) (buckets : BucketLaws bolt) where
  -- A text that is stored under a key is read under it.
  read-write :
      (key text : Bytes) (db new : bolt.Db)
      → put_preference bolt key text db ≡ ok new
      → read_preference bolt key new ≡ some text
  unfolding put_preference read_preference
  read-write key text db new h =
      let (made, is, put) = bind_ok (bolt.create db preferences) _ new h in
      rw
        (
          buckets.has-put made new preferences key text preferences put,
          buckets.has-create db made preferences is,
          laws.get-put made new preferences key text preferences key put,
          eq_bytes_refl preferences,
          eq_bytes_refl key,
        )
        refl

  -- A text under another key stays as it is.
  read-write_ne :
      (key other text old : Bytes) (db new : bolt.Db)
      → eq_bytes key other ≡ false
      → put_preference bolt key text db ≡ ok new
      → read_preference bolt other db ≡ some old
      → read_preference bolt other new ≡ some old
  unfolding put_preference read_preference
  read-write_ne key other text old db new ne h before =
      let (made, is, put) = bind_ok (bolt.create db preferences) _ new h in
      rw
        (
          buckets.has-put made new preferences key text preferences put,
          buckets.has-create db made preferences is,
          laws.get-put made new preferences key text preferences other put,
          eq_bytes_refl preferences,
          ne,
          buckets.get-create db made preferences preferences other is,
        )
        (present_text (bolt.has_bucket db preferences) (bolt.get db preferences other) old before)

  saved_text :
      (key : Bytes) (r : Result Bytes) (db : bolt.Db)
      → (save_text bolt key r db).1 ≡ none
      → (text : Bytes) × (r ≡ ok text)
        × (read_preference bolt key (save_text bolt key r db).0 ≡ some text)
  unfolding save_text write_preference
  saved_text key (Base.err e) db h = ground arith
  saved_text key (ok text) db h = elim (laws.atomic (put_preference bolt key text) db) [
    | inl (e, failed) ↦ absurd (some-none (ap (λ r. r.1) failed) h)
    | inr (fine, made) ↦ (text, refl, read-write key text db _ made)
  ]

  kept_text :
      (key other : Bytes) (r : Result Bytes) (old : Bytes) (db : bolt.Db)
      → eq_bytes key other ≡ false
      → read_preference bolt other db ≡ some old
      → read_preference bolt other (save_text bolt key r db).0 ≡ some old
  unfolding save_text write_preference
  kept_text key other (Base.err e) old db ne before = before
  kept_text key other (ok text) old db ne before =
      elim (laws.atomic (put_preference bolt key text) db) [
        | inl (e, failed) ↦ ap (λ r. read_preference bolt other r.0) failed ∙ before
        | inr (fine, made) ↦ read-write_ne key other text old db _ ne made before
      ]

  -- A layout and the modes of 29 functions that are saved without an error, one after the other, on a
  -- database that keeps the laws of bbolt and with JSON libraries that read back what they write, numbers
  -- as far as they are of 64 bits, are both what is loaded afterwards, provided that neither text is over
  -- the limit of 1 MiB: saving the one does not touch the other.
  pub load-save :
      (json : Json ThrottleSettings) (modes : SettingsJson)
      → JsonLaws json
      → SettingsLaws modes
      → (s : ThrottleSettings) (t : Settings) (db : bolt.Db) → length t.toggle ≡ 29
      → let first = save_throttles bolt json s db in
        let second = save_settings bolt modes t first.0 in
        first.1 ≡ none
        → second.1 ≡ none
        → ((text : Bytes) → encode_throttles json s ≡ ok text → length text ≤ limit)
        → ((text : Bytes) → encode modes t ≡ ok text → length text ≤ limit)
        → (load_throttles bolt json second.0 ≡ (s, none))
          × (load_settings bolt modes second.0 ≡ (t, none))
  unfolding save_throttles load_throttles load_from save_settings load_settings settings_from
  load-save json modes json_laws modes_laws s t db size fine fine' short short' =
      let first = save_throttles bolt json s db in
      let (text, is, stored) = saved_text throttles_key (encode_throttles json s) db fine in
      let (text', is', stored') = saved_text modes_key (encode modes t) first.0 fine' in
      let kept =
        kept_text modes_key throttles_key (encode modes t) text first.0 other_keys stored in
      (
        rw kept (decode-encode json json_laws s text is (short text is)),
        rw stored' (decode-encode_settings modes modes_laws t text' size is' (short' text' is')),
      )
