-- ===== src/Examples/Stations.antt =====
-- A database that is a list of changes, with two stations and a layout.
use native.Mathlib.Decide.{ℕ_discrete}
use go_dcc_ex_driver.Base.{
  ◌≡◌, refl, sym, ap, ◌∙◌, ◌⊎◌, inl, inr, ◌≤◌, ◌<◌, ◌^◌, ℕ, ltb, leb, Bool, true, false, ◌&&◌, List,
  [], ◌∷◌, Option, none, some, arith, pos, if◌then◌else◌, length, map, ℤ, Bytes, codes, eq_bytes,
  trim_space, Error, message, Result, ok, ok-injective,
}
use go_dcc_ex_driver.Base
use go_dcc_ex_driver.Config.Throttles.{ThrottleSettings, default_throttles, validate_settings}
use go_dcc_ex_driver.Config.DisplayName.{runes_from, is_control, validate_display_name}
use go_dcc_ex_driver.Config.Codec.{Json, encode_throttles}
use go_dcc_ex_driver.Config.Codec.Roundtrip.{JsonLaws}
use go_dcc_ex_driver.Config.Settings.{SettingsJson, default_settings, encode}
use go_dcc_ex_driver.Config.Settings.Roundtrip.{SettingsLaws}
use go_dcc_ex_driver.Stations.Profile.{Profile, Platform, normalize, tcp_text}
use go_dcc_ex_driver.Stations.Profile.Valid.{IsNormal, normalize-IsNormal}
use go_dcc_ex_driver.Stations.Store.{Bolt, Codec}
use go_dcc_ex_driver.Stations.Store.Refines.{
  is_utf8, BoltLaws, Outcome, CodecLaws, StoreCall, saves, deletes, effects, Refined, find, perform,
  perform_all, perform-Refined, find-perform_all,
}
use go_dcc_ex_driver.Stations.Preferences.{
  load_settings, save_settings, write_preference, load_throttles, save_throttles,
}
use go_dcc_ex_driver.Stations.Preferences.Roundtrip.{BucketLaws, load-save}

abbrev Change : Type 0
Change = Bytes × Bytes × Option Bytes

latest : List Change → Bytes → Bytes → Option Bytes
latest [] bucket key = none
latest ((b, k, v) ∷ rest) bucket key =
    if eq_bytes b bucket && eq_bytes k key then v else latest rest bucket key

-- Every transaction whose function succeeds is made.
abbrev committed : List Change → Result (List Change) → List Change × Option Error
committed old (Base.err e) = (old, some e)
committed old (ok new) = (new, none)

abbrev memory : Bolt
memory = record {
  Db = List Change;
  has_bucket = λ db bucket. true;
  create = λ db bucket. ok db;
  get = latest;
  put = λ db bucket key value. ok ((bucket, key, some value) ∷ db);
  remove = λ db bucket key. ok ((bucket, key, none) ∷ db);
  entries = λ db bucket. [];
  update = λ change db. committed db (change db);
}

made_whole :
    (change : List Change → Result (List Change)) (db : List Change) (r : Result (List Change))
    → change db ≡ r
    → Outcome change db (committed db r)
made_whole change db (Base.err e) h = inl (e, refl)
made_whole change db (ok new) h = inr (refl, h)

memory-BoltLaws : BoltLaws memory
unfolding latest
memory-BoltLaws = record {
  atomic = λ change db. made_whole change db (change db) refl;
  get-put = λ db new bucket key value b k h. ap (λ d. latest d b k) (sym (ok-injective _ new h));
  get-remove = λ db new bucket key b k h. ap (λ d. latest d b k) (sym (ok-injective _ new h));
}

memory-BucketLaws : BucketLaws memory
memory-BucketLaws = record {
  has-create = λ db new bucket h. refl;
  has-put = λ db new bucket key value b h. refl;
  get-create = λ db new bucket b k h. ap (λ d. latest d b k) (sym (ok-injective _ new h));
}

-- Libraries that know ASCII letters, no address, and no capitals.
abbrev plain : Platform
plain = record {
  parse_addr = λ text. none;
  is_letter = λ c. leb 97 c && leb c 122;
  is_digit = λ c. leb 48 c && leb c 57;
  to_lower = λ s. s;
}

abbrev club : Profile
club = record {
  name = codes "club";
  mode = tcp_text;
  host = codes "club.local";
  port = pos 2560;
  device = [];
  baud = pos 0;
}

club-normalize : normalize plain club ≡ ok club
unfolding normalize codes trim_space Base.valid_utf8 runes_from is_control eq_bytes Base.has_prefix
club-normalize = refl

normalize-IsNormal_example : (club.name ≡ trim_space club.name) × IsNormal plain club
normalize-IsNormal_example = normalize-IsNormal plain club club club-normalize

-- Codecs that know one value.
only {ℓ} : {A : Type ℓ} {a b : A} → Dec (a ≡ b) → Result Bytes
only (yes same) = ok (1 ∷ [])
only (no different) = Base.err (message [])

only_one {ℓ} : {A : Type ℓ} {a b : A} (d : Dec (a ≡ b)) (text : Bytes) → only d ≡ ok text → a ≡ b
unfolding only
only_one (yes same) text h = same
only_one (no different) text h = ground arith

Profile-discrete : Discrete Profile
Profile-discrete = hlevel ℕ_discrete

club-is_utf8 : (replace : Bool) → is_utf8 plain (saves club replace) ≡ true
unfolding is_utf8 codes Base.valid_utf8
club-is_utf8 replace = rw club-normalize refl

abbrev club_json : Codec
club_json = record { marshal = λ p. only (Profile-discrete p club); unmarshal = λ text. ok club }

club_json-Laws : CodecLaws plain club_json
club_json-Laws = record {
  unmarshal-marshal =
      λ p value normal utf8 h. ap ok (sym (only_one (Profile-discrete p club) value h));
}

perform-Refined_example :
    Refined memory plain club_json
      (saves club false)
      []
      (perform memory plain club_json (saves club false) [])
perform-Refined_example =
    perform-Refined memory plain club_json memory-BoltLaws club_json-Laws (saves club false) []
      (club-is_utf8 false)

evening_end : is_utf8 plain (deletes (codes " club")) ≡ true
unfolding is_utf8
evening_end = refl

abbrev evening : List StoreCall
evening = saves club false ∷ saves club false ∷ deletes (codes " club") ∷ []

find-perform_all_example :
    find memory plain club_json (perform_all memory plain club_json evening []).0
    ≡ effects plain evening
        (perform_all memory plain club_json evening []).1
        (find memory plain club_json [])
find-perform_all_example =
    find-perform_all memory plain club_json memory-BoltLaws club_json-Laws evening []
      (club-is_utf8 false, (club-is_utf8 false, (evening_end, tt)))

Layout-discrete : Discrete ThrottleSettings
Layout-discrete = hlevel ℕ_discrete

abbrev layout_json : Json ThrottleSettings
layout_json = record {
  first = λ text. ok (default_throttles, []);
  at_end = λ rest. true;
  write = λ s. only (Layout-discrete s default_throttles);
}

layout_json-Laws : JsonLaws layout_json
layout_json-Laws = record {
  first-write = λ s text valid h. (
    [],
    ap (λ r. ok (r, [])) (sym (only_one (Layout-discrete s default_throttles) text h)),
    refl,
  );
}

written : encode_throttles layout_json default_throttles ≡ ok (1 ∷ [])
unfolding encode_throttles validate_settings Layout-discrete only default_throttles
    validate_display_name Base.valid_utf8 runes_from Base.is_in ℕ_discrete
written = refl

-- A number of 64 bits is read.
number_of : ℕ → Result ℤ
number_of n = if ltb n (2 ^ 63) then ok (pos n) else Base.err (message [])

number_of-small : (n : ℕ) → n < 2 ^ 63 → number_of n ≡ ok (pos n)
unfolding number_of
number_of-small n h = ground arith

-- A number is written as one byte, behind a bracket.
only_byte : Bytes → Result ℤ
only_byte [] = Base.err (message [])
only_byte (c ∷ rest) = number_of c

behind : Bytes → List Bytes
behind [] = []
behind (c ∷ text) = map (λ d. d ∷ []) text

abbrev modes_json : SettingsJson
modes_json = record {
  first = λ text. ok (b'[' ∷ text, []);
  at_end = λ rest. true;
  elements = λ raw. ok (behind raw);
  int_of = only_byte;
  text_of = λ raw. Base.err (message []);
  atoi = λ text. Base.err (message []);
  write = λ ns. ok ns;
}

modes_json-Laws : SettingsLaws modes_json
unfolding only_byte behind codes eq_bytes
modes_json-Laws = record {
  digits = λ n. n ∷ [];
  int_of-digits = λ n small. rw (number_of-small n small) refl;
  first-write = λ ns text small h. (
    b'[' ∷ text,
    [],
    refl,
    refl,
    refl,
    ap (λ t. ok (map (λ d. d ∷ []) t)) (sym (ok-injective ns text h)),
  );
}

abbrev layout_saved : List Change
layout_saved = (save_throttles memory layout_json default_throttles []).0

abbrev both_saved : List Change
both_saved = (save_settings memory modes_json default_settings layout_saved).0

modes_written : encode modes_json default_settings ≡ ok (3 ∷ [])
unfolding encode default_settings
modes_written = refl

saved_layout : (save_throttles memory layout_json default_throttles []).1 ≡ none
unfolding save_throttles write_preference
saved_layout = rw written refl

saved_modes : (save_settings memory modes_json default_settings layout_saved).1 ≡ none
unfolding save_settings write_preference
saved_modes = rw modes_written refl

default_size : length default_settings.toggle ≡ 29
unfolding default_settings
default_size = refl

load-save_example :
    (load_throttles memory layout_json both_saved ≡ (default_throttles, none))
    × (load_settings memory modes_json both_saved ≡ (default_settings, none))
load-save_example =
    load-save memory memory-BoltLaws memory-BucketLaws layout_json modes_json layout_json-Laws
      modes_json-Laws default_throttles default_settings [] default_size saved_layout saved_modes
      (λ text h. omega (arith, ap length (ok-injective _ text (sym written ∙ h))))
      (λ text h. omega (arith, ap length (ok-injective _ text (sym modes_written ∙ h))))
