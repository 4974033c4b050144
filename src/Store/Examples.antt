-- ===== src/Store/Examples.antt =====
-- The properties of the stored configuration and state, at files and times.
use nf_sdk.Base.{
  some, codes, false, ◌≤◌, text_eq, text_eq_refl, trim_space, ◌≡◌, pos, negsuc, refl, true, [], ◌∷◌,
  arith,
}
use nf_sdk.Store.Config.{WatchdogConfig, default_watchdog, Config, initial_config}
use nf_sdk.Store.Config.{Auth, no_auth}
use nf_sdk.Base.{none}
use nf_sdk.Prober.Wire.{answered}
use nf_sdk.Store.Files.{Calls, Disk, write_json_atomic}
use nf_sdk.Store.Atomic.{IsWritten, write_json_atomic-IsWritten}
use nf_sdk.Store.Login.{
  Crypto, written, ensure_auth, ensure_key, first_hash, first_key, with_hash, verify, set_password,
  replace, default_password, default_username, byte_len, rune_len,
}
use nf_sdk.Store.Credentials.{IsSound, set_password-verify}

abbrev eager : WatchdogConfig
eager = record default_watchdog {
  min_dwell_minutes = negsuc 4;
  interval_seconds = pos 1;
  probe_target = [];
}

abbrev edited : Config
edited = record initial_config { watchdog = eager }

-- A hash that can be read back.
abbrev plain : Crypto
plain = record {
  generate = λ p. some (1 ∷ p);
  compare_hash = λ h p. text_eq h (1 ∷ p);
  random_key = some (codes "key");
}

plain-IsSound : IsSound plain
plain-IsSound = record {
  matches = λ p h e. ground (arith, text_eq_refl (1 ∷ p));
  filled = λ p h e. ground arith;
  keyed = λ k e. ground arith;
}

abbrev chosen : Auth
chosen = record {
  username = trim_space (codes " eve ");
  hash = 1 ∷ codes "password1";
  must_change = false;
  session_key = codes "key";
  changed_at = 9;
}

set_chosen : set_password plain (codes " eve ") (codes "password1") 9 no_auth ≡ written chosen
unfolding set_password replace text_eq trim_space byte_len rune_len
set_chosen = refl

set_password-verify_example :
    (verify plain (trim_space (codes " eve ")) (codes "password1") chosen ≡ true)
    × (chosen.must_change ≡ false)
    × (8 ≤ byte_len (codes "password1"))
    × (text_eq (codes "password1") default_password ≡ false)
set_password-verify_example =
    set_password-verify plain plain-IsSound (codes " eve ") (codes "password1") 9 no_auth chosen
      set_chosen

-- Four letters of two bytes each are enough.
cyrillic_accepted : byte_len (0x43f ∷ 0x430 ∷ 0x440 ∷ 0x43e ∷ []) ≡ 8
unfolding byte_len rune_len
cyrillic_accepted = refl

abbrev first_run : Auth
first_run = record no_auth {
  username = default_username;
  hash = 1 ∷ default_password;
  must_change = true;
  session_key = codes "key";
}

first_run-written : ensure_auth plain no_auth ≡ written first_run
unfolding ensure_auth ensure_key first_hash first_key with_hash
first_run-written = refl

-- A write that is cut short after two bytes and then fails.
abbrev short_write : Calls
short_write = record {
  encode = answered (7 ∷ 8 ∷ 9 ∷ []);
  create = none;
  so_far = 2 ∷ [];
  left = 2;
  write = some (codes "no space left on device");
  rename = none;
}

abbrev one_file : Disk
one_file = (codes "config.json", 1 ∷ []) ∷ []

write_json_atomic-IsWritten_example :
    IsWritten
      (codes "config.json")
      one_file
      (7 ∷ 8 ∷ 9 ∷ [])
      (write_json_atomic short_write (codes "config.json") one_file)
write_json_atomic-IsWritten_example =
    write_json_atomic-IsWritten short_write (codes "config.json") one_file (7 ∷ 8 ∷ 9 ∷ []) refl
