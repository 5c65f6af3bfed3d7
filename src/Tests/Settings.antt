-- ===== src/Tests/Settings.antt =====
-- Config files.
use swarmbus.Base.{◌⊎◌, text_eq, ◌≡◌, refl, ◌%◌, codes, [], ◌∷◌, some, none, true, false, All}
use swarmbus.Base.Int.{pos}
use swarmbus.Base.Result.{ok, err, config_error}
use swarmbus.Registry.Cache.{has_entry, set_entry}
use swarmbus.Config.{
  Reader, File, Loaded, load_config, load_sections, load_items, find_key, convert, string_kind,
  port_kind, text_value, int_value, unknown_key,
}
use swarmbus.Config.Checked.{IsChecked, load_config-IsChecked}

-- Every int literal reads as 1883.
abbrev reader : Reader
reader = record {
  int_of = λ t. some (pos 1883);
  float_of = λ t. some (record { is_finite = true; is_negative = false; literal = t });
  expanduser = λ t. t;
  lower = λ t. t;
}

-- A regular file with the mode 600.
abbrev a_file : File
a_file = record {
  sections = some (
      (
        codes "broker",
        (codes "port", codes "1883")
            ∷ (codes "password", codes "pw")
            ∷ (codes "colour", codes "red")
            ∷ [],
      )
      ∷ []);
  mode = 33152;
}

abbrev a_loaded : Loaded
a_loaded = record {
  params =
      (codes "port", (port_kind, int_value (pos 1883)))
      ∷ (codes "password", (string_kind, text_value (codes "pw")))
      ∷ [];
  outbox_path = none;
  warnings = unknown_key (codes "broker") (codes "colour") ∷ [];
}

load_config_test : load_config reader true (some a_file) ≡ ok a_loaded
unfolding load_config load_sections load_items find_key convert set_entry text_eq
load_config_test = refl

-- The mode 644 gives the group a password.
load_config_refusal_test :
    load_config reader true (some (record a_file { mode = 33188 })) ≡ err config_error
unfolding load_config load_sections load_items find_key convert set_entry text_eq
load_config_refusal_test = refl

load_config-IsChecked_example :
    All IsChecked a_loaded.params
    × ((has_entry (codes "password") a_loaded.params ≡ false) ⊎ (33152 % 64 ≡ 0))
load_config-IsChecked_example = load_config-IsChecked reader true a_file load_config_test
