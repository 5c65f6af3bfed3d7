-- ===== src/Config.antt =====
-- `_convert` and `load_config` of src/swarmbus/config.py. What configparser reads in the file is an input, and int, float,
-- os.path.expanduser and str.lower are parameters.
pub mod Checked
use swarmbus.Base.{
  ℕ, ◌+◌, ◌%◌, ◌≤◌, ◌≡◌, refl, sym, subst, ap, ◌∙◌, Bool, true, false, not, ◌&&◌, ◌||◌, List, [],
  ◌∷◌, ◌++◌, Text, codes, text_eq, Option, none, some, All, any, if◌then◌else◌, arith, ltb, leb,
  ◌==◌, Bool-cases, inl, inr,
}
use swarmbus.Base.Int.{ℤ, pos, negsuc, ltb_ℤ, leb_ℤ}
use swarmbus.Base.Result.{
  Result, ok, err, config_error, value_error, key_error, ◌>>=◌, ◌>>◌, raise_if, raise_if-eq-ok,
  bind_cases, ok-injective,
}
use swarmbus.Registry.Cache.{lookup, set_entry, has_entry}
use swarmbus.Registry.Reachable.{All-set_entry}

-- What `float` gives: whether it is finite and negative, and its literal.
pub record Number : Type 0 where
  pub is_finite : Bool
  pub is_negative : Bool
  pub literal : Text

pub record Reader : Type 0 where
  pub int_of : Text → Option ℤ
  pub float_of : Text → Option Number
  pub expanduser : Text → Text
  pub lower : Text → Text

pub data Kind : Type 0 where
  string_kind path_kind integer_kind port_kind number_kind boolean_kind : Kind

pub data Value : Type 0 where
  text_value : Text → Value
  int_value : ℤ → Value
  number_value : Number → Value
  bool_value : Bool → Value

-- A row of `_KEYS`: section and key, the parameter, and the kind.
pub record Key : Type 0 where
  pub section : Text
  pub key : Text
  pub param : Text
  pub kind : Kind

abbrev key_of : Text → Text → Text → Kind → Key
key_of s k p kind = record { section = s; key = k; param = p; kind = kind }

abbrev pub known_keys : List Key
known_keys =
    key_of (codes "broker") (codes "host") (codes "broker") string_kind
    ∷ key_of (codes "broker") (codes "port") (codes "port") port_kind
    ∷ key_of (codes "broker") (codes "username") (codes "username") string_kind
    ∷ key_of (codes "broker") (codes "password") (codes "password") string_kind
    ∷ key_of (codes "broker") (codes "ca_cert") (codes "ca_cert") path_kind
    ∷ key_of (codes "broker") (codes "client_cert") (codes "client_cert") path_kind
    ∷ key_of (codes "broker") (codes "client_key") (codes "client_key") path_kind
    ∷ key_of (codes "broker") (codes "tls") (codes "tls") boolean_kind
    ∷ key_of (codes "agent") (codes "id") (codes "agent_id") string_kind
    ∷ key_of (codes "agent") (codes "state_dir") (codes "state_dir") path_kind
    ∷ key_of (codes "agent") (codes "inbox") (codes "inbox") path_kind
    ∷ key_of (codes "agent") (codes "invoke") (codes "invoke_cmd") string_kind
    ∷ key_of (codes "agent") (codes "invoke_timeout") (codes "invoke_timeout") number_kind
    ∷ key_of (codes "agent") (codes "on_trip") (codes "on_trip") string_kind
    ∷ key_of (codes "limits") (codes "hop_limit") (codes "hop_limit") integer_kind
    ∷ key_of (codes "limits") (codes "rate_limit") (codes "rate_limit") integer_kind
    ∷ key_of (codes "limits") (codes "rate_cooldown") (codes "rate_cooldown") number_kind
    ∷ key_of (codes "outbox") (codes "path") [] path_kind
    ∷ key_of (codes "outbox") (codes "max_bytes") (codes "outbox_max_bytes") integer_kind
    ∷ key_of (codes "outbox") (codes "keep") (codes "outbox_keep") integer_kind
    ∷ []

-- `ConfigParser.BOOLEAN_STATES`
abbrev boolean_states : List (Text × Bool)
boolean_states =
    (codes "1", true)
    ∷ (codes "yes", true)
    ∷ (codes "true", true)
    ∷ (codes "on", true)
    ∷ (codes "0", false)
    ∷ (codes "no", false)
    ∷ (codes "false", false)
    ∷ (codes "off", false)
    ∷ []

abbrev checked_int : (ℤ → Bool) → Option ℤ → Result Value
checked_int bad none = err value_error
checked_int bad (some z) = if bad z then err value_error else ok (int_value z)

abbrev checked_number : Option Number → Result Value
checked_number none = err value_error
checked_number (some n) =
    if not n.is_finite || n.is_negative then err value_error else ok (number_value n)

abbrev checked_bool : Option Bool → Result Value
checked_bool none = err key_error
checked_bool (some b) = ok (bool_value b)

-- Not from 1 to 65535.
abbrev pub is_bad_port : ℤ → Bool
is_bad_port z = ltb_ℤ z (pos 1) || ltb_ℤ (pos 65535) z

-- `_convert`
unfoldable pub convert : Reader → Kind → Text → Result Value
convert x string_kind v = ok (text_value v)
convert x path_kind v = ok (text_value (x.expanduser v))
convert x integer_kind v = checked_int (λ z. ltb_ℤ z (pos 0)) (x.int_of v)
convert x port_kind v = checked_int is_bad_port (x.int_of v)
convert x number_kind v = checked_number (x.float_of v)
convert x boolean_kind v = checked_bool (lookup (x.lower v) boolean_states)

-- What a warning names.
pub data Warning : Type 0 where
  unknown_section : Text → Warning
  unknown_key : Text → Text → Warning

-- A parameter's value stands with the kind that it was converted as. No path stands for the file.
pub record Loaded : Type 0 where
  pub params : List (Text × (Kind × Value))
  pub outbox_path : Option Value
  pub warnings : List Warning

abbrev pub nothing_loaded : Loaded
nothing_loaded = record { params = []; outbox_path = none; warnings = [] }

unfoldable pub find_key : Text → Text → List Key → Option Key
find_key s k [] = none
find_key s k (r ∷ rs) = if text_eq r.section s && text_eq r.key k then some r else find_key s k rs

abbrev as_config_error : Result Value → Result Value
as_config_error (err e) = err config_error
as_config_error (ok v) = ok v

-- `if (section, key) == ("outbox", "path")`, the one key with no parameter.
abbrev keep_value : Loaded → Key → Value → Loaded
keep_value l r v =
    if text_eq r.section (codes "outbox") && text_eq r.key (codes "path")
    then record l { outbox_path = some v }
    else record l { params = set_entry r.param (r.kind, v) l.params }

abbrev pub load_value : Reader → Text → Text → Text → Loaded → Option Key → Result Loaded
load_value x s k v l none = ok (record l { warnings = l.warnings ++ unknown_key s k ∷ [] })
load_value x s k v l (some r) =
    if text_eq v []
    then ok l
    else (do converted ← as_config_error (convert x r.kind v); ok (keep_value l r converted))

unfoldable pub load_items : Reader → Text → List (Text × Text) → Loaded → Result Loaded
load_items x s [] l = ok l
load_items x s ((k, v) ∷ rest) l = do
  after ← load_value x s k v l (find_key s k known_keys)
  load_items x s rest after

unfoldable pub load_sections : Reader → List (Text × List (Text × Text)) → Loaded → Result Loaded
load_sections x [] l = ok l
load_sections x ((s, items) ∷ rest) l =
    if not (any (λ (r : Key). text_eq r.section s) known_keys)
    then load_sections x rest (record l { warnings = l.warnings ++ unknown_section s ∷ [] })
    else (do after ← load_items x s items l; load_sections x rest after)

-- The file: what configparser reads in it, none if it cannot be read, and its mode.
pub record File : Type 0 where
  pub sections : Option (List (Text × List (Text × Text)))
  pub mode : ℕ

abbrev pub read_sections :
    Option (List (Text × List (Text × Text))) → Result (List (Text × List (Text × Text)))
read_sections none = err config_error
read_sections (some ss) = ok ss

-- `explicit` if the caller names the file; none if it does not exist. `mode & 0o077` is what is left of 64.
unfoldable pub load_config : Reader → Bool → Option File → Result Loaded
load_config x explicit none = if explicit then err config_error else ok nothing_loaded
load_config x explicit (some f) = do
  ss ← read_sections f.sections
  l ← load_sections x ss nothing_loaded
  raise_if (has_entry (codes "password") l.params && not (f.mode % 64 == 0)) config_error
  ok l
