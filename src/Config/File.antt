-- ===== src/Config/File.antt =====
-- src/config/file_config.rs and `load_configuration_from_file` of src/modes/file.rs. The parsers of the
-- crates serde_json and serde_yaml are the record `FileParsers`; the file system is what a path holds.
use ferrumgw.Common.{
  ℕ, String, Bool, true, false, ◌||◌, List, [], ◌∷◌, ◌++◌, Option, none, some, Result, ok, err,
  ◌>>=◌, ltb, ◌==◌, string_eq, if◌then◌else◌,
}
use ferrumgw.Config.{Proxy, Consumer, PluginConfig, Configuration}

pub record FileParsers (Error : Type 0) : Type 0 where
  pub parse_json_config : String → Result Error Configuration
  pub parse_yaml_config : String → Result Error Configuration

-- An entry of a directory, with its extension in lower case.
pub record DirEntry (Error : Type 0) : Type 0 where
  pub is_file : Bool
  pub extension : Option String
  pub content : Result Error String

-- What stands at a path: a directory, whose entries are read one after the other, or a file.
pub data PathContent (Error : Type 0) : Type 0 where
  directory : Result Error (List (Result Error (DirEntry Error))) → PathContent Error
  file : Option String → Result Error String → PathContent Error

-- The lists so far, and the latest timestamp; `none` is `MIN_UTC`.
pub record Merged : Type 0 where
  pub proxies : List Proxy
  pub consumers : List Consumer
  pub plugin_configs : List PluginConfig
  pub latest_timestamp : Option ℕ

abbrev pub nothing_merged : Merged
nothing_merged = record {
  proxies = [];
  consumers = [];
  plugin_configs = [];
  latest_timestamp = none;
}

abbrev pub later_of : Option ℕ → ℕ → ℕ
later_of none time = time
later_of (some latest) time = if ltb latest time then time else latest

abbrev pub merge : Merged → Configuration → Merged
merge m config = record {
  proxies = m.proxies ++ config.proxies;
  consumers = m.consumers ++ config.consumers;
  plugin_configs = m.plugin_configs ++ config.plugin_configs;
  latest_timestamp = some (later_of m.latest_timestamp config.last_updated_at);
}

module _ {Error : Type 0} (P : FileParsers Error) where
  abbrev parse_by : String → String → Result Error Configuration
  parse_by extension content =
      if extension == "json" then P.parse_json_config content else P.parse_yaml_config content

  abbrev is_config : String → Bool
  is_config extension = extension == "json" || extension == "yaml" || extension == "yml"

  -- The configuration of an entry; `none` where the loop passes it over.
  abbrev pub entry_config :
      Bool → Option String → Result Error String → Result Error (Option Configuration)
  entry_config false extension content = ok none
  entry_config true none content = ok none
  entry_config true (some extension) content =
      if is_config extension
      then content >>= (λ text. parse_by extension text >>= λ config. ok (some config))
      else ok none

  abbrev pub merge_optional : Merged → Option Configuration → Merged
  merge_optional m none = m
  merge_optional m (some config) = merge m config

  unfoldable pub merge_entries : List (Result Error (DirEntry Error)) → Merged → Result Error Merged
  merge_entries [] m = ok m
  merge_entries (err e ∷ entries) m = err e
  merge_entries (ok entry ∷ entries) m =
      entry_config entry.is_file entry.extension entry.content >>= λ config.
      merge_entries entries (merge_optional m config)

  abbrev time_or : ℕ → Option ℕ → ℕ
  time_or now none = now
  time_or now (some time) = time

  abbrev merged_config : ℕ → Merged → Configuration
  merged_config now m = record {
    proxies = m.proxies;
    consumers = m.consumers;
    plugin_configs = m.plugin_configs;
    last_updated_at = time_or now m.latest_timestamp;
  }

  -- `load_from_directory`
  unfoldable pub load_from_directory :
      ℕ → Result Error (List (Result Error (DirEntry Error))) → Result Error Configuration
  load_from_directory now read_dir =
      read_dir >>= λ entries. merge_entries entries nothing_merged >>= λ m. ok (merged_config now m)

  -- Without a known extension both formats are tried.
  abbrev parse_any :
      Error → Result Error Configuration → Result Error Configuration → Result Error Configuration
  parse_any unsupported (ok config) by_yaml = ok config
  parse_any unsupported (err e) (ok config) = ok config
  parse_any unsupported (err e) (err e') = err unsupported

  abbrev parse_content : Error → Option String → String → Result Error Configuration
  parse_content unsupported none content =
      parse_any unsupported (P.parse_json_config content) (P.parse_yaml_config content)
  parse_content unsupported (some extension) content =
      if extension == "json"
      then P.parse_json_config content
      else if extension == "yaml" || extension == "yml"
      then P.parse_yaml_config content
      else parse_any unsupported (P.parse_json_config content) (P.parse_yaml_config content)

  -- `load_configuration_from_file`
  unfoldable pub load_configuration_from_file :
      Error → ℕ → PathContent Error → Result Error Configuration
  load_configuration_from_file unsupported now (directory read_dir) =
      load_from_directory now read_dir
  load_configuration_from_file unsupported now (file extension content) =
      content >>= parse_content unsupported extension
