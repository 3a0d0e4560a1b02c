-- ===== src/Config/Logger.antt =====
-- config/src/configs/logger.rs: the path of the log file.
use seda_rust.Base.{Option, some, String}
use seda_rust.Config.System.{
  System, Result, ok, and_then, ok_or, failed_to_get_current_dir, merge_config_cli, env_overwrite,
}

pub record PartialLoggerConfig : Type 0 where
  pub log_file_path : Option String

pub record LoggerConfig : Type 0 where
  pub log_file_path : String

-- The text of the error is left out.
unfoldable pub to_config : System → PartialLoggerConfig → PartialLoggerConfig → Result LoggerConfig
unfolding merge_config_cli
to_config sys self cli_options =
    and_then
      (merge_config_cli self.log_file_path cli_options.log_file_path
        (ok_or sys.current_dir (failed_to_get_current_dir "")) ok)
      λ log_file_path. ok (record { log_file_path = log_file_path })

unfoldable pub template : System → PartialLoggerConfig
template sys = record { log_file_path = sys.current_dir }

unfoldable pub overwrite_from_env : System → PartialLoggerConfig → PartialLoggerConfig
unfolding env_overwrite
overwrite_from_env sys self = record {
  log_file_path = env_overwrite sys self.log_file_path "SEDA_LOG_FILE_PATH" some;
}
